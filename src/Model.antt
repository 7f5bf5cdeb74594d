-- ===== src/Model.antt =====
-- internal/model: the rows of the tables, and the count event that the outbox carries. An int64 and
-- a time (nanoseconds since 1970) are integers; a Go string is a list of bytes.
pub mod StringList
use pluto_feed.Prelude.{ℕ, Option, List, Bytes, codes}
use pluto_feed.Prelude.Int.{ℤ}

pub record User : Type 0 where
  pub id : ℤ
  pub nickname : Bytes
  pub password_hash : Bytes
  pub avatar_url : Bytes
  pub bio : Bytes
  pub following_count : ℤ
  pub follower_count : ℤ
  pub created_at : ℤ

pub record Post : Type 0 where
  pub id : ℤ
  pub user_id : ℤ
  pub image_urls : List Bytes
  pub content : Bytes
  pub tags : List Bytes
  pub like_count : ℤ
  pub comment_count : ℤ
  pub created_at : ℤ
  pub deleted_at : Option ℤ

pub record Like : Type 0 where
  pub post_id : ℤ
  pub user_id : ℤ
  pub created_at : ℤ

pub record Comment : Type 0 where
  pub id : ℤ
  pub post_id : ℤ
  pub user_id : ℤ
  pub content : Bytes
  pub created_at : ℤ

pub record Follow : Type 0 where
  pub follower_id : ℤ
  pub followee_id : ℤ
  pub created_at : ℤ

pub record Outbox : Type 0 where
  pub id : ℕ  -- uint64
  pub event_type : Bytes
  pub payload : Bytes
  pub created_at : ℤ
  pub processed_at : Option ℤ

abbrev pub event_like_created : Bytes
event_like_created = codes "like.created"

abbrev pub event_like_removed : Bytes
event_like_removed = codes "like.removed"

abbrev pub event_comment_create : Bytes
event_comment_create = codes "comment.created"

abbrev pub event_comment_delete : Bytes
event_comment_delete = codes "comment.deleted"

pub record CountEvent : Type 0 where
  pub post_id : ℤ
  pub field : Bytes
  pub delta : ℤ

-- The fields' names as the events and the worker's whitelist spell them.
abbrev pub like_count_field : Bytes
like_count_field = codes "like_count"

abbrev pub comment_count_field : Bytes
comment_count_field = codes "comment_count"
