-- ===== src/Service/Interaction.antt =====
-- internal/service/interaction_service.go: likes and comments with their checks, and what follows a
-- write in the cache.
pub mod Checked
use pluto_feed.Prelude.{
  ℕ, suc, Bool, not, Option, none, some, List, [], ◌∷◌, ltb, if◌then◌else◌, Bytes, rune_count,
  length, map,
}
use pluto_feed.Prelude.Int.{ℤ, pos, eqb_ℤ}
use pluto_feed.Prelude.Decimal.{format_int}
use pluto_feed.Apierror.{Error, new, not_found, forbidden, Act, ◌>>=◌, ◌>>◌, pure, raise}
use pluto_feed.Model.{Post, Comment}
use pluto_feed.Sql.{Sql}
use pluto_feed.Repository.Outbox.{Codec}
use pluto_feed.Repository.Post.{get_by_id}
use pluto_feed.Repository.User.{get_by_id as get_user, get_by_ids}
use pluto_feed.Repository.Interaction.{
  like as like_tx, unlike as unlike_tx, create_comment, get_comment,
  delete_comment as delete_comment_tx, list_comments_by_cursor,
}
use pluto_feed.Cache.{Redis, Kv, del, z_incr_by, hot_bucket}
use pluto_feed.Cache.Keys.{post_key}
use pluto_feed.World.{World, in_db, in_kv, best_effort, lift}
use pluto_feed.Service.Views.{CommentView, Page, new_comment_view, distinct_ids, last}
use pluto_feed.Service.Cursor.{clamp_limit, before_of, encode_cursor}
use pluto_feed.Service.Feed.{shown_of}

abbrev pub max_comment_len : ℕ
max_comment_len = 500

abbrev pub hot_like_weight : ℤ
hot_like_weight = pos 1

abbrev pub hot_comment_weight : ℤ
hot_comment_weight = pos 2

abbrev pub empty_comment : Error
empty_comment = new 400 40020 "评论不能为空"

abbrev pub long_comment : Error
long_comment = new 400 40021 "评论最多 500 字"

abbrev pub next_comment_cursor : Bool → List Comment → Bytes
next_comment_cursor more shown =
    if more then elim (last shown) [ none ↦ [] | some c ↦ encode_cursor c.created_at c.id ] else []

module _ (format : ℤ → Bytes) where
  -- `z_incr_by` on the bucket of the current minute.
  abbrev add_heat : Redis → ℤ → ℤ → Act Kv (Unit {0})
  add_heat r post_id hot_delta kv =
      z_incr_by r (hot_bucket format kv.now) (format_int post_id) hot_delta kv

  unfoldable pub after_interaction : Option Redis → ℤ → ℤ → Act World (Unit {0})
  after_interaction none post_id hot_delta = pure tt
  after_interaction (some r) post_id hot_delta = do
    best_effort (in_kv (del r (post_key post_id ∷ [])))
    if not (eqb_ℤ hot_delta (pos 0))
        then best_effort (in_kv (add_heat r post_id hot_delta))
        else pure tt

module _ (sql : Sql) where
  abbrev pub post_or_404 : Option Post → Act World (Unit {0})
  post_or_404 none = raise not_found
  post_or_404 (some p) = pure tt

  unfoldable pub must_get_post : ℤ → Act World (Unit {0})
  must_get_post post_id = do p ← in_db (get_by_id sql post_id); post_or_404 p

  unfoldable pub comment_page : ℕ → List Comment → Act World (Page CommentView)
  comment_page limit comments =
      let has_more = ltb limit (length comments) in
      let shown = shown_of limit comments in
      (do
        authors ← in_db (get_by_ids sql (distinct_ids [] (map (λ c. c.user_id) shown)))
        pure (record {
          items = map (λ c. new_comment_view c (authors c.user_id)) shown;
          next_cursor = next_comment_cursor has_more shown;
          has_more = has_more;
        }))

  unfoldable pub list_comments : ℤ → Bytes → ℤ → Act World (Page CommentView)
  unfolding must_get_post comment_page
  list_comments post_id cursor limit = do
    must_get_post post_id
    before ← lift (before_of cursor)
    comments ← in_db (list_comments_by_cursor sql post_id before (suc (clamp_limit limit)))
    comment_page (clamp_limit limit) comments

  module _ (json : Codec) (format : ℤ → Bytes) (cache : Option Redis) where
    unfoldable pub like : ℤ → ℤ → Act World (Unit {0})
    unfolding must_get_post after_interaction
    like uid post_id = do
      must_get_post post_id
      in_db (like_tx sql json uid post_id)
      after_interaction format cache post_id hot_like_weight

    unfoldable pub unlike : ℤ → ℤ → Act World (Unit {0})
    unfolding must_get_post after_interaction
    unlike uid post_id = do
      must_get_post post_id
      in_db (unlike_tx sql json uid post_id)
      after_interaction format cache post_id (pos 0)

    -- A comment before it is written: its id and time are Go's zero values.
    abbrev pub draft : ℤ → ℤ → Bytes → Comment
    draft post_id uid content = record {
      id = pos 0;
      post_id = post_id;
      user_id = uid;
      content = content;
      created_at = pos 0;
    }

    -- What follows the transaction.
    unfoldable pub show_comment : ℤ → ℤ → Comment → Act World CommentView
    unfolding after_interaction
    show_comment uid post_id c = do
      author ← in_db (get_user sql uid)
      after_interaction format cache post_id hot_comment_weight
      pure (new_comment_view c author)

    unfoldable pub comment : ℤ → ℤ → Bytes → Act World CommentView
    unfolding must_get_post show_comment
    comment uid post_id content = do
      must_get_post post_id
      if ltb (rune_count content) 1
          then raise empty_comment
          else if ltb max_comment_len (rune_count content)
          then raise long_comment
          else (do
            c ← in_db (create_comment sql json (draft post_id uid content))
            show_comment uid post_id c)

    abbrev pub delete_own : ℤ → ℤ → Option Comment → Act World (Unit {0})
    delete_own uid comment_id none = raise not_found
    delete_own uid comment_id (some c) = if not (eqb_ℤ c.user_id uid) then raise forbidden else (do
      in_db (delete_comment_tx sql json comment_id)
      after_interaction format cache c.post_id (pos 0))

    unfoldable pub delete_comment : ℤ → ℤ → Act World (Unit {0})
    unfolding after_interaction
    delete_comment uid comment_id = do
      c ← in_db (get_comment sql comment_id)
      delete_own uid comment_id c
