-- ===== src/Service/Views.antt =====
-- internal/service/post_view.go: what the API shows of a post or a comment, and a page of each.
use pluto_feed.Prelude.{Bool, false, Option, none, some, List, [], ◌∷◌, Bytes, any}
use pluto_feed.Prelude.Int.{ℤ, eqb_ℤ}
use pluto_feed.Model.{User, Post, Comment}

pub record AuthorView : Type 0 where
  pub id : ℤ
  pub nickname : Bytes
  pub avatar_url : Bytes

pub record PostView : Type 0 where
  pub id : ℤ
  pub user_id : ℤ
  pub author : AuthorView
  pub image_urls : List Bytes
  pub content : Bytes
  pub tags : List Bytes
  pub like_count : ℤ
  pub comment_count : ℤ
  pub liked : Bool
  pub created_at : ℤ

-- The UTF-8 bytes of the placeholder's name.
abbrev pub deleted_nickname : Bytes
deleted_nickname =
    0xe5 ∷ 0xb7 ∷ 0xb2 ∷ 0xe6 ∷ 0xb3 ∷ 0xa8 ∷ 0xe9 ∷ 0x94 ∷ 0x80 ∷ 0xe7 ∷ 0x94 ∷ 0xa8 ∷ 0xe6 ∷ 0x88
    ∷ 0xb7 ∷ []

abbrev pub author_of : ℤ → Option User → AuthorView
author_of id none = record { id = id; nickname = deleted_nickname; avatar_url = [] }
author_of id (some u) = record { id = u.id; nickname = u.nickname; avatar_url = u.avatar_url }

unfoldable pub new_post_view : Post → Option User → PostView
new_post_view p u = record {
  id = p.id;
  user_id = p.user_id;
  author = author_of p.user_id u;
  image_urls = p.image_urls;
  content = p.content;
  tags = p.tags;
  like_count = p.like_count;
  comment_count = p.comment_count;
  liked = false;
  created_at = p.created_at;
}

pub record CommentView : Type 0 where
  pub id : ℤ
  pub post_id : ℤ
  pub author : AuthorView
  pub content : Bytes
  pub created_at : ℤ

unfoldable pub new_comment_view : Comment → Option User → CommentView
new_comment_view c u = record {
  id = c.id;
  post_id = c.post_id;
  author = author_of c.user_id u;
  content = c.content;
  created_at = c.created_at;
}

-- `FeedPage`, `CommentPage` and `SocialListPage` are this page of their items; an empty cursor when
-- there is no next page.
pub record Page (A : Type 0) : Type 0 where
  pub items : List A
  pub next_cursor : Bytes
  pub has_more : Bool

abbrev pub empty_page : {A : Type 0} → Page A
empty_page = record { items = []; next_cursor = []; has_more = false }

-- The loop that collects ids, each once.
unfoldable pub distinct_ids : List ℤ → List ℤ → List ℤ
distinct_ids seen [] = []
distinct_ids seen (id ∷ ids) = elim (any (eqb_ℤ id) seen) [
  | Bool.true ↦ distinct_ids seen ids
  | Bool.false ↦ id ∷ distinct_ids (id ∷ seen) ids
]

abbrev pub last : {A : Type 0} → List A → Option A
last [] = none
last (x ∷ []) = some x
last (x ∷ y ∷ ys) = last (y ∷ ys)
