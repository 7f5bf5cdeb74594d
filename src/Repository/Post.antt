-- ===== src/Repository/Post.antt =====
-- internal/repository/post_repo.go: posts by id, by pages, by count and by a search.
use pluto_feed.Prelude.{ℕ, Option, List, [], ◌∷◌, Bytes}
use pluto_feed.Prelude.Int.{ℤ}
use pluto_feed.Apierror.{Act, pure}
use pluto_feed.Model.{Post}
use pluto_feed.Db.{Db, PageCursor}
use pluto_feed.Sql.{Sql, everywhere, by_users, by_user}

module _ (sql : Sql) where
  -- The post comes back with the id and the time that the insert fills in.
  unfoldable pub create : Post → Act Db Post
  create p = sql.create_post p

  -- A post that is not there, or soft-deleted, is no error.
  unfoldable pub get_by_id : ℤ → Act Db (Option Post)
  get_by_id id = sql.first_post id

  unfoldable pub soft_delete : ℤ → Act Db (Unit {0})
  soft_delete id = sql.soft_delete id

  unfoldable pub list_by_cursor : Option PageCursor → ℕ → Act Db (List Post)
  list_by_cursor before limit = sql.page_posts everywhere before limit

  unfoldable pub list_by_user_ids : List ℤ → Option PageCursor → ℕ → Act Db (List Post)
  list_by_user_ids [] before limit = pure []
  list_by_user_ids (id ∷ ids) before limit = sql.page_posts (by_users (id ∷ ids)) before limit

  unfoldable pub list_by_user : ℤ → Option PageCursor → ℕ → Act Db (List Post)
  list_by_user user_id before limit = sql.page_posts (by_user user_id) before limit

  unfoldable pub count_by_user : ℤ → Act Db ℕ
  count_by_user user_id = sql.count_posts user_id

  unfoldable pub search_by_keyword : Bytes → ℕ → Act Db (List Post)
  search_by_keyword keyword limit = sql.search_posts keyword limit
