-- ===== src/Db.antt =====
-- The tables of migrations/*.sql, and what MySQL documents each statement of internal/repository and
-- internal/worker to do to them when it succeeds. The service itself is a parameter (`Sql`), whose
-- laws are stated by these functions. `clock` is the server's time; the `next_*` fields are the
-- AUTO_INCREMENT counters.
pub mod Pages
pub mod Deleted
use pluto_feed.Prelude.{
  ℕ, suc, Bool, true, false, not, ◌&&◌, ◌||◌, Option, none, some, List, [], ◌∷◌, ◌++◌, map, ◌==◌,
  if◌then◌else◌, Bytes, bytes_eq, length, take, select, any, find,
}
use pluto_feed.Prelude.Int.{ℤ, pos, ◌+ℤ◌, ltb_ℤ, eqb_ℤ}
use pluto_feed.Model.{User, Post, Like, Comment, Follow, Outbox, like_count_field}

pub record Db : Type 0 where
  pub users : List User
  pub posts : List Post
  pub likes : List Like
  pub comments : List Comment
  pub follows : List Follow
  pub outbox : List Outbox
  pub processed_events : List ℕ
  pub next_user : ℕ
  pub next_post : ℕ
  pub next_comment : ℕ
  pub next_event : ℕ
  pub clock : ℤ

-- The cursor of internal/repository/post_repo.go: a sort key.
pub record PageCursor : Type 0 where
  pub time : ℤ
  pub id : ℤ

-- `created_at < ? OR (created_at = ? AND id < ?)`.
unfoldable pub older : PageCursor → PageCursor → Bool
older k c = ltb_ℤ k.time c.time || (eqb_ℤ k.time c.time && ltb_ℤ k.id c.id)

unfoldable pub before_cursor : Option PageCursor → PageCursor → Bool
before_cursor none k = true
before_cursor (some c) k = older k c

module _ {A : Type 0} (key : A → PageCursor) where
  unfoldable pub insert_desc : A → List A → List A
  insert_desc x [] = x ∷ []
  insert_desc x (y ∷ ys) =
      let rest = insert_desc x ys in if older (key y) (key x) then x ∷ y ∷ ys else y ∷ rest

  -- `ORDER BY created_at DESC, id DESC`.
  unfoldable pub order_desc : List A → List A
  order_desc [] = []
  order_desc (x ∷ xs) = insert_desc x (order_desc xs)

  -- `WHERE scope AND key < cursor ORDER BY key DESC LIMIT limit`.
  unfoldable pub page_of : (A → Bool) → Option PageCursor → ℕ → List A → List A
  page_of scope before limit rows =
      take limit (order_desc (select (λ r. scope r && before_cursor before (key r)) rows))

abbrev pub post_key : Post → PageCursor
post_key p = record { time = p.created_at; id = p.id }

abbrev pub comment_key : Comment → PageCursor
comment_key c = record { time = c.created_at; id = c.id }

-- The key of a follow in a list of followees or of followers.
abbrev pub follow_key : Bool → Follow → PageCursor
follow_key true f = record { time = f.created_at; id = f.followee_id }
follow_key false f = record { time = f.created_at; id = f.follower_id }

-- GORM adds `deleted_at IS NULL` to every query of posts.
abbrev pub is_live : Post → Bool
is_live p = elim p.deleted_at [ none ↦ true | some _ ↦ false ]

abbrev pub is_like : ℤ → ℤ → Like → Bool
is_like post_id user_id l = eqb_ℤ l.post_id post_id && eqb_ℤ l.user_id user_id

abbrev pub is_follow : ℤ → ℤ → Follow → Bool
is_follow follower followee f = eqb_ℤ f.follower_id follower && eqb_ℤ f.followee_id followee

-- users
unfoldable pub find_user : ℤ → Db → Option User
find_user id db = find (λ u. eqb_ℤ u.id id) db.users

-- `same` is equality in the collation of the column, which ignores case and accents.
unfoldable pub find_nickname : (Bytes → Bytes → Bool) → Bytes → Db → Option User
find_nickname same nickname db = find (λ u. same u.nickname nickname) db.users

unfoldable pub find_users : List ℤ → Db → List User
find_users ids db = select (λ u. any (eqb_ℤ u.id) ids) db.users

unfoldable pub insert_user : User → Db → User × Db
insert_user u db =
    let u' = record u { id = pos db.next_user; created_at = db.clock } in
    (u', record db { users = u' ∷ db.users; next_user = suc db.next_user })

-- posts
unfoldable pub find_post : ℤ → Db → Option Post
find_post id db = find (λ p. eqb_ℤ p.id id && is_live p) db.posts

unfoldable pub insert_post : Post → Db → Post × Db
insert_post p db =
    let p' = record p { id = pos db.next_post; created_at = db.clock } in
    (p', record db { posts = p' ∷ db.posts; next_post = suc db.next_post })

abbrev pub soft_deleted : ℤ → ℤ → Post → Post
soft_deleted now id p = if eqb_ℤ p.id id && is_live p then record p { deleted_at = some now } else p

unfoldable pub soft_delete_post : ℤ → Db → Db
soft_delete_post id db = record db { posts = map (soft_deleted db.clock id) db.posts }

-- `UPDATE posts SET f = f + delta WHERE id = ?`, soft-deleted rows included; `none` is the error of
-- a column that is not there.
abbrev pub bump_post : Bytes → ℤ → Post → Post
bump_post field delta p =
    if bytes_eq field like_count_field
    then record p { like_count = p.like_count +ℤ delta }
    else record p { comment_count = p.comment_count +ℤ delta }

unfoldable pub add_post_count : Bytes → ℤ → ℤ → Db → Db
add_post_count field delta id db = record db {
  posts = map (λ p. if eqb_ℤ p.id id then bump_post field delta p else p) db.posts;
}

-- likes: `INSERT IGNORE` and `DELETE` report the number of rows.
unfoldable pub insert_ignore_like : ℤ → ℤ → Db → ℕ × Db
insert_ignore_like post_id user_id db =
    if any (is_like post_id user_id) db.likes then (0, db) else (
      1,
      record db {
        likes = record { post_id = post_id; user_id = user_id; created_at = db.clock } ∷ db.likes;
      },
    )

unfoldable pub delete_like : ℤ → ℤ → Db → ℕ × Db
delete_like post_id user_id db = (
  length (select (is_like post_id user_id) db.likes),
  record db { likes = select (λ l. not (is_like post_id user_id l)) db.likes },
)

-- comments
unfoldable pub find_comment : ℤ → Db → Option Comment
find_comment id db = find (λ c. eqb_ℤ c.id id) db.comments

unfoldable pub insert_comment : Comment → Db → Comment × Db
insert_comment c db =
    let c' = record c { id = pos db.next_comment; created_at = db.clock } in
    (c', record db { comments = c' ∷ db.comments; next_comment = suc db.next_comment })

unfoldable pub delete_comment : ℤ → Db → Db
delete_comment id db = record db { comments = select (λ c. not (eqb_ℤ c.id id)) db.comments }

-- follows, and the counts of users
unfoldable pub insert_ignore_follow : ℤ → ℤ → Db → ℕ × Db
insert_ignore_follow follower followee db =
    if any (is_follow follower followee) db.follows then (0, db) else (
      1,
      record db {
        follows =
            record { follower_id = follower; followee_id = followee; created_at = db.clock }
            ∷ db.follows;
      },
    )

unfoldable pub delete_follow : ℤ → ℤ → Db → ℕ × Db
delete_follow follower followee db = (
  length (select (is_follow follower followee) db.follows),
  record db { follows = select (λ f. not (is_follow follower followee f)) db.follows },
)

unfoldable pub add_following_count : ℤ → ℤ → Db → Db
add_following_count delta id db = record db {
  users =
      map
        (λ u.
          if eqb_ℤ u.id id then record u { following_count = u.following_count +ℤ delta } else u)
        db.users;
}

unfoldable pub add_follower_count : ℤ → ℤ → Db → Db
add_follower_count delta id db = record db {
  users =
      map
        (λ u. if eqb_ℤ u.id id then record u { follower_count = u.follower_count +ℤ delta } else u)
        db.users;
}

-- outbox: rows stand in the order of their ids.
unfoldable pub insert_event : Outbox → Db → Db
insert_event e db = record db {
  outbox = db.outbox ++ record e { id = db.next_event; created_at = db.clock } ∷ [];
  next_event = suc db.next_event;
}

abbrev pub is_pending : Outbox → Bool
is_pending e = elim e.processed_at [ none ↦ true | some _ ↦ false ]

unfoldable pub pending_events : ℕ → Db → List Outbox
pending_events limit db = take limit (select is_pending db.outbox)

abbrev pub marked : ℤ → List ℕ → Outbox → Outbox
marked now ids e = if any (◌==◌ e.id) ids then record e { processed_at = some now } else e

unfoldable pub mark_events : List ℕ → Db → Db
mark_events ids db = record db { outbox = map (marked db.clock ids) db.outbox }

-- processed_events
unfoldable pub insert_ignore_processed : ℕ → Db → ℕ × Db
insert_ignore_processed id db =
    if any (◌==◌ id) db.processed_events
    then (0, db)
    else (1, record db { processed_events = id ∷ db.processed_events })
