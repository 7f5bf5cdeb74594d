-- ===== src/Sql.antt =====
-- The database service as the repositories call it through GORM: one operation for each statement of
-- the source, and transactions. What MySQL and GORM document of them is `SqlLaws`: a statement fails
-- and leaves the tables as they were, or has its documented effect (`Db`).
use pluto_feed.Prelude.{
  ℕ, ◌≡◌, ◌⊎◌, inl, inr, refl, ap, Bool, true, false, ◌&&◌, Option, none, List, Bytes, any, length,
  select, find, map,
}
use pluto_feed.Prelude.Int.{ℤ, eqb_ℤ}
use pluto_feed.Apierror.{Error, Result, ok, err, Act}
use pluto_feed.Outcome.{Meets, Reads, Writes, Outcome, Anything}
use pluto_feed.Model.{User, Post, Comment, Follow, Outbox, like_count_field, comment_count_field}
use pluto_feed.Db.{
  Db, PageCursor, page_of, post_key, comment_key, follow_key, is_live, is_like, is_follow,
  find_user, find_nickname, find_users, insert_user, find_post, insert_post, soft_delete_post,
  add_post_count, insert_ignore_like, delete_like, find_comment, insert_comment, delete_comment,
  insert_ignore_follow, delete_follow, add_following_count, add_follower_count, insert_event,
  pending_events, mark_events, insert_ignore_processed,
}

-- Which posts a page is taken from.
pub data Scope : Type 0 where
  everywhere : Scope
  by_users : List ℤ → Scope
  by_user : ℤ → Scope

abbrev pub in_scope : Scope → Post → Bool
in_scope everywhere p = is_live p
in_scope (by_users ids) p = is_live p && any (eqb_ℤ p.user_id) ids
in_scope (by_user id) p = is_live p && eqb_ℤ p.user_id id

-- The rows of one direction of the follow relation.
abbrev pub in_direction : Bool → ℤ → Follow → Bool
in_direction true uid f = eqb_ℤ f.follower_id uid
in_direction false uid f = eqb_ℤ f.followee_id uid

pub record Sql : Type 1 where
  pub transaction : (A : Type 0) → Act Db A → Act Db A
  pub create_user : User → Act Db User
  pub first_user : ℤ → Act Db (Option User)
  -- Equality of nicknames in the collation of their column.
  pub same_nickname : Bytes → Bytes → Bool
  pub first_nickname : Bytes → Act Db (Option User)
  pub find_users_in : List ℤ → Act Db (List User)
  pub add_following : ℤ → ℤ → Act Db (Unit {0})
  pub add_follower : ℤ → ℤ → Act Db (Unit {0})
  pub create_post : Post → Act Db Post
  pub first_post : ℤ → Act Db (Option Post)
  pub soft_delete : ℤ → Act Db (Unit {0})
  pub page_posts : Scope → Option PageCursor → ℕ → Act Db (List Post)
  pub count_posts : ℤ → Act Db ℕ
  pub matches : Bytes → Post → Bool
  pub search_posts : Bytes → ℕ → Act Db (List Post)
  pub add_count : Bytes → ℤ → ℤ → Act Db (Unit {0})
  pub insert_like : ℤ → ℤ → Act Db ℕ
  pub remove_like : ℤ → ℤ → Act Db ℕ
  pub count_likes : ℤ → ℤ → Act Db ℕ
  pub liked_among : ℤ → List ℤ → Act Db (List ℤ)
  pub create_comment : Comment → Act Db Comment
  pub first_comment : ℤ → Act Db (Option Comment)
  pub remove_comment : ℤ → Act Db (Unit {0})
  pub page_comments : ℤ → Option PageCursor → ℕ → Act Db (List Comment)
  pub insert_follow : ℤ → ℤ → Act Db ℕ
  pub remove_follow : ℤ → ℤ → Act Db ℕ
  pub first_follow : ℤ → ℤ → Act Db (Option Follow)
  pub page_follows : Bool → ℤ → Option PageCursor → ℕ → Act Db (List Follow)
  pub followee_ids : ℤ → Act Db (List ℤ)
  pub create_event : Outbox → Act Db (Unit {0})
  pub find_pending : ℕ → Act Db (List Outbox)
  pub update_processed : List ℕ → Act Db (Unit {0})
  pub insert_processed : ℕ → Act Db ℕ

abbrev pub IsCountField : Bytes → Type 0
IsCountField f = (f ≡ like_count_field) ⊎ (f ≡ comment_count_field)

-- A transaction is atomic: what an error inside wrote is rolled back, and a commit may fail too.
pub record IsAtomic (transaction : (A : Type 0) → Act Db A → Act Db A) : Type 1 where
  pub rollback :
      (A : Type 0) (body : Act Db A) (db : Db) (e : Error)
      → (body db).0 ≡ err e
      → transaction A body db ≡ (err e, db)
  pub commit :
      (A : Type 0) (body : Act Db A) (db : Db) (a : A)
      → (body db).0 ≡ ok a
      → (transaction A body db ≡ body db) ⊎ ((e : Error) × (transaction A body db ≡ (err e, db)))

-- A transaction keeps what a successful body wrote, or changes nothing.
pub Outcome-transaction :
    {t : (A : Type 0) → Act Db A → Act Db A} (atomic : IsAtomic t) (A : Type 0)
    (P : A → Db → Type 0) (body : Act Db A) (db : Db)
    → Outcome P Anything (body db)
    → Outcome P (λ s. s ≡ db) (t A body db)
Outcome-transaction {t} atomic A P body db h = go (body db) refl h
  where
    go :
        (r : Result A × Db)
        → body db ≡ r
        → Outcome P Anything r
        → Outcome P (λ s. s ≡ db) (t A body db)
    go (err e, s) q p = rw (atomic.rollback A body db e (ap (λ r. r.0) q)) refl
    go (ok a, s) q p = elim (atomic.commit A body db a (ap (λ r. r.0) q)) [
      | inl done ↦ rw (done, q) p
      | inr (e, failed) ↦ rw failed refl
    ]

pub record SqlLaws (s : Sql) : Type 1 where
  pub atomic : IsAtomic s.transaction
  pub create_user_law : (u : User) → Meets (s.create_user u) (insert_user u)
  pub first_user_law : (id : ℤ) → Reads (s.first_user id) (find_user id)
  pub first_nickname_law :
      (n : Bytes) → Reads (s.first_nickname n) (find_nickname s.same_nickname n)
  pub find_users_law : (ids : List ℤ) → Reads (s.find_users_in ids) (find_users ids)
  pub add_following_law : (d id : ℤ) → Writes (s.add_following d id) (add_following_count d id)
  pub add_follower_law : (d id : ℤ) → Writes (s.add_follower d id) (add_follower_count d id)
  pub create_post_law : (p : Post) → Meets (s.create_post p) (insert_post p)
  pub first_post_law : (id : ℤ) → Reads (s.first_post id) (find_post id)
  pub soft_delete_law : (id : ℤ) → Writes (s.soft_delete id) (soft_delete_post id)
  pub page_posts_law :
      (scope : Scope) (before : Option PageCursor) (limit : ℕ)
      → Reads
          (s.page_posts scope before limit)
          (λ db. page_of post_key (in_scope scope) before limit db.posts)
  pub count_posts_law :
      (uid : ℤ)
      → Reads (s.count_posts uid) (λ db. length (select (in_scope (by_user uid)) db.posts))
  pub search_posts_law :
      (word : Bytes) (limit : ℕ)
      → Reads
          (s.search_posts word limit)
          (λ db. page_of post_key (λ p. is_live p && s.matches word p) none limit db.posts)
  pub add_count_law :
      (f : Bytes) (d id : ℤ) → IsCountField f → Writes (s.add_count f d id) (add_post_count f d id)
  pub insert_like_law : (p u : ℤ) → Meets (s.insert_like p u) (insert_ignore_like p u)
  pub remove_like_law : (p u : ℤ) → Meets (s.remove_like p u) (delete_like p u)
  pub count_likes_law :
      (p u : ℤ) → Reads (s.count_likes p u) (λ db. length (select (is_like p u) db.likes))
  pub liked_among_law :
      (uid : ℤ) (ids : List ℤ)
      → Reads (s.liked_among uid ids) (λ db.
        map
          (λ l. l.post_id)
          (select (λ l. eqb_ℤ l.user_id uid && any (eqb_ℤ l.post_id) ids) db.likes))
  pub create_comment_law : (c : Comment) → Meets (s.create_comment c) (insert_comment c)
  pub first_comment_law : (id : ℤ) → Reads (s.first_comment id) (find_comment id)
  pub remove_comment_law : (id : ℤ) → Writes (s.remove_comment id) (delete_comment id)
  pub page_comments_law :
      (pid : ℤ) (before : Option PageCursor) (limit : ℕ)
      → Reads
          (s.page_comments pid before limit)
          (λ db. page_of comment_key (λ c. eqb_ℤ c.post_id pid) before limit db.comments)
  pub insert_follow_law : (a b : ℤ) → Meets (s.insert_follow a b) (insert_ignore_follow a b)
  pub remove_follow_law : (a b : ℤ) → Meets (s.remove_follow a b) (delete_follow a b)
  pub page_follows_law :
      (following : Bool) (uid : ℤ) (before : Option PageCursor) (limit : ℕ)
      → Reads (s.page_follows following uid before limit) (λ db.
        page_of (follow_key following) (in_direction following uid) before limit db.follows)
  pub first_follow_law :
      (a b : ℤ) → Reads (s.first_follow a b) (λ db. find (is_follow a b) db.follows)
  pub followee_ids_law :
      (uid : ℤ)
      → Reads
          (s.followee_ids uid)
          (λ db. map (λ f. f.followee_id) (select (λ f. eqb_ℤ f.follower_id uid) db.follows))
  pub create_event_law : (e : Outbox) → Writes (s.create_event e) (insert_event e)
  pub find_pending_law : (limit : ℕ) → Reads (s.find_pending limit) (pending_events limit)
  pub update_processed_law : (ids : List ℕ) → Writes (s.update_processed ids) (mark_events ids)
  pub insert_processed_law : (id : ℕ) → Meets (s.insert_processed id) (insert_ignore_processed id)
