-- ===== src/Repository/Interaction/Cases.antt =====
-- What the transactions of internal/repository/interaction_repo.go can leave behind: all of their
-- rows and the event, or nothing.
use pluto_feed.Prelude.{
  ◌≡◌, ◌≢◌, ◌⊎◌, inl, inr, refl, true, false, none, some, ◌==◌, Bytes, any, Bool-cases,
  Option-cases, arith,
}
use pluto_feed.Prelude.Int.{ℤ, pos, negsuc}
use pluto_feed.Outcome.{Outcome, Anything, Writes, Outcome-then, Outcome-Meets}
use pluto_feed.Model.{
  Comment, Outbox, CountEvent, event_like_created, event_like_removed, event_comment_create,
  event_comment_delete, like_count_field, comment_count_field,
}
use pluto_feed.Db.{
  Db, is_like, insert_ignore_like, delete_like, insert_comment, find_comment, insert_event,
  delete_comment as erase_comment,
}
use pluto_feed.Sql.{Sql, SqlLaws, Outcome-transaction}
use pluto_feed.Repository.Outbox.{Codec, RoundTrips}
use pluto_feed.Repository.Interaction.{
  enqueue_count_event, like_body, like, unlike_body, unlike, create_comment_body, create_comment,
  delete_found, delete_comment_body, delete_comment,
}

-- The outbox row of a count event, before its id is filled in.
abbrev pub event_row : Bytes → Bytes → Outbox
event_row event_type payload = record {
  id = 0;
  event_type = event_type;
  payload = payload;
  created_at = pos 0;
  processed_at = none;
}

abbrev pub like_event : ℤ → ℤ → CountEvent
like_event delta post_id = record { post_id = post_id; field = like_count_field; delta = delta }

abbrev pub comment_event : ℤ → ℤ → CountEvent
comment_event delta post_id = record {
  post_id = post_id;
  field = comment_count_field;
  delta = delta;
}

module _ {sql : Sql} (laws : SqlLaws sql) {json : Codec} (json_ok : RoundTrips json) where
  -- The tables with the event written.
  abbrev pub with_event : Bytes → CountEvent → Db → Db
  with_event event_type e db = insert_event (event_row event_type (json_ok e).0) db

  enqueue_like :
      (t : Bytes) (d p : ℤ)
      → Writes (enqueue_count_event sql json t (like_event d p)) (with_event t (like_event d p))
  unfolding enqueue_count_event
  enqueue_like t d p db = rw ((json_ok (like_event d p)).1) (laws.create_event_law _ db)

  enqueue_comment :
      (t : Bytes) (d p : ℤ)
      → Writes
          (enqueue_count_event sql json t (comment_event d p))
          (with_event t (comment_event d p))
  unfolding enqueue_count_event
  enqueue_comment t d p db = rw ((json_ok (comment_event d p)).1) (laws.create_event_law _ db)

  -- What `Like` leaves: nothing changes if the row is there, and otherwise the row and its event are
  -- written together.
  abbrev pub Liked : ℤ → ℤ → Db → Db → Type 0
  Liked uid post_id db s =
      ((any (is_like post_id uid) db.likes ≡ true) × (s ≡ db))
      ⊎ ((any (is_like post_id uid) db.likes ≡ false)
          × (s
              ≡ with_event event_like_created (like_event (pos 1) post_id)
                  (insert_ignore_like post_id uid db).1))

  Outcome-like_body :
      (uid post_id : ℤ) (db : Db)
      → Outcome (λ _. Liked uid post_id db) Anything (like_body sql json uid post_id db)
  unfolding like_body insert_ignore_like
  Outcome-like_body uid post_id db =
      Outcome-then Anything (laws.insert_like_law post_id uid) (λ _. Liked uid post_id db) _ db
        (elim (Bool-cases (any (is_like post_id uid) db.likes)) [
          | inl there ↦ rw there (inl (there, refl))
          | inr fresh ↦ rw fresh (
              Outcome-Meets Anything (enqueue_like event_like_created (pos 1) post_id)
                (λ _. Liked uid post_id db) _ (inr (fresh, rw fresh)) tt)
        ])
        tt

  -- `Like` leaves the tables as they were if the like is there, and otherwise writes the like and its
  -- event together; an error leaves the tables as they were.
  pub Outcome-like :
      (uid post_id : ℤ) (db : Db)
      → Outcome (λ _. Liked uid post_id db) (λ s. s ≡ db) (like sql json uid post_id db)
  unfolding like
  Outcome-like uid post_id db =
      Outcome-transaction laws.atomic (Unit {0}) (λ _. Liked uid post_id db)
        (like_body sql json uid post_id) db (Outcome-like_body uid post_id db)

  -- What `Unlike` leaves: the rows that were there are gone, and then one event is written.
  abbrev pub Unliked : ℤ → ℤ → Db → Db → Type 0
  Unliked uid post_id db s =
      (((delete_like post_id uid db).0 ≡ 0) × (s ≡ (delete_like post_id uid db).1))
      ⊎ (((delete_like post_id uid db).0 ≢ 0)
          × (s
              ≡ with_event event_like_removed (like_event (negsuc 0) post_id)
                  (delete_like post_id uid db).1))

  Outcome-unlike_body :
      (uid post_id : ℤ) (db : Db)
      → Outcome (λ _. Unliked uid post_id db) Anything (unlike_body sql json uid post_id db)
  unfolding unlike_body
  Outcome-unlike_body uid post_id db =
      Outcome-then Anything (laws.remove_like_law post_id uid) (λ _. Unliked uid post_id db) _ db
        (elim (Bool-cases ((delete_like post_id uid db).0 == 0)) [
          | inl absent ↦ rw absent (inl (ground arith, refl))
          | inr there ↦ rw there (
              Outcome-Meets Anything (enqueue_like event_like_removed (negsuc 0) post_id)
                (λ _. Unliked uid post_id db) _ (inr (ground arith, refl)) tt)
        ])
        tt

  pub Outcome-unlike :
      (uid post_id : ℤ) (db : Db)
      → Outcome (λ _. Unliked uid post_id db) (λ s. s ≡ db) (unlike sql json uid post_id db)
  unfolding unlike
  Outcome-unlike uid post_id db =
      Outcome-transaction laws.atomic (Unit {0}) (λ _. Unliked uid post_id db)
        (unlike_body sql json uid post_id) db (Outcome-unlike_body uid post_id db)

  -- What `CreateComment` leaves: the row as the insert filled it in, with its event.
  abbrev pub Commented : Comment → Db → Comment → Db → Type 0
  Commented c db c' s =
      (c' ≡ (insert_comment c db).0)
      × (s
          ≡ with_event event_comment_create (comment_event (pos 1) c.post_id)
              (insert_comment c db).1)

  Outcome-create_comment_body :
      (c : Comment) (db : Db)
      → Outcome (Commented c db) Anything (create_comment_body sql json c db)
  unfolding create_comment_body insert_comment
  Outcome-create_comment_body c db =
      Outcome-then Anything (laws.create_comment_law c) (Commented c db) _ db
        (Outcome-then Anything (enqueue_comment event_comment_create (pos 1) c.post_id)
          (Commented c db) _ _ (refl, refl) tt)
        tt

  pub Outcome-create_comment :
      (c : Comment) (db : Db)
      → Outcome (Commented c db) (λ s. s ≡ db) (create_comment sql json c db)
  unfolding create_comment
  Outcome-create_comment c db =
      Outcome-transaction laws.atomic Comment (Commented c db) (create_comment_body sql json c) db
        (Outcome-create_comment_body c db)

  -- What `DeleteComment` leaves: the comment is gone, and the event of its post is written.
  abbrev pub Erased : ℤ → Db → Db → Type 0
  Erased id db s =
      (c : Comment) × (find_comment id db ≡ some c)
      × (s
          ≡ with_event event_comment_delete (comment_event (negsuc 0) c.post_id)
              (erase_comment id db))

  Outcome-delete_comment_body :
      (id : ℤ) (db : Db) → Outcome (λ _. Erased id db) Anything (delete_comment_body sql json id db)
  unfolding delete_comment_body delete_found
  Outcome-delete_comment_body id db =
      Outcome-then Anything (laws.first_comment_law id) (λ _. Erased id db) _ db
        (elim (Option-cases (find_comment id db)) [
          | inl absent ↦ rw absent tt
          | inr (c, there) ↦ rw there (
              Outcome-then Anything (laws.remove_comment_law id) (λ _. Erased id db) _ db
                (Outcome-Meets Anything (enqueue_comment event_comment_delete (negsuc 0) c.post_id)
                  (λ _. Erased id db) _ (c, there, refl) tt)
                tt)
        ])
        tt

  -- `DeleteComment` deletes a comment that is there and writes the event of its post, together; an error
  -- leaves the tables as they were.
  pub Outcome-delete_comment :
      (id : ℤ) (db : Db) → Outcome (λ _. Erased id db) (λ s. s ≡ db) (delete_comment sql json id db)
  unfolding delete_comment
  Outcome-delete_comment id db =
      Outcome-transaction laws.atomic (Unit {0}) (λ _. Erased id db)
        (delete_comment_body sql json id) db (Outcome-delete_comment_body id db)
