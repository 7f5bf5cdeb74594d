-- ===== src/Repository/Interaction.antt =====
-- internal/repository/interaction_repo.go: likes and comments, each written in one transaction with
-- its count event.
pub mod Cases
use pluto_feed.Prelude.{
  ℕ, Bool, false, not, ◌&&◌, Option, none, some, List, [], ◌∷◌, ◌==◌, ltb, if◌then◌else◌, Bytes,
  bytes_eq, any,
}
use pluto_feed.Prelude.Int.{ℤ, pos, negsuc, eqb_ℤ, ltb_ℤ}
use pluto_feed.Apierror.{Error, other, Act, ◌>>=◌, ◌>>◌, pure, raise}
use pluto_feed.Model.{
  Comment, CountEvent, event_like_created, event_like_removed, event_comment_create,
  event_comment_delete, like_count_field, comment_count_field,
}
use pluto_feed.Db.{Db, PageCursor}
use pluto_feed.Sql.{Sql}
use pluto_feed.Repository.Outbox.{Codec, enqueue_in_tx}

abbrev pub invalid_field : Error
invalid_field = other 1

abbrev pub marshal_failed : Error
marshal_failed = other 2

abbrev pub record_not_found : Error
record_not_found = other 3

module _ (sql : Sql) (json : Codec) where
  unfoldable pub enqueue_count_event : Bytes → CountEvent → Act Db (Unit {0})
  unfolding enqueue_in_tx bytes_eq
  enqueue_count_event event_type e =
      if not (bytes_eq e.field like_count_field) && not (bytes_eq e.field comment_count_field)
      then raise invalid_field
      else elim (json.marshal e) [
        | none ↦ raise marshal_failed
        | some payload ↦ enqueue_in_tx sql (record {
          id = 0;
          event_type = event_type;
          payload = payload;
          created_at = pos 0;
          processed_at = none;
        })
      ]

  unfoldable pub like_body : ℤ → ℤ → Act Db (Unit {0})
  like_body uid post_id = do
    rows_affected ← sql.insert_like post_id uid
    if rows_affected == 0
        then pure tt
        else enqueue_count_event event_like_created
            (record { post_id = post_id; field = like_count_field; delta = pos 1 })

  unfoldable pub like : ℤ → ℤ → Act Db (Unit {0})
  unfolding like_body
  like uid post_id = sql.transaction (Unit {0}) (like_body uid post_id)

  unfoldable pub unlike_body : ℤ → ℤ → Act Db (Unit {0})
  unlike_body uid post_id = do
    rows_affected ← sql.remove_like post_id uid
    if rows_affected == 0
        then pure tt
        else enqueue_count_event event_like_removed
            (record { post_id = post_id; field = like_count_field; delta = negsuc 0 })

  unfoldable pub unlike : ℤ → ℤ → Act Db (Unit {0})
  unfolding unlike_body
  unlike uid post_id = sql.transaction (Unit {0}) (unlike_body uid post_id)

  -- The comment comes back with the id and the time that the insert fills in.
  unfoldable pub create_comment_body : Comment → Act Db Comment
  create_comment_body c = do
    c' ← sql.create_comment c
    enqueue_count_event event_comment_create
        (record { post_id = c'.post_id; field = comment_count_field; delta = pos 1 })
    pure c'

  unfoldable pub create_comment : Comment → Act Db Comment
  unfolding create_comment_body
  create_comment c = sql.transaction Comment (create_comment_body c)

  unfoldable pub delete_found : Option Comment → ℤ → Act Db (Unit {0})
  delete_found none id = raise record_not_found
  delete_found (some c) id = do
    sql.remove_comment id
    enqueue_count_event event_comment_delete
        (record { post_id = c.post_id; field = comment_count_field; delta = negsuc 0 })

  unfoldable pub delete_comment_body : ℤ → Act Db (Unit {0})
  unfolding delete_found
  delete_comment_body id = do c ← sql.first_comment id; delete_found c id

  unfoldable pub delete_comment : ℤ → Act Db (Unit {0})
  unfolding delete_comment_body
  delete_comment id = sql.transaction (Unit {0}) (delete_comment_body id)

-- The reads.
module _ (sql : Sql) where
  unfoldable pub get_comment : ℤ → Act Db (Option Comment)
  get_comment id = sql.first_comment id

  unfoldable pub list_comments_by_cursor : ℤ → Option PageCursor → ℕ → Act Db (List Comment)
  list_comments_by_cursor post_id before limit = sql.page_comments post_id before limit

  unfoldable pub has_liked : ℤ → ℤ → Act Db Bool
  has_liked uid post_id = do n ← sql.count_likes post_id uid; pure (ltb 0 n)

  -- The set of liked ids, as the test that a lookup in Go's map makes.
  unfoldable pub liked_post_ids : ℤ → List ℤ → Act Db (ℤ → Bool)
  liked_post_ids uid [] = pure (λ _. false)
  liked_post_ids uid (id ∷ ids) =
      if not (ltb_ℤ (pos 0) uid)
      then pure (λ _. false)
      else (do liked ← sql.liked_among uid (id ∷ ids); pure (λ p. any (eqb_ℤ p) liked))
