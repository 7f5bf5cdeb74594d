-- ===== src/Service/Post/Deleted.antt =====
-- Deleting a post, in internal/service/post_service.go: who may, and that nobody sees it afterwards.
use pluto_feed.Prelude.{
  ◌≡◌, refl, ap, inl, inr, ◌∙◌, Bool-cases, Option, none, some, [], ◌∷◌, if◌then◌else◌,
}
use pluto_feed.Prelude.Int.{ℤ, eqb_ℤ}
use pluto_feed.Apierror.{Error, not_found, forbidden, Result, ok, err}
use pluto_feed.Model
use pluto_feed.Model.{User}
use pluto_feed.Db.{Db, find_post, soft_delete_post}
use pluto_feed.Db.Deleted.{find_post-soft_delete}
use pluto_feed.Sql.{Sql}
use pluto_feed.Repository.Post.{get_by_id, soft_delete}
use pluto_feed.Cache.{Redis, Json, del, get_json, drop_keys}
use pluto_feed.Cache.Keys.{post_key}
use pluto_feed.Cache.Reads.{Answers, value_at-drop}
use pluto_feed.World.{World}
use pluto_feed.Service.Post.{Envelope, may_exist, delete, delete_own, load_post, get_missed, get}
use pluto_feed.Service.Post.Reads.{AnswersReads}

-- The database answers the update too.
abbrev pub AnswersDelete : Sql → Type 0
AnswersDelete sql = (id : ℤ) (db : Db) → sql.soft_delete id db ≡ (ok tt, soft_delete_post id db)

-- The state after a deletion.
abbrev pub deleted : ℤ → World → World
deleted id w = record w { db = soft_delete_post id w.db; kv = drop_keys (post_key id ∷ []) w.kv }

-- What a deletion is to do: nothing and 404 without the post, nothing and 403 for another's.
abbrev pub deletion : ℤ → ℤ → World → Option Model.Post → Result (Unit {0}) × World
deletion uid id w none = (err not_found, w)
deletion uid id w (some p) =
    if eqb_ℤ p.user_id uid then (ok tt, deleted id w) else (err forbidden, w)

module _ {sql : Sql} (answers : AnswersReads sql) (deletes : AnswersDelete sql) {r : Redis}
    (redis : Answers r) where
  -- With a database and a Redis that answer, Delete is 404 without the post, 403 for the post of another, and
  -- both change nothing; for the post of the caller it soft-deletes the row and drops the cached post.
  pub delete-deletion :
      (uid id : ℤ) (w : World)
      → delete sql (some r) uid id w ≡ deletion uid id w (find_post id w.db)
  unfolding delete get_by_id soft_delete del
  delete-deletion uid id w = rw (answers.post_answer id w.db) (go (find_post id w.db))
    where
      go :
          (post : Option Model.Post)
          → delete_own sql (some r) uid id post w ≡ deletion uid id w post
      go none = refl
      go (some p) = elim (Bool-cases (eqb_ℤ p.user_id uid)) [
        | inr other ↦ rw other refl
        | inl own ↦ rw (own, deletes id w.db, redis.del_answer (post_key id ∷ []) w.kv) refl
      ]

  missed :
      (post_json : Json (Envelope Model.Post)) (user_json : Json (Envelope User)) (viewer id : ℤ)
      (w : World)
      → find_post id w.db ≡ none
      → (get_missed sql post_json user_json (some r) viewer id w).0 ≡ err not_found
  unfolding load_post get_by_id
  missed post_json user_json viewer id w gone = elim (Bool-cases (may_exist id w)) [
    | inl passed ↦ rw (passed, answers.post_answer id w.db, gone) refl
    | inr barred ↦ rw barred refl
  ]

  deletion-ok :
      (uid id : ℤ) (w : World) (post : Option Model.Post)
      → (deletion uid id w post).0 ≡ ok tt
      → (deletion uid id w post).1 ≡ deleted id w
  deletion-ok uid id w none e = absurd (cc)
  deletion-ok uid id w (some p) e = elim (Bool-cases (eqb_ℤ p.user_id uid)) [
    | inl own ↦ rw own refl
    | inr other ↦ absurd (never (rw other at e))
  ]
    where
      never : {x : Error} → ◌≡◌ {A = Result (Unit {0})} (err x) (ok tt) → ⊥
      never h = absurd (cc)

  get-after :
      (post_json : Json (Envelope Model.Post)) (user_json : Json (Envelope User)) (viewer id : ℤ)
      (w : World)
      → (get sql post_json user_json (some r) viewer id (deleted id w)).0 ≡ err not_found
  unfolding get get_json
  get-after post_json user_json viewer id w =
      rw
        (
          redis.get_answer (post_key id) (drop_keys (post_key id ∷ []) w.kv),
          value_at-drop (post_key id) w.kv,
        )
        (missed post_json user_json viewer id (deleted id w) (find_post-soft_delete id w.db))

  -- With a database and a Redis that answer: when Delete of a post has succeeded, Get of it answers 404 to
  -- every viewer.
  pub get-deleted :
      (post_json : Json (Envelope Model.Post)) (user_json : Json (Envelope User))
      (viewer uid id : ℤ) (w : World)
      → (delete sql (some r) uid id w).0 ≡ ok tt
      → (get sql post_json user_json (some r) viewer id (delete sql (some r) uid id w).1).0
        ≡ err not_found
  get-deleted post_json user_json viewer uid id w done =
      let after = delete-deletion uid id w in
      let state =
        ap (λ (x : Result (Unit {0}) × World). x.1) after
        ∙ deletion-ok uid id w (find_post id w.db) (rw after at done) in
      rw state (get-after post_json user_json viewer id w)
