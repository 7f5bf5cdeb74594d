-- ===== src/Service/Interaction/Checked.antt =====
-- Writing and deleting a comment in internal/service/interaction_service.go: what their checks let through,
-- and what an error leaves behind.
use pluto_feed.Prelude.{
  suc, ◌≤◌, ◌≡◌, ◌≢◌, ap, false, ◌⊎◌, inl, inr, refl, arith, Bool-cases, Option-cases, Option, none,
  some, Bytes, ltb, rune_count, not,
}
use pluto_feed.Prelude.Int.{ℤ, pos, eqb_ℤ, eqb_ℤ_iff, eqb_ℤ_refl}
use pluto_feed.Apierror.{Error, Result, ok, err, then_run, not_found, forbidden}
use pluto_feed.Outcome.{Outcome, Ends, Fails}
use pluto_feed.Model
use pluto_feed.Model.{Comment}
use pluto_feed.Db.{Db, find_post, find_user, find_comment, insert_comment}
use pluto_feed.Sql.{Sql, SqlLaws}
use pluto_feed.Repository.Outbox.{Codec, RoundTrips}
use pluto_feed.Repository.Post.{get_by_id}
use pluto_feed.Repository.User.{get_by_id as get_user}
use pluto_feed.Repository.Interaction.{
  create_comment, get_comment, delete_comment as delete_comment_tx,
}
use pluto_feed.Repository.Interaction.Cases.{
  Commented, Erased, Outcome-create_comment, Outcome-delete_comment,
}
use pluto_feed.Cache.{Redis}
use pluto_feed.World.{World}
use pluto_feed.Service.Views.{CommentView, new_comment_view}
use pluto_feed.Service.Interaction.{
  after_interaction, delete_own, show_comment, must_get_post, max_comment_len, hot_comment_weight,
  empty_comment, long_comment, comment, delete_comment,
}

-- What follows a write never fails, and writes to the cache only.
after_interaction-kv :
    (format : ℤ → Bytes) (cache : Option Redis) (post_id delta : ℤ) (w : World)
    → after_interaction format cache post_id delta w
      ≡ (ok tt, record w { kv = (after_interaction format cache post_id delta w).1.kv })
unfolding after_interaction
after_interaction-kv format none post_id delta w = refl
after_interaction-kv format (some r) post_id delta w =
    elim (Bool-cases (not (eqb_ℤ delta (pos 0)))) [
      | inl heated ↦ rw heated refl
      | inr plain ↦ rw plain refl
    ]

module _ {sql : Sql} (laws : SqlLaws sql) {json : Codec} (json_ok : RoundTrips json)
    (format : ℤ → Bytes) (cache : Option Redis) where
  -- What is to be written: the content, on the post, by the caller.
  abbrev pub said : ℤ → ℤ → Bytes → Comment
  said uid post_id content = record {
    id = pos 0;
    post_id = post_id;
    user_id = uid;
    content = content;
    created_at = pos 0;
  }

  -- Why a comment is not written.
  pub data Unsaid (uid post_id : ℤ) (content : Bytes) (db : Db) : Error → Type 0 where
    no_post : find_post post_id db ≡ none → Unsaid uid post_id content db not_found
    empty : rune_count content ≡ 0 → Unsaid uid post_id content db empty_comment
    long : suc max_comment_len ≤ rune_count content → Unsaid uid post_id content db long_comment
    unread : {e : Error} → Fails (sql.first_post post_id) e db → Unsaid uid post_id content db e
    unwritten :
        {e : Error}
        → Fails (create_comment sql json (said uid post_id content)) e db
        → Unsaid uid post_id content db e

  -- The comment and its event are in the tables.
  abbrev pub Committed : ℤ → ℤ → Bytes → World → Comment → World → Type 0
  Committed uid post_id content w c s =
      (c.post_id ≡ post_id)
      × (c.user_id ≡ uid)
      × (c.content ≡ content)
      × Commented laws json_ok (said uid post_id content) w.db c s.db
      × (s.bloom ≡ w.bloom)

  abbrev pub Said : ℤ → ℤ → Bytes → World → CommentView → World → Type 0
  Said uid post_id content w view s =
      ((p : Model.Post) × (find_post post_id w.db ≡ some p))
      × (1 ≤ rune_count content)
      × (rune_count content ≤ max_comment_len)
      × ((c : Comment) × Committed uid post_id content w c s
          × (view ≡ new_comment_view c (find_user uid s.db)))

  abbrev pub SaidOrNot : ℤ → ℤ → Bytes → World → Result CommentView × World → Type 0
  SaidOrNot uid post_id content w = Ends (Said uid post_id content w) (λ e s.
      (Unsaid uid post_id content w.db e × (s ≡ w))
      ⊎ ((c : Comment) × Committed uid post_id content w c s
          × (s.kv ≡ w.kv)
          × Fails (sql.first_user uid) e s.db))

  shown :
      (uid post_id : ℤ) (content : Bytes) (w : World) (c : Comment) (s : World)
      → ((p : Model.Post) × (find_post post_id w.db ≡ some p))
      → 1 ≤ rune_count content
      → rune_count content ≤ max_comment_len
      → Committed uid post_id content w c s
      → s.kv ≡ w.kv
      → SaidOrNot uid post_id content w (show_comment sql json format cache uid post_id c s)
  unfolding show_comment get_user
  shown uid post_id content w c s there low high kept same = elim (laws.first_user_law uid s.db) [
    | inr (x, failed) ↦ rw failed (inr (c, kept, same, ap (λ r. r.0) failed))
    | inl found ↦
        rw (found, after_interaction-kv format cache post_id hot_comment_weight s)
          (there, low, high, (c, kept, refl))
  ]

  written :
      (uid post_id : ℤ) (content : Bytes) (w : World)
      → ((p : Model.Post) × (find_post post_id w.db ≡ some p))
      → 1 ≤ rune_count content
      → rune_count content ≤ max_comment_len
      → (r : Result Comment × Db) → create_comment sql json (said uid post_id content) w.db ≡ r
      → Outcome (Commented laws json_ok (said uid post_id content) w.db) (λ s. s ≡ w.db) r
      → SaidOrNot uid post_id content w
          (then_run (r.0, record w { db = r.1 }) (show_comment sql json format cache uid post_id))
  written uid post_id content w there low high (ok c, db) q h =
      shown uid post_id content w c (record w { db = db }) there low high
        (
          unfold insert_comment in ap (λ x. x.post_id) h.0,
          unfold insert_comment in ap (λ x. x.user_id) h.0,
          unfold insert_comment in ap (λ x. x.content) h.0,
          h,
          refl,
        )
        refl
  written uid post_id content w there low high (err e, db) q h =
      inl (unwritten (ap (λ r. r.0) q), rw h refl)

  -- A successful Comment is on a post that is there and 1 to 500 characters long; the comment and its event
  -- are in the tables, and the view shows it with its author. An error is 404 without the post, the one for
  -- an empty or a long comment, or that of a call of the database, and leaves everything as it was, unless it
  -- comes after the comment was committed, from the reading of the author; then the cache is as it was.
  pub comment-SaidOrNot :
      (uid post_id : ℤ) (content : Bytes) (w : World)
      → SaidOrNot uid post_id content w (comment sql json format cache uid post_id content w)
  unfolding comment must_get_post get_by_id
  comment-SaidOrNot uid post_id content w = elim (laws.first_post_law post_id w.db) [
    | inr (x, failed) ↦ rw failed (inl (unread (ap (λ r. r.0) failed), refl))
    | inl found ↦ rw found (elim (Option-cases (find_post post_id w.db)) [
      | inl absent ↦ rw absent (inl (no_post absent, refl))
      | inr (p, there) ↦ rw there (elim (Bool-cases (ltb (rune_count content) 1)) [
        | inl none_left ↦ rw none_left (inl (empty (ground arith), refl))
        | inr some_text ↦
            rw some_text (elim (Bool-cases (ltb max_comment_len (rune_count content))) [
              | inl over ↦ rw over (inl (long (ground arith), refl))
              | inr fits ↦ rw fits (
                  written uid post_id content w (p, there) (ground arith) (ground arith)
                    (create_comment sql json (said uid post_id content) w.db) refl
                    (Outcome-create_comment laws json_ok (said uid post_id content) w.db))
            ])
      ])
    ])
  ]

  -- Why a comment is not deleted.
  pub data Undeleted (uid id : ℤ) (db : Db) : Error → Type 0 where
    no_comment : find_comment id db ≡ none → Undeleted uid id db not_found
    of_another :
        {c : Comment}
        → find_comment id db ≡ some c
        → c.user_id ≢ uid
        → Undeleted uid id db forbidden
    unread : {e : Error} → Fails (sql.first_comment id) e db → Undeleted uid id db e
    unwritten : {e : Error} → Fails (delete_comment_tx sql json id) e db → Undeleted uid id db e

  abbrev pub DeletedOrNot : ℤ → ℤ → World → Result (Unit {0}) × World → Type 0
  DeletedOrNot uid id w =
      Ends
        (λ _ s.
          ((c : Comment) × (find_comment id w.db ≡ some c) × (c.user_id ≡ uid))
          × Erased laws json_ok id w.db s.db)
        (λ e s. Undeleted uid id w.db e × (s ≡ w))

  erased :
      (uid id : ℤ) (w : World) (c : Comment)
      → find_comment id w.db ≡ some c
      → c.user_id ≡ uid
      → (r : Result (Unit {0}) × Db) → delete_comment_tx sql json id w.db ≡ r
      → Outcome (λ _. Erased laws json_ok id w.db) (λ s. s ≡ w.db) r
      → DeletedOrNot uid id w (
          then_run
            (r.0, record w { db = r.1 })
            (λ _. after_interaction format cache c.post_id (pos 0)))
  erased uid id w c there own (ok _, db) q h =
      rw (after_interaction-kv format cache c.post_id (pos 0) (record w { db = db }))
        ((c, there, own), h)
  erased uid id w c there own (err e, db) q h = (unwritten (ap (λ r. r.0) q), rw h refl)

  -- A successful DeleteComment deleted a comment that was there and is the caller's, and wrote its event with
  -- it. An error is 404 without the comment, 403 for the comment of another, or that of a call of the
  -- database, and leaves everything as it was.
  pub delete_comment-DeletedOrNot :
      (uid id : ℤ) (w : World)
      → DeletedOrNot uid id w (delete_comment sql json format cache uid id w)
  unfolding delete_comment get_comment
  delete_comment-DeletedOrNot uid id w = elim (laws.first_comment_law id w.db) [
    | inr (x, failed) ↦ rw failed (unread (ap (λ r. r.0) failed), refl)
    | inl found ↦ rw found (checked (find_comment id w.db) refl)
  ]
    where
      not_own : (c : Comment) → eqb_ℤ c.user_id uid ≡ false → c.user_id ≢ uid
      not_own c e h = absurd (cc (rw (h, eqb_ℤ_refl uid) at e))

      checked :
          (c : Option Comment)
          → find_comment id w.db ≡ c
          → DeletedOrNot uid id w (delete_own sql json format cache uid id c w)
      checked none absent = (no_comment absent, refl)
      checked (some c) there = elim (Bool-cases (eqb_ℤ c.user_id uid)) [
        | inr other ↦ rw other (of_another there (not_own c other), refl)
        | inl own ↦ rw own (
            erased uid id w c there ((eqb_ℤ_iff c.user_id uid).0 own)
              (delete_comment_tx sql json id w.db) refl
              (Outcome-delete_comment laws json_ok id w.db))
      ]
