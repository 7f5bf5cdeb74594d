-- ===== src/Counts/Keeps.antt =====
-- Each request and each delivery keeps the ledger, whatever the database and the cache do.
use mathlib.Core.Path.{subst}
use pluto_feed.Prelude.{
  ℕ, ◌≡◌, inl, inr, refl, sym, ap, ◌∙◌, Bool, not, Option, some, List, [], ◌∷◌, Bytes, select,
  length, arith, Bool-cases,
}
use pluto_feed.Prelude.Int.{ℤ, pos, negsuc}
use pluto_feed.Prelude.Decimal.{parse_uint}
use pluto_feed.Outcome.{Outcome-state}
use pluto_feed.Model.{
  Comment, CountEvent, Outbox, event_like_created, event_like_removed, event_comment_create,
  event_comment_delete,
}
use pluto_feed.Db.{
  Db, is_like, insert_ignore_like, delete_like, insert_comment, delete_comment as erase_comment,
  add_post_count, insert_ignore_processed, insert_event,
}
use pluto_feed.Sql.{Sql, SqlLaws}
use pluto_feed.Repository.Outbox.{Codec, RoundTrips}
use pluto_feed.Repository.Interaction.{like, unlike, create_comment, delete_comment}
use pluto_feed.Repository.Interaction.Cases.{
  like_event, comment_event, Liked, Unliked, Commented, Erased, Outcome-like, Outcome-unlike,
  Outcome-create_comment, Outcome-delete_comment,
}
use pluto_feed.Cache.{Redis}
use pluto_feed.World.{World}
use pluto_feed.Mq.{Delivery}
use pluto_feed.Worker.{handle_delivery}
use pluto_feed.Worker.Steps.{Handled, handle_delivery_cases}
use pluto_feed.Counts.{Ledger, payload_at}
use pluto_feed.Counts.Events.{payload-append}
use pluto_feed.Counts.Effects.{recorded, Ledger-like, Ledger-unlike, Ledger-comment, Ledger-erase}
use pluto_feed.Counts.Applied.{Ledger-apply}

-- Events are only added: each id keeps its payload.
abbrev pub Grows : List Outbox → List Outbox → Type 0
Grows es fs = (id : ℕ) (b : Bytes) → payload_at id es ≡ some b → payload_at id fs ≡ some b

-- A message of the queue stands for an event of the outbox.
abbrev pub Carried : List Outbox → Delivery → Type 0
Carried es d = (id : ℕ) → parse_uint d.message_id ≡ some id → payload_at id es ≡ some d.body

-- One write keeps the ledger and the events.
abbrev pub Keeps : Codec → Db → Db → Type 0
Keeps json db s = Ledger json s × Grows db.outbox s.outbox

module _ {json : Codec} {db : Db} (h : Ledger json db) where
  keeps_same : {s : Db} → s ≡ db → Keeps json db s
  keeps_same e = subst (λ s. Keeps json db s) (sym e) (h, λ id b p. p)

select_all :
    {A : Type 0} (p : A → Bool) (xs : List A)
    → length (select p xs) ≡ 0
    → select (λ x. not (p x)) xs ≡ xs
select_all p [] h = refl
select_all p (x ∷ xs) h = elim (Bool-cases (p x)) [
  | inl there ↦ absurd (ground arith)
  | inr other ↦ rw other (ap (◌∷◌ x) (select_all p xs (rw other at h)))
]

unlike_nothing :
    (uid post_id : ℤ) (db : Db)
    → (delete_like post_id uid db).0 ≡ 0
    → (delete_like post_id uid db).1 ≡ db
unfolding delete_like
unlike_nothing uid post_id db h =
    ap (λ ls. record db { likes = ls }) (select_all (is_like post_id uid) db.likes h)

outbox-insert_ignore_like :
    (post_id uid : ℤ) (db : Db) → (insert_ignore_like post_id uid db).1.outbox ≡ db.outbox
unfolding insert_ignore_like
outbox-insert_ignore_like post_id uid db = ground arith

outbox-apply :
    (id : ℕ) (e : CountEvent) (db : Db)
    → (add_post_count e.field e.delta e.post_id (insert_ignore_processed id db).1).outbox
      ≡ db.outbox
unfolding insert_ignore_processed add_post_count
outbox-apply id e db = ground arith

module _ {sql : Sql} (laws : SqlLaws sql) {json : Codec} (json_ok : RoundTrips json) {db : Db}
    (h : Ledger json db) where
  Grows-recorded :
      (t : Bytes) (e : CountEvent) (x : Db)
      → x.outbox ≡ db.outbox
      → Grows db.outbox (recorded json_ok t e x).outbox
  unfolding insert_event
  Grows-recorded t e x same id b p = payload-append id x.outbox _ b (rw same p)

  keeps_recorded :
      (t : Bytes) (e : CountEvent) (x s : Db)
      → s ≡ recorded json_ok t e x
      → x.outbox ≡ db.outbox
      → Ledger json (recorded json_ok t e x)
      → Keeps json db s
  keeps_recorded t e x s eq same l =
      subst (λ s. Keeps json db s) (sym eq) (l, Grows-recorded t e x same)

  liked : (uid post_id : ℤ) (s : Db) → Liked laws json_ok uid post_id db s → Keeps json db s
  liked uid post_id s (inl (_, same)) = keeps_same h same
  liked uid post_id s (inr (fresh, e)) =
      keeps_recorded event_like_created (like_event (pos 1) post_id) _ s e
        (outbox-insert_ignore_like post_id uid db)
        (Ledger-like json_ok h uid post_id event_like_created fresh)

  unliked : (uid post_id : ℤ) (s : Db) → Unliked laws json_ok uid post_id db s → Keeps json db s
  unliked uid post_id s (inl (none_there, e)) =
      keeps_same h (e ∙ unlike_nothing uid post_id db none_there)
  unliked uid post_id s (inr (there, e)) =
      keeps_recorded event_like_removed (like_event (negsuc 0) post_id) _ s e
        (unfold delete_like in refl) (Ledger-unlike json_ok h uid post_id event_like_removed there)

  commented : (c c' : Comment) (s : Db) → Commented laws json_ok c db c' s → Keeps json db s
  commented c c' s (_, e) =
      keeps_recorded event_comment_create (comment_event (pos 1) c.post_id) _ s e
        (unfold insert_comment in refl) (Ledger-comment json_ok h c event_comment_create)

  erased : (id : ℤ) (s : Db) → Erased laws json_ok id db s → Keeps json db s
  erased id s (c, found, e) =
      keeps_recorded event_comment_delete (comment_event (negsuc 0) c.post_id) _ s e
        (unfold erase_comment in refl) (Ledger-erase json_ok h id c event_comment_delete found)

  -- Each request keeps the ledger, whatever the database does.
  pub Keeps-like : (uid post_id : ℤ) → Keeps json db (like sql json uid post_id db).1
  Keeps-like uid post_id =
      Outcome-state (λ _. Liked laws json_ok uid post_id db) (λ s. s ≡ db) (Keeps json db) _
        (λ _. liked uid post_id) (λ s. keeps_same h) (Outcome-like laws json_ok uid post_id db)

  pub Keeps-unlike : (uid post_id : ℤ) → Keeps json db (unlike sql json uid post_id db).1
  Keeps-unlike uid post_id =
      Outcome-state (λ _. Unliked laws json_ok uid post_id db) (λ s. s ≡ db) (Keeps json db) _
        (λ _. unliked uid post_id) (λ s. keeps_same h) (Outcome-unlike laws json_ok uid post_id db)

  pub Keeps-create_comment : (c : Comment) → Keeps json db (create_comment sql json c db).1
  Keeps-create_comment c =
      Outcome-state (Commented laws json_ok c db) (λ s. s ≡ db) (Keeps json db) _ (commented c)
        (λ s. keeps_same h) (Outcome-create_comment laws json_ok c db)

  pub Keeps-delete_comment : (id : ℤ) → Keeps json db (delete_comment sql json id db).1
  Keeps-delete_comment id =
      Outcome-state (λ _. Erased laws json_ok id db) (λ s. s ≡ db) (Keeps json db) _
        (λ _. erased id) (λ s. keeps_same h) (Outcome-delete_comment laws json_ok id db)

  -- A delivered message that stands for an event keeps it too, however often it is delivered.
  pub Keeps-handle :
      (cache : Option Redis) (d : Delivery) (w : World)
      → w.db ≡ db
      → Carried db.outbox d
      → Keeps json db (handle_delivery sql json cache d w).1.db
  Keeps-handle cache d w same carried =
      handled d (handle_delivery sql json cache d w).1.db carried (
        subst (λ b. Handled laws cache json d b (handle_delivery sql json cache d w).1.db) same
          (handle_delivery_cases laws cache json d w))
    where
      handled :
          (d : Delivery) (s : Db)
          → Carried db.outbox d
          → Handled laws cache json d db s
          → Keeps json db s
      handled d s c (inl e) = keeps_same h e
      handled d s c (inr (id, e, parsed, decoded, field, inl (_, eq))) = keeps_same h eq
      handled d s c (inr (id, e, parsed, decoded, field, inr (fresh, eq))) =
          subst (λ s. Keeps json db s) (sym eq)
            (
              Ledger-apply id d.body e h field (c id parsed) decoded fresh,
              λ i b p. rw (outbox-apply id e db) p,
            )
