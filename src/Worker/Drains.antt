-- ===== src/Worker/Drains.antt =====
-- The relay of internal/worker/worker.go, round after round, with a database and a broker that work.
use pluto_feed.Prelude.{
  ℕ, zero, suc, ◌+◌, ◌-◌, ◌*◌, ◌≡◌, ◌≤◌, inl, inr, refl, sym, ap, arith, true, false, Bool-cases,
  List, [], ◌∷◌, ◌++◌, ◌==◌, ==_refl, if◌then◌else◌, All, any, map, select, take, length,
}
use pluto_feed.Prelude.Int.{ℤ}
use pluto_feed.Apierror.{ok}
use pluto_feed.Model.{Outbox}
use pluto_feed.Db.{Db, is_pending, pending_events, marked, mark_events}
use pluto_feed.Sql.{Sql}
use pluto_feed.Repository.Outbox.{fetch_pending, mark_processed}
use pluto_feed.Mq.{Channel, Confirmation, Fate, publish}
use pluto_feed.Worker.{Relay, message_of, publish_all, relay_once}

-- The outbox as the relay uses it, with a database that answers.
pub record AnswersOutbox (sql : Sql) : Type 0 where
  pub pending_answer :
      (limit : ℕ) (db : Db) → sql.find_pending limit db ≡ (ok (pending_events limit db), db)
  pub mark_answer :
      (ids : List ℕ) (db : Db) → sql.update_processed ids db ≡ (ok tt, mark_events ids db)

-- The broker stores a message and acknowledges it in time.
abbrev pub Works : Fate → Type 0
Works f =
    (f.send_fails ≡ false)
    × (f.stored ≡ true)
    × ((c : Confirmation) × (f.arrived ≡ c ∷ []) × (c.ack ≡ true))

abbrev pub event_ids : List Outbox → List ℕ
event_ids es = map (λ e. e.id) es

abbrev pub backlog : Db → ℕ
backlog db = length (select is_pending db.outbox)

publish_all-Works :
    (fate : ℕ → Fate) (i : ℕ) (es : List Outbox) (ch : Channel)
    → ((j : ℕ) → Works (fate j))
    → ch.confirms ≡ []
    → ((publish_all fate i es ch).0 ≡ event_ids es) × ((publish_all fate i es ch).1.confirms ≡ [])
unfolding publish_all publish
publish_all-Works fate i [] ch works clear = (refl, clear)
publish_all-Works fate i (e ∷ es) ch works clear =
    let (sent, stored, (c, arrived, acked)) = works i in
    let later : Channel = record { queue = ch.queue ++ message_of e ∷ []; confirms = [] } in
    let (ids, left) = publish_all-Works fate (i + 1) es later works refl in
    rw (sent, stored, clear, arrived, acked) (ap (◌∷◌ e.id) ids, left)

module _ (now : ℤ) (ids : List ℕ) where
  processed_stays : (o : Outbox) → is_pending o ≡ false → is_pending (marked now ids o) ≡ false
  processed_stays o h = elim (Bool-cases (any (◌==◌ o.id) ids)) [
    | inl here ↦ rw here refl
    | inr gone ↦ rw gone h
  ]

  abbrev Marks : ℕ → List Outbox → Type 0
  Marks n os = All (λ id. any (◌==◌ id) ids ≡ true) (event_ids (take n (select is_pending os)))

  abbrev left : List Outbox → ℕ
  left os = length (select is_pending (map (marked now ids) os))

  -- Marking the first `n` pending events leaves `n` fewer, or none.
  marked_backlog :
      (os : List Outbox) (n : ℕ) → Marks n os → left os ≤ length (select is_pending os) - n
  marked_backlog [] n h = omega arith
  marked_backlog (o ∷ os) n h = elim (Bool-cases (is_pending o)) [
    | inr done ↦ rw (processed_stays o done, done) (marked_backlog os n (rw done at h))
    | inl waits ↦ rw waits (one_less o os n (rw waits at h) (marked_backlog os))
  ]
    where
      one_less :
          (o : Outbox) (os : List Outbox) (n : ℕ)
          → All (λ id. any (◌==◌ id) ids ≡ true) (event_ids (take n (o ∷ select is_pending os)))
          → ((m : ℕ) → Marks m os → left os ≤ length (select is_pending os) - m)
          → length (
              if is_pending (marked now ids o)
              then marked now ids o ∷ select is_pending (map (marked now ids) os)
              else select is_pending (map (marked now ids) os))
            ≤ suc (length (select is_pending os)) - n
      one_less o os zero h ih = elim (Bool-cases (is_pending (marked now ids o))) [
        | inl waits ↦ rw waits (omega (arith, ih 0 tt))
        | inr done ↦ rw done (omega (arith, ih 0 tt))
      ]
      one_less o os (suc m) h ih = rw (h.0) (omega (arith, ih m h.1))

any-cons :
    (i : ℕ) (ids xs : List ℕ)
    → All (λ id. any (◌==◌ id) ids ≡ true) xs
    → All (λ id. any (◌==◌ id) (i ∷ ids) ≡ true) xs
any-cons i ids [] h = tt
any-cons i ids (x ∷ xs) h = (ground (arith, h.0), any-cons i ids xs h.1)

every_id : (ids : List ℕ) → All (λ id. any (◌==◌ id) ids ≡ true) ids
every_id [] = tt
every_id (i ∷ ids) = (rw (==_refl i) refl, any-cons i ids ids (every_id ids))

marked_nil : (now : ℤ) (os : List Outbox) → map (marked now []) os ≡ os
marked_nil now [] = refl
marked_nil now (o ∷ os) = ap (◌∷◌ o) (marked_nil now os)

module _ {sql : Sql} (answers : AnswersOutbox sql) where
  marks : (ids : List ℕ) (db : Db) → (mark_processed sql ids db).1 ≡ mark_events ids db
  unfolding mark_processed mark_events
  marks [] db = ap (λ os. record db { outbox = os }) (sym (marked_nil db.clock db.outbox))
  marks (i ∷ ids) db = rw (answers.mark_answer (i ∷ ids) db) refl

  -- One round: the backlog shrinks by what one batch takes, and no confirmation is left over.
  relay_once-backlog :
      (fate : ℕ → Fate) (r : Relay)
      → ((j : ℕ) → Works (fate j))
      → r.channel.confirms ≡ []
      → (backlog (relay_once sql fate r).1.db ≤ backlog r.db - 100)
        × ((relay_once sql fate r).1.channel.confirms ≡ [])
  unfolding relay_once fetch_pending pending_events
  relay_once-backlog fate r works clear =
      let events = take 100 (select is_pending r.db.outbox) in
      let (ids, no_confirms) = publish_all-Works fate 0 events r.channel works clear in
      rw (answers.pending_answer 100 r.db, ids, marks (event_ids events) r.db)
        (shrunk events refl, no_confirms)
    where
      shrunk :
          (events : List Outbox)
          → events ≡ take 100 (select is_pending r.db.outbox)
          → backlog (mark_events (event_ids events) r.db) ≤ backlog r.db - 100
      shrunk events e =
          unfold mark_events in
          marked_backlog r.db.clock (event_ids events) r.db.outbox 100
            (rw (← e) (every_id (event_ids events)))

-- `n` rounds, each with what the broker does in it.
unfoldable pub relay_rounds : Sql → (ℕ → ℕ → Fate) → ℕ → Relay → Relay
relay_rounds sql fate zero r = r
relay_rounds sql fate (suc n) r = relay_rounds sql fate n (relay_once sql (fate n) r).1

-- With a database that answers, and a broker that stores and acknowledges each message in time, the relay
-- comes to an end of its work: a backlog of at most a hundred events for each of `n` rounds is gone after
-- them.
pub relay_rounds-backlog :
    {sql : Sql} (answers : AnswersOutbox sql) (fate : ℕ → ℕ → Fate) (n : ℕ) (r : Relay)
    → ((i j : ℕ) → Works (fate i j))
    → r.channel.confirms ≡ []
    → backlog r.db ≤ 100 * n
    → backlog (relay_rounds sql fate n r).db ≡ 0
unfolding relay_rounds
relay_rounds-backlog answers fate zero r works clear small = omega (arith, small)
relay_rounds-backlog {sql} answers fate (suc n) r works clear small =
    let (fewer, still_clear) = relay_once-backlog answers (fate n) r (works n) clear in
    relay_rounds-backlog answers fate n (relay_once sql (fate n) r).1 works still_clear
      (omega (arith, fewer, small))
