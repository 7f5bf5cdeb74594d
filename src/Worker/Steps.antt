-- ===== src/Worker/Steps.antt =====
-- What one call of the worker does to the tables and to the broker's queue.
use pluto_feed.Prelude.{
  ℕ, ◌≡◌, ◌⊎◌, inl, inr, refl, true, false, Option, none, some, ◌==◌, Bytes, any, arith, Bool-cases,
  Option-cases, bytes_eq_iff,
}
use pluto_feed.Prelude.Decimal.{parse_uint}
use pluto_feed.Apierror.{Result, ok, err, then_run}
use pluto_feed.Outcome.{Outcome, Anything, Outcome-then, Outcome-Meets, Outcome-state}
use pluto_feed.Model.{CountEvent, like_count_field, comment_count_field}
use pluto_feed.Db.{Db, add_post_count, insert_ignore_processed}
use pluto_feed.Sql.{Sql, SqlLaws, IsCountField, Outcome-transaction}
use pluto_feed.Repository.Outbox.{Codec}
use pluto_feed.Cache.{Redis}
use pluto_feed.World.{World}
use pluto_feed.Mq.{Delivery}
use pluto_feed.Worker.{allowed_fields, apply_body, apply, invalidate_post, handle_delivery}

pub allowed-IsCountField : (f : Bytes) → allowed_fields f ≡ true → IsCountField f
unfolding allowed_fields
allowed-IsCountField f h =
    ground (arith, bytes_eq_iff f like_count_field, bytes_eq_iff f comment_count_field)

module _ {sql : Sql} (laws : SqlLaws sql) where
  -- What `Apply` leaves: a processed event changes nothing, and another one is marked as processed and
  -- counted together.
  abbrev pub Applied : ℕ → CountEvent → Db → Db → Type 0
  Applied id e db s =
      ((any (◌==◌ id) db.processed_events ≡ true) × (s ≡ db))
      ⊎ ((any (◌==◌ id) db.processed_events ≡ false)
          × (s ≡ add_post_count e.field e.delta e.post_id (insert_ignore_processed id db).1))

  Outcome-apply_body :
      (id : ℕ) (e : CountEvent) (db : Db)
      → IsCountField e.field
      → Outcome (λ _. Applied id e db) Anything (apply_body sql id e db)
  unfolding apply_body insert_ignore_processed
  Outcome-apply_body id e db field =
      Outcome-then Anything (laws.insert_processed_law id) (λ _. Applied id e db) _ db
        (elim (Bool-cases (any (◌==◌ id) db.processed_events)) [
          | inl old ↦ rw old (inl (old, refl))
          | inr fresh ↦ rw fresh (
              Outcome-Meets Anything (laws.add_count_law e.field e.delta e.post_id field)
                (λ _. Applied id e db) _ (inr (fresh, rw fresh)) tt)
        ])
        tt

  pub Outcome-apply_tx :
      (id : ℕ) (e : CountEvent) (db : Db)
      → IsCountField e.field
      → Outcome
          (λ _. Applied id e db)
          (λ s. s ≡ db)
          (sql.transaction (Unit {0}) (apply_body sql id e) db)
  Outcome-apply_tx id e db field =
      Outcome-transaction laws.atomic (Unit {0}) (λ _. Applied id e db) (apply_body sql id e) db
        (Outcome-apply_body id e db field)

  module _ (cache : Option Redis) where
    apply_step :
        (w : World) (e : CountEvent) (r : Result (Unit {0})) (s : Db)
        → let out =
            then_run {B = Unit {0}} (r, record w { db = s }) (λ _. invalidate_post cache e) in
          (out.0 ≡ r) × (out.1.db ≡ s)
    unfolding invalidate_post
    apply_step w e (err x) s = (refl, refl)
    apply_step w e (ok x) s =
        elim cache
          as (λ c.
            let out =
              then_run {B = Unit {0}} (ok x, record w { db = s }) (λ _. invalidate_post c e) in
            (out.0 ≡ ok x) × (out.1.db ≡ s)) [ none ↦ (refl, refl) | some r ↦ (refl, refl) ]

    -- The result of `Apply` is the transaction's, and so are the tables.
    pub apply_tx :
        (id : ℕ) (e : CountEvent) (w : World)
        → allowed_fields e.field ≡ true
        → let t = sql.transaction (Unit {0}) (apply_body sql id e) w.db in
          ((apply sql cache id e w).0 ≡ t.0) × ((apply sql cache id e w).1.db ≡ t.1)
    unfolding apply
    apply_tx id e w h =
        let t = sql.transaction (Unit {0}) (apply_body sql id e) w.db in
        rw h (apply_step w e t.0 t.1)

    apply_refused :
        (id : ℕ) (e : CountEvent) (w : World)
        → allowed_fields e.field ≡ false
        → (apply sql cache id e w).1.db ≡ w.db
    unfolding apply
    apply_refused id e w h = rw h

    pub apply_db :
        (id : ℕ) (e : CountEvent) (w : World)
        → ((apply sql cache id e w).1.db ≡ w.db)
          ⊎ (IsCountField e.field × Applied id e w.db (apply sql cache id e w).1.db)
    apply_db id e w = elim (Bool-cases (allowed_fields e.field)) [
      | inr refused ↦ inl (apply_refused id e w refused)
      | inl allowed ↦
          let field = allowed-IsCountField e.field allowed in
          rw ((apply_tx id e w allowed).1) (
            Outcome-state (λ _. Applied id e w.db) (λ s. s ≡ w.db)
              (λ s. (s ≡ w.db) ⊎ (IsCountField e.field × Applied id e w.db s)) _
              (λ _ s p. inr (field, p)) (λ s p. inl p) (Outcome-apply_tx id e w.db field))
    ]

    -- The tables that a delivery leaves: as they were, or as `Apply` of its event leaves them.
    abbrev pub Handled : Codec → Delivery → Db → Db → Type 0
    Handled json d db s =
        (s ≡ db)
        ⊎ ((id : ℕ) × (e : CountEvent) × (parse_uint d.message_id ≡ some id)
            × (json.unmarshal d.body ≡ some e)
            × IsCountField e.field
            × Applied id e db s)

    pub handle_delivery_cases :
        (json : Codec) (d : Delivery) (w : World)
        → Handled json d w.db (handle_delivery sql json cache d w).1.db
    unfolding handle_delivery
    handle_delivery_cases json d w = elim (Option-cases (parse_uint d.message_id)) [
      | inl bad ↦ rw bad (inl refl)
      | inr (id, good) ↦ elim (Option-cases (json.unmarshal d.body)) [
        | inl bad ↦ rw (good, bad) (inl refl)
        | inr (e, decoded) ↦ elim (apply_db id e w) [
          | inl same ↦ rw (good, decoded) (inl same)
          | inr (field, applied) ↦ rw (good, decoded) (inr (id, e, refl, refl, field, applied))
        ]
      ]
    ]
