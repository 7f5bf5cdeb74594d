-- ===== src/Worker/Once.antt =====
-- Delivery is at least once, and counting exactly once: `Apply` and `HandleDelivery` a second time.
use mathlib.Core.Path.{subst}
use pluto_feed.Prelude.{
  ℕ, ◌≡◌, inl, inr, refl, sym, ◌∙◌, true, false, Option, none, some, ◌==◌, ==_refl, any, Bool-cases,
}
use pluto_feed.Prelude.Decimal.{parse_uint}
use pluto_feed.Apierror.{Result, ok, err}
use pluto_feed.Outcome.{Outcome}
use pluto_feed.Model.{CountEvent}
use pluto_feed.Db.{Db, add_post_count, insert_ignore_processed}
use pluto_feed.Sql.{Sql, SqlLaws}
use pluto_feed.Repository.Outbox.{Codec}
use pluto_feed.Cache.{Redis}
use pluto_feed.World.{World}
use pluto_feed.Mq.{Delivery}
use pluto_feed.Worker.{decoded, allowed_fields, apply_body, apply, handle_delivery}
use pluto_feed.Worker.Steps.{Applied, Outcome-apply_tx, apply_tx, apply_db, allowed-IsCountField}

Outcome-ok :
    {S A : Type 0} (P : A → S → Type 0) (E : S → Type 0) (a : A) (r : Result A × S)
    → r.0 ≡ ok a
    → Outcome P E r
    → (b : A) × P b r.1
Outcome-ok P E a (ok b, s) q p = (b, p)
Outcome-ok P E a (err e, s) q p = absurd (cc)

module _ {sql : Sql} (laws : SqlLaws sql) (cache : Option Redis) where
  Applied-processed :
      (id : ℕ) (e : CountEvent) (db s : Db)
      → Applied laws id e db s
      → any (◌==◌ id) s.processed_events ≡ true
  unfolding insert_ignore_processed add_post_count
  Applied-processed id e db s (inl (old, same)) = rw same old
  Applied-processed id e db s (inr (fresh, done)) = rw (done, fresh, ==_refl id) refl

  apply-allowed :
      (id : ℕ) (e : CountEvent) (w : World)
      → (apply sql cache id e w).0 ≡ ok tt
      → allowed_fields e.field ≡ true
  unfolding apply
  apply-allowed id e w done = elim (Bool-cases (allowed_fields e.field)) [
    | inl allowed ↦ allowed
    | inr refused ↦ absurd (raised done refused)
  ]
    where
      raised : (apply sql cache id e w).0 ≡ ok tt → allowed_fields e.field ≡ false → ⊥
      raised done refused = absurd (cc (rw refused at done))

  -- A successful `Apply` has recorded the event.
  apply-processed :
      (id : ℕ) (e : CountEvent) (w : World)
      → (apply sql cache id e w).0 ≡ ok tt
      → any (◌==◌ id) (apply sql cache id e w).1.db.processed_events ≡ true
  apply-processed id e w done =
      let allowed = apply-allowed id e w done in
      let same = apply_tx laws cache id e w allowed in
      let (_, applied) =
        Outcome-ok (λ _. Applied laws id e w.db) (λ s. s ≡ w.db) tt
          (sql.transaction (Unit {0}) (apply_body sql id e) w.db) (sym same.0 ∙ done)
          (Outcome-apply_tx laws id e w.db (allowed-IsCountField e.field allowed)) in
      subst (λ s. any (◌==◌ id) s.processed_events ≡ true) (sym same.1)
        (Applied-processed id e w.db _ applied)

  -- A processed event is not counted again, whatever `Apply` returns.
  apply-again :
      (id : ℕ) (e : CountEvent) (w : World)
      → any (◌==◌ id) w.db.processed_events ≡ true
      → (apply sql cache id e w).1.db ≡ w.db
  apply-again id e w old = elim (apply_db laws cache id e w) [
    | inl same ↦ same
    | inr (_, inl (_, same)) ↦ same
    | inr (_, inr (fresh, _)) ↦ absurd (cc)
  ]

  -- Once a delivery has been handled without an error, handling it again changes no table, whatever the
  -- database and the cache do the second time.
  pub handle_delivery_twice :
      (json : Codec) (d : Delivery) (w : World)
      → (handle_delivery sql json cache d w).0 ≡ ok tt
      → (handle_delivery sql json cache d (handle_delivery sql json cache d w).1).1.db
        ≡ (handle_delivery sql json cache d w).1.db
  unfolding handle_delivery
  handle_delivery_twice json d w = go (parse_uint d.message_id) (json.unmarshal d.body)
    where
      go :
          (id : Option ℕ) (e : Option CountEvent)
          → (decoded sql json cache id e w).0 ≡ ok tt
          → (decoded sql json cache id e (decoded sql json cache id e w).1).1.db
            ≡ (decoded sql json cache id e w).1.db
      go none e done = refl
      go (some id) none done = refl
      go (some id) (some e) done =
          apply-again id e (apply sql cache id e w).1 (apply-processed id e w done)
