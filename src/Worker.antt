-- ===== src/Worker.antt =====
-- internal/worker/worker.go: the count consumer and one round of the relay, with the broker's queue
-- as a list of deliveries.
pub mod Steps
pub mod Once
pub mod Drains
use pluto_feed.Prelude.{
  ℕ, ◌+◌, Bool, not, ◌||◌, Option, none, some, List, [], ◌∷◌, ◌++◌, ◌==◌, if◌then◌else◌, Bytes,
  bytes_eq,
}
use pluto_feed.Prelude.Decimal.{format_uint, parse_uint}
use pluto_feed.Apierror.{Error, other, wrapped, Result, ok, err, Act, ◌>>=◌, ◌>>◌, pure, raise}
use pluto_feed.Model.{CountEvent, Outbox, like_count_field, comment_count_field}
use pluto_feed.Db.{Db}
use pluto_feed.Sql.{Sql}
use pluto_feed.Repository.Outbox.{Codec, fetch_pending, mark_processed}
use pluto_feed.Cache.{Redis, del}
use pluto_feed.Cache.Keys.{post_key}
use pluto_feed.Mq.{Delivery, Channel, Fate, publish}
use pluto_feed.World.{World, in_db, in_kv, best_effort}

abbrev pub invalid_count_field : Error
invalid_count_field = other 20

abbrev pub bad_message_id : Error
bad_message_id = wrapped (other 21)

abbrev pub bad_payload : Error
bad_payload = wrapped (other 22)

-- `allowedFields`.
unfoldable pub allowed_fields : Bytes → Bool
allowed_fields f = bytes_eq f like_count_field || bytes_eq f comment_count_field

unfoldable pub invalidate_post : Option Redis → CountEvent → Act World (Unit {0})
invalidate_post none e = pure tt
invalidate_post (some r) e = best_effort (in_kv (del r (post_key e.post_id ∷ [])))

module _ (sql : Sql) where
  unfoldable pub apply_body : ℕ → CountEvent → Act Db (Unit {0})
  apply_body event_id e = do
    rows_affected ← sql.insert_processed event_id
    if rows_affected == 0 then pure tt else sql.add_count e.field e.delta e.post_id

  -- `Counter.Apply`: the transaction, then the cached post is dropped.
  unfoldable pub apply : Option Redis → ℕ → CountEvent → Act World (Unit {0})
  unfolding apply_body allowed_fields invalidate_post
  apply cache event_id e =
      if not (allowed_fields e.field)
      then raise invalid_count_field
      else (do in_db (sql.transaction (Unit {0}) (apply_body event_id e)); invalidate_post cache e)

  module _ (json : Codec) (cache : Option Redis) where
    abbrev pub decoded : Option ℕ → Option CountEvent → Act World (Unit {0})
    decoded none e = raise bad_message_id
    decoded (some id) none = raise bad_payload
    decoded (some id) (some e) = apply cache id e

    unfoldable pub handle_delivery : Delivery → Act World (Unit {0})
    handle_delivery d = decoded (parse_uint d.message_id) (json.unmarshal d.body)

-- The message of an outbox row.
abbrev pub message_of : Outbox → Delivery
message_of e = record {
  message_id = format_uint e.id;
  routing_key = e.event_type;
  body = e.payload;
}

-- A failed publish ends the loop; an acknowledged one adds its id.
abbrev pub after_publish : Result (Unit {0}) → ℕ → List ℕ × Channel → Channel → List ℕ × Channel
after_publish (ok _) id later ch = (id ∷ later.0, later.1)
after_publish (err _) id later ch = ([], ch)

-- The loop of `relayOnce` from the `i`-th event on: the ids that were published, up to the first
-- failure. `fate i` is what the broker does with the `i`-th message.
unfoldable pub publish_all : (ℕ → Fate) → ℕ → List Outbox → Channel → List ℕ × Channel
publish_all fate i [] ch = ([], ch)
publish_all fate i (e ∷ es) ch =
    let (r, ch') = publish (fate i) (message_of e) ch in
    let later = publish_all fate (i + 1) es ch' in after_publish r e.id later ch'

pub record Relay : Type 0 where
  pub db : Db
  pub channel : Channel

module _ (sql : Sql) where
  abbrev relay_events : (ℕ → Fate) → Result (List Outbox) × Db → Channel → Result (Unit {0}) × Relay
  relay_events fate (err e, db) ch = (err e, record { db = db; channel = ch })
  relay_events fate (ok events, db) ch =
      let (done, ch') = publish_all fate 0 events ch in
      (ok tt, record { db = (mark_processed sql done db).1; channel = ch' })

  -- One round of the relay. A failure of `MarkProcessed` is only logged.
  unfoldable pub relay_once : (ℕ → Fate) → Act Relay (Unit {0})
  unfolding publish_all fetch_pending mark_processed
  relay_once fate r = relay_events fate (fetch_pending sql 100 r.db) r.channel

-- The consumer's loop, one delivery: acknowledged when it was handled, else a dead letter.
pub record Consumer : Type 0 where
  pub world : World
  pub queue : List Delivery
  pub dead_letters : List Delivery

module _ (sql : Sql) (json : Codec) (cache : Option Redis) where
  abbrev pub settle :
      Delivery → List Delivery → List Delivery → Result (Unit {0}) × World → Consumer
  settle d rest dead (ok _, w) = record { world = w; queue = rest; dead_letters = dead }
  settle d rest dead (err _, w) = record { world = w; queue = rest; dead_letters = dead ++ d ∷ [] }

  abbrev consume : List Delivery → Consumer → Consumer
  consume [] c = c
  consume (d ∷ rest) c = settle d rest c.dead_letters (handle_delivery sql json cache d c.world)

  unfoldable pub consume_one : Consumer → Consumer
  unfolding handle_delivery
  consume_one c = consume c.queue c
