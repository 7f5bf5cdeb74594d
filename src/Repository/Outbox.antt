-- ===== src/Repository/Outbox.antt =====
-- internal/repository/outbox_repo.go: the local message table, and the JSON codec of its payload.
use pluto_feed.Prelude.{ℕ, ◌≡◌, Option, some, List, [], ◌∷◌, Bytes}
use pluto_feed.Apierror.{Act, pure}
use pluto_feed.Model
use pluto_feed.Model.{CountEvent}
use pluto_feed.Db.{Db}
use pluto_feed.Sql.{Sql}

-- `encoding/json` at `model.CountEvent`, through a JSON column.
pub record Codec : Type 0 where
  pub marshal : CountEvent → Option Bytes
  pub unmarshal : Bytes → Option CountEvent

-- What was written is read back.
abbrev pub RoundTrips : Codec → Type 0
RoundTrips json =
    (e : CountEvent) → (b : Bytes) × (json.marshal e ≡ some b) × (json.unmarshal b ≡ some e)

module _ (sql : Sql) where
  unfoldable pub enqueue_in_tx : Model.Outbox → Act Db (Unit {0})
  enqueue_in_tx evt = sql.create_event evt

  unfoldable pub fetch_pending : ℕ → Act Db (List Model.Outbox)
  fetch_pending limit = sql.find_pending limit

  unfoldable pub mark_processed : List ℕ → Act Db (Unit {0})
  mark_processed [] = pure tt
  mark_processed (id ∷ ids) = sql.update_processed (id ∷ ids)
