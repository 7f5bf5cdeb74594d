-- ===== src/Mq.antt =====
-- internal/mq/mq.go: publishing with broker confirmations over one AMQP channel. The broker and the
-- network are inputs: a `Fate` says what they do with one message.
pub mod Confirms
pub mod Topology
use pluto_feed.Prelude.{ℕ, Bool, true, false, List, [], ◌∷◌, ◌++◌, if◌then◌else◌, Bytes}
use pluto_feed.Apierror.{Error, other, wrapped, Result, ok, err, Act}

-- A message of the broker: `MessageId`, the routing key and the body.
pub record Delivery : Type 0 where
  pub message_id : Bytes
  pub routing_key : Bytes
  pub body : Bytes

-- A confirmation of the broker, as the program reads it: its delivery tag is not looked at.
pub record Confirmation : Type 0 where
  pub message_id : Bytes
  pub ack : Bool

-- `queue` is what the broker holds for the consumer, `confirms` what `NotifyPublish` has buffered.
pub record Channel : Type 0 where
  pub queue : List Delivery
  pub confirms : List Confirmation

-- What happens to one publish: the send fails; the broker stores the message or not; and the
-- confirmations that come in before the two seconds are over.
pub record Fate : Type 0 where
  pub send_fails : Bool
  pub stored : Bool
  pub closed : Bool
  pub arrived : List Confirmation

abbrev pub publish_failed : Error
publish_failed = wrapped (other 30)

abbrev pub channel_closed : Error
channel_closed = other 31

abbrev pub nacked : Error
nacked = other 32

abbrev pub confirm_timeout : Error
confirm_timeout = other 33

-- The `select` of `Publish`: the first confirmation of the channel, whatever message it is of.
abbrev await : Bool → List Delivery → List Confirmation → Result (Unit {0}) × Channel
await closed queue [] = (
  err (if closed then channel_closed else confirm_timeout),
  record { queue = queue; confirms = [] },
)
await closed queue (c ∷ cs) =
    (if c.ack then ok tt else err nacked, record { queue = queue; confirms = cs })

unfoldable pub publish : Fate → Delivery → Act Channel (Unit {0})
publish fate d ch =
    if fate.send_fails
    then (err publish_failed, ch)
    else await fate.closed (if fate.stored then ch.queue ++ d ∷ [] else ch.queue)
        (ch.confirms ++ fate.arrived)
