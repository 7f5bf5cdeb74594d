-- ===== src/Mq/Topology.antt =====
-- internal/mq/mq.go: the exchanges, queues and bindings that SetupTopology declares, and NewPublisher. The
-- AMQP client is a parameter: each declaration fails, or does what `Answers` documents of it. A declaration that is
-- there already changes nothing.
pub mod Routes
use pluto_feed.Prelude.{
  ◌≡◌, refl, ap, inl, inr, Bool, true, false, not, ◌&&◌, ◌||◌, Option, none, some, List, [], ◌∷◌,
  Bytes, codes, bytes_eq, if◌then◌else◌, any, find, map, select,
}
use pluto_feed.Apierror.{
  Error, other, wrapped, Result, ok, err, Act, then_run, ◌>>=◌, ◌>>◌, pure, raise,
}
use pluto_feed.Model.{
  event_like_created, event_like_removed, event_comment_create, event_comment_delete,
}
use pluto_feed.Mq.{Channel, Delivery}

abbrev pub exchange_name : Bytes
exchange_name = codes "pluto.events"

abbrev pub dlx : Bytes
dlx = codes "pluto.dlx"

abbrev pub queue_name : Bytes
queue_name = codes "pluto.interaction"

abbrev pub dlq : Bytes
dlq = codes "pluto.dlq"

abbrev pub routing_keys : List Bytes
routing_keys =
    event_like_created ∷ event_like_removed ∷ event_comment_create ∷ event_comment_delete ∷ []

pub data Kind : Type 0 where
  direct fanout : Kind

pub record Exchange : Type 0 where
  pub name : Bytes
  pub kind : Kind
  pub durable : Bool

pub record Queue : Type 0 where
  pub name : Bytes
  pub durable : Bool
  pub dead_letter_exchange : Option Bytes

pub record Binding : Type 0 where
  pub queue : Bytes
  pub key : Bytes
  pub exchange : Bytes

pub record Broker : Type 0 where
  pub exchanges : List Exchange
  pub queues : List Queue
  pub bindings : List Binding

abbrev is_binding : Binding → Binding → Bool
is_binding a b =
    bytes_eq a.queue b.queue && (bytes_eq a.key b.key && bytes_eq a.exchange b.exchange)

abbrev add_unless : {A : Type 0} → Bool → A → List A → List A
add_unless true a xs = xs
add_unless false a xs = a ∷ xs

unfoldable pub add_exchange : Exchange → Broker → Broker
add_exchange e b = record b {
  exchanges = add_unless (any (λ x. bytes_eq x.name e.name) b.exchanges) e b.exchanges;
}

unfoldable pub add_queue : Queue → Broker → Broker
add_queue q b = record b {
  queues = add_unless (any (λ x. bytes_eq x.name q.name) b.queues) q b.queues;
}

unfoldable pub add_binding : Binding → Broker → Broker
add_binding e b = record b { bindings = add_unless (any (is_binding e) b.bindings) e b.bindings }

pub record Amqp : Type 0 where
  pub channel : Result (Unit {0})
  pub exchange_declare : Exchange → Act Broker (Unit {0})
  pub queue_declare : Queue → Act Broker (Unit {0})
  pub queue_bind : Binding → Act Broker (Unit {0})
  pub confirm : Result (Unit {0})

abbrev same_kind : Kind → Kind → Bool
same_kind direct direct = true
same_kind fanout fanout = true
same_kind _ _ = false

abbrev same_bool : Bool → Bool → Bool
same_bool true b = b
same_bool false b = not b

abbrev same_name : Option Bytes → Option Bytes → Bool
same_name none none = true
same_name (some a) (some b) = bytes_eq a b
same_name _ _ = false

abbrev every : {A : Type 0} → (A → Bool) → List A → Bool
every p [] = true
every p (x ∷ xs) = p x && every p xs

-- What a call does when it may, and its refusal.
abbrev pub Does : Bool → Result (Unit {0}) × Broker → Broker → Broker → Type 0
Does true r after before = r ≡ (ok tt, after)
Does false r after before = (e : Error) × (r ≡ (err e, before))

-- A broker refuses to declare again with other arguments (406), and to bind what is not there (404).
abbrev pub same_exchange : Exchange → Exchange → Bool
same_exchange a b = same_kind a.kind b.kind && same_bool a.durable b.durable

abbrev pub same_queue : Queue → Queue → Bool
same_queue a b =
    same_bool a.durable b.durable && same_name a.dead_letter_exchange b.dead_letter_exchange

abbrev pub can_exchange : Exchange → Broker → Bool
can_exchange e b = every (λ x. not (bytes_eq x.name e.name) || same_exchange x e) b.exchanges

abbrev pub can_queue : Queue → Broker → Bool
can_queue q b = every (λ x. not (bytes_eq x.name q.name) || same_queue x q) b.queues

abbrev pub can_bind : Binding → Broker → Bool
can_bind e b =
    any (λ q. bytes_eq q.name e.queue) b.queues && any (λ x. bytes_eq x.name e.exchange) b.exchanges

-- A client and a broker that answer: they do what may be done, and refuse the rest.
pub record Answers (amqp : Amqp) : Type 0 where
  pub channel_answer : amqp.channel ≡ ok tt
  pub exchange_answer :
      (e : Exchange) (b : Broker)
      → Does (can_exchange e b) (amqp.exchange_declare e b) (add_exchange e b) b
  pub queue_answer :
      (q : Queue) (b : Broker) → Does (can_queue q b) (amqp.queue_declare q b) (add_queue q b) b
  pub bind_answer :
      (e : Binding) (b : Broker) → Does (can_bind e b) (amqp.queue_bind e b) (add_binding e b) b

abbrev pub exchange_of : Bytes → Kind → Exchange
exchange_of name kind = record { name = name; kind = kind; durable = true }

abbrev pub queue_of : Bytes → Option Bytes → Queue
queue_of name dead = record { name = name; durable = true; dead_letter_exchange = dead }

abbrev pub binding_of : Bytes → Bytes → Bytes → Binding
binding_of queue key exchange = record { queue = queue; key = key; exchange = exchange }

-- `fmt.Errorf("...: %w", err)` around an error of the client.
abbrev wrap : {A : Type 0} → Result A → Result A
wrap (ok a) = ok a
wrap (err e) = err (wrapped e)

abbrev pub wrapping : {A : Type 0} → Act Broker A → Act Broker A
wrapping act b = (wrap (act b).0, (act b).1)

module _ (amqp : Amqp) where
  unfoldable pub bind_all : List Bytes → Act Broker (Unit {0})
  bind_all [] = pure tt
  bind_all (rk ∷ rks) = do
    wrapping (amqp.queue_bind (binding_of queue_name rk exchange_name))
    bind_all rks

  unfoldable pub setup_topology : Act Broker (Unit {0})
  unfolding bind_all
  setup_topology = do
    wrapping (λ b. (amqp.channel, b))
    wrapping (amqp.exchange_declare (exchange_of exchange_name direct))
    wrapping (amqp.exchange_declare (exchange_of dlx fanout))
    wrapping (amqp.queue_declare (queue_of queue_name (some dlx)))
    bind_all routing_keys
    wrapping (amqp.queue_declare (queue_of dlq none))
    wrapping (amqp.queue_bind (binding_of dlq [] dlx))

  -- The publisher's channel, with no confirmation yet; `queue` is what the broker holds already.
  unfoldable pub new_publisher : List Delivery → Act Broker Channel
  new_publisher held = do
    setup_topology
    wrapping (λ b. (amqp.confirm, b))
    pure (record { queue = held; confirms = [] })

-- Where a message of an exchange goes: by its key, or to every queue of a fanout; and a message that a queue
-- gives up goes to the queue's dead-letter exchange.
abbrev matches : Kind → Bytes → Bytes → Bool
matches direct key k = bytes_eq k key
matches fanout key k = true

abbrev bound_to : Broker → Bytes → Bytes → Option Exchange → List Bytes
bound_to b name key none = []
bound_to b name key (some e) =
    map (λ x. x.queue)
      (select (λ x. bytes_eq x.exchange name && matches e.kind key x.key) b.bindings)

unfoldable pub destinations : Broker → Bytes → Bytes → List Bytes
destinations b name key = bound_to b name key (find (λ e. bytes_eq e.name name) b.exchanges)

abbrev given_up : Broker → Bytes → Option Queue → List Bytes
given_up b key none = []
given_up b key (some q) = elim q.dead_letter_exchange [
  | none ↦ []
  | some name ↦ destinations b name key
]

unfoldable pub dead_letters : Broker → Bytes → Bytes → List Bytes
dead_letters b queue key = given_up b key (find (λ q. bytes_eq q.name queue) b.queues)
