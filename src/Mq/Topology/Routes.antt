-- ===== src/Mq/Topology/Routes.antt =====
-- Where the declarations of SetupTopology (internal/mq/mq.go) send the events and the dead letters.
use pluto_feed.Prelude.{◌≡◌, true, none, some, [], ◌∷◌, All, Bytes}
use pluto_feed.Mq.Topology.{
  exchange_name, dlx, queue_name, dlq, routing_keys, direct, fanout, Broker, add_exchange,
  add_queue, add_binding, Amqp, Answers, exchange_of, queue_of, binding_of, destinations,
  dead_letters, can_exchange, can_queue, can_bind,
}
use pluto_feed.Model.{
  event_like_created, event_like_removed, event_comment_create, event_comment_delete,
}

abbrev pub fresh : Broker
fresh = record { exchanges = []; queues = []; bindings = [] }

-- The queue is written where each event goes to, and the dead-letter queue where each one goes that the queue
-- gives up.
abbrev pub Routes : Broker → Type 0
Routes b =
    All (λ rk. destinations b exchange_name rk ≡ queue_name ∷ []) routing_keys
    × ((key : Bytes) → dead_letters b queue_name key ≡ dlq ∷ [])

abbrev declared : Broker
declared = record {
  exchanges = exchange_of dlx fanout ∷ exchange_of exchange_name direct ∷ [];
  queues = queue_of dlq none ∷ queue_of queue_name (some dlx) ∷ [];
  bindings =
      binding_of dlq [] dlx
      ∷ binding_of queue_name event_comment_delete exchange_name
      ∷ binding_of queue_name event_comment_create exchange_name
      ∷ binding_of queue_name event_like_removed exchange_name
      ∷ binding_of queue_name event_like_created exchange_name
      ∷ [];
}

-- The effect of all the declarations.
bound : Bytes → Broker → Broker
bound rk b = add_binding (binding_of queue_name rk exchange_name) b

interaction_queue : Broker → Broker
interaction_queue b =
    add_queue (queue_of queue_name (some dlx))
      (add_exchange (exchange_of dlx fanout) (add_exchange (exchange_of exchange_name direct) b))

all_bound : Broker → Broker
unfolding bound
all_bound b =
    bound event_comment_delete
      (bound event_comment_create (bound event_like_removed (bound event_like_created b)))

effect : Broker → Broker
unfolding interaction_queue all_bound
effect b =
    add_binding (binding_of dlq [] dlx)
      (add_queue (queue_of dlq none) (all_bound (interaction_queue b)))

module _ {amqp : Amqp} (answers : Answers amqp) where
  -- Each call of the set-up is one that the broker may do.
  abbrev May : Broker → Type 0
  May b =
      let b1 = add_exchange (exchange_of exchange_name direct) b in
      let b2 = add_exchange (exchange_of dlx fanout) b1 in
      let b3 = interaction_queue b in
      let c1 = bound event_like_created b3 in
      let c2 = bound event_like_removed c1 in
      let c3 = bound event_comment_create c2 in
      let b4 = all_bound b3 in
      let b5 = add_queue (queue_of dlq none) b4 in
      (can_exchange (exchange_of exchange_name direct) b ≡ true)
      × (can_exchange (exchange_of dlx fanout) b1 ≡ true)
      × (can_queue (queue_of queue_name (some dlx)) b2 ≡ true)
      × (can_bind (binding_of queue_name event_like_created exchange_name) b3 ≡ true)
      × (can_bind (binding_of queue_name event_like_removed exchange_name) c1 ≡ true)
      × (can_bind (binding_of queue_name event_comment_create exchange_name) c2 ≡ true)
      × (can_bind (binding_of queue_name event_comment_delete exchange_name) c3 ≡ true)
      × (can_queue (queue_of dlq none) b4 ≡ true)
      × (can_bind (binding_of dlq [] dlx) b5 ≡ true)
