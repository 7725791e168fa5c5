-- ===== src/Topology/Routing.antt =====
-- Where a message goes once the topology is declared. A direct exchange gives a message to each
-- queue and exchange that is bound to it under the message's routing key.
use sementic_search_engine.Prelude.{
  ◌≡◌, ◌≢◌, refl, Bool, true, false, ◌&&◌, ◌||◌, Option, none, some, List, [], ◌∷◌, if◌then◌else◌,
  Text, codes, text_eq, text_eq_refl, text_eq-distinct, is_named,
}
use sementic_search_engine.Config.{Settings}
use sementic_search_engine.Schemas.{Lane}
use sementic_search_engine.Worker.Lanes.{lane_specs}
use sementic_search_engine.Topology.{
  ExchangeType, direct, Argument, text, Command, declare_exchange, declare_queue, bind_queue,
  bind_exchange, query_key, index_key, query_queue_arguments, index_queue_arguments,
  declare_topology,
}

-- The routing key of a lane's requests.
abbrev pub routing_key : Lane → Text
routing_key Lane.query = query_key
routing_key Lane.index = index_key

-- The queues bound to an exchange under a key.
unfoldable pub bound_queues : Text → Text → List Command → List Text
unfolding text_eq
bound_queues e k [] = []
bound_queues e k (bind_queue q e' k' ∷ cs) =
    let rest = bound_queues e k cs in if text_eq e' e && text_eq k' k then q ∷ rest else rest
bound_queues e k (_ ∷ cs) = bound_queues e k cs

-- The exchanges bound to an exchange under a key.
unfoldable pub bound_exchanges : Text → Text → List Command → List Text
unfolding text_eq
bound_exchanges e k [] = []
bound_exchanges e k (bind_exchange d e' k' ∷ cs) =
    let rest = bound_exchanges e k cs in if text_eq e' e && text_eq k' k then d ∷ rest else rest
bound_exchanges e k (_ ∷ cs) = bound_exchanges e k cs

-- The type that an exchange was declared with, and the arguments of a queue.
unfoldable pub exchange_type : Text → List Command → Option ExchangeType
unfolding text_eq
exchange_type n [] = none
exchange_type n (declare_exchange m t d ∷ cs) =
    let rest = exchange_type n cs in if text_eq m n then some t else rest
exchange_type n (_ ∷ cs) = exchange_type n cs

unfoldable pub declared_arguments : Text → List Command → Option (List (Text × Argument))
unfolding text_eq
declared_arguments n [] = none
declared_arguments n (declare_queue m d as' ∷ cs) =
    let rest = declared_arguments n cs in if text_eq m n then some as' else rest
declared_arguments n (_ ∷ cs) = declared_arguments n cs

-- Where a lane's requests are copied to.
abbrev pub copies : Settings → Lane → List Text
copies s Lane.query = []
copies s Lane.index = s.mq_exchange_events ∷ []

requests-direct :
    (s : Settings)
    → s.mq_exchange_dlx ≢ s.mq_exchange_requests
    → exchange_type s.mq_exchange_requests (declare_topology s).0 ≡ some direct
unfolding declare_topology exchange_type text_eq
requests-direct s n =
    rw
      (
        text_eq-distinct s.mq_exchange_dlx s.mq_exchange_requests n,
        text_eq_refl s.mq_exchange_requests,
      )
      refl

-- When the exchanges for requests and for dead letters have different names, the exchange for requests
-- is a direct one, and under the key of a lane it has one queue bound to it, which the lane's workers
-- consume; under that of the index lane, and only there, it has the events exchange bound to it.
pub requests-routed :
    (s : Settings) (l : Lane)
    → s.mq_exchange_dlx ≢ s.mq_exchange_requests
    → let cs = (declare_topology s).0 in
      (exchange_type s.mq_exchange_requests cs ≡ some direct)
      × (bound_queues s.mq_exchange_requests (routing_key l) cs ≡ (lane_specs s l).queue ∷ [])
      × (bound_exchanges s.mq_exchange_requests (routing_key l) cs ≡ copies s l)
unfolding declare_topology exchange_type bound_queues bound_exchanges lane_specs text_eq
requests-routed s Lane.query n = (
  requests-direct s n,
  rw
      (
        text_eq-distinct s.mq_exchange_dlx s.mq_exchange_requests n,
        text_eq_refl s.mq_exchange_requests,
      )
      refl,
  rw (text_eq_refl s.mq_exchange_requests) refl,
)
requests-routed s Lane.index n = (
  requests-direct s n,
  rw
      (
        text_eq-distinct s.mq_exchange_dlx s.mq_exchange_requests n,
        text_eq_refl s.mq_exchange_requests,
      )
      refl,
  rw (text_eq_refl s.mq_exchange_requests) refl,
)

-- Whether each binding comes after the declarations of what it binds.
unfoldable pub is_ordered : List Text → List Text → List Command → Bool
unfolding is_named
is_ordered exchanges queues [] = true
is_ordered exchanges queues (declare_exchange n t d ∷ cs) = is_ordered (n ∷ exchanges) queues cs
is_ordered exchanges queues (declare_queue n d a ∷ cs) = is_ordered exchanges (n ∷ queues) cs
is_ordered exchanges queues (bind_queue q e k ∷ cs) =
    is_named q queues && is_named e exchanges && is_ordered exchanges queues cs
is_ordered exchanges queues (bind_exchange d e k ∷ cs) =
    is_named d exchanges && is_named e exchanges && is_ordered exchanges queues cs

or_true_and_true : (b : Bool) → ((b || true) && true) ≡ true
or_true_and_true true = refl
or_true_and_true false = refl

-- Every exchange and queue is declared before it is bound, whatever the names in the settings.
pub declare_topology-is_ordered : (s : Settings) → is_ordered [] [] (declare_topology s).0 ≡ true
unfolding declare_topology is_ordered is_named
declare_topology-is_ordered s =
    rw
      (
        text_eq_refl s.mq_exchange_dlx,
        text_eq_refl s.mq_dead_letter_queue,
        text_eq_refl s.query_queue,
        text_eq_refl s.mq_exchange_requests,
        text_eq_refl s.index_queue,
        text_eq_refl s.mq_exchange_events,
      )
      (or_true_and_true (text_eq s.mq_exchange_requests s.mq_exchange_events))

-- The value of a queue argument.
unfoldable pub argument : Text → List (Text × Argument) → Option Argument
unfolding text_eq
argument n [] = none
argument n ((m, v) ∷ as') = let rest = argument n as' in if text_eq n m then some v else rest

-- A queue is declared with arguments that say this of dead letters.
pub record Keeps (queue : Text) (cs : List Command) (exchange : Option Argument) : Type 0 where
  pub arguments : List (Text × Argument)
  pub declared : declared_arguments queue cs ≡ some arguments
  pub dead_letters : argument (codes "x-dead-letter-exchange") arguments ≡ exchange
  pub own_key : argument (codes "x-dead-letter-routing-key") arguments ≡ none

-- When the exchanges for requests and dead letters have different names, and so have the three queues:
-- the index queue is declared so that what it gives up on goes, with its routing key, to the exchange
-- for dead letters, which is a direct one and has only the dead-letter queue bound to it under the key
-- of the index lane; and the query queue is declared so that it gives nothing to any exchange.
pub dead_letters-kept :
    (s : Settings)
    → s.mq_exchange_requests ≢ s.mq_exchange_dlx
    → s.mq_dead_letter_queue ≢ s.query_queue
    → s.mq_dead_letter_queue ≢ s.index_queue
    → s.query_queue ≢ s.index_queue
    → let cs = (declare_topology s).0 in
      Keeps s.index_queue cs (some (text s.mq_exchange_dlx))
      × (exchange_type s.mq_exchange_dlx cs ≡ some direct)
      × (bound_queues s.mq_exchange_dlx index_key cs ≡ s.mq_dead_letter_queue ∷ [])
      × Keeps s.query_queue cs none
unfolding declare_topology bound_queues exchange_type declared_arguments query_queue_arguments
    index_queue_arguments argument text_eq
dead_letters-kept s n dead_query dead_index apart = (
  record {
    arguments = index_queue_arguments s;
    declared =
        rw
          (
            text_eq-distinct s.mq_dead_letter_queue s.index_queue dead_index,
            text_eq-distinct s.query_queue s.index_queue apart,
            text_eq_refl s.index_queue,
          )
          refl;
    dead_letters = refl;
    own_key = refl;
  },
  rw (text_eq_refl s.mq_exchange_dlx) refl,
  rw (text_eq-distinct s.mq_exchange_requests s.mq_exchange_dlx n, text_eq_refl s.mq_exchange_dlx)
      refl,
  record {
    arguments = query_queue_arguments s;
    declared =
        rw
          (
            text_eq-distinct s.mq_dead_letter_queue s.query_queue dead_query,
            text_eq_refl s.query_queue,
          )
          refl;
    dead_letters = refl;
    own_key = refl;
  },
)
