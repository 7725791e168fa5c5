-- ===== src/Topology.antt =====
-- mq/topology.py: the exchanges, queues and bindings that every process declares. What is sent to the
-- broker is a list of commands, in order.
pub mod Routing
use sementic_search_engine.Prelude.{ℕ, Bool, true, List, [], ◌∷◌, Text, codes}
use sementic_search_engine.Config.{Settings}

pub data ExchangeType : Type 0 where
  direct topic : ExchangeType

-- The value of a queue argument.
pub data Argument : Type 0 where
  number : ℕ → Argument
  text : Text → Argument

pub data Command : Type 0 where
  declare_exchange : (name : Text) → ExchangeType → (durable : Bool) → Command
  declare_queue : (name : Text) (durable : Bool) → List (Text × Argument) → Command
  bind_queue : (queue exchange routing_key : Text) → Command
  bind_exchange : (destination source routing_key : Text) → Command

-- The names of what was declared.
pub record Topology : Type 0 where
  pub requests : Text
  pub events : Text
  pub dlx : Text
  pub query_queue : Text
  pub index_queue : Text
  pub dead_queue : Text

abbrev pub query_key : Text
query_key = codes "query"

abbrev pub index_key : Text
index_key = codes "index"

unfoldable pub query_queue_arguments : Settings → List (Text × Argument)
query_queue_arguments s =
    (codes "x-message-ttl", number s.query_ttl_ms)
    ∷ (codes "x-max-length", number s.query_max_length)
    ∷ (codes "x-overflow", text (codes "reject-publish"))
    ∷ []

unfoldable pub index_queue_arguments : Settings → List (Text × Argument)
index_queue_arguments s =
    (codes "x-queue-type", text (codes "quorum"))
    ∷ (codes "x-delivery-limit", number s.index_delivery_limit)
    ∷ (codes "x-dead-letter-exchange", text s.mq_exchange_dlx)
    ∷ []

unfoldable pub declare_topology : Settings → List Command × Topology
unfolding query_queue_arguments index_queue_arguments
declare_topology s = (
  declare_exchange s.mq_exchange_dlx direct true
      ∷ declare_queue s.mq_dead_letter_queue true
          ((codes "x-queue-type", text (codes "quorum")) ∷ [])
      ∷ bind_queue s.mq_dead_letter_queue s.mq_exchange_dlx index_key
      ∷ declare_exchange s.mq_exchange_requests direct true
      ∷ declare_queue s.query_queue true (query_queue_arguments s)
      ∷ bind_queue s.query_queue s.mq_exchange_requests query_key
      ∷ declare_queue s.index_queue true (index_queue_arguments s)
      ∷ bind_queue s.index_queue s.mq_exchange_requests index_key
      ∷ declare_exchange s.mq_exchange_events topic true
      ∷ bind_exchange s.mq_exchange_events s.mq_exchange_requests index_key
      ∷ [],
  record {
    requests = s.mq_exchange_requests;
    events = s.mq_exchange_events;
    dlx = s.mq_exchange_dlx;
    query_queue = s.query_queue;
    index_queue = s.index_queue;
    dead_queue = s.mq_dead_letter_queue;
  },
)
