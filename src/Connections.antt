-- ===== src/Connections.antt =====
-- What a client and a worker ask of the broker when they connect: mq/client.py, `connect` and
-- `consume_results`, and mq/worker.py, `run` and `_start_lane`. The calls of each, in order.
use sementic_search_engine.Prelude.{
  or_true, ℕ, ◌≡◌, refl, Bool, true, false, ◌&&◌, Option, none, some, List, [], ◌∷◌, ◌++◌, map,
  Text, codes, text_eq, text_eq_refl, is_named, if◌then◌else◌, ◌==◌, is_empty,
}
use sementic_search_engine.Config.{Settings}
use sementic_search_engine.Schemas.{Lane}
use sementic_search_engine.Topology.{text, Command, declare_queue, declare_topology}
use sementic_search_engine.Worker.Lanes.{lane_specs}
use sementic_search_engine.Client.{direct_reply_to, results_queue}

pub data Call : Type 0 where
  connects : (url name : Text) → Call
  -- whether it asks for `publisher_confirms` and `on_return_raises`
  opens_channel : (confirmed : Bool) → Call
  sets_prefetch : ℕ → Call
  declares : Command → Call
  consumes : (queue : Text) (no_ack : Bool) → Call
  cancels : (queue : Text) → Call
  closes_channel : Call

-- `declare_topology`
unfoldable pub topology_calls : Settings → List Call
topology_calls s = map declares (declare_topology s).0

-- url or settings.rabbitmq_url
unfoldable pub url_of : Settings → Option Text → Text
url_of s none = s.rabbitmq_url
url_of s (some url) = if is_empty url then s.rabbitmq_url else url

-- `connect` of the client
unfoldable pub client_connect : Settings → Option Text → Text → List Call
unfolding topology_calls url_of
client_connect s url app_id =
    connects (url_of s url) app_id ∷ opens_channel true ∷ topology_calls s
    ++ consumes direct_reply_to true ∷ []

-- `consume_results`, up to where messages come in
unfoldable pub subscribe : Settings → Option Text → Option ℕ → List Call
unfolding results_queue
subscribe s queue prefetch =
    let name = results_queue s queue in
    opens_channel false
    ∷ sets_prefetch (elim prefetch [
      | none ↦ s.index_prefetch
      | some n ↦ if n == 0 then s.index_prefetch else n
    ])
    ∷ declares (declare_queue name true ((codes "x-queue-type", text (codes "quorum")) ∷ []))
    ∷ consumes name false
    ∷ []

-- `cancel` of a subscription to this queue
unfoldable pub cancel : Text → List Call
cancel queue = cancels queue ∷ closes_channel ∷ []

-- `_start_lane`
unfoldable pub start_lane : Settings → Lane → List Call
start_lane s l =
    let spec = lane_specs s l in
    opens_channel true
    ∷ opens_channel false
    ∷ sets_prefetch spec.prefetch
    ∷ consumes spec.queue false
    ∷ []

unfoldable pub start_lanes : Settings → List Lane → List Call
unfolding start_lane
start_lanes s [] = []
start_lanes s (l ∷ lanes) = start_lane s l ++ start_lanes s lanes

-- `run`, once the model is loaded
unfoldable pub worker_connect : Settings → Text → List Lane → List Call
unfolding topology_calls start_lanes
worker_connect s worker_id lanes =
    connects s.rabbitmq_url worker_id ∷ opens_channel false ∷ topology_calls s
    ++ closes_channel ∷ start_lanes s lanes

-- The queue that a call declares.
abbrev declared : Call → List Text
declared (declares (declare_queue name durable arguments)) = name ∷ []
declared _ = []

-- Whether each queue that is consumed was declared before, where `known` are the queues declared.
unfoldable pub consumes_declared : List Text → List Call → Bool
consumes_declared known [] = true
consumes_declared known (consumes q no_ack ∷ calls) =
    is_named q known && consumes_declared known calls
consumes_declared known (connects url name ∷ calls) = consumes_declared known calls
consumes_declared known (opens_channel confirms ∷ calls) = consumes_declared known calls
consumes_declared known (sets_prefetch n ∷ calls) = consumes_declared known calls
consumes_declared known (declares c ∷ calls) =
    consumes_declared (declared (declares c) ++ known) calls
consumes_declared known (cancels q ∷ calls) = consumes_declared known calls
consumes_declared known (closes_channel ∷ calls) = consumes_declared known calls

module _ (s : Settings) where
  -- The queues that `declare_topology` declares, the latest first.
  abbrev queues : List Text
  queues = s.index_queue ∷ s.query_queue ∷ s.mq_dead_letter_queue ∷ []

  lane_known : (l : Lane) → is_named (lane_specs s l).queue queues ≡ true
  unfolding lane_specs is_named
  lane_known Lane.query =
      rw (text_eq_refl s.query_queue) (or_true (text_eq s.query_queue s.index_queue))
  lane_known Lane.index = rw (text_eq_refl s.index_queue) refl

  lanes_known : (lanes : List Lane) → consumes_declared queues (start_lanes s lanes) ≡ true
  unfolding start_lanes start_lane consumes_declared
  lanes_known [] = refl
  lanes_known (l ∷ lanes) = rw (lane_known l) (lanes_known lanes)

  -- A worker consumes only queues that it has declared before.
  pub worker_connect-declared :
      (worker_id : Text) (lanes : List Lane)
      → consumes_declared [] (worker_connect s worker_id lanes) ≡ true
  unfolding worker_connect topology_calls declare_topology consumes_declared
  worker_connect-declared worker_id lanes = lanes_known lanes

  -- A client that waits for results consumes a queue that it has declared before.
  pub subscribe-declared :
      (queue : Option Text) (prefetch : Option ℕ)
      → consumes_declared [] (subscribe s queue prefetch) ≡ true
  unfolding subscribe consumes_declared is_named
  subscribe-declared queue prefetch = rw (text_eq_refl (results_queue s queue)) refl
