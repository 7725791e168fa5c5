-- ===== src/Worker/Lifecycle.antt =====
-- mq/worker.py, `EmbeddingWorker` from its constructor to the end of `_shutdown`: the state. A task
-- is the list of the actions that it still has to take; each is taken as a step of its own, so tasks
-- interleave freely, and one that is abandoned leaves the rest undone.
pub mod Steps
pub mod Accounts
pub mod Kept
pub mod Flushed
pub mod Tally
pub mod Serial
pub mod Valid
pub mod Runs
pub mod Finishing
pub mod Tasks
pub mod Honest
pub mod Readiness
use sementic_search_engine.Prelude.{
  ℕ, ◌≡◌, ◌≢◌, Bool, true, false, Option, none, some, List, [], ◌∷◌, ◌++◌, All, length, Text,
  Result, ok, raise, ◌>>=◌, is_empty, if◌then◌else◌,
}
use sementic_search_engine.Config.{Settings}
use sementic_search_engine.Schemas.{Lane, InputType}
use sementic_search_engine.Batcher.{Batch, Policy, InitError, add}
use sementic_search_engine.Batcher
use sementic_search_engine.Handler.{Engine, Uncaught, Libraries}
use sementic_search_engine.Worker.{
  Message, Delivery, Action, counts, publishes, acks, nacks, Outside, on_message, process,
}
use sementic_search_engine.Worker.Lanes.{LaneSpec, lane_specs, same_lane}

-- The key of a batch: the input type and whether vectors are normalized.
abbrev pub Key : Type 0
Key = InputType × Bool

unfoldable pub Key-discrete : Discrete Key
Key-discrete = hlevel

-- The `MicroBatcher` of a lane.
unfoldable pub new_batcher :
    LaneSpec → Result InitError (Policy Delivery Key × Batcher.State Delivery Key)
unfolding Batcher.init
new_batcher spec =
    Batcher.init spec.max_texts spec.window (λ d. length d.job.input)
      (λ d. (d.job.input_type, d.job.normalize)) Key-discrete

-- settings.worker_id or default_worker_id()
abbrev settings_id : Option Text → Text → Text
settings_id none default = default
settings_id (some id) default = if is_empty id then default else id

-- worker_id or settings.worker_id or default_worker_id()
unfoldable pub worker_id_of : Option Text → Settings → Text → Text
worker_id_of none s default = settings_id s.worker_id default
worker_id_of (some id) s default = if is_empty id then settings_id s.worker_id default else id

pub data Phase : Type 0 where
  -- `run`, before and after `_ready` is set
  starting ready : Phase
  -- `_shutdown`, before and after the lane loops are cancelled
  stopping flushing : Phase
  -- the connection is closed
  closed : Phase

-- self._draining
unfoldable pub is_draining : Phase → Bool
is_draining starting = false
is_draining ready = false
is_draining stopping = true
is_draining flushing = true
is_draining closed = true

-- `is_ready`
unfoldable pub is_ready : Phase → Bool
is_ready starting = false
is_ready ready = true
is_ready stopping = false
is_ready flushing = false
is_ready closed = false

-- Whose task it is: a callback's, or nobody's since the batch that it was part of raised; the loop's of
-- a lane; or that of `_shutdown` itself.
pub data Owner : Type 0 where
  callback : Owner
  loop : Lane → Owner
  shutdown : Owner

abbrev pub Task : Type 0 → Type 0
Task V = Owner × List (Action V)

pub record State (V : Type 0) : Type 0 where
  pub phase : Phase
  -- the lanes that `run` has still to start, and those that it has started
  pub to_start : List Lane
  pub started : List Lane
  pub batchers : Lane → Batcher.State Delivery Key
  pub tasks : List (Task V)
  -- in `_shutdown`: the lanes still to drain, and the batches drained and not yet processed
  pub to_flush : List Lane
  pub backlog : List (Lane × Batch Delivery Key)
  -- the actions taken, and the messages received, each list the latest first
  pub log : List (Action V)
  pub received : List Message
  -- the tags of the messages that were left unsettled: the ack or nack raised, or was skipped because
  -- something else raised
  pub abandoned : List ℕ
  -- the lanes whose loop ended with such an exception
  pub broken : List Lane

unfoldable pub init : {V : Type 0} → List Lane → State V
init lanes = record {
  phase = starting;
  to_start = lanes;
  started = [];
  batchers = λ l. record { groups = []; changed = false };
  tasks = [];
  to_flush = lanes;
  backlog = [];
  log = [];
  received = [];
  abandoned = [];
  broken = [];
}

-- The batchers, with that of one lane changed.
unfoldable pub update :
    Lane
    → Batcher.State Delivery Key
    → (Lane → Batcher.State Delivery Key)
    → Lane
    → Batcher.State Delivery Key
update l b batchers k = if same_lane l k then b else batchers k

-- No task has this owner.
abbrev pub Free : {V : Type 0} → Owner → List (Task V) → Type 0
Free o = All (λ t. t.0 ≢ o)

-- lane.batcher.add(delivery), if there is one
unfoldable pub buffer :
    (Lane → Policy Delivery Key)
    → ℕ
    → Lane
    → Option Delivery
    → (Lane → Batcher.State Delivery Key)
    → Lane
    → Batcher.State Delivery Key
unfolding update
buffer policy now l none batchers = batchers
buffer policy now l (some d) batchers = update l (add (policy l) now d (batchers l)) batchers

-- An ack or a nack raises: in a loop it ends the loop, in `_shutdown` the worker, and a callback's
-- exception goes no further.
unfoldable pub break_loop : Owner → List Lane → List Lane
break_loop callback lanes = lanes
break_loop (loop l) lanes = l ∷ lanes
break_loop shutdown lanes = lanes

unfoldable pub break_phase : Owner → Phase → Phase
break_phase callback phase = phase
break_phase (loop l) phase = phase
break_phase shutdown phase = closed

-- Whether the action asks the broker for a settlement.
unfoldable pub is_settlement : {V : Type 0} → Action V → Bool
is_settlement (counts l s) = false
is_settlement (publishes t k p m c r) = false
is_settlement (acks t) = true
is_settlement (nacks t q) = true

-- The batches with their lane.
abbrev pub tagged : Lane → List (Batch Delivery Key) → List (Lane × Batch Delivery Key)
tagged l [] = []
tagged l (b ∷ bs) = (l, b) ∷ tagged l bs

-- What the broker and the clock tell a task.
abbrev pub seen : Settings → Text → (ℕ → Bool) → (ℕ → ℕ) → Outside
seen s worker_id confirms now = record {
  confirms = confirms;
  now = now;
  worker_id = worker_id;
  index_delivery_limit = s.index_delivery_limit;
}

-- A message comes in: its callback, and perhaps an item for the batcher, at the time `at`.
-- What a callback adds to the batcher, and the tag of the message that it leaves when it raises.
abbrev pub added : Result Uncaught (Option Delivery) → Option Delivery
added (ok d) = d
added (raise exc) = none

abbrev pub left : Message → Result Uncaught (Option Delivery) → List ℕ
left m (ok d) = []
left m (raise exc) = m.tag ∷ []

unfoldable pub receive :
    {V : Type 0}
    → Libraries
    → Settings
    → (Lane → Policy Delivery Key)
    → Outside
    → Text
    → ℕ
    → Lane
    → Message
    → State V
    → State V
unfolding buffer is_draining
receive lib s policy out new_job_id at l m st =
    let (actions, result) =
      on_message out (lane_specs s l) lib s new_job_id (is_draining st.phase) m in
    record st {
      batchers = buffer policy at l (added result) st.batchers;
      tasks = (callback, actions) ∷ st.tasks;
      received = m ∷ st.received;
      abandoned = left m result ++ st.abandoned;
    }

-- asyncio.create_task(self._process(lane, batch)), or the call of it in `_shutdown`
unfoldable pub begin_batch :
    {V : Type 0}
    → Settings
    → Engine V
    → Outside
    → Owner
    → Lane
    → Batch Delivery Key
    → State V
    → State V
begin_batch s engine out o l b st = record st {
  tasks = (o, process out (lane_specs s l) engine b.items) ∷ st.tasks;
}
