-- ===== src/Examples/Lifecycles.antt =====
-- A worker with the query lane: a message comes in and is buffered, then the lane's loop takes it.
use sementic_search_engine.Prelude.{
  List, All, ap, ℕ, ◌+◌, ◌≤◌, ◌≡◌, ◌≢◌, refl, true, false, some, none, [], ◌∷◌, codes, text_eq,
  strip,
}
use sementic_search_engine.Config.{defaults}
use sementic_search_engine.Handler.{
  parse_job, is_expired, encode_jobs_isolating_failures, encode_jobs,
}
use sementic_search_engine.Schemas.{Lane, EmbeddingJob, validate, passage}
use sementic_search_engine.Schemas.Values.{end, get, put}
use sementic_search_engine.Worker.Entry.Started.{lane_policy}
use sementic_search_engine.Worker.Entry.Calls
use sementic_search_engine.Worker.Entry.Calls.{live, IsOneCall, Reach-IsOneCall}
use sementic_search_engine.Batcher.{clip, Batch, Policy, add, take_ready, drain}
use sementic_search_engine.Batcher
use sementic_search_engine.Worker.{Message, Delivery, Action, acks, Outside, on_message, process}
use sementic_search_engine.Worker.Lanes.{has_lane, lane_specs}
use sementic_search_engine.Worker.Lifecycle.{
  Key, Key-discrete, ready, closed, loop, begin_batch, buffer, update, is_draining, State, init,
  receive, seen, is_ready,
}
use sementic_search_engine.Worker.Lifecycle.Steps.{
  Reach, start, next, starts_lane, gets_ready, receives, takes, acts,
}
use sementic_search_engine.Worker.Settlement.{settled}
use sementic_search_engine.Worker.Lifecycle.Accounts.{held, Reach-accounts}
use sementic_search_engine.Worker.Lifecycle.Runs.{Steps, here, then}
use sementic_search_engine.Worker.Lifecycle.Finishing.{Reach-can_finish}
use sementic_search_engine.Worker.Lifecycle.Tally.{in_progress}
use sementic_search_engine.Worker.Lifecycle.Serial.{Reach-serial}
use sementic_search_engine.Batcher.Fill.{total}
use sementic_search_engine.Examples.{engine, engine-IsPointwise, libraries, message, vector, cut}
use sementic_search_engine.Worker.Origins.{IsOwed}
use sementic_search_engine.Worker.Lifecycle.Readiness.{Reach-is_ready}
use sementic_search_engine.Worker.Lifecycle.Honest.{Reach-owed}

abbrev policies : Lane → Policy Delivery Key
policies = lane_policy defaults

abbrev incoming : Message
incoming = message 1 (some (codes "q"))

-- The job that the libraries read from every body.
abbrev pub job_read : EmbeddingJob
job_read = record {
  input = codes "hello" ∷ [];
  input_type = passage;
  normalize = true;
  schema_version = 1;
  job_id = codes "j";
  deadline = none;
  metadata = end;
}

abbrev delivery : Delivery
delivery = record { message = incoming; job = job_read }

abbrev fresh : State ℕ
unfolding init
fresh = init (Lane.query ∷ [])

abbrev consuming : State ℕ
unfolding fresh
consuming = record fresh { to_start = []; started = Lane.query ∷ []; phase = ready }

abbrev holding : State ℕ
unfolding consuming receive
holding =
    receive libraries defaults policies (seen defaults (codes "w") (λ t. true) (λ t. 0))
      (codes "new") 0 Lane.query incoming consuming

abbrev Run : State ℕ → Type 0
Run = Reach libraries defaults engine (codes "w") policies (Lane.query ∷ [])

consuming-Reach : Run consuming
unfolding init consuming has_lane
consuming-Reach =
    next (next start (starts_lane Lane.query [] fresh refl refl))
      (gets_ready (record fresh { to_start = []; started = Lane.query ∷ [] }) refl refl)

holding-Reach : Run holding
unfolding receive holding consuming has_lane
holding-Reach =
    next consuming-Reach
      (receives (λ t. true) (λ t. 0) (codes "new") 0 Lane.query incoming consuming (λ e. cc e) refl)

-- The batcher's only batch, and what is left.
abbrev batch : Batch Delivery Key
batch = record { key = (passage, true); items = delivery ∷ []; texts = 1 }

abbrev emptied : Batcher.State Delivery Key
emptied = record { groups = []; changed = true }

is_due :
    take_ready (policies Lane.query) 100 (holding.batchers Lane.query) ≡ some (some batch, emptied)
unfolding take_ready holding receive on_message parse_job validate get text_eq put strip is_expired
    add buffer update is_draining Key-discrete lane_policy lane_specs
is_due = refl

is_drained : drain (policies Lane.query) (holding.batchers Lane.query) ≡ some (batch ∷ [], emptied)
unfolding drain holding receive on_message parse_job validate get text_eq put strip is_expired add
    buffer update is_draining Key-discrete lane_policy lane_specs
is_drained = refl

abbrev world : Outside
world = seen defaults (codes "w") (λ t. true) (λ t. 0)

-- The lane's loop has taken the batch.
abbrev taken : State ℕ
unfolding holding begin_batch
taken =
    begin_batch defaults engine world (loop Lane.query) Lane.query batch
      (record holding { batchers = update Lane.query emptied holding.batchers })

taken-Reach : Run taken
unfolding taken holding receive has_lane consuming
taken-Reach = next holding-Reach (
    takes (λ t. true) (λ t. 0) 100 Lane.query batch emptied holding ((λ e. cc e), (λ e. cc e)) refl
      refl ((λ e. cc e), tt) is_due)

Reach-IsOneCall_example :
    IsOneCall defaults Lane.query engine
      (codes "w")
      (passage, true)
      (live ℕ world defaults Lane.query (delivery ∷ []))
Reach-IsOneCall_example =
    Reach-IsOneCall engine (codes "w") libraries defaults (Lane.query ∷ []) holding holding-Reach
      Lane.query batch (Calls.takes 100 emptied is_due) world

Reach-is_ready_example :
    (is_draining consuming.phase ≡ false)
    × ((l : Lane) → has_lane l holding.started ≡ has_lane l (Lane.query ∷ []))
unfolding is_ready consuming holding receive has_lane
Reach-is_ready_example =
    Reach-is_ready libraries defaults engine (codes "w") policies (Lane.query ∷ []) consuming-Reach
      (then
        (receives (λ t. true) (λ t. 0) (codes "new") 0 Lane.query incoming consuming (λ e. cc e)
          refl)
        here)
      refl

Reach-accounts_example :
    total (λ t. t) (settled taken.log) + total (λ t. t) taken.abandoned + held (λ t. t) taken
    ≡ total (λ m. m.tag) taken.received
Reach-accounts_example =
    Reach-accounts (λ t. t) libraries defaults engine (codes "w") policies (Lane.query ∷ []) taken
      taken-Reach

Reach-serial_example : in_progress Lane.query taken.tasks ≤ 1
Reach-serial_example =
    Reach-serial libraries defaults engine (codes "w") policies (Lane.query ∷ []) Lane.query taken
      taken-Reach

still_open : taken.phase ≢ closed
unfolding taken holding receive consuming
still_open e = cc e

Reach-can_finish_example :
    (end : State ℕ) × (Steps libraries defaults engine (codes "w") policies taken end
      × (end.phase ≡ closed)
      × (end.abandoned ≡ taken.abandoned)
      × ((l : Lane) → (end.batchers l).groups ≡ [])
      × (total (λ t. t) (settled end.log) + total (λ t. t) end.abandoned
          ≡ total (λ m. m.tag) taken.received))
Reach-can_finish_example =
    Reach-can_finish libraries defaults engine (codes "w") policies (Lane.query ∷ []) taken (λ t. t)
      taken-Reach still_open

abbrev actions : List (Action ℕ)
unfolding process
actions = process world (lane_specs defaults Lane.query) engine (delivery ∷ [])

abbrev head : List (Action ℕ) → Action ℕ
head [] = acks 0
head (a ∷ as') = a

abbrev tail : List (Action ℕ) → List (Action ℕ)
tail [] = []
tail (a ∷ as') = as'

-- The task of the batch counts, and replies.
abbrev replied : State ℕ
unfolding taken actions
replied = record taken {
  tasks = (loop Lane.query, tail (tail actions)) ∷ holding.tasks;
  log = head (tail actions) ∷ head actions ∷ [];
}

two_actions : actions ≡ head actions ∷ head (tail actions) ∷ tail (tail actions)
unfolding actions lane_specs is_expired encode_jobs_isolating_failures encode_jobs
two_actions = refl

abbrev counted : State ℕ
unfolding taken actions
counted = record taken {
  tasks = (loop Lane.query, head (tail actions) ∷ tail (tail actions)) ∷ holding.tasks;
  log = head actions ∷ [];
}

at_first :
    taken.tasks
    ≡ (loop Lane.query, head actions ∷ head (tail actions) ∷ tail (tail actions)) ∷ holding.tasks
unfolding taken holding actions
at_first = ap (λ as'. (loop Lane.query, as') ∷ holding.tasks) two_actions

replied-Reach : Run replied
unfolding replied counted taken holding receive consuming
replied-Reach =
    next
      (next taken-Reach (
        acts [] holding.tasks (loop Lane.query) (head actions)
          (head (tail actions) ∷ tail (tail actions)) taken still_open at_first))
      (acts [] holding.tasks (loop Lane.query) (head (tail actions)) (tail (tail actions)) counted
        (λ e. cc e) refl)

Reach-owed_example :
    All (IsOwed libraries defaults engine (codes "w") vector cut replied.received) replied.log
Reach-owed_example =
    Reach-owed libraries defaults engine (codes "w") policies vector cut engine-IsPointwise
      (Lane.query ∷ []) replied replied-Reach
