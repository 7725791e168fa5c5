-- ===== src/Worker/Entry.antt =====
-- mq/worker.py: `default_worker_id`, the constructor of `EmbeddingWorker`, `_serve` and `main`. What
-- `argparse` reads from the command line, the name of the host and the number of the process are
-- parameters.
pub mod Started
pub mod Asked
pub mod Calls
use sementic_search_engine.Prelude.{
  ℕ, Bool, true, false, Option, none, some, List, [], ◌∷◌, ◌++◌, map, if◌then◌else◌, Text, Result,
  ok, raise, ◌>>=◌, map_error,
}
use sementic_search_engine.Config.{Settings}
use sementic_search_engine.Schemas.{Lane}
use sementic_search_engine.Batcher.{Policy, InitError}
use sementic_search_engine.Batcher
use sementic_search_engine.Worker.{Delivery}
use sementic_search_engine.Worker.Lanes.{LanesError, lane_specs, lane_name, join, parse_lanes}
use sementic_search_engine.Worker.Lifecycle.{Key, new_batcher, worker_id_of}

-- f"{socket.gethostname()}-{os.getpid()}"
unfoldable pub default_worker_id : Text → Text → Text
default_worker_id hostname pid = hostname ++ b'-' ∷ pid

-- What the constructor raises.
pub data StartError : Type 0 where
  bad_lanes : LanesError → StartError
  bad_batcher : InitError → StartError

-- The `MicroBatcher` of a `_Lane`.
abbrev pub Batching : Type 0
Batching = Policy Delivery Key × Batcher.State Delivery Key

-- What the constructor fixes; `lanes` is the dictionary `_lanes`, in its order.
pub record Built : Type 0 where
  pub worker_id : Text
  pub lanes : List (Lane × Batching)

unfoldable pub lane_batching : Settings → Lane → Result StartError Batching
unfolding new_batcher
lane_batching s l = map_error bad_batcher (new_batcher (lane_specs s l))

unfoldable pub make_lanes : Settings → List Lane → Result StartError (List (Lane × Batching))
unfolding lane_batching
make_lanes s [] = ok []
make_lanes s (l ∷ ls) = do
  batching ← lane_batching s l
  rest ← make_lanes s ls
  ok ((l, batching) ∷ rest)

unfoldable pub checked_lanes : Text → Result StartError (List Lane)
checked_lanes value = map_error bad_lanes (parse_lanes value)

-- EmbeddingWorker(engine, lanes, settings=settings, worker_id=worker_id), where `default` is what
-- `default_worker_id` gives
unfoldable pub construct : Settings → Text → Option Text → List Lane → Result StartError Built
unfolding checked_lanes make_lanes worker_id_of
construct s default worker_id names = do
  lanes ← checked_lanes (join b',' (map lane_name names))
  batching ← make_lanes s lanes
  ok (record { worker_id = worker_id_of worker_id s default; lanes = batching })

-- What `argparse` reads: `--lanes` and `--worker-id`, if they are given.
pub record Arguments : Type 0 where
  pub lanes : Option Text
  pub worker_id : Option Text

-- The argument `--lanes` with its default.
unfoldable pub lanes_argument : Settings → Arguments → Text
lanes_argument s args = elim args.lanes [ none ↦ s.worker_lanes | some value ↦ value ]

-- `main`, up to where the worker is served
unfoldable pub main : Settings → Text → Text → Arguments → Result StartError Built
unfolding checked_lanes lanes_argument construct default_worker_id
main s hostname pid args = do
  names ← checked_lanes (lanes_argument s args)
  construct s (default_worker_id hostname pid) args.worker_id names

pub data Signal : Type 0 where
  sigint sigterm : Signal

-- How a signal comes to call `stop`: from the event loop, or posted to it by a handler of the process.
pub data SignalHandler : Type 0 where
  from_loop posted : SignalHandler

-- The body of the loop of `_serve`, where `supported` says whether `add_signal_handler` returns.
unfoldable pub install : Bool → SignalHandler
install supported = if supported then from_loop else posted

-- `_serve`, up to `run`
unfoldable pub serve : (Signal → Bool) → List (Signal × SignalHandler)
unfolding install
serve supported = (sigint, install (supported sigint)) ∷ (sigterm, install (supported sigterm)) ∷ []
