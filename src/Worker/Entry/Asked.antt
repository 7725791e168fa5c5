-- ===== src/Worker/Entry/Asked.antt =====
-- What `main` of mq/worker.py builds, from the lanes and the id that it is asked for.
use sementic_search_engine.Prelude.{
  ◌≡◌, refl, sym, ap, ◌∙◌, ◌⊎◌, inl, inr, true, false, Option, none, some, List, [], ◌∷◌, ◌++◌, All,
  map, is_empty, Text, ok,
}
use sementic_search_engine.Config.{Settings}
use sementic_search_engine.Schemas.{Lane}
use sementic_search_engine.Worker.Lanes.{join, lane_name, parse_lanes}
use sementic_search_engine.Worker.Lanes.Parsing.{distinct, parse_lanes-join}
use sementic_search_engine.Worker.Lifecycle.{worker_id_of}
use sementic_search_engine.Worker.Entry.{default_worker_id, Arguments, lanes_argument, main}
use sementic_search_engine.Worker.Entry.Started.{HasRoom, idle, main_iff}

-- No text, or an empty one.
abbrev pub IsBlank : Option Text → Type 0
IsBlank o = (o ≡ none) ⊎ (o ≡ some [])

-- The id of a worker: the first of the argument, the setting and the host's name with the process's
-- number that is given.
pub data Identifies (s : Settings) (hostname pid : Text) (args : Arguments) : Text → Type 0 where
  by_argument :
      (id : Text)
      → args.worker_id ≡ some id
      → is_empty id ≡ false
      → Identifies s hostname pid args id
  by_setting :
      (id : Text)
      → IsBlank args.worker_id
      → s.worker_id ≡ some id
      → is_empty id ≡ false
      → Identifies s hostname pid args id
  by_host :
      IsBlank args.worker_id
      → IsBlank s.worker_id
      → Identifies s hostname pid args (hostname ++ b'-' ∷ pid)

-- The lanes asked for: as text, by the argument, or by the setting where there is no argument.
pub data Asks (s : Settings) (args : Arguments) (value : Text) : Type 0 where
  by_argument : args.lanes ≡ some value → Asks s args value
  by_setting : args.lanes ≡ none → s.worker_lanes ≡ value → Asks s args value

Asks-lanes_argument :
    (s : Settings) (args : Arguments) (value : Text)
    → Asks s args value
    → lanes_argument s args ≡ value
unfolding lanes_argument
Asks-lanes_argument s args value (Asks.by_argument e) = rw e refl
Asks-lanes_argument s args value (Asks.by_setting e f) = rw e f

id_of-setting :
    (s : Settings) (default : Text) (given : Option Text) (id : Text)
    → IsBlank given
    → s.worker_id ≡ some id
    → is_empty id ≡ false
    → worker_id_of given s default ≡ id
unfolding worker_id_of
id_of-setting s default given id (inl none_given) e full =
    rw (none_given, worker_id_of, e, full) refl
id_of-setting s default given id (inr empty) e full = rw (empty, worker_id_of, e, full) refl

id_of-host :
    (s : Settings) (default : Text) (given : Option Text)
    → IsBlank given
    → IsBlank s.worker_id
    → worker_id_of given s default ≡ default
unfolding worker_id_of
id_of-host s default given (inl a) (inl b) = rw (a, worker_id_of, b) refl
id_of-host s default given (inl a) (inr b) = rw (a, worker_id_of, b) refl
id_of-host s default given (inr a) (inl b) = rw (a, worker_id_of, b) refl
id_of-host s default given (inr a) (inr b) = rw (a, worker_id_of, b) refl

Identifies-worker_id_of :
    (s : Settings) (hostname pid : Text) (args : Arguments) (id : Text)
    → Identifies s hostname pid args id
    → worker_id_of args.worker_id s (default_worker_id hostname pid) ≡ id
unfolding worker_id_of default_worker_id
Identifies-worker_id_of s hostname pid args _ (Identifies.by_argument id e full) =
    rw (e, worker_id_of, full) refl
Identifies-worker_id_of s hostname pid args _ (Identifies.by_setting id blank e full) =
    id_of-setting s (default_worker_id hostname pid) args.worker_id id blank e full
Identifies-worker_id_of s hostname pid args _ (Identifies.by_host blank unset) =
    id_of-host s (default_worker_id hostname pid) args.worker_id blank unset

-- When the argument --lanes, or the setting worker_lanes where there is no argument, is the names of
-- some different lanes joined by commas, and the settings of each lane let a batch hold a text, main
-- builds a worker with these lanes, in this order, each with an empty batcher under the lane's own
-- limits; its id is the argument, else the setting, else the name of the host with the number of the
-- process, where an empty text counts as none.
pub main-builds_asked :
    (s : Settings) (hostname pid : Text) (args : Arguments) (lanes : List Lane) (id : Text)
    → Asks s args (join b',' (map lane_name lanes))
    → is_empty lanes ≡ false
    → distinct lanes ≡ true
    → All (HasRoom s) lanes
    → Identifies s hostname pid args id
    → main s hostname pid args ≡ ok (record { worker_id = id; lanes = map (idle s) lanes })
main-builds_asked s hostname pid args lanes id asks some_lane once rooms named =
    let parsed : parse_lanes (lanes_argument s args) ≡ ok lanes =
      ap parse_lanes (Asks-lanes_argument s args _ asks) ∙ parse_lanes-join lanes some_lane once in
    (main_iff s hostname pid args _).1 (
      lanes,
      parsed,
      some_lane,
      once,
      rooms,
      ap (λ w. record { worker_id = w; lanes = map (idle s) lanes })
          (sym (Identifies-worker_id_of s hostname pid args id named)),
    )
