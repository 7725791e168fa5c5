-- ===== src/Examples/Batching.antt =====
-- The batcher at work.
use sementic_search_engine.Prelude.{
  ℕ, ◌≡◌, ◌≢◌, refl, true, false, raise, some, List, [], ◌∷◌, arith, ℕ_discrete,
}
use sementic_search_engine.Batcher.{Batch, State, add, take_ready, next_round, drain, timeout}
use sementic_search_engine.Batcher.Invariant.{IsValid}
use sementic_search_engine.Batcher.Ready.{Takes, take_ready-Takes}
use sementic_search_engine.Batcher.Drain.{Drained, drain-Drained}
use sementic_search_engine.Batcher.Runs.{Call, takes, run, IsRun, run-IsRun}
use sementic_search_engine.Batcher.Timing.{Idle, Returns}
use sementic_search_engine.Batcher.Waiting.{
  Loop, looking, asleep, returned, Reach, start, later, adds, sleeps, ticks, Runs,
}
use sementic_search_engine.Batcher.Waiting.Awake.{Reach-gets_batch}
use sementic_search_engine.Examples.{policy, empty_batcher}

abbrev calls : List (Call ℕ)
calls =
    Call.adds 0 1
    ∷ Call.adds 1 12
    ∷ Call.adds 2 3
    ∷ takes 3
    ∷ Call.adds 4 5
    ∷ takes 20
    ∷ takes 21
    ∷ []

empty_IsValid : IsValid policy empty_batcher.groups
empty_IsValid = tt

run-IsRun_example : IsRun policy empty_batcher calls (run policy calls empty_batcher)
run-IsRun_example = run-IsRun policy calls empty_batcher empty_IsValid

abbrev waiting : State ℕ ℕ
waiting = record {
  groups = (0, record { first_added = 5; items = 1 ∷ []; texts = 2 }) ∷ [];
  changed = true;
}

waiting_IsValid : IsValid policy waiting.groups
waiting_IsValid = (record { nonempty = omega arith; counted = refl; keyed = (refl, tt) }, tt, tt)

take_ready-Takes_example : Takes policy 15 waiting (take_ready policy 15 waiting)
take_ready-Takes_example = take_ready-Takes policy 15 waiting waiting_IsValid

drain-Drained_example : Drained policy waiting.groups (drain policy waiting)
drain-Drained_example = drain-Drained policy waiting waiting_IsValid

some_wait : waiting.groups ≢ []
some_wait e = cc e

quiet : Idle policy 6 waiting
unfolding take_ready
quiet = refl

nap : timeout policy 6 waiting ≡ some 9
unfolding timeout
nap = refl

-- A task that looks, finds nothing due, and sleeps; an item was added before, at the time 5.
abbrev sleeping : Loop ℕ ℕ
sleeping = record {
  batcher = record waiting { changed = false };
  clock = 15;
  phase = asleep (some 15);
}

abbrev started : Loop ℕ ℕ
started = record { batcher = empty_batcher; clock = 5; phase = looking }

abbrev filled : Loop ℕ ℕ
unfolding add
filled = record started { batcher = add policy 5 1 empty_batcher }

finds_nothing :
    next_round policy 5 filled.batcher ≡ some (raise (some 10), record waiting { changed = false })
unfolding next_round add filled
finds_nothing = refl

sleeping-Reach : Reach policy sleeping
unfolding add filled
sleeping-Reach =
    later
      (later (later (start 5) (adds 1 started))
        (sleeps (some 10) (record waiting { changed = false }) filled refl finds_nothing))
      (ticks 15 (record sleeping { clock = 5 }) (omega arith))

still_waits : (batch : Batch ℕ ℕ) → sleeping.phase ≢ returned batch
still_waits batch e = cc e

is_due : Returns policy 15 sleeping.batcher
unfolding take_ready ℕ_discrete
is_due = (record { key = 0; items = 1 ∷ []; texts = 2 }, empty_batcher, refl)

Reach-gets_batch_example :
    (batch : Batch ℕ ℕ) × (s : State ℕ ℕ) × Runs policy sleeping
      (record sleeping { batcher = s; phase = returned batch })
Reach-gets_batch_example = Reach-gets_batch policy sleeping-Reach still_waits is_due
