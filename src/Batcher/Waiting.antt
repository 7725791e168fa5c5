-- ===== src/Batcher/Waiting.antt =====
-- mq/batcher.py, `next_batch` on an event loop: the task that waits for a batch, while others call `add`
-- and the clock goes on. What the task does between two awaits is one step, and reads one time.
pub mod Sound
pub mod Awake
use sementic_search_engine.Prelude.{
  ℕ, ◌+◌, ◌≤◌, ◌≡◌, true, false, Option, none, some, [], Result, ok, raise,
}
use sementic_search_engine.Batcher.{Policy, Batch, State, add, next_round}

-- Where the task is.
pub data Phase {ℓ} (T K : Type ℓ) : Type ℓ where
  -- at the top of the `while True`
  looking : Phase T K
  -- at `wait_for(self._changed.wait(), timeout)`, which gives up at that time, if any
  asleep : Option ℕ → Phase T K
  returned : Batch T K → Phase T K

pub record Loop {ℓ} (T K : Type ℓ) : Type ℓ where
  pub batcher : State T K
  pub clock : ℕ
  pub phase : Phase T K

-- When a sleep ends that begins at `now`.
abbrev pub until : ℕ → Option ℕ → Option ℕ
until now none = none
until now (some d) = some (now + d)

module _ {ℓ} {T K : Type ℓ} (p : Policy T K) where
  pub data Step : Loop T K → Loop T K → Type ℓ where
    ticks : (later : ℕ) (l : Loop T K) → l.clock ≤ later → Step l (record l { clock = later })
    adds : (x : T) (l : Loop T K) → Step l (record l { batcher = add p l.clock x l.batcher })
    -- a round that finds a batch
    finds :
        (batch : Batch T K) (s : State T K) (l : Loop T K)
        → l.phase ≡ looking
        → next_round p l.clock l.batcher ≡ some (ok batch, s)
        → Step l (record l { batcher = s; phase = returned batch })
    -- a round that finds none
    sleeps :
        (timeout : Option ℕ) (s : State T K) (l : Loop T K)
        → l.phase ≡ looking
        → next_round p l.clock l.batcher ≡ some (raise timeout, s)
        → Step l (record l { batcher = s; phase = asleep (until l.clock timeout) })
    -- the event is set
    is_woken :
        (end : Option ℕ) (l : Loop T K)
        → l.phase ≡ asleep end
        → l.batcher.changed ≡ true
        → Step l (record l { phase = looking })
    -- the TimeoutError
    times_out :
        (end : ℕ) (l : Loop T K)
        → l.phase ≡ asleep (some end)
        → end ≤ l.clock
        → Step l (record l { phase = looking })
    -- the lane's loop calls `next_batch` again
    calls_again :
        (batch : Batch T K) (l : Loop T K)
        → l.phase ≡ returned batch
        → Step l (record l { phase = looking })

  -- From an empty batcher, at any time.
  pub data Reach : Loop T K → Type ℓ where
    start :
        (now : ℕ)
        → Reach (record {
          batcher = record { groups = []; changed = false };
          clock = now;
          phase = looking;
        })
    later : {l m : Loop T K} → Reach l → Step l m → Reach m

  -- Steps of the task alone: no time passes and nothing is added.
  pub data Runs : Loop T K → Loop T K → Type ℓ where
    wakes :
        {l m : Loop T K} (end : Option ℕ)
        → l.phase ≡ asleep end
        → Step l (record l { phase = looking })
        → Runs (record l { phase = looking }) m
        → Runs l m
    returns :
        {l : Loop T K} (batch : Batch T K) (s : State T K)
        → Step l (record l { batcher = s; phase = returned batch })
        → Runs l (record l { batcher = s; phase = returned batch })
