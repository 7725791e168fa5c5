-- ===== src/Slot.antt =====
-- mq/batcher.py, `PrioritySlot`: the one encode slot of a process. Tasks run on one event loop, so
-- what a task does between two awaits is one step; the steps of different tasks interleave freely.
-- A task awaits at most one future of the slot at a time, so a future goes by its task's number.
pub mod Heap
pub mod Release
pub mod Exclusion
pub mod Arrival
pub mod Service
use sementic_search_engine.Prelude.{
  ℕ, zero, suc, ◌+◌, ◌≡◌, Bool, true, false, ◌||◌, not, Option, none, some, List, [], ◌∷◌, ltb,
  ◌==◌, if◌then◌else◌, length, is_empty, ite, ℕ_discrete,
}

-- Where a task is in `async with slot.acquire(priority)`.
pub data Phase : Type 0 where
  -- not in the block
  outside : Phase
  -- at `await future`, and the future is pending
  waiting : Phase
  -- at `await future`, which has its result
  granted : Phase
  -- cancelled while its future was pending, which cancels the future too
  cancelled : Phase
  -- cancelled after its future had its result
  granted_cancelled : Phase
  -- in the body
  inside : Phase

-- An entry of the heap.
pub record Waiter : Type 0 where
  pub priority : ℕ
  pub seq : ℕ
  pub task : ℕ

pub record Slot : Type 0 where
  pub busy : Bool
  pub waiters : List Waiter
  pub next_seq : ℕ
  pub phase : ℕ → Phase

abbrev pub update : (ℕ → Phase) → ℕ → Phase → ℕ → Phase
update f t x u = ite (ℕ_discrete t u) x (f u)

unfoldable pub init : Slot
init = record { busy = false; waiters = []; next_seq = 0; phase = λ t. outside }

-- The order of the tuples: by priority, then by sequence number, which no two waiters share.
abbrev pub before : Waiter → Waiter → Bool
before v w =
    if ltb v.priority w.priority
    then true
    else if ltb w.priority v.priority
    then false
    else ltb v.seq w.seq

-- heapq.heappop: the least entry and the others. The order of the others is not modelled.
unfoldable pub heappop : List Waiter → Option (Waiter × List Waiter)
heappop [] = none
heappop (w ∷ ws) = elim (heappop ws) [
  | none ↦ some (w, [])
  | some (m, rest) ↦ if before w m then some (w, ws) else some (m, w ∷ rest)
]

-- future.done()
abbrev pub is_done : Phase → Bool
is_done outside = true
is_done waiting = false
is_done granted = true
is_done cancelled = true
is_done granted_cancelled = true
is_done inside = true

-- The `while` loop of `_release`, with the number of waiters as its fuel.
unfoldable pub release_loop : ℕ → Slot → Slot
release_loop zero s = record s { busy = false }
release_loop (suc fuel) s = elim (heappop s.waiters) [
  | none ↦ record s { busy = false }
  | some (w, rest) ↦ elim (is_done (s.phase w.task)) [
    | true ↦ release_loop fuel (record s { waiters = rest })
    | false ↦ record s { waiters = rest; phase = update s.phase w.task granted }
  ]
]

unfoldable pub release : Slot → Slot
release s = release_loop (length s.waiters) s

-- self._waiters = [w for w in self._waiters if w[2] is not future], as a heap again
unfoldable pub drop_task : ℕ → List Waiter → List Waiter
drop_task t [] = []
drop_task t (w ∷ ws) = let rest = drop_task t ws in if w.task == t then rest else w ∷ rest

-- The first part of `acquire`: enter at once, or push an entry and await its future.
unfoldable pub acquire : ℕ → ℕ → Slot → Slot
acquire t priority s =
    if s.busy || not (is_empty s.waiters)
    then record {
      busy = s.busy;
      waiters = record { priority = priority; seq = s.next_seq; task = t } ∷ s.waiters;
      next_seq = s.next_seq + 1;
      phase = update s.phase t waiting;
    }
    else record s { busy = true; phase = update s.phase t inside }

-- The `except asyncio.CancelledError` branch, by the state of the future.
unfoldable pub abandon_granted : ℕ → Slot → Slot
unfolding release
abandon_granted t s = release (record s { phase = update s.phase t outside })

unfoldable pub abandon_pending : ℕ → Slot → Slot
unfolding drop_task
abandon_pending t s = record s { waiters = drop_task t s.waiters; phase = update s.phase t outside }

-- The `finally` branch, when the body ends or raises.
unfoldable pub leave : ℕ → Slot → Slot
unfolding release
leave t s = release (record s { phase = update s.phase t outside })

-- One step of one task, or its cancellation by another.
pub data Step : Slot → Slot → Type 0 where
  enters : (t priority : ℕ) (s : Slot) → s.phase t ≡ outside → Step s (acquire t priority s)
  resumes :
      (t : ℕ) (s : Slot)
      → s.phase t ≡ granted
      → Step s (record s { phase = update s.phase t inside })
  cancels_pending :
      (t : ℕ) (s : Slot)
      → s.phase t ≡ waiting
      → Step s (record s { phase = update s.phase t cancelled })
  cancels_granted :
      (t : ℕ) (s : Slot)
      → s.phase t ≡ granted
      → Step s (record s { phase = update s.phase t granted_cancelled })
  abandons_granted :
      (t : ℕ) (s : Slot) → s.phase t ≡ granted_cancelled → Step s (abandon_granted t s)
  abandons_pending : (t : ℕ) (s : Slot) → s.phase t ≡ cancelled → Step s (abandon_pending t s)
  leaves : (t : ℕ) (s : Slot) → s.phase t ≡ inside → Step s (leave t s)

pub data Reach : Slot → Type 0 where
  start : Reach init
  later : {s u : Slot} → Reach s → Step s u → Reach u
