-- ===== src/Worker/Encoding.antt =====
-- mq/worker.py, `_lane_loop` and `_process`, and mq/batcher.py, `PrioritySlot`: the batches of both
-- lanes at the one encode slot of a process. A batch's task is in the block of `_process` from
-- `self._slot.acquire(spec.priority)` to the end of the encode. A loop waits for its batch before it
-- takes the next, and `_shutdown` processes one batch after the other when the loops have ended, so
-- that a lane has one batch at a time in the block.
pub mod Within
pub mod Apart
pub mod Turns
use sementic_search_engine.Prelude.{ℕ, ◌≡◌, ◌≢◌, Bool, true, false, ite, ℕ_discrete}
use sementic_search_engine.Config.{Settings}
use sementic_search_engine.Schemas.{Lane}
use sementic_search_engine.Slot
use sementic_search_engine.Slot.{
  outside, Slot, acquire, enters, resumes, cancels_pending, cancels_granted, abandons_granted,
  abandons_pending, leaves,
}
use sementic_search_engine.Worker.Lanes.{lane_specs}

-- The slot, and the lane that the batch of each task is of; a task outside the block has none that
-- matters.
pub record State : Type 0 where
  pub slot : Slot
  pub lane : ℕ → Lane

unfoldable pub init : State
unfolding Slot.init
init = record { slot = Slot.init; lane = λ t. Lane.index }

abbrev pub assign : (ℕ → Lane) → ℕ → Lane → ℕ → Lane
assign lane t l u = ite (ℕ_discrete t u) l (lane u)

-- The step of the slot by which a task enters the block.
abbrev pub is_entry : {s u : Slot} → Slot.Step s u → Bool
is_entry (enters t priority s e) = true
is_entry (resumes t s e) = false
is_entry (cancels_pending t s e) = false
is_entry (cancels_granted t s e) = false
is_entry (abandons_granted t s e) = false
is_entry (abandons_pending t s e) = false
is_entry (leaves t s e) = false

pub data Step (s : Settings) : State → State → Type 0 where
  -- `_process` of a batch of lane `l` comes to `acquire`
  begins :
      (t : ℕ) (l : Lane) (st : State)
      → st.slot.phase t ≡ outside
      → ((u : ℕ) → st.slot.phase u ≢ outside → st.lane u ≢ l)
      → Step s st
          (record { slot = acquire t (lane_specs s l).priority st.slot; lane = assign st.lane t l })
  -- a batch in the block goes on, ends its encode, or is cancelled
  moves :
      (st : State) (u : Slot) (step : Slot.Step st.slot u)
      → is_entry step ≡ false
      → Step s st (record st { slot = u })

pub data Reach (s : Settings) : State → Type 0 where
  start : Reach s init
  later : {st st' : State} → Reach s st → Step s st st' → Reach s st'
