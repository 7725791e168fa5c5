-- ===== src/Worker/Lifecycle/Steps.antt =====
-- mq/worker.py, `run`, `_start_lane`, `_on_message`, `_lane_loop` and `_shutdown`: the steps of a
-- worker.
use sementic_search_engine.Prelude.{ℕ, ◌≡◌, ◌≢◌, Bool, true, false, some, List, [], ◌∷◌, ◌++◌, Text}
use sementic_search_engine.Config.{Settings}
use sementic_search_engine.Schemas.{Lane}
use sementic_search_engine.Batcher.{Batch, Policy, take_ready, drain}
use sementic_search_engine.Batcher
use sementic_search_engine.Handler.{Engine, Libraries}
use sementic_search_engine.Worker.{Message, Delivery, Action}
use sementic_search_engine.Worker.Settlement.{settled}
use sementic_search_engine.Worker.Lanes.{has_lane}
use sementic_search_engine.Worker.Lifecycle.{
  Key, starting, ready, stopping, flushing, closed, is_draining, Owner, callback, loop, shutdown,
  Task, State, init, update, Free, break_loop, break_phase, is_settlement, tagged, seen, receive,
  begin_batch,
}

module _ {V : Type 0} (lib : Libraries) (s : Settings) (engine : Engine V) (worker_id : Text)
    (policy : Lane → Policy Delivery Key) where
  pub data Step : State V → State V → Type 0 where
    -- `_start_lane`
    starts_lane :
        (l : Lane) (ls : List Lane) (st : State V)
        → st.phase ≡ starting
        → st.to_start ≡ l ∷ ls
        → Step st (record st { to_start = ls; started = l ∷ st.started })
    -- self._ready.set()
    gets_ready :
        (st : State V)
        → st.phase ≡ starting
        → st.to_start ≡ []
        → Step st (record st { phase = ready })
    -- `_on_message`
    receives :
        (confirms : ℕ → Bool) (now : ℕ → ℕ) (new_job_id : Text) (at : ℕ) (l : Lane) (m : Message)
        (st : State V)
        → st.phase ≢ closed
        → has_lane l st.started ≡ true
        → Step st (receive lib s policy (seen s worker_id confirms now) new_job_id at l m st)
    -- `_lane_loop`, which has no other batch in flight
    takes :
        (confirms : ℕ → Bool) (now : ℕ → ℕ) (at : ℕ) (l : Lane) (b : Batch Delivery Key)
        (batcher : Batcher.State Delivery Key) (st : State V)
        → (st.phase ≢ flushing) × (st.phase ≢ closed)
        → has_lane l st.started ≡ true
        → has_lane l st.broken ≡ false
        → Free (loop l) st.tasks
        → take_ready (policy l) at (st.batchers l) ≡ some (some b, batcher)
        → Step st (
            begin_batch s engine
              (seen s worker_id confirms now)
              (loop l)
              l
              b
              (record st { batchers = update l batcher st.batchers }))
    -- a task takes its next action
    acts :
        (before after : List (Task V)) (o : Owner) (a : Action V) (rest : List (Action V))
        (st : State V)
        → st.phase ≢ closed
        → st.tasks ≡ before ++ (o, a ∷ rest) ∷ after
        → Step st (record st { tasks = before ++ (o, rest) ∷ after; log = a ∷ st.log })
    -- an ack or a nack raises, and with it the task; its other actions go on, since `gather` does not
    -- cancel them
    misses :
        (before after : List (Task V)) (o : Owner) (a : Action V) (rest : List (Action V))
        (st : State V)
        → st.phase ≢ closed
        → is_settlement a ≡ true
        → st.tasks ≡ before ++ (o, a ∷ rest) ∷ after
        → Step st (record st {
          phase = break_phase o st.phase;
          tasks = before ++ (callback, rest) ∷ after;
          abandoned = settled (a ∷ []) ++ st.abandoned;
          broken = break_loop o st.broken;
        })
    -- an ack or a nack raises, and the task skips its other actions
    gives_up :
        (before after : List (Task V)) (o : Owner) (a : Action V) (rest : List (Action V))
        (st : State V)
        → st.phase ≢ closed
        → is_settlement a ≡ true
        → st.tasks ≡ before ++ (o, a ∷ rest) ∷ after
        → Step st (record st {
          phase = break_phase o st.phase;
          tasks = before ++ (o, []) ∷ after;
          abandoned = settled (a ∷ rest) ++ st.abandoned;
          broken = break_loop o st.broken;
        })
    -- a task ends
    ends :
        (before after : List (Task V)) (o : Owner) (st : State V)
        → st.phase ≢ closed
        → st.tasks ≡ before ++ (o, []) ∷ after
        → Step st (record st { tasks = before ++ after })
    -- `_shutdown` begins: `stop` was called, `run` was cancelled, or the start failed
    stops : (st : State V) → is_draining st.phase ≡ false → Step st (record st { phase = stopping })
    -- the lane loops are cancelled; the batches in flight are shielded
    cancels_loops : (st : State V) → st.phase ≡ stopping → Step st (record st { phase = flushing })
    -- lane.batcher.drain(), once no batch is in flight
    drains :
        (l : Lane) (ls : List Lane) (bs : List (Batch Delivery Key))
        (batcher : Batcher.State Delivery Key) (st : State V)
        → st.phase ≡ flushing
        → Free (loop Lane.query) st.tasks × Free (loop Lane.index) st.tasks × Free shutdown st.tasks
        → st.backlog ≡ []
        → st.to_flush ≡ l ∷ ls
        → drain (policy l) (st.batchers l) ≡ some (bs, batcher)
        → Step st (record st {
          batchers = update l batcher st.batchers;
          to_flush = ls;
          backlog = tagged l bs;
        })
    -- self._process(lane, batch), one after the other
    flushes :
        (confirms : ℕ → Bool) (now : ℕ → ℕ) (l : Lane) (b : Batch Delivery Key)
        (rest : List (Lane × Batch Delivery Key)) (st : State V)
        → st.phase ≡ flushing
        → Free shutdown st.tasks
        → st.backlog ≡ (l, b) ∷ rest
        → Step st (
            begin_batch s engine
              (seen s worker_id confirms now)
              shutdown
              l
              b
              (record st { backlog = rest }))
    -- the grace period is over: what is unfinished is abandoned
    times_out : (st : State V) → st.phase ≡ flushing → Step st (record st { phase = closed })
    -- everything is flushed in time
    finishes :
        (st : State V)
        → st.phase ≡ flushing
        → Free (loop Lane.query) st.tasks × Free (loop Lane.index) st.tasks × Free shutdown st.tasks
        → st.backlog ≡ []
        → st.to_flush ≡ []
        → Step st (record st { phase = closed })

  pub data Reach (lanes : List Lane) : State V → Type 0 where
    start : Reach lanes (init lanes)
    next : {st st' : State V} → Reach lanes st → Step st st' → Reach lanes st'
