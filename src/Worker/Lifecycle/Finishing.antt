-- ===== src/Worker/Lifecycle/Finishing.antt =====
-- The shutdown can always end gracefully.
use sementic_search_engine.Prelude.{
  ℕ, ◌+◌, ◌≡◌, ◌≢◌, refl, ap, List, [], ◌∷◌, arith, Text, true, false,
}
use sementic_search_engine.Config.{Settings}
use sementic_search_engine.Schemas.{Lane}
use sementic_search_engine.Batcher.{Batch, Policy}
use sementic_search_engine.Batcher.Drain.{drain-Drained}
use sementic_search_engine.Batcher.Fill.{total}
use sementic_search_engine.Handler.{Engine, Libraries}
use sementic_search_engine.Worker.{Delivery, Action, process}
use sementic_search_engine.Worker.Lanes.{lane_specs}
use sementic_search_engine.Worker.Settlement.{settled}
use sementic_search_engine.Worker.Lifecycle.{
  Key, Phase, starting, ready, stopping, flushing, closed, is_draining, Owner, shutdown, Task,
  State, tagged, seen, begin_batch,
}
use sementic_search_engine.Worker.Lifecycle.Steps.{
  stops, cancels_loops, acts, ends, drains, flushes, finishes, Reach,
}
use sementic_search_engine.Worker.Lifecycle.Valid.{
  AllValid, update-AllValid, nothing-IsValid, Reach-AllValid,
}
use sementic_search_engine.Worker.Lifecycle.Accounts.{due}
use sementic_search_engine.Worker.Lifecycle.Flushed.{Reach-flushed}
use sementic_search_engine.Worker.Lifecycle.Runs.{
  Steps, here, then, At, Left, Steps-trans, Steps-Reach, stay, Free-none, not_closed, chain,
  one_step,
}

module _ {V : Type 0} (lib : Libraries) (s : Settings) (engine : Engine V) (worker_id : Text)
    (policy : Lane → Policy Delivery Key) where
  -- The first task takes its actions and ends.
  finish_task :
      (o : Owner) (as' : List (Action V)) (ts : List (Task V))
      (bs : List (Lane × Batch Delivery Key)) (ls : List Lane) (st : State V)
      → At lib s engine worker_id policy st ((o, as') ∷ ts) bs ls
      → Left lib s engine worker_id policy st ts bs ls
  finish_task o [] ts bs ls st a =
      one_step lib s engine worker_id policy
        (ends [] ts o st (not_closed lib s engine worker_id policy st a.phase) a.tasks)
        (record {
          phase = a.phase;
          tasks = refl;
          backlog = a.backlog;
          lanes = a.lanes;
          valid = a.valid;
        })
        refl refl
  finish_task o (x ∷ as') ts bs ls st a =
      chain lib s engine worker_id policy
        (one_step lib s engine worker_id policy
          (acts [] ts o x as' st (not_closed lib s engine worker_id policy st a.phase) a.tasks)
          (record {
            phase = a.phase;
            tasks = refl;
            backlog = a.backlog;
            lanes = a.lanes;
            valid = a.valid;
          })
          refl refl)
        (λ mid b. finish_task o as' ts bs ls mid b)

  finish_tasks :
      (ts : List (Task V)) (bs : List (Lane × Batch Delivery Key)) (ls : List Lane) (st : State V)
      → At lib s engine worker_id policy st ts bs ls
      → Left lib s engine worker_id policy st [] bs ls
  finish_tasks [] bs ls st a = stay lib s engine worker_id policy st a
  finish_tasks ((o, as') ∷ ts) bs ls st a =
      chain lib s engine worker_id policy (finish_task o as' ts bs ls st a)
        (λ mid b. finish_tasks ts bs ls mid b)

  flush_all :
      (bs : List (Lane × Batch Delivery Key)) (ls : List Lane) (st : State V)
      → At lib s engine worker_id policy st [] bs ls
      → Left lib s engine worker_id policy st [] [] ls
  unfolding begin_batch
  flush_all [] ls st a = stay lib s engine worker_id policy st a
  flush_all ((l, b) ∷ bs) ls st a =
      chain lib s engine worker_id policy
        (one_step lib s engine worker_id policy
          (flushes (λ t. true) (λ t. 0) l b bs st a.phase
            (Free-none lib s engine worker_id policy shutdown st a.tasks) a.backlog)
          (record {
            phase = a.phase;
            tasks =
                ap
                  (λ ts.
                    (
                      shutdown,
                      process (seen s worker_id (λ t. true) (λ t. 0)) (lane_specs s l) engine
                          b.items,
                    )
                    ∷ ts)
                  a.tasks;
            backlog = refl;
            lanes = a.lanes;
            valid = a.valid;
          })
          refl refl)
        (λ mid c.
          chain lib s engine worker_id policy (finish_task shutdown _ [] bs ls mid c)
            (λ end d. flush_all bs ls end d))

  drain_all :
      (ls : List Lane) (st : State V)
      → At lib s engine worker_id policy st [] [] ls
      → Left lib s engine worker_id policy st [] [] []
  drain_all [] st a = stay lib s engine worker_id policy st a
  drain_all (l ∷ ls) st a =
      let d = drain-Drained (policy l) (st.batchers l) (a.valid l) in
      chain lib s engine worker_id policy
        (one_step lib s engine worker_id policy
          (drains l ls d.batches d.final st a.phase
            (
              Free-none lib s engine worker_id policy (Owner.loop Lane.query) st a.tasks,
              Free-none lib s engine worker_id policy (Owner.loop Lane.index) st a.tasks,
              Free-none lib s engine worker_id policy shutdown st a.tasks,
            )
            a.backlog a.lanes d.result)
          (record {
            phase = a.phase;
            tasks = a.tasks;
            backlog = refl;
            lanes = refl;
            valid =
                update-AllValid policy l d.final st.batchers
                  (nothing-IsValid policy l d.final d.emptied) a.valid;
          })
          refl refl)
        (λ mid c.
          chain lib s engine worker_id policy (flush_all (tagged l d.batches) ls mid c)
            (λ end e. drain_all ls end e))

  -- From `stopping` on, or before it.
  cancel :
      (st : State V)
      → st.phase ≡ stopping
      → AllValid policy st.batchers
      → Left lib s engine worker_id policy st st.tasks st.backlog st.to_flush
  cancel st p v =
      one_step lib s engine worker_id policy (cancels_loops st p)
        (record { phase = refl; tasks = refl; backlog = refl; lanes = refl; valid = v }) refl refl

  stop :
      (st : State V)
      → is_draining st.phase ≡ false
      → AllValid policy st.batchers
      → Left lib s engine worker_id policy st st.tasks st.backlog st.to_flush
  stop st p v =
      let a = cancel (record st { phase = stopping }) refl v in
      record {
        last = a.last;
        steps = then (stops st p) a.steps;
        reached = a.reached;
        same_received = a.same_received;
        same_abandoned = a.same_abandoned;
      }

  begin_flush :
      (phase : Phase) (st : State V)
      → st.phase ≡ phase
      → phase ≢ closed
      → AllValid policy st.batchers
      → Left lib s engine worker_id policy st st.tasks st.backlog st.to_flush
  unfolding is_draining
  begin_flush starting st p open_still v = stop st (rw p refl) v
  begin_flush ready st p open_still v = stop st (rw p refl) v
  begin_flush stopping st p open_still v = cancel st p v
  begin_flush flushing st p open_still v =
      stay lib s engine worker_id policy st
        (record { phase = p; tasks = refl; backlog = refl; lanes = refl; valid = v })
  begin_flush closed st p open_still v = absurd (open_still refl)

  -- From every reachable state in which the worker is not closed, it can go on, without another
  -- ack or nack that raises, until the shutdown ends with empty batchers and with every message settled
  -- that came in, except those that were left unsettled before, by an ack, a nack or a parse that raised,
  -- for every measure of tags.
  pub Reach-can_finish :
      (lanes : List Lane) (st : State V) (f : ℕ → ℕ)
      → Reach lib s engine worker_id policy lanes st
      → st.phase ≢ closed
      → (end : State V) × (Steps lib s engine worker_id policy st end
          × (end.phase ≡ closed)
          × (end.abandoned ≡ st.abandoned)
          × ((l : Lane) → (end.batchers l).groups ≡ [])
          × (total f (settled end.log) + total f end.abandoned ≡ total (λ m. f m.tag) st.received))
  Reach-can_finish lanes st f r p =
      let a : Left lib s engine worker_id policy st [] [] [] =
        chain lib s engine worker_id policy
          (chain lib s engine worker_id policy
            (chain lib s engine worker_id policy
              (begin_flush st.phase st refl p
                (Reach-AllValid policy lib s engine worker_id lanes st r))
              (λ mid b. finish_tasks st.tasks st.backlog st.to_flush mid b))
            (λ mid b. flush_all st.backlog st.to_flush mid b))
          (λ mid b. drain_all st.to_flush mid b) in
      let e = a.reached in
      let flushed =
        Reach-flushed lib s engine worker_id policy lanes f a.last
          (Steps-Reach lib s engine worker_id policy lanes a.steps r) e.lanes e.backlog in
      let close =
        finishes a.last e.phase
          (
            Free-none lib s engine worker_id policy (Owner.loop Lane.query) a.last e.tasks,
            Free-none lib s engine worker_id policy (Owner.loop Lane.index) a.last e.tasks,
            Free-none lib s engine worker_id policy shutdown a.last e.tasks,
          )
          e.backlog e.lanes in
      (
        record a.last { phase = closed },
        (
          Steps-trans lib s engine worker_id policy a.steps (then close here),
          refl,
          a.same_abandoned,
          flushed.0,
          omega (arith, flushed.1, ap (due f) e.tasks, ap (total (λ m. f m.tag)) a.same_received),
        ),
      )
