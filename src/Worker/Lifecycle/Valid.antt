-- ===== src/Worker/Lifecycle/Valid.antt =====
-- The batchers of a worker are well formed.
use sementic_search_engine.Prelude.{ℕ, ◌≡◌, sym, subst, Option, none, some, List, [], Text}
use sementic_search_engine.Config.{Settings}
use sementic_search_engine.Schemas.{Lane}
use sementic_search_engine.Batcher.{Batch, Policy, add, take_ready, drain}
use sementic_search_engine.Batcher
use sementic_search_engine.Batcher.Invariant.{IsValid}
use sementic_search_engine.Batcher.Add.{add-IsValid}
use sementic_search_engine.Batcher.Ready.{take_ready-IsValid}
use sementic_search_engine.Batcher.Weight.{drain-groups}
use sementic_search_engine.Handler.{Engine, Libraries}
use sementic_search_engine.Worker.{Delivery, on_message}
use sementic_search_engine.Worker.Lanes.{lane_specs}
use sementic_search_engine.Worker.Lifecycle.{
  Key, State, init, update, buffer, added, is_draining, receive, begin_batch, seen,
}
use sementic_search_engine.Worker.Lifecycle.Steps.{
  Step, starts_lane, gets_ready, receives, takes, acts, misses, gives_up, ends, stops,
  cancels_loops, drains, flushes, times_out, finishes, Reach, start, next,
}

module _ (policy : Lane → Policy Delivery Key) where
  abbrev pub AllValid : (Lane → Batcher.State Delivery Key) → Type 0
  AllValid batchers = (l : Lane) → IsValid (policy l) (batchers l).groups

  pub update-AllValid :
      (l : Lane) (b : Batcher.State Delivery Key) (batchers : Lane → Batcher.State Delivery Key)
      → IsValid (policy l) b.groups
      → AllValid batchers
      → AllValid (update l b batchers)
  unfolding update
  update-AllValid Lane.query b batchers v a Lane.query = v
  update-AllValid Lane.query b batchers v a Lane.index = a Lane.index
  update-AllValid Lane.index b batchers v a Lane.query = a Lane.query
  update-AllValid Lane.index b batchers v a Lane.index = v

  buffer-AllValid :
      (at : ℕ) (l : Lane) (added : Option Delivery) (batchers : Lane → Batcher.State Delivery Key)
      → AllValid batchers
      → AllValid (buffer policy at l added batchers)
  unfolding buffer
  buffer-AllValid at l none batchers a = a
  buffer-AllValid at l (some d) batchers a =
      update-AllValid l (add (policy l) at d (batchers l)) batchers
        (add-IsValid (policy l) at d (batchers l) (a l)) a

  pub nothing-IsValid :
      (l : Lane) (b : Batcher.State Delivery Key) → b.groups ≡ [] → IsValid (policy l) b.groups
  nothing-IsValid l b e = subst (IsValid (policy l)) (sym e) tt

  module _ {V : Type 0} (lib : Libraries) (s : Settings) (engine : Engine V)
      (worker_id : Text) where
    Step-AllValid :
        {st st' : State V}
        → Step lib s engine worker_id policy st st'
        → AllValid st.batchers
        → AllValid st'.batchers
    unfolding begin_batch receive
    Step-AllValid (starts_lane l ls st p e) a = a
    Step-AllValid (gets_ready st p e) a = a
    Step-AllValid (receives confirms now id at l m st p on) a =
        buffer-AllValid at l
          (added
            (on_message {V = V} (seen s worker_id confirms now) (lane_specs s l) lib s id
              (is_draining st.phase) m).1)
          st.batchers a
    Step-AllValid (takes confirms now at l b batcher st p on alive free taken) a =
        update-AllValid l batcher st.batchers
          (take_ready-IsValid (policy l) at (st.batchers l) batcher b (a l) taken) a
    Step-AllValid (acts before after o x rest st p e) a = a
    Step-AllValid (misses before after o x rest st p i e) a = a
    Step-AllValid (gives_up before after o x rest st p i e) a = a
    Step-AllValid (ends before after o st p e) a = a
    Step-AllValid (stops st p) a = a
    Step-AllValid (cancels_loops st p) a = a
    Step-AllValid (drains l ls bs batcher st p free none_left e drained) a =
        update-AllValid l batcher st.batchers
          (nothing-IsValid l batcher
            (drain-groups (policy l) (λ d. 0) (st.batchers l) batcher bs drained))
          a
    Step-AllValid (flushes confirms now l b rest st p free e) a = a
    Step-AllValid (times_out st p) a = a
    Step-AllValid (finishes st p free none_left e) a = a

    -- In every reachable state the batcher of each lane is well formed.
    pub Reach-AllValid :
        (lanes : List Lane) (st : State V)
        → Reach lib s engine worker_id policy lanes st
        → AllValid st.batchers
    unfolding init
    Reach-AllValid lanes st start = λ l. tt
    Reach-AllValid lanes st (next r step) = Step-AllValid step (Reach-AllValid lanes _ r)
