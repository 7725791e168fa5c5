-- ===== src/Worker/Lifecycle/Runs.antt =====
-- Steps of a worker that lead somewhere without an ack or a nack that raises.
use sementic_search_engine.Prelude.{◌≡◌, ◌≢◌, refl, sym, subst, ◌∙◌, List, [], Text}
use sementic_search_engine.Config.{Settings}
use sementic_search_engine.Schemas.{Lane}
use sementic_search_engine.Batcher.{Batch, Policy}
use sementic_search_engine.Handler.{Engine, Libraries}
use sementic_search_engine.Worker.{Delivery}
use sementic_search_engine.Worker.Lifecycle.{Key, flushing, closed, Owner, Task, State, Free}
use sementic_search_engine.Worker.Lifecycle.Steps.{Step, Reach, next}
use sementic_search_engine.Worker.Lifecycle.Valid.{AllValid}

module _ {V : Type 0} (lib : Libraries) (s : Settings) (engine : Engine V) (worker_id : Text)
    (policy : Lane → Policy Delivery Key) where
  -- Any number of steps.
  pub data Steps : State V → State V → Type 0 where
    here : {st : State V} → Steps st st
    then :
        {st mid st' : State V}
        → Step lib s engine worker_id policy st mid
        → Steps mid st'
        → Steps st st'

  pub Steps-trans : {st mid st' : State V} → Steps st mid → Steps mid st' → Steps st st'
  Steps-trans here b = b
  Steps-trans (then x a) b = then x (Steps-trans a b)

  pub Steps-Reach :
      (lanes : List Lane) {st st' : State V}
      → Steps st st'
      → Reach lib s engine worker_id policy lanes st
      → Reach lib s engine worker_id policy lanes st'
  Steps-Reach lanes here r = r
  Steps-Reach lanes (then x a) r = Steps-Reach lanes a (next r x)

  -- A state of the shutdown with these tasks, this backlog and these lanes to drain.
  pub record At (st : State V) (ts : List (Task V)) (bs : List (Lane × Batch Delivery Key))
      (ls : List Lane) : Type 0 where
    pub phase : st.phase ≡ flushing
    pub tasks : st.tasks ≡ ts
    pub backlog : st.backlog ≡ bs
    pub lanes : st.to_flush ≡ ls
    pub valid : AllValid policy st.batchers

  -- Steps without an ack or a nack that raises, and without a new message, that lead there.
  pub record Left (st : State V) (ts : List (Task V)) (bs : List (Lane × Batch Delivery Key))
      (ls : List Lane) : Type 0 where
    pub last : State V
    pub steps : Steps st last
    pub reached : At last ts bs ls
    pub same_received : last.received ≡ st.received
    pub same_abandoned : last.abandoned ≡ st.abandoned

  pub stay :
      {ts : List (Task V)} {bs : List (Lane × Batch Delivery Key)} {ls : List Lane} (st : State V)
      → At st ts bs ls
      → Left st ts bs ls
  stay st a = record {
    last = st;
    steps = here;
    reached = a;
    same_received = refl;
    same_abandoned = refl;
  }

  pub Free-none : (o : Owner) (st : State V) → st.tasks ≡ [] → Free o st.tasks
  Free-none o st e = subst (Free o) (sym e) tt

  pub not_closed : (st : State V) → st.phase ≡ flushing → st.phase ≢ closed
  not_closed st e h = cc

  -- What is done from there on.
  pub chain :
      {ts ts' : List (Task V)} {bs bs' : List (Lane × Batch Delivery Key)} {ls ls' : List Lane}
      {st : State V}
      → Left st ts bs ls
      → ((mid : State V) → At mid ts bs ls → Left mid ts' bs' ls')
      → Left st ts' bs' ls'
  chain a f =
      let b = f a.last a.reached in
      record {
        last = b.last;
        steps = Steps-trans a.steps b.steps;
        reached = b.reached;
        same_received = b.same_received ∙ a.same_received;
        same_abandoned = b.same_abandoned ∙ a.same_abandoned;
      }

  -- One step.
  pub one_step :
      {ts : List (Task V)} {bs : List (Lane × Batch Delivery Key)} {ls : List Lane}
      {st mid : State V}
      → Step lib s engine worker_id policy st mid
      → At mid ts bs ls
      → mid.received ≡ st.received
      → mid.abandoned ≡ st.abandoned
      → Left st ts bs ls
  one_step {mid = mid} x a e f = record {
    last = mid;
    steps = then x here;
    reached = a;
    same_received = e;
    same_abandoned = f;
  }
