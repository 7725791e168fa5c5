-- ===== src/Worker/Lifecycle/Honest.antt =====
-- Whatever a worker replies, in its whole life, answers a message that it received.
use sementic_search_engine.Prelude.{
  Result, ok, raise, inl, inr, ℕ, ◌≡◌, refl, subst, Bool, Option, none, some, List, [], ◌∷◌, All,
  All-imp, Text,
}
use sementic_search_engine.Config.{Settings}
use sementic_search_engine.Schemas.{Lane, InputType}
use sementic_search_engine.Batcher.{Batch, Policy, Groups, add, take_ready, drain}
use sementic_search_engine.Batcher
use sementic_search_engine.Batcher.Items.{
  Holds, Held, Holds-imp, add-Holds, take_ready-Holds, drain-Holds,
}
use sementic_search_engine.Handler.{Uncaught, Engine, Libraries}
use sementic_search_engine.Handler.Splitting.{IsPointwise}
use sementic_search_engine.Worker.{
  Message, Delivery, Action, counts, publishes, acks, nacks, Outside, on_message, process,
}
use sementic_search_engine.Worker.Lanes.{lane_specs}
use sementic_search_engine.Worker.Origins.{
  IsOwed, Known, IsOwed-more, process-IsOwed, Handles, on_message-Handles,
}
use sementic_search_engine.Worker.Lifecycle.{
  added, Key, is_draining, callback, Task, State, init, update, buffer, tagged, seen, receive,
  begin_batch,
}
use sementic_search_engine.Worker.Lifecycle.Tasks.{changed, ended, at_task}
use sementic_search_engine.Worker.Lifecycle.Steps.{
  Step, starts_lane, gets_ready, receives, takes, acts, misses, gives_up, ends, stops,
  cancels_loops, drains, flushes, times_out, finishes, Reach, start, next,
}

module _ {V : Type 0} (lib : Libraries) (s : Settings) (engine : Engine V) (worker_id : Text)
    (policy : Lane → Policy Delivery Key) (vector : InputType → Bool → Text → V)
    (cut : InputType → Bool → Text → Bool) where
  abbrev Owed : List Message → List (Action V) → Type 0
  Owed ms = All (IsOwed lib s engine worker_id vector cut ms)

  abbrev OfKnown : List Message → List Delivery → Type 0
  OfKnown ms = All (Known lib s engine worker_id vector cut ms)

  -- Every delivery is of a message received, and every reply, made or to be made, answers one.
  record IsHonest (ms : List Message) (batchers : Lane → Batcher.State Delivery Key)
      (backlog : List (Lane × Batch Delivery Key)) (tasks : List (Task V)) (log : List (Action V))
      : Type 0 where
    buffered : (l : Lane) → Holds (Known lib s engine worker_id vector cut ms) (batchers l).groups
    waiting : All (λ e. OfKnown ms e.1.items) backlog
    running : All (λ t. Owed ms t.1) tasks
    logged : Owed ms log

  abbrev Honest : State V → Type 0
  Honest st = IsHonest st.received st.batchers st.backlog st.tasks st.log

  -- A further message.
  grown :
      (m : Message) (ms : List Message) (batchers : Lane → Batcher.State Delivery Key)
      (backlog : List (Lane × Batch Delivery Key)) (tasks : List (Task V)) (log : List (Action V))
      → IsHonest ms batchers backlog tasks log
      → IsHonest (m ∷ ms) batchers backlog tasks log
  grown m ms batchers backlog tasks log a =
      let owed : (as' : List (Action V)) → Owed ms as' → Owed (m ∷ ms) as' =
        λ as' h. All-imp _ (IsOwed-more lib s engine worker_id vector cut m ms) as' h in
      record {
        buffered = λ l. Holds-imp (λ d h. inr h) (batchers l).groups (a.buffered l);
        waiting = All-imp _ (λ e h. All-imp _ (λ d i. inr i) e.1.items h) backlog a.waiting;
        running = All-imp _ (λ t h. owed t.1 h) tasks a.running;
        logged = owed log a.logged;
      }

  updated :
      (ms : List Message) (l : Lane) (b : Batcher.State Delivery Key)
      (batchers : Lane → Batcher.State Delivery Key)
      → Holds (Known lib s engine worker_id vector cut ms) b.groups
      → ((k : Lane) → Holds (Known lib s engine worker_id vector cut ms) (batchers k).groups)
      → (k : Lane)
      → Holds (Known lib s engine worker_id vector cut ms) (update l b batchers k).groups
  unfolding update
  updated ms Lane.query b batchers h a Lane.query = h
  updated ms Lane.query b batchers h a Lane.index = a Lane.index
  updated ms Lane.index b batchers h a Lane.query = a Lane.query
  updated ms Lane.index b batchers h a Lane.index = h

  tagged-OfKnown :
      (ms : List Message) (l : Lane) (bs : List (Batch Delivery Key))
      → Held (Known lib s engine worker_id vector cut ms) bs
      → All (λ e. OfKnown ms e.1.items) (tagged l bs)
  tagged-OfKnown ms l [] h = tt
  tagged-OfKnown ms l (b ∷ bs) h = (h.0, tagged-OfKnown ms l bs h.1)

  first :
      (m : Message) (ms : List Message) (a : Action V)
      → IsOwed lib s engine worker_id vector cut (m ∷ []) a
      → IsOwed lib s engine worker_id vector cut (m ∷ ms) a
  first m ms (counts l k) h = tt
  first m ms (publishes t k p n c r) (inl h) = inl h
  first m ms (publishes t k p n c r) (inr h) = absurd h
  first m ms (acks t) h = tt
  first m ms (nacks t q) h = tt

  unbuffered :
      (m : Message) (ms : List Message) (batchers : Lane → Batcher.State Delivery Key)
      (backlog : List (Lane × Batch Delivery Key)) (tasks : List (Task V))
      (log done : List (Action V))
      → All (IsOwed lib s engine worker_id vector cut (m ∷ [])) done
      → IsHonest ms batchers backlog tasks log
      → IsHonest (m ∷ ms) batchers backlog ((callback, done) ∷ tasks) log
  unbuffered m ms batchers backlog tasks log done h a =
      let g = grown m ms batchers backlog tasks log a in
      record {
        buffered = g.buffered;
        waiting = g.waiting;
        running = (All-imp _ (λ x i. first m ms x i) done h, g.running);
        logged = g.logged;
      }

  -- The item of a callback goes into the batcher.
  handled :
      (out : Outside) (same_worker : out.worker_id ≡ worker_id) (at : ℕ) (l : Lane) (m : Message)
      (ms : List Message) (batchers : Lane → Batcher.State Delivery Key)
      (backlog : List (Lane × Batch Delivery Key)) (tasks : List (Task V)) (log : List (Action V))
      (h : List (Action V) × Result Uncaught (Option Delivery))
      → Handles lib s engine worker_id vector cut out (lane_specs s l) same_worker m h
      → IsHonest ms batchers backlog tasks log
      → IsHonest
          (m ∷ ms)
          (buffer policy at l (added h.1) batchers)
          backlog
          ((callback, h.0) ∷ tasks)
          log
  unfolding buffer
  handled out same_worker at l m ms batchers backlog tasks log (done, ok none) h a =
      unbuffered m ms batchers backlog tasks log done h a
  handled out same_worker at l m ms batchers backlog tasks log (done, raise exc) h a =
      unbuffered m ms batchers backlog tasks log done h a
  handled out same_worker at l m ms batchers backlog tasks log (done, ok (some d)) h a =
      let g = grown m ms batchers backlog tasks log a in
      record {
        buffered =
            updated (m ∷ ms) l (add (policy l) at d (batchers l)) batchers
              (add-Holds (policy l) (Known lib s engine worker_id vector cut (m ∷ ms)) at d
                (batchers l) (inl h.1) (g.buffered l))
              g.buffered;
        waiting = g.waiting;
        running = (All-imp _ (λ x i. first m ms x i) done h.0, g.running);
        logged = g.logged;
      }

  module _ (pw : IsPointwise engine vector cut) where
    begun :
        (out : Outside)
        → out.worker_id ≡ worker_id
        → (l : Lane) (b : Batch Delivery Key) (ms : List Message) → OfKnown ms b.items
        → Owed ms (process out (lane_specs s l) engine b.items)
    begun out same l b ms known =
        process-IsOwed lib s engine worker_id vector cut out (lane_specs s l) same b.items ms pw
          known

    Step-Honest :
        {st st' : State V} → Step lib s engine worker_id policy st st' → Honest st → Honest st'
    unfolding receive begin_batch
    Step-Honest (starts_lane l ls st p e) a = a
    Step-Honest (gets_ready st p e) a = a
    Step-Honest (receives confirms now id at l m st p on) a =
        let out : Outside = seen s worker_id confirms now in
        handled out refl at l m st.received st.batchers st.backlog st.tasks st.log
          (on_message out (lane_specs s l) lib s id (is_draining st.phase) m)
          (on_message-Handles lib s engine worker_id vector cut out (lane_specs s l) refl id
            (is_draining st.phase) m)
          a
    Step-Honest (takes confirms now at l b batcher st p on alive free taken) a =
        let h =
          take_ready-Holds (policy l) (Known lib s engine worker_id vector cut st.received) at
            (st.batchers l) batcher b taken (a.buffered l) in
        record {
          buffered = updated st.received l batcher st.batchers h.1 a.buffered;
          waiting = a.waiting;
          running = (begun (seen s worker_id confirms now) refl l b st.received h.0, a.running);
          logged = a.logged;
        }
    Step-Honest (acts before after o x rest st p e) a = record {
      buffered = a.buffered;
      waiting = a.waiting;
      running =
          changed (Owed st.received) before after st.tasks o o (x ∷ rest) rest e a.running
            (λ h. h.1);
      logged =
          ((at_task (Owed st.received) before after st.tasks o (x ∷ rest) e a.running).0, a.logged);
    }
    Step-Honest (misses before after o x rest st p i e) a = record {
      buffered = a.buffered;
      waiting = a.waiting;
      running =
          changed (Owed st.received) before after st.tasks o callback (x ∷ rest) rest e a.running
            (λ h. h.1);
      logged = a.logged;
    }
    Step-Honest (gives_up before after o x rest st p i e) a = record {
      buffered = a.buffered;
      waiting = a.waiting;
      running =
          changed (Owed st.received) before after st.tasks o o (x ∷ rest) [] e a.running (λ h. tt);
      logged = a.logged;
    }
    Step-Honest (ends before after o st p e) a = record {
      buffered = a.buffered;
      waiting = a.waiting;
      running = ended (Owed st.received) before after st.tasks o e a.running;
      logged = a.logged;
    }
    Step-Honest (stops st p) a = a
    Step-Honest (cancels_loops st p) a = a
    Step-Honest (drains l ls bs batcher st p free none_left e drained) a =
        let h =
          drain-Holds (policy l) (Known lib s engine worker_id vector cut st.received)
            (st.batchers l) batcher bs drained (a.buffered l) in
        record {
          buffered = updated st.received l batcher st.batchers h.1 a.buffered;
          waiting = tagged-OfKnown st.received l bs h.0;
          running = a.running;
          logged = a.logged;
        }
    Step-Honest (flushes confirms now l b rest st p free e) a =
        let h : All (λ x. OfKnown st.received x.1.items) ((l, b) ∷ rest) =
          subst (All (λ x. OfKnown st.received x.1.items)) e a.waiting in
        record {
          buffered = a.buffered;
          waiting = h.1;
          running = (begun (seen s worker_id confirms now) refl l b st.received h.0, a.running);
          logged = a.logged;
        }
    Step-Honest (times_out st p) a = a
    Step-Honest (finishes st p free none_left e) a = a

    Reach-Honest :
        (lanes : List Lane) (st : State V)
        → Reach lib s engine worker_id policy lanes st
        → Honest st
    unfolding init
    Reach-Honest lanes st start = record {
      buffered = λ l. tt;
      waiting = tt;
      running = tt;
      logged = tt;
    }
    Reach-Honest lanes st (next r step) = Step-Honest step (Reach-Honest lanes _ r)

    -- When the engine encodes each text by itself, every reply that a worker publishes in its whole life
    -- answers a message that it received: it goes where that message asks, under its correlation id or
    -- else the id of the reply's job, and is an error without vectors or says the vectors of the texts of
    -- the job that is read from that message.
    pub Reach-owed :
        (lanes : List Lane) (st : State V)
        → Reach lib s engine worker_id policy lanes st
        → All (IsOwed lib s engine worker_id vector cut st.received) st.log
    Reach-owed lanes st r = (Reach-Honest lanes st r).logged
