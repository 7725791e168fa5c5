-- ===== src/Worker/Lifecycle/Serial.antt =====
-- How many batches are in progress at once.
use sementic_search_engine.Prelude.{ℕ, ◌≤◌, ◌≡◌, ◌≢◌, refl, true, false, List, [], ◌∷◌, arith, Text}
use sementic_search_engine.Config.{Settings}
use sementic_search_engine.Schemas.{Lane}
use sementic_search_engine.Batcher.{Batch, Policy}
use sementic_search_engine.Handler.{Engine, Libraries}
use sementic_search_engine.Worker.{Delivery, Action}
use sementic_search_engine.Worker.Lifecycle.{
  Key, Phase, ready, stopping, flushing, closed, Owner, callback, loop, shutdown, Task, State, init,
  Free, receive, begin_batch,
}
use sementic_search_engine.Worker.Lifecycle.Steps.{
  Step, starts_lane, gets_ready, receives, takes, acts, misses, gives_up, ends, stops,
  cancels_loops, drains, flushes, times_out, finishes, Reach, start, next,
}
use sementic_search_engine.Worker.Lifecycle.Kept.{is_past, past_before, not_past, not_draining}
use sementic_search_engine.Worker.Lifecycle.Tally.{
  in_loop, in_shutdown, tally, in_progress, off_shutdown, tally-Free, tally-acts, tally-orphaned,
  tally-ends, loops-Free, one-take,
}

-- The shutdown works on batches only after the loops are done with theirs.
record IsSerial {V : Type 0} (phase : Phase) (backlog : List (Lane × Batch Delivery Key))
    (tasks : List (Task V)) : Type 0 where
  one : (l : Lane) → in_progress l tasks ≤ 1
  before_flush : is_past phase ≡ false → (tally in_shutdown tasks ≡ 0) × (backlog ≡ [])
  loops_done : (l : Lane) → backlog ≢ [] → tally (in_loop l) tasks ≡ 0

abbrev Serial : {V : Type 0} → State V → Type 0
Serial st = IsSerial st.phase st.backlog st.tasks

module _ {V : Type 0} (lib : Libraries) (s : Settings) (engine : Engine V) (worker_id : Text)
    (policy : Lane → Policy Delivery Key) where
  IsSerial-phase :
      (phase phase' : Phase) (backlog : List (Lane × Batch Delivery Key)) (tasks : List (Task V))
      → (is_past phase' ≡ false → is_past phase ≡ false)
      → IsSerial phase backlog tasks
      → IsSerial phase' backlog tasks
  IsSerial-phase phase phase' backlog tasks h a = record {
    one = a.one;
    before_flush = λ e. a.before_flush (h e);
    loops_done = a.loops_done;
  }

  -- Fewer tasks keep it.
  IsSerial-tasks :
      (phase : Phase) (backlog : List (Lane × Batch Delivery Key)) (ts ts' : List (Task V))
      → ((g : Owner → ℕ) → g callback ≡ 0 → tally g ts' ≤ tally g ts)
      → IsSerial phase backlog ts
      → IsSerial phase backlog ts'
  unfolding in_progress
  IsSerial-tasks phase backlog ts ts' h a = record {
    one = λ l. omega (arith, a.one l, h (in_loop l) refl, h in_shutdown refl);
    before_flush =
        λ e. (omega (arith, (a.before_flush e).0, h in_shutdown refl), (a.before_flush e).1);
    loops_done = λ l e. omega (arith, a.loops_done l e, h (in_loop l) refl);
  }

  IsSerial-take :
      (l : Lane) (phase : Phase) (backlog : List (Lane × Batch Delivery Key)) (ts : List (Task V))
      (as' : List (Action V))
      → is_past phase ≡ false
      → Free (loop l) ts
      → IsSerial phase backlog ts
      → IsSerial phase backlog ((loop l, as') ∷ ts)
  unfolding in_progress
  IsSerial-take l phase backlog ts as' past free a = record {
    one = λ k. one-take k l ts as' free (a.before_flush past).0 (a.one k);
    before_flush = λ e. (omega (arith, (a.before_flush e).0), (a.before_flush e).1);
    loops_done = λ k e. absurd (e (a.before_flush past).1);
  }

  IsSerial-flush :
      (phase : Phase) (b : Lane × Batch Delivery Key) (rest : List (Lane × Batch Delivery Key))
      (ts : List (Task V)) (as' : List (Action V))
      → is_past phase ≡ true
      → Free shutdown ts
      → IsSerial phase (b ∷ rest) ts
      → IsSerial phase rest ((shutdown, as') ∷ ts)
  unfolding in_progress
  IsSerial-flush phase b rest ts as' past free a = record {
    one = λ l.
        omega
          (arith, a.loops_done l (λ e. cc e), tally-Free in_shutdown shutdown ts off_shutdown free);
    before_flush = λ e. cc;
    loops_done = λ l e. omega (arith, a.loops_done l (λ e. cc e));
  }

  Step-Serial :
      {st st' : State V} → Step lib s engine worker_id policy st st' → Serial st → Serial st'
  unfolding begin_batch receive in_progress is_past
  Step-Serial (starts_lane l ls st p e) a = a
  Step-Serial (gets_ready st p e) a =
      IsSerial-phase st.phase ready st.backlog st.tasks (λ h. rw p refl) a
  Step-Serial (receives confirms now id at l m st p on) a =
      IsSerial-tasks st.phase st.backlog st.tasks _ (λ g e. omega (arith, e)) a
  Step-Serial (takes confirms now at l b batcher st p on alive free taken) a =
      IsSerial-take l st.phase st.backlog st.tasks _ (not_past st.phase p) free a
  Step-Serial (acts before after o x rest st p e) a =
      IsSerial-tasks st.phase st.backlog st.tasks _
        (λ g h. omega (arith, tally-acts g o x rest rest before after st.tasks e)) a
  Step-Serial (misses before after o x rest st p i e) a =
      IsSerial-phase st.phase _ st.backlog _ (past_before o st.phase) (
        IsSerial-tasks st.phase st.backlog st.tasks _
          (λ g h. tally-orphaned g o x rest before after st.tasks h e) a)
  Step-Serial (gives_up before after o x rest st p i e) a =
      IsSerial-phase st.phase _ st.backlog _ (past_before o st.phase) (
        IsSerial-tasks st.phase st.backlog st.tasks _
          (λ g h. omega (arith, tally-acts g o x rest [] before after st.tasks e)) a)
  Step-Serial (ends before after o st p e) a =
      IsSerial-tasks st.phase st.backlog st.tasks _ (λ g h. tally-ends g o before after st.tasks e)
        a
  Step-Serial (stops st p) a =
      IsSerial-phase st.phase stopping st.backlog st.tasks (λ h. not_draining st.phase p) a
  Step-Serial (cancels_loops st p) a =
      IsSerial-phase st.phase flushing st.backlog st.tasks (λ h. cc) a
  Step-Serial (drains l ls bs batcher st p free none_left e drained) a = record {
    one = a.one;
    before_flush = λ h. cc;
    loops_done = λ k h. loops-Free k st.tasks free.0 free.1;
  }
  Step-Serial (flushes confirms now l b rest st p free e) a =
      IsSerial-flush st.phase (l, b) rest st.tasks _ (rw p refl) free (rw e at a)
  Step-Serial (times_out st p) a = IsSerial-phase st.phase closed st.backlog st.tasks (λ h. cc) a
  Step-Serial (finishes st p free none_left e) a =
      IsSerial-phase st.phase closed st.backlog st.tasks (λ h. cc) a

  Reach-Serial :
      (lanes : List Lane) (st : State V) → Reach lib s engine worker_id policy lanes st → Serial st
  unfolding init in_progress
  Reach-Serial lanes st start = record {
    one = λ l. omega arith;
    before_flush = λ e. (refl, refl);
    loops_done = λ l e. refl;
  }
  Reach-Serial lanes st (next r step) = Step-Serial step (Reach-Serial lanes _ r)

  -- At each moment of a worker's life, for each lane, of the batches that its loop has taken and those
  -- that the shutdown has begun at most one is in progress; a batch of which an ack or a nack has raised
  -- counts no longer, although its other finishes go on.
  pub Reach-serial :
      (lanes : List Lane) (l : Lane) (st : State V)
      → Reach lib s engine worker_id policy lanes st
      → in_progress l st.tasks ≤ 1
  Reach-serial lanes l st r = (Reach-Serial lanes st r).one l
