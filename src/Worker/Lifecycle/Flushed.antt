-- ===== src/Worker/Lifecycle/Flushed.antt =====
-- The graceful shutdown: the batchers are empty.
use sementic_search_engine.Prelude.{
  ℕ, ◌+◌, ◌≡◌, refl, sym, ap, ◌∙◌, true, false, Option, none, some, List, [], arith, Text,
}
use sementic_search_engine.Config.{Settings}
use sementic_search_engine.Schemas.{Lane}
use sementic_search_engine.Batcher.{Policy}
use sementic_search_engine.Batcher.Fill.{total}
use sementic_search_engine.Batcher.Weight.{weight, drain-groups}
use sementic_search_engine.Handler.{Engine, Libraries}
use sementic_search_engine.Worker.{Message, Delivery, Outside, on_message}
use sementic_search_engine.Worker.Lanes.{same_lane, has_lane, lane_specs}
use sementic_search_engine.Worker.Settlement.{settled}
use sementic_search_engine.Worker.Lifecycle.{
  added, Key, Phase, starting, ready, stopping, flushing, closed, is_draining, State, init, update,
  buffer, receive, begin_batch, seen,
}
use sementic_search_engine.Worker.Lifecycle.Steps.{
  Step, starts_lane, gets_ready, receives, takes, acts, misses, gives_up, ends, stops,
  cancels_loops, drains, flushes, times_out, finishes, Reach, start, next,
}
use sementic_search_engine.Worker.Lifecycle.Accounts.{due, waiting, tag_of, Reach-accounts}
use sementic_search_engine.Worker.Lifecycle.Kept.{
  is_past, past_before, not_past, not_draining, Batchers, Kept, IsKept-phase, IsKept-start,
  IsKept-drain, IsKept-batchers, other_lane,
}

module _ {V : Type 0} (lib : Libraries) (s : Settings) (engine : Engine V) (worker_id : Text)
    (policy : Lane → Policy Delivery Key) (lanes : List Lane) where
  -- While the loops run, the lanes to flush are all of the worker's.
  apart :
      (l k : Lane) (st : State V)
      → Kept lanes st
      → is_past st.phase ≡ false
      → has_lane l st.started ≡ true
      → has_lane k st.to_flush ≡ false
      → same_lane l k ≡ false
  apart l k st a past on off =
      other_lane l k lanes (a.started_known l on) (sym (ap (has_lane k) (a.whole past)) ∙ off)

  buffer-other :
      (at : ℕ) (l k : Lane) (added : Option Delivery) (batchers : Batchers)
      → same_lane l k ≡ false
      → buffer policy at l added batchers k ≡ batchers k
  unfolding buffer update
  buffer-other at l k none batchers e = refl
  buffer-other at l k (some d) batchers e = rw e refl

  receive-other :
      (out : Outside) (id : Text) (at : ℕ) (l k : Lane) (m : Message) (st : State V) (phase : Phase)
      → st.phase ≡ phase
      → Kept lanes st
      → has_lane l st.started ≡ true
      → has_lane k st.to_flush ≡ false
      → buffer policy at l
          (added (on_message {V = V} out (lane_specs s l) lib s id (is_draining phase) m).1)
          st.batchers
          k
        ≡ st.batchers k
  unfolding is_past is_draining on_message buffer
  receive-other out id at l k m st starting e a on off =
      buffer-other at l k _ st.batchers (apart l k st a (rw e refl) on off)
  receive-other out id at l k m st ready e a on off =
      buffer-other at l k _ st.batchers (apart l k st a (rw e refl) on off)
  receive-other out id at l k m st stopping e a on off = refl
  receive-other out id at l k m st flushing e a on off = refl
  receive-other out id at l k m st closed e a on off = refl

  Step-Kept :
      {st st' : State V}
      → Step lib s engine worker_id policy st st'
      → Kept lanes st
      → Kept lanes st'
  unfolding begin_batch receive is_past update
  Step-Kept (starts_lane l ls st p e) a =
      IsKept-start lanes st.to_flush st.started ls l st.phase st.batchers (rw e at a)
  Step-Kept (gets_ready st p e) a =
      IsKept-phase lanes _ _ _ st.phase ready st.batchers (λ h. rw p refl) a
  Step-Kept (receives confirms now id at l m st p on) a =
      IsKept-batchers lanes _ _ _ st.phase st.batchers _
        (λ k off.
          receive-other (seen s worker_id confirms now) id at l k m st st.phase refl a on off)
        a
  Step-Kept (takes confirms now at l b batcher st p on alive free taken) a =
      IsKept-batchers lanes _ _ _ st.phase st.batchers _
        (λ k off. rw (apart l k st a (not_past st.phase p) on off) refl) a
  Step-Kept (acts before after o x rest st p e) a = a
  Step-Kept (misses before after o x rest st p i e) a =
      IsKept-phase lanes _ _ _ st.phase _ st.batchers (past_before o st.phase) a
  Step-Kept (gives_up before after o x rest st p i e) a =
      IsKept-phase lanes _ _ _ st.phase _ st.batchers (past_before o st.phase) a
  Step-Kept (ends before after o st p e) a = a
  Step-Kept (stops st p) a =
      IsKept-phase lanes _ _ _ st.phase stopping st.batchers (λ h. not_draining st.phase p) a
  Step-Kept (cancels_loops st p) a =
      IsKept-phase lanes _ _ _ st.phase flushing st.batchers (λ h. cc) a
  Step-Kept (drains l ls bs batcher st p free none_left e drained) a =
      IsKept-drain lanes ls st.started st.to_start l batcher st.phase st.batchers (rw p refl)
        (drain-groups (policy l) (λ d. 0) (st.batchers l) batcher bs drained) (rw e at a)
  Step-Kept (flushes confirms now l b rest st p free e) a = a
  Step-Kept (times_out st p) a = IsKept-phase lanes _ _ _ st.phase closed st.batchers (λ h. cc) a
  Step-Kept (finishes st p free none_left e) a =
      IsKept-phase lanes _ _ _ st.phase closed st.batchers (λ h. cc) a

  init-Kept : Kept lanes (init {V = V} lanes)
  unfolding init has_lane
  init-Kept = record {
    whole = λ h. refl;
    started_known = λ l h. cc;
    to_start_known = λ l h. h;
    flushed = λ l h. refl;
  }

  Reach-Kept : (st : State V) → Reach lib s engine worker_id policy lanes st → Kept lanes st
  Reach-Kept st start = init-Kept
  Reach-Kept st (next r step) = Step-Kept step (Reach-Kept _ r)

  -- Once the shutdown has drained every lane and begun every batch that it drained, which is when it
  -- ends before the grace period is over, the batchers are empty and every message that came in is
  -- settled or is in a task that has still to settle it, for every measure of tags.
  pub Reach-flushed :
      (f : ℕ → ℕ) (st : State V)
      → Reach lib s engine worker_id policy lanes st
      → st.to_flush ≡ []
      → st.backlog ≡ []
      → ((l : Lane) → (st.batchers l).groups ≡ [])
        × (total f (settled st.log) + total f st.abandoned + due f st.tasks
            ≡ total (λ m. f m.tag) st.received)
  unfolding has_lane
  Reach-flushed f st r e none_left =
      let empty : (l : Lane) → (st.batchers l).groups ≡ [] =
        λ l. (Reach-Kept st r).flushed l (rw e refl) in
      (
        empty,
        omega (
          arith,
          Reach-accounts f lib s engine worker_id policy lanes st r,
          ap (waiting f) none_left,
          ap (weight (tag_of f)) (empty Lane.query),
          ap (weight (tag_of f)) (empty Lane.index),
        ),
      )
