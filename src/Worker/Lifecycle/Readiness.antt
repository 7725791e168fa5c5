-- ===== src/Worker/Lifecycle/Readiness.antt =====
-- mq/worker.py, `is_ready` of `EmbeddingWorker`: when a worker says that it is ready.
use sementic_search_engine.Prelude.{
  ◌≡◌, ◌≢◌, refl, sym, ap, ◌∙◌, inl, inr, Bool, Bool-cases, true, false, ◌||◌, List, [], Text,
}
use sementic_search_engine.Config.{Settings}
use sementic_search_engine.Schemas.{Lane}
use sementic_search_engine.Batcher.{Policy}
use sementic_search_engine.Handler.{Engine, Libraries}
use sementic_search_engine.Worker.{Delivery}
use sementic_search_engine.Worker.Lanes.{same_lane, has_lane}
use sementic_search_engine.Worker.Lifecycle.{
  Key, Phase, starting, ready, stopping, flushing, closed, is_draining, is_ready, Owner, callback,
  loop, shutdown, break_phase, State, init, begin_batch, receive,
}
use sementic_search_engine.Worker.Lifecycle.Steps.{
  Step, starts_lane, gets_ready, receives, takes, acts, misses, gives_up, ends, stops,
  cancels_loops, drains, flushes, times_out, finishes, Reach, start, next,
}
use sementic_search_engine.Worker.Lifecycle.Runs.{Steps, here, then, Steps-Reach}

moved : (a b c : Bool) → (b || (a || c)) ≡ ((a || b) || c)
moved true true c = refl
moved true false c = refl
moved false true c = refl
moved false false c = refl

or_false : (b : Bool) → (b || false) ≡ b
or_false true = refl
or_false false = refl

-- A lane is started or still to be started exactly when it is one of the worker's; when the worker is
-- ready, none is still to be started.
record IsStarting {V : Type 0} (lanes : List Lane) (st : State V) : Type 0 where
  pub named : (l : Lane) → (has_lane l st.started || has_lane l st.to_start) ≡ has_lane l lanes
  pub over : is_ready st.phase ≡ true → st.to_start ≡ []

break_phase-is_ready :
    (o : Owner) (p : Phase) → is_ready (break_phase o p) ≡ true → is_ready p ≡ true
unfolding break_phase is_ready
break_phase-is_ready callback p h = h
break_phase-is_ready (loop l) p h = h
break_phase-is_ready shutdown p h = cc h

break_phase-is_draining :
    (o : Owner) (p : Phase) → is_draining p ≡ true → is_draining (break_phase o p) ≡ true
unfolding break_phase is_draining
break_phase-is_draining callback p h = h
break_phase-is_draining (loop l) p h = h
break_phase-is_draining shutdown p h = refl

draining_not_ready : (p : Phase) → is_ready p ≡ true → is_draining p ≡ false
unfolding is_draining is_ready
draining_not_ready starting h = refl
draining_not_ready ready h = refl
draining_not_ready stopping h = cc h
draining_not_ready flushing h = cc h
draining_not_ready closed h = cc h

not_ready : (p : Phase) → p ≡ starting → is_ready p ≢ true
unfolding is_ready
not_ready p e h = cc (rw e at h)

not_yet : (p : Phase) → p ≡ starting → is_draining p ≢ true
unfolding is_draining
not_yet p e h = cc (rw e at h)

module _ {V : Type 0} (lib : Libraries) (s : Settings) (engine : Engine V) (worker_id : Text)
    (policy : Lane → Policy Delivery Key) where
  Step-IsStarting :
      (lanes : List Lane) {st st' : State V}
      → Step lib s engine worker_id policy st st'
      → IsStarting lanes st
      → IsStarting lanes st'
  unfolding has_lane begin_batch receive is_ready
  Step-IsStarting lanes (starts_lane l ls st p e) i = record {
    named = λ k.
        sym (moved (same_lane k l) (has_lane k st.started) (has_lane k ls))
        ∙ ap (λ ms. has_lane k st.started || has_lane k ms) (sym e)
        ∙ i.named k;
    over = λ h. absurd (not_ready st.phase p h);
  }
  Step-IsStarting lanes (gets_ready st p e) i = record { named = i.named; over = λ h. e }
  Step-IsStarting lanes (receives confirms now id at l m st p on) i = record {
    named = i.named;
    over = i.over;
  }
  Step-IsStarting lanes (takes confirms now at l b batcher st p on alive free taken) i = record {
    named = i.named;
    over = i.over;
  }
  Step-IsStarting lanes (acts before after o x rest st p e) i = record {
    named = i.named;
    over = i.over;
  }
  Step-IsStarting lanes (misses before after o x rest st p n e) i = record {
    named = i.named;
    over = λ h. i.over (break_phase-is_ready o st.phase h);
  }
  Step-IsStarting lanes (gives_up before after o x rest st p n e) i = record {
    named = i.named;
    over = λ h. i.over (break_phase-is_ready o st.phase h);
  }
  Step-IsStarting lanes (ends before after o st p e) i = record { named = i.named; over = i.over }
  Step-IsStarting lanes (stops st p) i = record { named = i.named; over = λ h. cc h }
  Step-IsStarting lanes (cancels_loops st p) i = record { named = i.named; over = λ h. cc h }
  Step-IsStarting lanes (drains l ls bs batcher st p free none_left e drained) i = record {
    named = i.named;
    over = i.over;
  }
  Step-IsStarting lanes (flushes confirms now l b rest st p free e) i = record {
    named = i.named;
    over = i.over;
  }
  Step-IsStarting lanes (times_out st p) i = record { named = i.named; over = λ h. cc h }
  Step-IsStarting lanes (finishes st p free none_left e) i = record {
    named = i.named;
    over = λ h. cc h;
  }

  Reach-IsStarting :
      (lanes : List Lane) {st : State V}
      → Reach lib s engine worker_id policy lanes st
      → IsStarting lanes st
  unfolding init has_lane is_ready
  Reach-IsStarting lanes start = record { named = λ l. refl; over = λ h. cc h }
  Reach-IsStarting lanes (next r step) = Step-IsStarting lanes step (Reach-IsStarting lanes r)

  Step-is_draining :
      {st st' : State V}
      → Step lib s engine worker_id policy st st'
      → is_draining st.phase ≡ true
      → is_draining st'.phase ≡ true
  unfolding begin_batch receive is_draining
  Step-is_draining (starts_lane l ls st p e) d = d
  Step-is_draining (gets_ready st p e) d = absurd (not_yet st.phase p d)
  Step-is_draining (receives confirms now id at l m st p on) d = d
  Step-is_draining (takes confirms now at l b batcher st p on alive free taken) d = d
  Step-is_draining (acts before after o x rest st p e) d = d
  Step-is_draining (misses before after o x rest st p n e) d = break_phase-is_draining o st.phase d
  Step-is_draining (gives_up before after o x rest st p n e) d =
      break_phase-is_draining o st.phase d
  Step-is_draining (ends before after o st p e) d = d
  Step-is_draining (stops st p) d = refl
  Step-is_draining (cancels_loops st p) d = refl
  Step-is_draining (drains l ls bs batcher st p free none_left e drained) d = d
  Step-is_draining (flushes confirms now l b rest st p free e) d = d
  Step-is_draining (times_out st p) d = refl
  Step-is_draining (finishes st p free none_left e) d = refl

  Steps-is_draining :
      {st st' : State V}
      → Steps lib s engine worker_id policy st st'
      → is_draining st.phase ≡ true
      → is_draining st'.phase ≡ true
  Steps-is_draining here d = d
  Steps-is_draining (then step rest) d = Steps-is_draining rest (Step-is_draining step d)

  -- When a worker says that it is ready, it has not been draining at any earlier moment, and it
  -- consumes the queue of each of its lanes and of no other lane.
  pub Reach-is_ready :
      (lanes : List Lane) {st st' : State V}
      → Reach lib s engine worker_id policy lanes st
      → Steps lib s engine worker_id policy st st'
      → is_ready st'.phase ≡ true
      → (is_draining st.phase ≡ false) × ((l : Lane) → has_lane l st'.started ≡ has_lane l lanes)
  unfolding has_lane
  Reach-is_ready lanes {st} {st'} r steps h =
      let i : IsStarting lanes st' =
        Reach-IsStarting lanes (Steps-Reach lib s engine worker_id policy lanes steps r) in
      (
        elim (Bool-cases (is_draining st.phase)) [
          | inl d ↦ cc (Steps-is_draining steps d, draining_not_ready st'.phase h)
          | inr e ↦ e
        ],
        λ l.
            sym (or_false (has_lane l st'.started))
            ∙ ap (λ ms. has_lane l st'.started || has_lane l ms) (sym (i.over h))
            ∙ i.named l,
      )
