-- ===== src/Worker/Encoding/Within.antt =====
-- What the steps of a task inside the block of `_process` do to the slot.
use sementic_search_engine.Prelude.{
  ℕ, ◌≡◌, ◌≢◌, refl, sym, ap, ◌∙◌, inl, inr, false, Bool-cases, List, [], ◌∷◌, ◌==◌, ℕ_discrete,
  if_pos, if_neg,
}
use sementic_search_engine.Slot
use sementic_search_engine.Slot.{
  Phase, outside, waiting, granted, inside, Waiter, Slot, update, before, is_done, acquire, release,
  leave, abandon_granted, abandon_pending, drop_task, enters, resumes, cancels_pending,
  cancels_granted, abandons_granted, abandons_pending, leaves,
}
use sementic_search_engine.Slot.Heap.{In}
use sementic_search_engine.Slot.Release.{Handed, freed, handed, release-Handed}
use sementic_search_engine.Worker.Encoding.{is_entry}

-- What a step inside the block does to the slot: no task comes in, and no entry is added.
pub record Within (s u : Slot) : Type 0 where
  pub came : (t : ℕ) → u.phase t ≢ outside → s.phase t ≢ outside
  pub kept : (w : Waiter) → In w u.waiters → In w s.waiters

Within-trans : (s u v : Slot) → Within s u → Within u v → Within s v
Within-trans s u v a b = record {
  came = λ t h. a.came t (b.came t h);
  kept = λ w h. a.kept w (b.kept w h);
}

pub rephase-came :
    (phase : ℕ → Phase) (t : ℕ) (x : Phase)
    → (x ≢ outside → phase t ≢ outside)
    → (u : ℕ) → update phase t x u ≢ outside
    → phase u ≢ outside
rephase-came phase t x p u h = elim (ℕ_discrete t u) [
  | yes e ↦ rw e at (p (rw (if_pos (ℕ_discrete t u) e) at h))
  | no n ↦ rw (if_neg (ℕ_discrete t u) n) at h
]

-- A task changes its phase.
rephase-Within :
    (s : Slot) (t : ℕ) (x : Phase)
    → (x ≢ outside → s.phase t ≢ outside)
    → Within s (record s { phase = update s.phase t x })
rephase-Within s t x p = record { came = rephase-came s.phase t x p; kept = λ w h. h }

In-drop_task : (t : ℕ) (ws : List Waiter) (w : Waiter) → In w (drop_task t ws) → In w ws
unfolding drop_task
In-drop_task t [] w h = h
In-drop_task t (x ∷ ws) w h = elim (Bool-cases (x.task == t)) [
  | inl e ↦ inr (In-drop_task t ws w (rw (e, drop_task) at h))
  | inr e ↦ elim (rw (e, drop_task) at h) [
    | inl same ↦ inl same
    | inr g ↦ inr (In-drop_task t ws w g)
  ]
]

not_done : (x : Phase) → is_done x ≡ false → x ≢ outside
not_done x h e = cc (h, ap is_done e)

Handed-Within : (s u : Slot) → Handed s u → Within s u
Handed-Within s u (freed all e) = rw e (record { came = λ t h. h; kept = λ w h. absurd h })
Handed-Within s u (handed w rest pending sub first le ge e) = rw e (record {
  came = rephase-came s.phase w.task granted (λ g. not_done (s.phase w.task) pending);
  kept = λ v h. sub v (inr h);
})

-- A task goes outside and the slot is released.
leave-Within :
    (s : Slot) (t : ℕ) → Within s (release (record s { phase = update s.phase t outside }))
leave-Within s t =
    let orphan : Slot = record s { phase = update s.phase t outside } in
    Within-trans s orphan (release orphan) (rephase-Within s t outside (λ h. absurd (h refl)))
      (Handed-Within orphan (release orphan) (release-Handed orphan))

not_outside : (x y : Phase) → x ≡ y → y ≢ outside → x ≢ outside
not_outside x y e n h = n (sym e ∙ h)

pub Step-Within : {s u : Slot} (step : Slot.Step s u) → is_entry step ≡ false → Within s u
Step-Within (enters t priority s e) h = cc h
Step-Within (resumes t s e) h = rephase-Within s t inside (λ n. not_outside _ granted e (λ x. cc x))
Step-Within (cancels_pending t s e) h =
    rephase-Within s t Phase.cancelled (λ n. not_outside _ waiting e (λ x. cc x))
Step-Within (cancels_granted t s e) h =
    rephase-Within s t Phase.granted_cancelled (λ n. not_outside _ granted e (λ x. cc x))
Step-Within (abandons_granted t s e) h = unfold abandon_granted in leave-Within s t
Step-Within (abandons_pending t s e) h =
    unfold abandon_pending in
    record {
      came = rephase-came s.phase t outside (λ n. absurd (n refl));
      kept = λ w i. In-drop_task t s.waiters w i;
    }
Step-Within (leaves t s e) h = unfold leave in leave-Within s t
