-- ===== src/Worker/Encoding/Apart.antt =====
-- The batches at the slot are of different lanes, and each waits with the priority of its own.
use sementic_search_engine.Prelude.{
  ℕ, ◌≤◌, ◌≡◌, ◌≢◌, refl, sym, ap, ◌∙◌, ◌||◌, not, is_empty, inl, inr, Bool-cases, List, [], ◌∷◌,
  arith, ℕ_discrete, if_pos, if_neg,
}
use sementic_search_engine.Config.{Settings}
use sementic_search_engine.Schemas.{Lane}
use sementic_search_engine.Slot
use sementic_search_engine.Slot.{
  Phase, outside, waiting, granted, inside, Waiter, Slot, update, before, acquire, leave, enters,
}
use sementic_search_engine.Slot.Heap.{In, entries}
use sementic_search_engine.Slot.Exclusion.{IsExclusive, Reach-IsExclusive}
use sementic_search_engine.Worker.Lanes.{lane_specs}
use sementic_search_engine.Worker.Encoding.{State, init, assign, begins, moves, Reach, start, later}
use sementic_search_engine.Worker.Encoding.Within.{Within, Step-Within}

-- The slot of a reachable state is reachable.
pub Reach-slot : (s : Settings) {st : State} → Reach s st → Slot.Reach st.slot
unfolding init
Reach-slot s start = Slot.start
Reach-slot s (later r (begins t l st e alone)) =
    Slot.later (Reach-slot s r) (enters t (lane_specs s l).priority st.slot e)
Reach-slot s (later r (moves st u step e)) = Slot.later (Reach-slot s r) step

-- Each entry has the priority of its task's lane.
abbrev pub Ranked : Settings → (ℕ → Lane) → List Waiter → Type 0
Ranked s lane ws = (w : Waiter) → In w ws → w.priority ≡ (lane_specs s (lane w.task)).priority

-- The tasks in the block are of different lanes.
abbrev pub Apart : (ℕ → Phase) → (ℕ → Lane) → Type 0
Apart phase lane = (t u : ℕ) → phase t ≢ outside → phase u ≢ outside → lane t ≡ lane u → t ≡ u

pub record Inv (s : Settings) (st : State) : Type 0 where
  pub ranked : Ranked s st.lane st.slot.waiters
  pub apart : Apart st.slot.phase st.lane

In-entries : (w : Waiter) (ws : List Waiter) → In w ws → 1 ≤ entries w.task ws
In-entries w [] h = absurd h
In-entries w (x ∷ ws) (inl e) = rw e (ground arith)
In-entries w (x ∷ ws) (inr h) = omega (arith, In-entries w ws h)

pub entries-In :
    (t : ℕ) (ws : List Waiter) → 1 ≤ entries t ws → (w : Waiter) × In w ws × (w.task ≡ t)
entries-In t [] h = absurd (omega (arith, h))
entries-In t (w ∷ ws) h = elim (ℕ_discrete w.task t) [
  | yes e ↦ (w, inl refl, e)
  | no n ↦ let (v, i, e) = entries-In t ws (ground (arith, h, n)) in (v, inr i, e)
]

-- A task outside the block has no entry.
outside-none :
    (st : State) (t : ℕ)
    → IsExclusive st.slot
    → st.slot.phase t ≡ outside
    → (w : Waiter) → In w st.slot.waiters
    → t ≢ w.task
outside-none st t (o, i) e w h same =
    let nothing : entries t st.slot.waiters ≡ 0 = rw e at (i.entry t) in
    omega (arith, nothing, rw (← same) at (In-entries w st.slot.waiters h))

module _ (s : Settings) (t : ℕ) (l : Lane) (st : State) (i : Inv s st) (x : IsExclusive st.slot)
    (e : st.slot.phase t ≡ outside)
    (alone : (u : ℕ) → st.slot.phase u ≢ outside → st.lane u ≢ l) where
  -- The entries of the others keep their rank.
  old-Ranked : Ranked s (assign st.lane t l) st.slot.waiters
  old-Ranked w h = rw (if_neg (ℕ_discrete t w.task) (outside-none st t x e w h)) (i.ranked w h)

  entered-Apart : (y : Phase) → Apart (update st.slot.phase t y) (assign st.lane t l)
  entered-Apart y u v hu hv same = elim (ℕ_discrete t u) [
    | yes a ↦ elim (ℕ_discrete t v) [
      | yes b ↦ sym a ∙ b
      | no b ↦ absurd (
          alone v (rw (if_neg (ℕ_discrete t v) b) at hv)
            (sym (rw (if_pos (ℕ_discrete t u) a, if_neg (ℕ_discrete t v) b) at same)))
    ]
    | no a ↦ elim (ℕ_discrete t v) [
      | yes b ↦ absurd (
          alone u (rw (if_neg (ℕ_discrete t u) a) at hu)
            (rw (if_neg (ℕ_discrete t u) a, if_pos (ℕ_discrete t v) b) at same))
      | no b ↦
          i.apart u v (rw (if_neg (ℕ_discrete t u) a) at hu) (rw (if_neg (ℕ_discrete t v) b) at hv)
            (rw (if_neg (ℕ_discrete t u) a, if_neg (ℕ_discrete t v) b) at same)
    ]
  ]

  assign-same : assign st.lane t l t ≡ l
  assign-same = if_pos (ℕ_discrete t t) refl l (st.lane t)

  entered-Ranked : Ranked s (assign st.lane t l) (
      record { priority = (lane_specs s l).priority; seq = st.slot.next_seq; task = t }
      ∷ st.slot.waiters)
  entered-Ranked w (inl same) = rw (← same) (ap (λ k. (lane_specs s k).priority) (sym assign-same))
  entered-Ranked w (inr h) = old-Ranked w h

  begins-Inv :
      Inv s
        (record { slot = acquire t (lane_specs s l).priority st.slot; lane = assign st.lane t l })
  unfolding acquire
  begins-Inv = elim (Bool-cases (st.slot.busy || not (is_empty st.slot.waiters))) [
    | inl b ↦ rw (b, acquire) (record { ranked = entered-Ranked; apart = entered-Apart waiting })
    | inr b ↦ rw (b, acquire) (record { ranked = old-Ranked; apart = entered-Apart inside })
  ]

moves-Inv :
    (s : Settings) (st : State) (u : Slot)
    → Inv s st
    → Within st.slot u
    → Inv s (record st { slot = u })
moves-Inv s st u i w = record {
  ranked = λ v h. i.ranked v (w.kept v h);
  apart = λ t v ht hv. i.apart t v (w.came t ht) (w.came v hv);
}

pub Reach-Inv : (s : Settings) {st : State} → Reach s st → Inv s st
unfolding init Slot.init
Reach-Inv s start = record { ranked = λ w h. absurd h; apart = λ t u ht hu same. absurd (ht refl) }
Reach-Inv s (later r (begins t l st e alone)) =
    begins-Inv s t l st (Reach-Inv s r) (Reach-IsExclusive (Reach-slot s r)) e alone
Reach-Inv s (later r (moves st u step e)) = moves-Inv s st u (Reach-Inv s r) (Step-Within step e)
