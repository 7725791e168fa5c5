-- ===== src/Slot/Release.antt =====
-- `_release`: to whom the slot goes.
use sementic_search_engine.Prelude.{
  ℕ, zero, suc, ◌≤◌, ◌≡◌, refl, ◌⊎◌, inl, inr, true, false, Bool-cases, List, [], ◌∷◌, arith,
  length, All, All-imp,
}
use sementic_search_engine.Slot.{
  granted, Waiter, Slot, update, before, is_done, release_loop, release,
}
use sementic_search_engine.Slot.Heap.{entries, In, IsPopped, heappop-cases}

-- What a release makes of a slot: free, when no waiter's future is pending; or the property of the
-- waiter that comes first among those whose futures are.
pub data Handed (s u : Slot) : Type 0 where
  freed :
      All (λ w. is_done (s.phase w.task) ≡ true) s.waiters
      → u ≡ record s { busy = false; waiters = [] }
      → Handed s u
  handed :
      (w : Waiter) (rest : List Waiter)
      → is_done (s.phase w.task) ≡ false
      → ((v : Waiter) → In v (w ∷ rest) → In v s.waiters)
      → All (λ v. (is_done (s.phase v.task) ≡ true) ⊎ (before v w ≡ false)) s.waiters
      → ((t : ℕ) → entries t (w ∷ rest) ≤ entries t s.waiters)
      → ((t : ℕ) → is_done (s.phase t) ≡ false → entries t s.waiters ≤ entries t (w ∷ rest))
      → u ≡ record s { waiters = rest; phase = update s.phase w.task granted }
      → Handed s u

-- A pop of an entry whose future is done changes nothing of what the release does.
Handed-skip :
    (s u : Slot) (w : Waiter) (rest : List Waiter)
    → IsPopped s.waiters w rest
    → is_done (s.phase w.task) ≡ true
    → Handed (record s { waiters = rest }) u
    → Handed s u
Handed-skip s u w rest i done (freed all e) = freed (i.all _ (done, all)) e
Handed-skip s u w rest i done (handed v r pending sub first le ge e) =
    handed v r pending (λ x h. i.sub x (inr (sub x h))) (i.all _ (inl done, first))
      (λ t. omega (arith, le t, i.counts t)) (λ t p. ground (arith, ge t p, i.counts t)) e

length-eq-zero : (ws : List Waiter) → length ws ≤ 0 → ws ≡ []
length-eq-zero [] h = refl
length-eq-zero (w ∷ ws) h = absurd (omega arith)

release_loop-Handed :
    (fuel : ℕ) (s : Slot) → length s.waiters ≤ fuel → Handed s (release_loop fuel s)
unfolding release_loop
release_loop-Handed zero s le =
    let e : s.waiters ≡ [] = length-eq-zero s.waiters (omega arith) in
    freed (rw e tt) (λ i. record s { busy = false; waiters = e i })
release_loop-Handed (suc fuel) s le = elim (heappop-cases s.waiters) [
  | inl (e, n) ↦
      rw (n, release_loop) (freed (rw e tt) (λ i. record s { busy = false; waiters = e i }))
  | inr (w, rest, e, i) ↦ elim (Bool-cases (is_done (s.phase w.task))) [
    | inl done ↦
        rw (e, done, release_loop)
          (Handed-skip s _ w rest i done
            (release_loop-Handed fuel (record s { waiters = rest }) (omega (arith, i.size))))
    | inr pending ↦
        rw (e, pending, release_loop)
          (handed w rest pending i.sub (All-imp _ (λ v h. inr h) s.waiters i.least)
            (λ t. omega (arith, i.counts t)) (λ t p. omega (arith, i.counts t)) refl)
  ]
]

pub release-Handed : (s : Slot) → Handed s (release s)
unfolding release
release-Handed s = release_loop-Handed (length s.waiters) s (omega arith)
