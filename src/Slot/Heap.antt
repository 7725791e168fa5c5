-- ===== src/Slot/Heap.antt =====
-- `heappop`: it takes out the least entry and keeps the others.
use sementic_search_engine.Prelude.{
  ℕ, suc, ◌+◌, ◌≡◌, refl, ◌⊎◌, inl, inr, true, false, Bool-cases, none, some, List, [], ◌∷◌, arith,
  length, All, All-imp, ◌==◌, if◌then◌else◌,
}
use sementic_search_engine.Slot.{Waiter, before, heappop, drop_task}

-- How many entries a task has.
abbrev pub entries : ℕ → List Waiter → ℕ
entries t [] = 0
entries t (w ∷ ws) = (if w.task == t then 1 else 0) + entries t ws

abbrev pub In : Waiter → List Waiter → Type 0
In w [] = ⊥
In w (x ∷ ws) = (x ≡ w) ⊎ In w ws

-- What `heappop` makes of the heap `ws`.
pub record IsPopped (ws : List Waiter) (w : Waiter) (rest : List Waiter) : Type 1 where
  pub size : length ws ≡ suc (length rest)
  pub counts : (t : ℕ) → entries t ws ≡ entries t (w ∷ rest)
  pub least : All (λ v. before v w ≡ false) ws
  pub all : (P : Waiter → Type 0) → All P (w ∷ rest) → All P ws
  pub sub : (v : Waiter) → In v (w ∷ rest) → In v ws

before_trans : (u v w : Waiter) → before u v ≡ false → before v w ≡ false → before u w ≡ false
before_trans u v w h k = ground arith

before_asym : (v w : Waiter) → before v w ≡ true → before w v ≡ false
before_asym v w h = ground arith

before_refl : (w : Waiter) → before w w ≡ false
before_refl w = ground arith

sub_cons :
    (x m : Waiter) (rest ws : List Waiter) (v : Waiter)
    → (In v (m ∷ rest) → In v ws)
    → In v (m ∷ x ∷ rest)
    → In v (x ∷ ws)
sub_cons x m rest ws v sub (inl e) = inr (sub (inl e))
sub_cons x m rest ws v sub (inr (inl e)) = inl e
sub_cons x m rest ws v sub (inr (inr h)) = inr (sub (inr h))

heappop-cons :
    (x : Waiter) (ws : List Waiter)
    → (w : Waiter) × (rest : List Waiter) × (heappop (x ∷ ws) ≡ some (w, rest))
      × IsPopped (x ∷ ws) w rest
unfolding heappop
heappop-cons x [] = (
  x,
  [],
  refl,
  record {
    size = refl;
    counts = λ t. refl;
    least = (before_refl x, tt);
    all = λ P h. h;
    sub = λ v h. h;
  },
)
heappop-cons x (y ∷ ws) =
    let (m, r, e, i) = heappop-cons y ws in
    elim (Bool-cases (before x m)) [
      | inl lt ↦ (
        x,
        y ∷ ws,
        rw (e, lt),
        record {
          size = refl;
          counts = λ t. refl;
          least = (
            before_refl x,
            All-imp _ (λ v h. before_trans v m x h (before_asym x m lt)) (y ∷ ws) i.least,
          );
          all = λ P h. h;
          sub = λ v h. h;
        },
      )
      | inr ge ↦ (
        m,
        x ∷ r,
        rw (e, ge),
        record {
          size = omega (arith, i.size);
          counts = λ t. omega (arith, i.counts t);
          least = (ge, i.least);
          all = λ P h. (h.1.0, i.all P (h.0, h.1.1));
          sub = λ v h. sub_cons x m r (y ∷ ws) v (i.sub v) h;
        },
      )
    ]

-- The least entry is there whenever there is one.
pub heappop-cases :
    (ws : List Waiter)
    → ((ws ≡ []) × (heappop ws ≡ none))
      ⊎ ((w : Waiter) × (rest : List Waiter) × (heappop ws ≡ some (w, rest)) × IsPopped ws w rest)
unfolding heappop
heappop-cases [] = inl (refl, refl)
heappop-cases (x ∷ ws) = inr (heappop-cons x ws)

pub entries-drop_task :
    (t u : ℕ) (ws : List Waiter) → entries u (drop_task t ws) ≡ (if t == u then 0 else entries u ws)
unfolding drop_task
entries-drop_task t u [] = ground arith
entries-drop_task t u (w ∷ ws) = ground (arith, entries-drop_task t u ws)
