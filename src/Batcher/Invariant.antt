-- ===== src/Batcher/Invariant.antt =====
-- The groups of a batcher as a dictionary, and when they are well formed.
use mathlib.Core.Option.{some-injective}
use sementic_search_engine.Prelude.{
  ◌<◌, ◌≡◌, ◌≢◌, refl, sym, Option, none, some, List, [], ◌∷◌, ◌++◌, if_pos, if_neg, arith, length,
  All, All-append,
}
use sementic_search_engine.Batcher.{Policy, Group, Groups, find, without}
use sementic_search_engine.Batcher.Fill.{total}

module _ {ℓ} {T K : Type ℓ} (p : Policy T K) where
  open p use {size_of, key_of, key_discrete}

  -- A group is never empty, knows the number of its texts, and holds items of its own key only.
  pub record IsGroup (k : K) (g : Group T) : Type ℓ where
    pub nonempty : 0 < length g.items
    pub counted : g.texts ≡ total size_of g.items
    pub keyed : All (λ x. key_of x ≡ k) g.items

  abbrev pub Absent : K → Groups T K → Type ℓ
  Absent k = All (λ e. e.0 ≢ k)

  abbrev pub IsValid : Groups T K → Type ℓ
  IsValid [] = Unit
  IsValid ((k, g) ∷ gs) = IsGroup k g × Absent k gs × IsValid gs

  abbrev items_of : Option (Group T) → List T
  items_of none = []
  items_of (some g) = g.items

  -- The abstract view: the jobs that wait under a key, oldest first.
  abbrev pub queue : K → Groups T K → List T
  queue k gs = items_of (find p k gs)

  pub find-Absent : (k : K) (gs : Groups T K) → Absent k gs → find p k gs ≡ none
  unfolding find
  find-Absent k [] h = refl
  find-Absent k ((j, g) ∷ gs) h = ground (arith, find-Absent k gs h.1)

  pub Absent-of_none : (k : K) (gs : Groups T K) → find p k gs ≡ none → Absent k gs
  unfolding find
  Absent-of_none k [] h = tt
  Absent-of_none k ((j, g) ∷ gs) h = elim (key_discrete j k) [
    | yes e ↦ cc (rw (if_pos _ e) at h)
    | no n ↦ (n, Absent-of_none k gs (rw (if_neg _ n) at h))
  ]

  pub find-here : (k : K) (g : Group T) (gs : Groups T K) → find p k ((k, g) ∷ gs) ≡ some g
  unfolding find
  find-here k g gs = ground arith

  pub find-IsGroup :
      (k : K) (gs : Groups T K) (g : Group T) → IsValid gs → find p k gs ≡ some g → IsGroup k g
  unfolding find
  find-IsGroup k [] g v h = cc
  find-IsGroup k ((j, f) ∷ gs) g v h = elim (key_discrete j k) [
    | yes e ↦ let same : f ≡ g = some-injective f g (rw (if_pos _ e) at h) in rw (← e, ← same) v.0
    | no n ↦ find-IsGroup k gs g v.2 (rw (if_neg _ n) at h)
  ]

  pub find-All {κ} :
      (P : K × Group T → Type κ) (k : K) (gs : Groups T K) (g : Group T)
      → find p k gs ≡ some g
      → All P gs
      → P (k, g)
  unfolding find
  find-All P k [] g h a = cc
  find-All P k ((j, f) ∷ gs) g h a = elim (key_discrete j k) [
    | yes e ↦ let same : f ≡ g = some-injective f g (rw (if_pos _ e) at h) in rw (← e, ← same) a.0
    | no n ↦ find-All P k gs g (rw (if_neg _ n) at h) a.1
  ]

  pub find-append :
      (k : K) (xs ys : Groups T K) → find p k xs ≡ none → find p k (xs ++ ys) ≡ find p k ys
  unfolding find
  find-append k [] ys h = refl
  find-append k ((j, g) ∷ xs) ys h = ground (arith, find-append k xs ys)

  pub find-append_ne :
      (k : K) (xs : Groups T K) (j : K) (g : Group T)
      → j ≢ k
      → find p k (xs ++ (j, g) ∷ []) ≡ find p k xs
  unfolding find
  find-append_ne k [] j g h = ground arith
  find-append_ne k ((i, f) ∷ xs) j g h = ground (arith, find-append_ne k xs j g h)

  pub find-without_ne :
      (j k : K) (gs : Groups T K) → j ≢ k → find p k (without p j gs) ≡ find p k gs
  unfolding find without
  find-without_ne j k [] h = refl
  find-without_ne j k ((i, g) ∷ gs) h = ground (arith, find-without_ne j k gs h)

  without-All :
      (P : K × Group T → Type ℓ) (k : K) (gs : Groups T K) → All P gs → All P (without p k gs)
  unfolding without
  without-All P k [] h = tt
  without-All P k ((j, g) ∷ gs) h = elim (key_discrete j k) [
    | yes e ↦ rw (if_pos _ e) h.1
    | no n ↦ rw (if_neg _ n) (h.0, without-All P k gs h.1)
  ]

  pub without-Absent : (k : K) (gs : Groups T K) → IsValid gs → Absent k (without p k gs)
  unfolding without
  without-Absent k [] v = tt
  without-Absent k ((j, g) ∷ gs) v = elim (key_discrete j k) [
    | yes e ↦ rw (if_pos _ e) (rw e at v.1)
    | no n ↦ rw (if_neg _ n) (n, without-Absent k gs v.2)
  ]

  pub without-IsValid : (k : K) (gs : Groups T K) → IsValid gs → IsValid (without p k gs)
  unfolding without
  without-IsValid k [] v = tt
  without-IsValid k ((j, g) ∷ gs) v = elim (key_discrete j k) [
    | yes e ↦ rw (if_pos _ e) v.2
    | no n ↦ rw (if_neg _ n) (v.0, without-All _ k gs v.1, without-IsValid k gs v.2)
  ]

  pub IsValid-snoc :
      (gs : Groups T K) (k : K) (g : Group T)
      → IsValid gs
      → Absent k gs
      → IsGroup k g
      → IsValid (gs ++ (k, g) ∷ [])
  IsValid-snoc [] k g v a i = (i, tt, tt)
  IsValid-snoc ((j, f) ∷ gs) k g v a i =
      (v.0, All-append _ gs ((k, g) ∷ []) v.1 (λ e. a.0 (sym e), tt), IsValid-snoc gs k g v.2 a.1 i)
