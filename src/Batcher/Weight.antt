-- ===== src/Batcher/Weight.antt =====
-- Any measure of items, summed over a batcher: no operation loses or makes an item. This needs no
-- well-formedness.
use mathlib.Core.Option.{some-injective}
use sementic_search_engine.Prelude.{
  ℕ, zero, suc, ◌+◌, ◌≡◌, refl, sym, ap, ◌∙◌, inl, inr, Option, none, some, Option-cases, List, [],
  ◌∷◌, ◌++◌, arith, length,
}
use sementic_search_engine.Batcher.{
  Policy, Batch, Group, Groups, State, find, without, fill, put_back, pop_group, pop, add_to, add,
  scan, take_ready, first_key, drain_loop, drain, count,
}
use sementic_search_engine.Batcher.Fill.{total, total-append, IsCut, fill-IsCut}

abbrev pub weight {ℓ} : {T K : Type ℓ} → (T → ℕ) → Groups T K → ℕ
weight f [] = 0
weight f ((k, g) ∷ gs) = total f g.items + weight f gs

-- The weight of the items of some batches.
abbrev pub load {ℓ} : {T K : Type ℓ} → (T → ℕ) → List (Batch T K) → ℕ
load f [] = 0
load f (b ∷ bs) = total f b.items + load f bs

weight-append {ℓ} :
    {T K : Type ℓ} (f : T → ℕ) (xs ys : Groups T K)
    → weight f (xs ++ ys) ≡ weight f xs + weight f ys
weight-append f [] ys = omega arith
weight-append f ((k, g) ∷ xs) ys = omega (arith, weight-append f xs ys)

pub popped {ℓ} :
    {T K : Type ℓ} (b c : Batch T K) (s t : State T K)
    → ◌≡◌ {A = Option (Option (Batch T K) × State T K)} (some (some b, s)) (some (some c, t))
    → ◌≡◌ {A = Batch T K × State T K} (b, s) (c, t)
popped b c s t h = cc h

module _ {ℓ} {T K : Type ℓ} (p : Policy T K) (f : T → ℕ) where
  open p use {key_of, key_discrete}

  weight-add_to :
      (now : ℕ) (x : T) (gs : Groups T K) → weight f (add_to p now x gs) ≡ weight f gs + f x
  unfolding add_to
  weight-add_to now x [] = omega arith
  weight-add_to now x ((k, g) ∷ gs) =
      ground (arith, weight-add_to now x gs, total-append f g.items (x ∷ []))

  pub weight-add :
      (now : ℕ) (x : T) (s : State T K) → weight f (add p now x s).groups ≡ weight f s.groups + f x
  unfolding add
  weight-add now x s = weight-add_to now x s.groups

  weight-without :
      (k : K) (g : Group T) (gs : Groups T K)
      → find p k gs ≡ some g
      → weight f (without p k gs) + total f g.items ≡ weight f gs
  unfolding find without
  weight-without k g [] e = cc
  weight-without k g ((j, h) ∷ gs) e = ground (arith, weight-without k g gs)

  weight-put_back :
      (k : K) (g : Group T) (texts : ℕ) (left : List T) (s : State T K)
      → weight f (put_back p k g texts left s).groups ≡ weight f s.groups + total f left
  unfolding put_back
  weight-put_back k g texts [] s = omega arith
  weight-put_back k g texts (x ∷ xs) s = omega (arith, weight-append f s.groups)

  weight-pop_group :
      (k : K) (g : Group T) (s : State T K)
      → let (b, s') = pop_group p k g s in
        total f b.items + weight f s'.groups ≡ weight f s.groups + total f g.items
  unfolding pop_group
  weight-pop_group k g s =
      let (taken, texts, left) = fill p [] 0 g.items in
      let cut : IsCut p g.items taken texts left = fill-IsCut p g.items in
      omega
        (arith, weight-put_back k g texts left s, total-append f taken left, ap (total f) cut.whole)

  weight-pop :
      (k : K) (s s' : State T K) (b : Batch T K)
      → pop p k s ≡ some (b, s')
      → total f b.items + weight f s'.groups ≡ weight f s.groups
  unfolding pop
  weight-pop k s s' b h = elim (Option-cases (find p k s.groups)) [
    | inl e ↦ cc (rw (e, pop) at h)
    | inr (g, e) ↦
        let r = pop_group p k g (record s { groups = without p k s.groups }) in
        let same : r ≡ (b, s') = some-injective r (b, s') (rw (e, pop) at h) in
        omega (
          arith,
          weight-pop_group k g (record s { groups = without p k s.groups }),
          weight-without k g s.groups e,
          ap (λ q. total f q.0.items) same,
          ap (λ q. weight f q.1.groups) same,
        )
  ]

  pub weight-take_ready :
      (now : ℕ) (s s' : State T K) (b : Batch T K)
      → take_ready p now s ≡ some (some b, s')
      → total f b.items + weight f s'.groups ≡ weight f s.groups
  unfolding take_ready
  weight-take_ready now s s' b h = elim (Option-cases (scan p now none s.groups)) [
    | inl e ↦ cc (rw (e, take_ready) at h)
    | inr (k, e) ↦ elim (Option-cases (pop p k s)) [
      | inl q ↦ cc (rw (e, q, take_ready) at h)
      | inr ((b', t), q) ↦
          let same = popped b' b t s' (rw (e, q, take_ready) at h) in
          weight-pop k s s' b (q ∙ ap some same)
    ]
  ]

  weight-drain_loop :
      (fuel : ℕ) (s s' : State T K) (bs : List (Batch T K))
      → drain_loop p fuel s ≡ some (bs, s')
      → load f bs + weight f s'.groups ≡ weight f s.groups
  unfolding drain_loop
  weight-drain_loop zero s s' bs h = cc
  weight-drain_loop (suc fuel) s s' bs h = elim (Option-cases (first_key p s.groups)) [
    | inl e ↦ omega (
      arith,
      ap (λ q. load f q.0 + weight f q.1.groups)
          (some-injective ([], s) (bs, s') (rw (e, drain_loop) at h)),
    )
    | inr (k, e) ↦ elim (Option-cases (pop p k s)) [
      | inl q ↦ cc (rw (e, q, drain_loop) at h)
      | inr ((b, t), q) ↦ elim (Option-cases (drain_loop p fuel t)) [
        | inl r ↦ cc (rw (e, q, r, drain_loop) at h)
        | inr ((more, u), r) ↦ omega (
          arith,
          ap (λ q. load f q.0 + weight f q.1.groups)
              (some-injective (b ∷ more, u) (bs, s') (rw (e, q, r, drain_loop) at h)),
          weight-pop k s t b q,
          weight-drain_loop fuel t u more r,
        )
      ]
    ]
  ]

  pub weight-drain :
      (s s' : State T K) (bs : List (Batch T K))
      → drain p s ≡ some (bs, s')
      → load f bs + weight f s'.groups ≡ weight f s.groups
  unfolding drain
  weight-drain s s' bs h = weight-drain_loop (suc (count s.groups + length s.groups)) s s' bs h

  first_key-none : (gs : Groups T K) → first_key p gs ≡ none → gs ≡ []
  unfolding first_key
  first_key-none [] e = refl
  first_key-none ((k, g) ∷ gs) e = cc e

  drain_loop-groups :
      (fuel : ℕ) (s s' : State T K) (bs : List (Batch T K))
      → drain_loop p fuel s ≡ some (bs, s')
      → s'.groups ≡ []
  unfolding drain_loop
  drain_loop-groups zero s s' bs h = cc
  drain_loop-groups (suc fuel) s s' bs h = elim (Option-cases (first_key p s.groups)) [
    | inl e ↦
        sym (ap (λ q. q.1.groups) (some-injective ([], s) (bs, s') (rw (e, drain_loop) at h)))
        ∙ first_key-none s.groups e
    | inr (k, e) ↦ elim (Option-cases (pop p k s)) [
      | inl q ↦ cc (rw (e, q, drain_loop) at h)
      | inr ((b, t), q) ↦ elim (Option-cases (drain_loop p fuel t)) [
        | inl r ↦ cc (rw (e, q, r, drain_loop) at h)
        | inr ((more, u), r) ↦
            sym (
              ap (λ q. q.1.groups)
                (some-injective (b ∷ more, u) (bs, s') (rw (e, q, r, drain_loop) at h)))
            ∙ drain_loop-groups fuel t u more r
      ]
    ]
  ]

  -- Whatever a batcher holds, `drain` empties it when it returns.
  pub drain-groups :
      (s s' : State T K) (bs : List (Batch T K)) → drain p s ≡ some (bs, s') → s'.groups ≡ []
  unfolding drain
  drain-groups s s' bs h = drain_loop-groups (suc (count s.groups + length s.groups)) s s' bs h
