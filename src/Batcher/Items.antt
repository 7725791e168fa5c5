-- ===== src/Batcher/Items.antt =====
-- A property of items, at every item of a batcher: no operation brings in another item.
use mathlib.Core.Option.{some-injective}
use sementic_search_engine.Prelude.{
  ℕ, zero, suc, ◌≡◌, sym, ap, subst, ◌∙◌, inl, inr, none, some, Option-cases, List, [], ◌∷◌, ◌++◌,
  All, All-append, All-imp, All-append_left, All-append_right, if_pos, if_neg, length, ◌+◌,
}
use sementic_search_engine.Batcher.{
  Policy, Batch, Group, Groups, State, find, without, fill, put_back, pop_group, pop, add_to, add,
  scan, take_ready, first_key, drain_loop, drain, count,
}
use sementic_search_engine.Batcher.Fill.{IsCut, fill-IsCut}
use sementic_search_engine.Batcher.Weight.{popped}

-- The property at every item of these groups.
abbrev pub Holds {ℓ κ} : {T K : Type ℓ} → (T → Type κ) → Groups T K → Type κ
Holds P [] = Unit
Holds P ((k, g) ∷ gs) = All P g.items × Holds P gs

-- The property at every item of these batches.
abbrev pub Held {ℓ κ} : {T K : Type ℓ} → (T → Type κ) → List (Batch T K) → Type κ
Held P = All (λ b. All P b.items)

Holds-append {ℓ κ} :
    {T K : Type ℓ} (P : T → Type κ) (xs ys : Groups T K)
    → Holds P xs
    → Holds P ys
    → Holds P (xs ++ ys)
Holds-append P [] ys h i = i
Holds-append P ((k, g) ∷ xs) ys h i = (h.0, Holds-append P xs ys h.1 i)

pub Holds-imp {ℓ} :
    {T K : Type ℓ} {P Q : T → Type 0}
    → ((x : T) → P x → Q x)
    → (gs : Groups T K) → Holds P gs
    → Holds Q gs
Holds-imp f [] h = tt
Holds-imp f ((k, g) ∷ gs) h = (All-imp _ f g.items h.0, Holds-imp f gs h.1)

module _ {ℓ} {T K : Type ℓ} (p : Policy T K) (P : T → Type 0) where
  open p use {key_of, key_discrete}

  add_to-Holds :
      (now : ℕ) (x : T) (gs : Groups T K) → P x → Holds P gs → Holds P (add_to p now x gs)
  unfolding add_to
  add_to-Holds now x [] px h = ((px, tt), tt)
  add_to-Holds now x ((k, g) ∷ gs) px h = elim (key_discrete k (key_of x)) [
    | yes e ↦ rw (if_pos _ e) (All-append P g.items (x ∷ []) h.0 (px, tt), h.1)
    | no n ↦ rw (if_neg _ n) (h.0, add_to-Holds now x gs px h.1)
  ]

  pub add-Holds :
      (now : ℕ) (x : T) (s : State T K) → P x → Holds P s.groups → Holds P (add p now x s).groups
  unfolding add
  add-Holds now x s px h = add_to-Holds now x s.groups px h

  without-Holds : (k : K) (gs : Groups T K) → Holds P gs → Holds P (without p k gs)
  unfolding without
  without-Holds k [] h = h
  without-Holds k ((j, g) ∷ gs) h = elim (key_discrete j k) [
    | yes e ↦ rw (if_pos _ e) h.1
    | no n ↦ rw (if_neg _ n) (h.0, without-Holds k gs h.1)
  ]

  find-Holds :
      (k : K) (g : Group T) (gs : Groups T K) → find p k gs ≡ some g → Holds P gs → All P g.items
  unfolding find
  find-Holds k g [] e h = cc
  find-Holds k g ((j, f) ∷ gs) e h = elim (key_discrete j k) [
    | yes q ↦ subst (λ (x : Group T). All P x.items) (some-injective f g (rw (if_pos _ q) at e)) h.0
    | no n ↦ find-Holds k g gs (rw (if_neg _ n) at e) h.1
  ]

  put_back-Holds :
      (k : K) (g : Group T) (texts : ℕ) (left : List T) (s : State T K)
      → All P left
      → Holds P s.groups
      → Holds P (put_back p k g texts left s).groups
  unfolding put_back
  put_back-Holds k g texts [] s l h = h
  put_back-Holds k g texts (x ∷ xs) s l h = Holds-append P s.groups _ h (l, tt)

  pop_group-Holds :
      (k : K) (g : Group T) (s : State T K)
      → All P g.items
      → Holds P s.groups
      → let (b, s') = pop_group p k g s in All P b.items × Holds P s'.groups
  unfolding pop_group
  pop_group-Holds k g s hg h =
      let (taken, texts, left) = fill p [] 0 g.items in
      let cut : IsCut p g.items taken texts left = fill-IsCut p g.items in
      let both : All P (taken ++ left) = subst (All P) (sym cut.whole) hg in
      (
        All-append_left P taken left both,
        put_back-Holds k g texts left s (All-append_right P taken left both) h,
      )

  pop-Holds :
      (k : K) (s s' : State T K) (b : Batch T K)
      → pop p k s ≡ some (b, s')
      → Holds P s.groups
      → All P b.items × Holds P s'.groups
  unfolding pop
  pop-Holds k s s' b e h = elim (Option-cases (find p k s.groups)) [
    | inl q ↦ cc (rw (q, pop) at e)
    | inr (g, q) ↦
        let rest : State T K = record s { groups = without p k s.groups } in
        let same : pop_group p k g rest ≡ (b, s') =
          some-injective (pop_group p k g rest) (b, s') (rw (q, pop) at e) in
        subst (λ r. All P r.0.items × Holds P r.1.groups) same
          (pop_group-Holds k g rest (find-Holds k g s.groups q h) (without-Holds k s.groups h))
  ]

  pub take_ready-Holds :
      (now : ℕ) (s s' : State T K) (b : Batch T K)
      → take_ready p now s ≡ some (some b, s')
      → Holds P s.groups
      → All P b.items × Holds P s'.groups
  unfolding take_ready
  take_ready-Holds now s s' b e h = elim (Option-cases (scan p now none s.groups)) [
    | inl q ↦ cc (rw (q, take_ready) at e)
    | inr (k, q) ↦ elim (Option-cases (pop p k s)) [
      | inl r ↦ cc (rw (q, r, take_ready) at e)
      | inr ((b', t), r) ↦
          pop-Holds k s s' b (r ∙ ap some (popped b' b t s' (rw (q, r, take_ready) at e))) h
    ]
  ]

  drain_loop-Holds :
      (fuel : ℕ) (s s' : State T K) (bs : List (Batch T K))
      → drain_loop p fuel s ≡ some (bs, s')
      → Holds P s.groups
      → Held P bs × Holds P s'.groups
  unfolding drain_loop
  drain_loop-Holds zero s s' bs e h = cc
  drain_loop-Holds (suc fuel) s s' bs e h = elim (Option-cases (first_key p s.groups)) [
    | inl q ↦
        subst (λ r. Held P r.0 × Holds P r.1.groups)
          (some-injective ([], s) (bs, s') (rw (q, drain_loop) at e)) (tt, h)
    | inr (k, q) ↦ elim (Option-cases (pop p k s)) [
      | inl r ↦ cc (rw (q, r, drain_loop) at e)
      | inr ((b, t), r) ↦ elim (Option-cases (drain_loop p fuel t)) [
        | inl u ↦ cc (rw (q, r, u, drain_loop) at e)
        | inr ((more, v), u) ↦
            let first = pop-Holds k s t b r h in
            let rest = drain_loop-Holds fuel t v more u first.1 in
            subst (λ r. Held P r.0 × Holds P r.1.groups)
              (some-injective (b ∷ more, v) (bs, s') (rw (q, r, u, drain_loop) at e))
              ((first.0, rest.0), rest.1)
      ]
    ]
  ]

  pub drain-Holds :
      (s s' : State T K) (bs : List (Batch T K))
      → drain p s ≡ some (bs, s')
      → Holds P s.groups
      → Held P bs × Holds P s'.groups
  unfolding drain
  drain-Holds s s' bs e h = drain_loop-Holds (suc (count s.groups + length s.groups)) s s' bs e h
