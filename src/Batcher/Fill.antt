-- ===== src/Batcher/Fill.antt =====
-- The `while` loop of `_pop`: what it takes from the items of a group.
use sementic_search_engine.Prelude.{
  ℕ, ◌+◌, ◌≤◌, ◌<◌, ◌≡◌, ◌≢◌, refl, ◌⊎◌, inl, inr, List, [], ◌∷◌, ◌++◌, append_assoc, append-nil,
  arith, length, Bool-cases, is_empty, leb, leb→le, ◌||◌, true, Bool, false,
}
use sementic_search_engine.Batcher.{Policy, fill}

-- The texts of a list of items.
abbrev pub total {ℓ} : {T : Type ℓ} → (T → ℕ) → List T → ℕ
total size_of [] = 0
total size_of (x ∷ xs) = size_of x + total size_of xs

pub total-append {ℓ} :
    {T : Type ℓ} (size_of : T → ℕ) (xs ys : List T)
    → total size_of (xs ++ ys) ≡ total size_of xs + total size_of ys
total-append size_of [] ys = omega arith
total-append size_of (x ∷ xs) ys = omega (arith, total-append size_of xs ys)

length_pos {ℓ} : {T : Type ℓ} (xs : List T) → xs ≢ [] → 0 < length xs
length_pos [] h = absurd (h refl)
length_pos (x ∷ xs) h = omega arith

stop_nonempty {ℓ} :
    {T : Type ℓ} (xs : List T) (b : Bool) → (is_empty xs || b) ≡ false → 0 < length xs
stop_nonempty [] b h = cc
stop_nonempty (x ∷ xs) b h = omega arith

module _ {ℓ} {T K : Type ℓ} (p : Policy T K) where
  open p use {max_texts, size_of}

  -- `taken` with `texts` texts and `left` is a good cut of `xs`.
  pub record IsCut (xs taken : List T) (texts : ℕ) (left : List T) : Type ℓ where
    pub whole : taken ++ left ≡ xs
    pub counted : texts ≡ total size_of taken
    pub fits : (texts ≤ max_texts) ⊎ (length taken ≤ 1)
    pub progress : xs ≢ [] → 0 < length taken
    pub greedy : (y : T) (ys : List T) → left ≡ y ∷ ys → max_texts < texts + size_of y

  -- The test of the loop lets the next item in.
  room :
      (taken : List T) (texts : ℕ) (x : T)
      → (texts ≤ max_texts) ⊎ (length taken ≤ 1)
      → (is_empty taken || leb (texts + size_of x) max_texts) ≡ true
      → (texts + size_of x ≤ max_texts) ⊎ (length (taken ++ x ∷ []) ≤ 1)
  room [] texts x f h = inr (omega arith)
  room (y ∷ taken) texts x f h = inl (leb→le _ _ h)

  fill_from-IsCut :
      (xs taken : List T) (texts : ℕ)
      → texts ≡ total size_of taken
      → (texts ≤ max_texts) ⊎ (length taken ≤ 1)
      → let (t, n, l) = fill p taken texts xs in IsCut (taken ++ xs) t n l
  unfolding fill
  fill_from-IsCut [] taken texts e f = record {
    whole = refl;
    counted = e;
    fits = f;
    progress = λ h. length_pos taken (λ q. h (rw append-nil q));
    greedy = λ y ys h. cc;
  }
  fill_from-IsCut (x ∷ xs) taken texts e f =
      elim (Bool-cases (is_empty taken || leb (texts + size_of x) max_texts)) [
        | inl more ↦ rw more (
            rw append_assoc at (
              fill_from-IsCut xs (taken ++ x ∷ []) (texts + size_of x)
                (omega (arith, total-append size_of taken (x ∷ []))) (room taken texts x f more)))
        | inr full ↦ rw full (record {
          whole = refl;
          counted = e;
          fits = f;
          progress = λ h. stop_nonempty taken _ full;
          greedy = λ y ys h. ground arith;
        })
      ]

  -- Taking from a whole group: the batch and the leftovers cut it, one item at least is taken, the
  -- batch fits unless it is a single item, and the next item would not have fitted.
  pub fill-IsCut : (xs : List T) → let (t, n, l) = fill p [] 0 xs in IsCut xs t n l
  fill-IsCut xs = fill_from-IsCut xs [] 0 refl (inl (omega arith))
