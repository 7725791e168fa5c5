-- ===== src/Batcher/Pop.antt =====
-- `_pop`: what the batch holds, and what stays behind.
use sementic_search_engine.Prelude.{
  ℕ, ◌+◌, ◌-◌, ◌≤◌, ◌<◌, ◌≡◌, ◌≢◌, refl, ◌⊎◌, some, none, List, [], ◌∷◌, ◌++◌, ap, arith, length,
  length-append, All, All-append_left, All-append_right, ◌∙◌,
}
use sementic_search_engine.Batcher.{
  Policy, Batch, Group, Groups, State, find, without, count, put_back, pop_group, pop,
}
use sementic_search_engine.Batcher.Fill.{total, total-append, IsCut, fill-IsCut}
use sementic_search_engine.Batcher.Invariant.{
  IsGroup, IsValid, queue, find-Absent, find-IsGroup, find-append, find-append_ne, find-without_ne,
  without-Absent, without-IsValid, IsValid-snoc,
}

count-append {ℓ} : {T K : Type ℓ} (xs ys : Groups T K) → count (xs ++ ys) ≡ count xs + count ys
unfolding count
count-append [] ys = omega arith
count-append ((k, g) ∷ xs) ys = omega (arith, count-append xs ys)

module _ {ℓ} {T K : Type ℓ} (p : Policy T K) where
  open p use {max_texts, size_of, key_of, key_discrete}

  -- `batch` was popped from the group `g` under `k`, and `after` is what is left of `before`.
  pub record IsPop (k : K) (g : Group T) (before after : Groups T K) (batch : Batch T K)
      : Type ℓ where
    pub key : batch.key ≡ k
    pub served : batch.items ++ queue p k after ≡ g.items
    pub others : (j : K) → k ≢ j → find p j after ≡ find p j before
    pub counted : batch.texts ≡ total size_of batch.items
    pub fits : (batch.texts ≤ max_texts) ⊎ (length batch.items ≤ 1)
    pub progress : 0 < length batch.items
    pub greedy :
        (y : T) (ys : List T) → queue p k after ≡ y ∷ ys → max_texts < batch.texts + size_of y
    pub keyed : All (λ x. key_of x ≡ k) batch.items
    pub aged : (g' : Group T) → find p k after ≡ some g' → g'.first_added ≡ g.first_added
    pub valid : IsValid p after
    pub fewer : count after + length batch.items ≡ count before
    pub narrower : length after ≤ length before

  count-without :
      (k : K) (g : Group T) (gs : Groups T K)
      → find p k gs ≡ some g
      → (count (without p k gs) + length g.items ≡ count gs)
        × (length (without p k gs) + 1 ≡ length gs)
  unfolding find without count
  count-without k g [] e = cc
  count-without k g ((j, f) ∷ gs) e = ground (arith, count-without k g gs)

  module _ (k : K) (g : Group T) (s : State T K) (v : IsValid p s.groups)
      (found : find p k s.groups ≡ some g) where
    IsGroup-ok : IsGroup p k g
    IsGroup-ok = find-IsGroup p k s.groups g v found

    abbrev rest : State T K
    rest = record s { groups = without p k s.groups }

    gone : find p k rest.groups ≡ none
    gone = find-Absent p k rest.groups (without-Absent p k s.groups v)

    find-left : (g' : Group T) → find p k (rest.groups ++ (k, g') ∷ []) ≡ some g'
    unfolding find
    find-left g' = rw (find-append p k rest.groups ((k, g') ∷ []) gone) (ground arith)

    IsGroup-left :
        (taken : List T) (texts : ℕ) (x : T) (xs : List T)
        → IsCut p g.items taken texts (x ∷ xs)
        → IsGroup p k (record g { items = x ∷ xs; texts = g.texts - texts })
    IsGroup-left taken texts x xs c = record {
      nonempty = omega arith;
      counted = omega (
        arith,
        IsGroup-ok.counted,
        c.counted,
        ap (total size_of) c.whole,
        total-append size_of taken (x ∷ xs),
      );
      keyed = All-append_right _ taken (x ∷ xs) (rw c.whole IsGroup-ok.keyed);
    }

    IsCut-progress :
        (taken : List T) (texts : ℕ) (left : List T)
        → IsCut p g.items taken texts left
        → 0 < length taken
    IsCut-progress taken texts left c =
        c.progress λ e. omega (arith, ap length e, IsGroup-ok.nonempty)

    without_sizes :
        (count rest.groups + length g.items ≡ count s.groups)
        × (length rest.groups + 1 ≡ length s.groups)
    without_sizes = count-without k g s.groups found

    put_back-IsPop :
        (taken : List T) (texts : ℕ) (left : List T)
        → IsCut p g.items taken texts left
        → IsPop k g s.groups
            (put_back p k g texts left rest).groups
            (record { key = k; items = taken; texts = texts })
    unfolding put_back count
    put_back-IsPop taken texts [] c = record {
      key = refl;
      served = rw gone c.whole;
      others = λ j n. find-without_ne p k j s.groups n;
      counted = c.counted;
      fits = c.fits;
      progress = IsCut-progress taken texts [] c;
      greedy = λ y ys e. cc (rw gone at e);
      keyed = All-append_left _ taken [] (rw c.whole IsGroup-ok.keyed);
      aged = λ g' e. cc (rw gone at e);
      valid = without-IsValid p k s.groups v;
      fewer = omega (arith, ap length c.whole, length-append {ℓ} taken [], without_sizes.0);
      narrower = omega (arith, without_sizes.1);
    }
    put_back-IsPop taken texts (x ∷ xs) c =
        let left : Group T = record g { items = x ∷ xs; texts = g.texts - texts } in
        record {
          key = refl;
          served = rw (find-left left) c.whole;
          others =
              λ j n. find-append_ne p j rest.groups k left n ∙ find-without_ne p k j s.groups n;
          counted = c.counted;
          fits = c.fits;
          progress = IsCut-progress taken texts (x ∷ xs) c;
          greedy = λ y ys e. c.greedy y ys (rw (find-left left) at e);
          keyed = All-append_left _ taken (x ∷ xs) (rw c.whole IsGroup-ok.keyed);
          aged = λ g' e. ground (arith, find-left left);
          valid =
              IsValid-snoc p rest.groups k left (without-IsValid p k s.groups v)
                (without-Absent p k s.groups v) (IsGroup-left taken texts x xs c);
          fewer = omega (
            arith,
            count-append rest.groups ((k, left) ∷ []),
            ap length c.whole,
            length-append {ℓ} taken (x ∷ xs),
            without_sizes.0,
          );
          narrower = omega (arith, length-append {ℓ} rest.groups ((k, left) ∷ []), without_sizes.1);
        }

    -- Popping a key that is there gives a batch, and never a KeyError.
    pub pop-IsPop :
        (batch : Batch T K) × (s' : State T K) × (pop p k s ≡ some (batch, s'))
        × IsPop k g s.groups s'.groups batch
    unfolding pop
    pop-IsPop =
        let (batch, s') = pop_group p k g rest in
        (batch, s', rw (found, pop), put_back-IsPop _ _ _ (fill-IsCut p g.items))
