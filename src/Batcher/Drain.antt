-- ===== src/Batcher/Drain.antt =====
-- `drain`: it ends, and empties every queue in order.
use sementic_search_engine.Prelude.{
  ℕ, zero, suc, ◌+◌, ◌≤◌, ◌<◌, ◌≡◌, refl, ◌⊎◌, Option, none, some, List, [], ◌∷◌, ◌++◌,
  append_assoc, ite, if_pos, if_neg, arith, length, All, ap, sym, ◌∙◌,
}
use sementic_search_engine.Batcher.{
  Policy, Batch, Group, Groups, State, count, find, first_key, pop, drain_loop, drain,
}
use sementic_search_engine.Batcher.Fill.{total}
use sementic_search_engine.Batcher.Invariant.{IsValid, queue, find-Absent, find-here}
use sementic_search_engine.Batcher.Pop.{IsPop, pop-IsPop}

module _ {ℓ} {T K : Type ℓ} (p : Policy T K) where
  open p use {max_texts, size_of, key_of, key_discrete}

  -- The items that a sequence of batches releases under a key, in order.
  pub released : K → List (Batch T K) → List T
  released k [] = []
  released k (b ∷ bs) = ite (key_discrete b.key k) (b.items ++ released k bs) (released k bs)

  -- A batch that one model call can serve: some items, all of the batch's key, with the number of
  -- their texts, which is within the limit unless the batch is a single item.
  pub record IsBatch (b : Batch T K) : Type ℓ where
    pub progress : 0 < length b.items
    pub keyed : All (λ x. key_of x ≡ b.key) b.items
    pub counted : b.texts ≡ total size_of b.items
    pub fits : (b.texts ≤ max_texts) ⊎ (length b.items ≤ 1)

  pub IsPop-IsBatch :
      (k : K) (g : Group T) (before after : Groups T K) (b : Batch T K)
      → IsPop p k g before after b
      → IsBatch b
  IsPop-IsBatch k g before after b i = record {
    progress = i.progress;
    keyed = rw i.key i.keyed;
    counted = i.counted;
    fits = i.fits;
  }

  -- What a pop does to the queue of any key: the batch, then what is left.
  pub IsPop-queue :
      (k : K) (g : Group T) (before after : Groups T K) (b : Batch T K)
      → find p k before ≡ some g
      → IsPop p k g before after b
      → (j : K) (rest : List T) → rest ≡ queue p j after
      → ite (key_discrete b.key j) (b.items ++ rest) rest ≡ queue p j before
  IsPop-queue k g before after b found i j rest e = elim (key_discrete b.key j) [
    | yes same ↦
        let same' : k ≡ j = sym i.key ∙ same in rw (if_pos _ same, e, ← same', found) i.served
    | no other ↦ rw (if_neg _ other, e, i.others j (λ q. other (i.key ∙ q))) refl
  ]

  pub released-cons :
      (b : Batch T K) (bs : List (Batch T K)) (k : K) (rest : List T)
      → released k (b ∷ bs) ++ rest
        ≡ ite (key_discrete b.key k) (b.items ++ (released k bs ++ rest)) (released k bs ++ rest)
  unfolding released
  released-cons b bs k rest = ground (arith, append_assoc b.items (released k bs) rest)

  released-step :
      (b : Batch T K) (bs : List (Batch T K)) (k : K)
      → released k (b ∷ bs) ≡ ite (key_discrete b.key k) (b.items ++ released k bs) (released k bs)
  unfolding released
  released-step b bs k = refl

  pub released-nil : (k : K) → released k [] ≡ []
  unfolding released
  released-nil k = refl

  drain_loop-nil :
      (fuel : ℕ) (s : State T K)
      → first_key p s.groups ≡ none
      → drain_loop p (suc fuel) s ≡ some ([], s)
  unfolding drain_loop
  drain_loop-nil fuel s e = rw (e, drain_loop)

  drain_loop-cons :
      (fuel : ℕ) (s s' t : State T K) (k : K) (b : Batch T K) (bs : List (Batch T K))
      → first_key p s.groups ≡ some k
      → pop p k s ≡ some (b, s')
      → drain_loop p fuel s' ≡ some (bs, t)
      → drain_loop p (suc fuel) s ≡ some (b ∷ bs, t)
  unfolding drain_loop
  drain_loop-cons fuel s s' t k b bs e popped rest = rw (e, popped, rest, drain_loop)

  pub record Drained (gs : Groups T K) (r : Option (List (Batch T K) × State T K)) : Type ℓ where
    pub batches : List (Batch T K)
    pub final : State T K
    pub result : r ≡ some (batches, final)
    pub emptied : final.groups ≡ []
    pub whole : (k : K) → released k batches ≡ queue p k gs
    pub good : All IsBatch batches

  drain_loop-Drained :
      (fuel : ℕ) (s : State T K) (gs : Groups T K)
      → s.groups ≡ gs
      → IsValid p gs
      → count gs + length gs < fuel
      → Drained gs (drain_loop p fuel s)
  unfolding first_key count
  drain_loop-Drained zero s gs e v lt = absurd (omega arith)
  drain_loop-Drained (suc fuel) s [] e v lt = record {
    batches = [];
    final = s;
    result = drain_loop-nil fuel s (rw e);
    emptied = e;
    whole = λ k. rw (released-nil, find-Absent p k [] tt);
    good = tt;
  }
  drain_loop-Drained (suc fuel) s ((k, g) ∷ gs) e v lt =
      let found : find p k s.groups ≡ some g = rw e (find-here p k g gs) in
      let (b, s', popped, ok) = pop-IsPop p k g s (rw e v) found in
      let rest : Drained s'.groups (drain_loop p fuel s') =
        drain_loop-Drained fuel s' s'.groups refl ok.valid
          (omega (arith, ap count e, ap length e, ok.fewer, ok.narrower, ok.progress)) in
      record {
        batches = b ∷ rest.batches;
        final = rest.final;
        result = drain_loop-cons fuel s s' rest.final k b rest.batches (rw e) popped rest.result;
        emptied = rest.emptied;
        whole = λ j.
            released-step b rest.batches j
            ∙ IsPop-queue k g s.groups s'.groups b found ok j (released j rest.batches)
                (rest.whole j)
            ∙ ap (queue p j) e;
        good = (IsPop-IsBatch k g _ _ b ok, rest.good);
      }

  -- From a well-formed batcher `drain` always returns, leaves no group, and releases each queue
  -- whole and in order, in batches that a model call can serve.
  pub drain-Drained : (s : State T K) → IsValid p s.groups → Drained s.groups (drain p s)
  unfolding drain
  drain-Drained s v =
      drain_loop-Drained (suc (count s.groups + length s.groups)) s s.groups refl v (omega arith)
