-- ===== src/Batcher/Add.antt =====
-- `add`: a new item goes to the end of the queue of its key.
use sementic_search_engine.Prelude.{
  ℕ, ◌+◌, ◌≡◌, ◌≢◌, refl, [], ◌∷◌, ◌++◌, ite, if_pos, if_neg, arith, length-append, All-append,
}
use sementic_search_engine.Batcher.{Policy, Group, Groups, State, find, add_to, add, count}
use sementic_search_engine.Batcher.Fill.{total-append}
use sementic_search_engine.Batcher.Invariant.{IsGroup, Absent, IsValid, queue}

module _ {ℓ} {T K : Type ℓ} (p : Policy T K) where
  open p use {size_of, key_of, key_discrete}

  queue-add_to :
      (now : ℕ) (x : T) (gs : Groups T K) (k : K)
      → queue p k (add_to p now x gs)
        ≡ ite (key_discrete (key_of x) k) (queue p k gs ++ x ∷ []) (queue p k gs)
  unfolding add_to find
  queue-add_to now x [] k = ground arith
  queue-add_to now x ((j, g) ∷ gs) k = ground (arith, queue-add_to now x gs k)

  Absent-add_to :
      (now : ℕ) (x : T) (gs : Groups T K) (k : K)
      → k ≢ key_of x
      → Absent p k gs
      → Absent p k (add_to p now x gs)
  unfolding add_to
  Absent-add_to now x [] k n a = (λ e. n (cc), tt)
  Absent-add_to now x ((j, g) ∷ gs) k n a = ground (arith, Absent-add_to now x gs k n)

  IsGroup-add :
      (x : T) (k : K) (g : Group T)
      → k ≡ key_of x
      → IsGroup p k g
      → IsGroup p k (record g { items = g.items ++ x ∷ []; texts = g.texts + size_of x })
  IsGroup-add x k g e ok = record {
    nonempty = omega (arith, length-append {ℓ} g.items (x ∷ []), ok.nonempty);
    counted = omega (arith, ok.counted, total-append size_of g.items (x ∷ []));
    keyed = All-append _ g.items (x ∷ []) ok.keyed (cc, tt);
  }

  add_to-IsValid :
      (now : ℕ) (x : T) (gs : Groups T K) → IsValid p gs → IsValid p (add_to p now x gs)
  unfolding add_to
  add_to-IsValid now x [] v =
      (record { nonempty = omega arith; counted = omega arith; keyed = (refl, tt) }, tt, tt)
  add_to-IsValid now x ((j, g) ∷ gs) v = elim (key_discrete j (key_of x)) [
    | yes e ↦ rw (if_pos _ e) (IsGroup-add x j g e v.0, v.1, v.2)
    | no n ↦ rw (if_neg _ n) (v.0, Absent-add_to now x gs j n v.1, add_to-IsValid now x gs v.2)
  ]

  count-add_to : (now : ℕ) (x : T) (gs : Groups T K) → count (add_to p now x gs) ≡ count gs + 1
  unfolding add_to count
  count-add_to now x [] = omega arith
  count-add_to now x ((j, g) ∷ gs) =
      ground (arith, count-add_to now x gs, length-append {ℓ} g.items (x ∷ []))

  pub add-IsValid :
      (now : ℕ) (x : T) (s : State T K) → IsValid p s.groups → IsValid p (add p now x s).groups
  unfolding add
  add-IsValid now x s = add_to-IsValid now x s.groups

  pub queue-add :
      (now : ℕ) (x : T) (s : State T K) (k : K)
      → queue p k (add p now x s).groups
        ≡ ite (key_discrete (key_of x) k) (queue p k s.groups ++ x ∷ []) (queue p k s.groups)
  unfolding add
  queue-add now x s = queue-add_to now x s.groups

  pub count-add :
      (now : ℕ) (x : T) (s : State T K) → count (add p now x s).groups ≡ count s.groups + 1
  unfolding add
  count-add now x s = count-add_to now x s.groups
