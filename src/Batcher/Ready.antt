-- ===== src/Batcher/Ready.antt =====
-- `take_ready`: which group it pops, and when it pops none.
use sementic_search_engine.Prelude.{ℕ, ◌≡◌, Option, none, some, Option-cases, All, inl, inr}
use sementic_search_engine.Batcher.{Policy, Batch, Group, State, find, scan, take_ready}
use sementic_search_engine.Batcher.Invariant.{IsValid}
use sementic_search_engine.Batcher.Pop.{IsPop, pop-IsPop}
use sementic_search_engine.Batcher.Scan.{IsDue, Chosen, scan-none, scan-Chosen}

module _ {ℓ} {T K : Type ℓ} (p : Policy T K) where
  -- What `take_ready` does to a well-formed batcher: it returns nothing, changes nothing, and no
  -- group is due; or it pops a chosen group.
  pub data Takes (now : ℕ) (s : State T K) : Option (Option (Batch T K) × State T K) → Type ℓ where
    idle : All (λ e. ¬ IsDue p now e) s.groups → Takes now s (some (none, s))
    pops :
        (k : K) (g : Group T) (batch : Batch T K) (s' : State T K)
        → find p k s.groups ≡ some g
        → Chosen p now s.groups k g
        → IsPop p k g s.groups s'.groups batch
        → Takes now s (some (some batch, s'))

  -- On a well-formed batcher `take_ready` never raises. It returns nothing, and changes nothing, only
  -- when no group is full and none has waited for the window; otherwise it pops a group that is full,
  -- or the one that has waited longest.
  pub take_ready-Takes :
      (now : ℕ) (s : State T K) → IsValid p s.groups → Takes now s (take_ready p now s)
  unfolding take_ready
  take_ready-Takes now s v = elim (Option-cases (scan p now none s.groups)) [
    | inl e ↦ rw (e, take_ready) (idle (scan-none p now none s.groups e).1)
    | inr (k, e) ↦
        let (g, found, chosen) = scan-Chosen p now s.groups k v e in
        let (batch, s', popped, ok) = pop-IsPop p k g s v found in
        rw (e, popped, take_ready) (pops k g batch s' found chosen ok)
  ]

  same_state :
      (b c : Batch T K) (s t : State T K)
      → ◌≡◌ {A = Option (Option (Batch T K) × State T K)} (some (some b, s)) (some (some c, t))
      → s ≡ t
  same_state b c s t h = cc h

  kept-IsValid :
      (now : ℕ) (s s' : State T K) (b : Batch T K) (r : Option (Option (Batch T K) × State T K))
      → Takes now s r
      → r ≡ some (some b, s')
      → IsValid p s'.groups
  kept-IsValid now s s' b r (idle none_due) h = cc h
  kept-IsValid now s s' b r (pops k g batch t found chosen popped) h =
      rw (same_state batch b t s' h) at (popped.valid)

  -- What is left after a batch is taken is well formed.
  pub take_ready-IsValid :
      (now : ℕ) (s s' : State T K) (b : Batch T K)
      → IsValid p s.groups
      → take_ready p now s ≡ some (some b, s')
      → IsValid p s'.groups
  take_ready-IsValid now s s' b v h =
      kept-IsValid now s s' b (take_ready p now s) (take_ready-Takes now s v) h
