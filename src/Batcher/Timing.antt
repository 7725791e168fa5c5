-- ===== src/Batcher/Timing.antt =====
-- How long `next_batch` sleeps: exactly until the next group is due.
use sementic_search_engine.Prelude.{
  ℕ, ◌+◌, ◌-◌, ◌≤◌, ◌<◌, ◌≡◌, ◌≢◌, refl, inl, inr, Bool-cases, Option, none, some, Option-cases, [],
  ◌∷◌, arith, dec_lt, All, All-imp, ltb,
}
use sementic_search_engine.Batcher.{
  Policy, Batch, Group, Groups, State, oldest, timeout, take_ready,
}
use sementic_search_engine.Batcher.Invariant.{IsValid, find-All}
use sementic_search_engine.Batcher.Scan.{IsDue, Chosen}
use sementic_search_engine.Batcher.Ready.{Takes, idle, pops, take_ready-Takes}

module _ {ℓ} {T K : Type ℓ} (p : Policy T K) where
  open p use {window}

  oldest-none : (gs : Groups T K) → oldest p gs ≡ none → gs ≡ []
  unfolding oldest
  oldest-none [] h = refl
  oldest-none ((k, g) ∷ gs) h = ground arith

  oldest-first :
      (gs : Groups T K) (t : ℕ) → oldest p gs ≡ some t → All (λ e. t ≤ e.1.first_added) gs
  unfolding oldest
  oldest-first [] t h = tt
  oldest-first ((k, g) ∷ gs) t h = elim (Option-cases (oldest p gs)) [
    | inl e ↦ (ground arith, rw (oldest-none gs e) tt)
    | inr (u, e) ↦ (ground arith, All-imp _ (λ f le. ground arith) gs (oldest-first gs u e))
  ]

  young_until :
      (now later t : ℕ) (gs : Groups T K)
      → All (λ e. t ≤ e.1.first_added) gs
      → All (λ e. ¬ IsDue p now e) gs
      → later < t + window
      → All (λ e. ¬ IsDue p later e) gs
  young_until now later t [] h a lt = tt
  young_until now later t ((k, g) ∷ gs) h a lt =
      (λ d. ground (arith, a.0), young_until now later t gs h.1 a.1 lt)

  old_from :
      (later t : ℕ) (gs : Groups T K)
      → oldest p gs ≡ some t
      → t + window ≤ later
      → ¬ All (λ e. ¬ IsDue p later e) gs
  unfolding oldest
  old_from later t [] h le a = cc
  old_from later t ((k, g) ∷ gs) h le a = elim (Option-cases (oldest p gs)) [
    | inl e ↦ a.0 (inr (ground arith))
    | inr (u, e) ↦ elim (Bool-cases (ltb u g.first_added)) [
      | inl lt ↦ old_from later t gs (ground arith) le a.1
      | inr ge ↦ a.0 (inr (ground arith))
    ]
  ]

  -- At `later`, nothing is returned and nothing changes.
  abbrev pub Idle : ℕ → State T K → Type ℓ
  Idle later s = take_ready p later s ≡ some (none, s)

  -- At `later`, a batch is returned.
  abbrev pub Returns : ℕ → State T K → Type ℓ
  Returns later s =
      (batch : Batch T K) × (s' : State T K) × (take_ready p later s ≡ some (some batch, s'))

  Chosen-IsDue :
      (now : ℕ) (gs : Groups T K) (k : K) (g : Group T) → Chosen p now gs k g → IsDue p now (k, g)
  Chosen-IsDue now gs k g (inl full) = inl full
  Chosen-IsDue now gs k g (inr (old, least)) = inr old

  pub Takes-Idle :
      (now : ℕ) (s : State T K) (r : Option (Option (Batch T K) × State T K))
      → Takes p now s r
      → All (λ e. ¬ IsDue p now e) s.groups
      → r ≡ some (none, s)
  Takes-Idle now s r (idle none_due) a = refl
  Takes-Idle now s r (pops k g batch s' found chosen ok) a =
      absurd (find-All p _ k s.groups g found a (Chosen-IsDue now s.groups k g chosen))

  Takes-none-IsDue :
      (now : ℕ) (s : State T K) (r : Option (Option (Batch T K) × State T K))
      → Takes p now s r
      → r ≡ some (none, s)
      → All (λ e. ¬ IsDue p now e) s.groups
  Takes-none-IsDue now s r (idle none_due) e = none_due
  Takes-none-IsDue now s r (pops k g batch s' found chosen ok) e = cc

  Takes-Returns :
      (now : ℕ) (s : State T K) (r : Option (Option (Batch T K) × State T K))
      → Takes p now s r
      → ¬ All (λ e. ¬ IsDue p now e) s.groups
      → (batch : Batch T K) × (s' : State T K) × (r ≡ some (some batch, s'))
  Takes-Returns now s r (idle none_due) n = absurd (n none_due)
  Takes-Returns now s r (pops k g batch s' found chosen ok) n = (batch, s', refl)

  pub Idle-none-IsDue :
      (now : ℕ) (s : State T K)
      → IsValid p s.groups
      → Idle now s
      → All (λ e. ¬ IsDue p now e) s.groups
  Idle-none-IsDue now s v quiet = Takes-none-IsDue now s _ (take_ready-Takes p now s v) quiet

  -- What the next sleep is measured from, and that it has not run out.
  sleep :
      (now : ℕ) (s : State T K)
      → IsValid p s.groups
      → s.groups ≢ []
      → Idle now s
      → (t : ℕ) × (oldest p s.groups ≡ some t) × (now < t + window)
  sleep now s v some_wait quiet = elim (Option-cases (oldest p s.groups)) [
    | inl e ↦ absurd (some_wait (oldest-none s.groups e))
    | inr (t, e) ↦ (
      t,
      e,
      elim (dec_lt now (t + window)) [
        | yes lt ↦ lt
        | no ge ↦ absurd (old_from now t s.groups e (omega arith) (Idle-none-IsDue now s v quiet))
      ],
    )
  ]

  timeout-oldest :
      (now t d : ℕ) (s : State T K)
      → oldest p s.groups ≡ some t
      → timeout p now s ≡ some d
      → (t + window) - now ≡ d
  unfolding timeout
  timeout-oldest now t d s e h = cc

  -- When the batcher is well formed, nothing is due and something waits, the timeout of `next_batch` is
  -- some time that is not zero.
  pub timeout-some :
      (now : ℕ) (s : State T K)
      → IsValid p s.groups
      → s.groups ≢ []
      → Idle now s
      → (d : ℕ) × (timeout p now s ≡ some d) × (0 < d)
  unfolding timeout
  timeout-some now s v some_wait quiet =
      let (t, e, young) = sleep now s v some_wait quiet in
      ((t + window) - now, rw (e, timeout), omega (arith, young))

  -- When a well-formed batcher is not empty and has no batch due, none becomes due before the timeout
  -- that `next_batch` computes has passed.
  pub timeout_not_late :
      (now later d : ℕ) (s : State T K)
      → IsValid p s.groups
      → s.groups ≢ []
      → Idle now s
      → timeout p now s ≡ some d
      → later < now + d
      → Idle later s
  timeout_not_late now later d s v some_wait quiet h lt =
      let (t, e, young) = sleep now s v some_wait quiet in
      let same = timeout-oldest now t d s e h in
      Takes-Idle later s _ (take_ready-Takes p later s v) (
        young_until now later t s.groups (oldest-first s.groups t e) (Idle-none-IsDue now s v quiet)
          (omega arith))

  -- When a well-formed batcher is not empty and has no batch due, `take_ready` returns a batch from the
  -- moment on at which the timeout that `next_batch` computes has passed.
  timeout_not_early :
      (now later d : ℕ) (s : State T K)
      → IsValid p s.groups
      → s.groups ≢ []
      → Idle now s
      → timeout p now s ≡ some d
      → now + d ≤ later
      → Returns later s
  timeout_not_early now later d s v some_wait quiet h le =
      let (t, e, young) = sleep now s v some_wait quiet in
      let same = timeout-oldest now t d s e h in
      Takes-Returns later s _ (take_ready-Takes p later s v)
        (old_from later t s.groups e (omega arith))
