-- ===== src/Batcher/Scan.antt =====
-- The loop of `take_ready`: which key it picks.
use mathlib.Core.Option.{some-injective}
use sementic_search_engine.Prelude.{
  ℕ, ◌+◌, ◌≤◌, ◌≡◌, ◌≢◌, refl, ◌⊎◌, inl, inr, true, false, Bool-cases, Option, none, some, [], ◌∷◌,
  if_neg, arith, All, leb, ltb, leb→le,
}
use sementic_search_engine.Batcher.{Policy, Group, Groups, find, earlier, scan}
use sementic_search_engine.Batcher.Invariant.{IsValid, Absent, find-Absent, find-here}

module _ {ℓ} {T K : Type ℓ} (p : Policy T K) where
  open p use {max_texts, window, key_discrete}

  abbrev pub IsFull : K × Group T → Type 0
  IsFull e = max_texts ≤ e.1.texts

  -- The oldest item of the group has waited for the window.
  abbrev pub IsOld : ℕ → K × Group T → Type 0
  IsOld now e = e.1.first_added + window ≤ now

  abbrev pub IsDue : ℕ → K × Group T → Type 0
  IsDue now e = IsFull e ⊎ IsOld now e

  find-there :
      (j : K) (f : Group T) (gs : Groups T K) (k : K) (g : Group T)
      → Absent p j gs
      → find p k gs ≡ some g
      → find p k ((j, f) ∷ gs) ≡ some g
  unfolding find
  find-there j f gs k g a h = elim (key_discrete j k) [
    | yes e ↦ cc (find-Absent p j gs a, e, h)
    | no n ↦ rw (if_neg _ n) h
  ]

  record Earlier (due : Option (ℕ × K)) (t : ℕ) (k : K) : Type ℓ where
    time : ℕ
    key : K
    result : earlier p due t k ≡ some (time, key)
    new : time ≤ t
    old : (t' : ℕ) (k' : K) → due ≡ some (t', k') → time ≤ t'
    source : (due ≡ some (time, key)) ⊎ ((t ≡ time) × (k ≡ key))

  earlier_lem : (due : Option (ℕ × K)) (t : ℕ) (k : K) → Earlier due t k
  unfolding earlier
  earlier_lem none t k = record {
    time = t;
    key = k;
    result = refl;
    new = omega arith;
    old = λ t' k' e. cc;
    source = inr (refl, refl);
  }
  earlier_lem (some (t', k')) t k = elim (Bool-cases (ltb t t')) [
    | inl lt ↦ record {
      time = t;
      key = k;
      result = rw lt;
      new = omega arith;
      old = λ t'' k'' e. ground arith;
      source = inr (refl, refl);
    }
    | inr ge ↦ record {
      time = t';
      key = k';
      result = rw ge;
      new = ground arith;
      old = λ t'' k'' e. ground arith;
      source = inl refl;
    }
  ]

  earlier-ne-none : (due : Option (ℕ × K)) (t : ℕ) (k : K) → earlier p due t k ≢ none
  unfolding earlier
  earlier-ne-none due t k = ground arith

  pub scan-none :
      (now : ℕ) (due : Option (ℕ × K)) (gs : Groups T K)
      → scan p now due gs ≡ none
      → (due ≡ none) × All (λ e. ¬ IsDue now e) gs
  unfolding scan
  scan-none now none [] h = (refl, tt)
  scan-none now (some d) [] h = cc
  scan-none now due ((k, g) ∷ gs) h = elim (Bool-cases (leb max_texts g.texts)) [
    | inl full ↦ cc (rw full at h)
    | inr spare ↦ elim (Bool-cases (leb (g.first_added + window) now)) [
      | inl old ↦ absurd (
          earlier-ne-none due g.first_added k
            (scan-none now (earlier p due g.first_added k) gs (rw (spare, old) at h)).0)
      | inr young ↦
          let (d, rest) = scan-none now due gs (rw (spare, young) at h) in
          (d, (λ i. ground arith, rest))
    ]
  ]

  -- What the loop holds in `due`: the oldest of the groups that have waited for the window.
  pub record IsOldest (now : ℕ) (gs : Groups T K) (time : ℕ) : Type ℓ where
    pub none_full : All (λ e. ¬ IsFull e) gs
    pub first : All (λ e. IsOld now e → time ≤ e.1.first_added) gs

  record Picked (now : ℕ) (due : Option (ℕ × K)) (gs : Groups T K) (k : K) : Type ℓ where
    time : ℕ
    source :
        (due ≡ some (time, k))
        ⊎ ((g : Group T) × (find p k gs ≡ some g) × IsOld now (k, g) × (g.first_added ≡ time))
    before_due : (t : ℕ) (j : K) → due ≡ some (t, j) → time ≤ t
    least : IsOldest now gs time

  module _ (now : ℕ) (due : Option (ℕ × K)) (j : K) (g : Group T) (gs : Groups T K)
      (absent : Absent p j gs) (spare : leb max_texts g.texts ≡ false) where
    Picked-young :
        (k : K)
        → leb (g.first_added + window) now ≡ false
        → Picked now due gs k
        → Picked now due ((j, g) ∷ gs) k
    Picked-young k young q = record {
      time = q.time;
      source = elim q.source [
        | inl d ↦ inl d
        | inr (f, found, old, e) ↦ inr (f, find-there j g gs k f absent found, old, e)
      ];
      before_due = q.before_due;
      least = record {
        none_full = (λ i. ground arith, q.least.none_full);
        first = (λ i. ground arith, q.least.first);
      };
    }

    Picked-old :
        (k : K)
        → leb (g.first_added + window) now ≡ true
        → Picked now (earlier p due g.first_added j) gs k
        → Picked now due ((j, g) ∷ gs) k
    Picked-old k old q =
        let e : Earlier due g.first_added j = earlier_lem due g.first_added j in
        let below : q.time ≤ e.time = q.before_due e.time e.key e.result in
        record {
          time = q.time;
          source = elim q.source [
            | inl d ↦ elim e.source [
              | inl kept ↦ inl (cc (e.result, d, kept))
              | inr (t, i) ↦
                  let same : j ≡ k = cc (e.result, d, i) in
                  inr (
                    g,
                    rw (← same) (find-here p j g gs),
                    leb→le _ _ old,
                    ground (arith, d, e.result, t),
                  )
            ]
            | inr (f, found, older, t) ↦ inr (f, find-there j g gs k f absent found, older, t)
          ];
          before_due = λ t i d. omega (arith, e.old t i d, below);
          least = record {
            none_full = (λ i. ground arith, q.least.none_full);
            first = (λ i. omega (arith, e.new, below), q.least.first);
          };
        }

  lift-IsFull {κ μ} :
      {P : Type κ} {Q : Type μ} (j : K) (f : Group T) (gs : Groups T K) (k : K)
      → Absent p j gs
      → ((g : Group T) × (find p k gs ≡ some g) × IsFull (k, g)) ⊎ P
      → (P → Q)
      → ((g : Group T) × (find p k ((j, f) ∷ gs) ≡ some g) × IsFull (k, g)) ⊎ Q
  lift-IsFull j f gs k a (inl (g, found, full)) h = inl (g, find-there j f gs k g a found, full)
  lift-IsFull j f gs k a (inr q) h = inr (h q)

  scan-some :
      (now : ℕ) (due : Option (ℕ × K)) (gs : Groups T K) (k : K)
      → IsValid p gs
      → scan p now due gs ≡ some k
      → ((g : Group T) × (find p k gs ≡ some g) × IsFull (k, g)) ⊎ Picked now due gs k
  unfolding scan
  scan-some now none [] k v h = cc
  scan-some now (some (t, j)) [] k v h = inr (record {
    time = t;
    source = inl (ground arith);
    before_due = λ t' j' e. ground arith;
    least = record { none_full = tt; first = tt };
  })
  scan-some now due ((j, g) ∷ gs) k v h = elim (Bool-cases (leb max_texts g.texts)) [
    | inl full ↦
        let same : j ≡ k = some-injective j k (rw full at h) in
        inl (g, rw (← same) (find-here p j g gs), leb→le _ _ full)
    | inr spare ↦ elim (Bool-cases (leb (g.first_added + window) now)) [
      | inl old ↦
          lift-IsFull j g gs k v.1
            (scan-some now (earlier p due g.first_added j) gs k v.2 (rw (spare, old) at h))
            (Picked-old now due j g gs v.1 spare k old)
      | inr young ↦
          lift-IsFull j g gs k v.1 (scan-some now due gs k v.2 (rw (spare, young) at h))
            (Picked-young now due j g gs v.1 spare k young)
    ]
  ]

  -- Why the group `g` of `k` was chosen: it is full, or no group is full and it has waited for the
  -- window, and no other group that has waited for it is older.
  abbrev pub Chosen : ℕ → Groups T K → K → Group T → Type ℓ
  Chosen now gs k g = IsFull (k, g) ⊎ (IsOld now (k, g) × IsOldest now gs g.first_added)

  pub scan-Chosen :
      (now : ℕ) (gs : Groups T K) (k : K)
      → IsValid p gs
      → scan p now none gs ≡ some k
      → (g : Group T) × (find p k gs ≡ some g) × Chosen now gs k g
  scan-Chosen now gs k v h = elim (scan-some now none gs k v h) [
    | inl (g, found, full) ↦ (g, found, inl full)
    | inr q ↦ elim q.source [
      | inl d ↦ cc d
      | inr (g, found, old, e) ↦ (g, found, inr (old, rw e q.least))
    ]
  ]
