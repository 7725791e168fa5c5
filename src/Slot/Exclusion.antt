-- ===== src/Slot/Exclusion.antt =====
-- At any time at most one task has the slot, and it is never idle while a task waits for it.
use sementic_search_engine.Prelude.{
  ℕ, ◌≤◌, ◌≡◌, refl, Bool, true, false, Option, none, some, List, [], ◌∷◌, arith, All, ◌==◌,
  ℕ_discrete, if_pos, if_neg, ap,
}
use sementic_search_engine.Slot.{
  Phase, outside, waiting, granted, cancelled, granted_cancelled, inside, Waiter, Slot, update,
  init, is_done, release, acquire, abandon_granted, abandon_pending, leave, Step, enters, resumes,
  cancels_pending, cancels_granted, abandons_granted, abandons_pending, leaves, Reach, start, later,
}
use sementic_search_engine.Slot.Heap.{entries, entries-drop_task}
use sementic_search_engine.Slot.Release.{Handed, freed, handed, release-Handed}

-- The task has the slot: it is in the body, or its future has its result.
abbrev pub owns : Phase → Bool
owns outside = false
owns waiting = false
owns granted = true
owns cancelled = false
owns granted_cancelled = true
owns inside = true

-- How many entries of the heap a task may have.
abbrev pub Entry : Phase → ℕ → Type 0
Entry waiting n = n ≡ 1
Entry cancelled n = n ≤ 1
Entry _ n = n ≡ 0

abbrev is_some : Option ℕ → Bool
is_some none = false
is_some (some t) = true

abbrev is_owner : Option ℕ → ℕ → Bool
is_owner none t = false
is_owner (some u) t = u == t

pub record Inv (s : Slot) (owner : Option ℕ) : Type 0 where
  pub entry : (t : ℕ) → Entry (s.phase t) (entries t s.waiters)
  pub busy : s.busy ≡ is_some owner
  pub owned : (t : ℕ) → owns (s.phase t) ≡ is_owner owner t
  pub quiet : owner ≡ none → s.waiters ≡ []

abbrev pub IsExclusive : Slot → Type 0
IsExclusive s = (owner : Option ℕ) × Inv s owner

Inv-init : Inv init none
unfolding init
Inv-init = record { entry = λ t. refl; busy = refl; owned = λ t. refl; quiet = λ e. refl }

-- A slot whose owner has just gone is in order again after its release.
record Orphan (s : Slot) : Type 0 where
  entry : (t : ℕ) → Entry (s.phase t) (entries t s.waiters)
  busy : s.busy ≡ true
  none_owns : (t : ℕ) → owns (s.phase t) ≡ false

pub entries-done :
    (phase : ℕ → Phase) (ws : List Waiter) (t : ℕ)
    → All (λ w. is_done (phase w.task) ≡ true) ws
    → is_done (phase t) ≡ false
    → entries t ws ≡ 0
entries-done phase [] t h p = refl
entries-done phase (w ∷ ws) t h p = elim (ℕ_discrete w.task t) [
  | yes e ↦ cc (h.0, ap phase e)
  | no n ↦ ground (arith, entries-done phase ws t h.1)
]

Handed-IsExclusive : (s u : Slot) → Orphan s → Handed s u → IsExclusive u
Handed-IsExclusive s u o (freed all e) = (
  none,
  rw e (record {
    entry = λ t. ground (arith, o.entry t, entries-done s.phase s.waiters t all);
    busy = refl;
    owned = λ t. o.none_owns t;
    quiet = λ q. refl;
  }),
)
Handed-IsExclusive s u o (handed w rest pending sub first le ge e) = (
  some w.task,
  rw e (record {
    entry = λ t. ground (arith, o.entry t, o.none_owns t, le t, ge t);
    busy = o.busy;
    owned = λ t. ground (arith, o.none_owns t);
    quiet = λ q. cc;
  }),
)

-- The owner `t` goes outside.
leaving-Orphan :
    (s : Slot) (o : Option ℕ) (t : ℕ)
    → Inv s o
    → owns (s.phase t) ≡ true
    → Entry (s.phase t) 0
    → Orphan (record s { phase = update s.phase t outside })
leaving-Orphan s none t i own n = cc (i.owned t)
leaving-Orphan s (some u) t i own n = record {
  entry = λ v. ground (arith, i.entry v, i.owned t);
  busy = i.busy;
  none_owns = λ v. ground (arith, i.owned v, i.owned t);
}

release-IsExclusive : (s : Slot) → Orphan s → IsExclusive (release s)
release-IsExclusive s o = Handed-IsExclusive s _ o (release-Handed s)

acquire-IsExclusive :
    (t priority : ℕ) (s : Slot) (o : Option ℕ)
    → Inv s o
    → s.phase t ≡ outside
    → IsExclusive (acquire t priority s)
unfolding acquire
acquire-IsExclusive t priority s none i e = (
  some t,
  rw (i.quiet refl, i.busy)
      (record {
        entry = λ u. ground (arith, i.entry u);
        busy = refl;
        owned = λ u. ground (arith, i.owned u);
        quiet = λ q. cc;
      }),
)
acquire-IsExclusive t priority s (some o) i e = (
  some o,
  rw i.busy (record {
    entry = λ u. ground (arith, i.entry u);
    busy = refl;
    owned = λ u. ground (arith, i.owned u);
    quiet = λ q. cc;
  }),
)

-- A task that goes to a phase of the same standing.
rephase-Inv :
    (s : Slot) (o : Option ℕ) (t : ℕ) (x : Phase)
    → Inv s o
    → owns x ≡ owns (s.phase t)
    → ((n : ℕ) → Entry (s.phase t) n → Entry x n)
    → Inv (record s { phase = update s.phase t x }) o
rephase-Inv s o t x i same keep = record {
  entry = λ u. elim (ℕ_discrete t u) [
    | yes e ↦ rw (if_pos (ℕ_discrete t u) e) (rw e at (keep (entries t s.waiters) (i.entry t)))
    | no n ↦ rw (if_neg (ℕ_discrete t u) n) (i.entry u)
  ];
  busy = i.busy;
  owned = λ u. ground (arith, i.owned u);
  quiet = i.quiet;
}

-- Every step of a task keeps the invariant.
pub Step-IsExclusive : {s u : Slot} → Step s u → IsExclusive s → IsExclusive u
Step-IsExclusive (enters t priority s e) (o, i) = acquire-IsExclusive t priority s o i e
Step-IsExclusive (resumes t s e) (o, i) =
    (o, rephase-Inv s o t inside i (ground arith) (λ n h. ground arith))
Step-IsExclusive (cancels_pending t s e) (o, i) =
    (o, rephase-Inv s o t cancelled i (ground arith) (λ n h. ground arith))
Step-IsExclusive (cancels_granted t s e) (o, i) =
    (o, rephase-Inv s o t granted_cancelled i (ground arith) (λ n h. ground arith))
Step-IsExclusive (abandons_granted t s e) (o, i) =
    unfold abandon_granted release in
    release-IsExclusive _ (leaving-Orphan s o t i (ground arith) (ground arith))
Step-IsExclusive (abandons_pending t s e) (o, i) =
    unfold abandon_pending in
    (
      o,
      record {
        entry = λ u. ground (arith, i.entry u, entries-drop_task t u s.waiters);
        busy = i.busy;
        owned = λ u. ground (arith, i.owned u);
        quiet = λ q. rw (i.quiet q) refl;
      },
    )
Step-IsExclusive (leaves t s e) (o, i) =
    unfold leave in release-IsExclusive _ (leaving-Orphan s o t i (ground arith) (ground arith))

pub Reach-IsExclusive : {s : Slot} → Reach s → IsExclusive s
Reach-IsExclusive start = (none, Inv-init)
Reach-IsExclusive (later r st) = Step-IsExclusive st (Reach-IsExclusive r)
