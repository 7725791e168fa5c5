-- ===== src/Slot/Service.antt =====
-- What the slot promises to the tasks: one at a time, no lost wakeup, least priority first.
use sementic_search_engine.Prelude.{
  ℕ, ◌≤◌, ◌<◌, ◌≡◌, refl, ◌⊎◌, inl, inr, true, false, none, some, arith, All, All-imp, ap, ◌≢◌,
}
use sementic_search_engine.Slot.{
  outside, waiting, granted, inside, Waiter, Slot, update, granted_cancelled, release, leave,
  abandon_granted, before, Reach,
}
use sementic_search_engine.Slot.Arrival.{IsByArrival, Reach-IsByArrival}
use sementic_search_engine.Slot.Heap.{In, entries}
use sementic_search_engine.Slot.Release.{Handed, freed, handed, release-Handed}
use sementic_search_engine.Slot.Exclusion.{owns, entries-done, IsExclusive, Reach-IsExclusive}

IsExclusive-unique :
    (s : Slot)
    → IsExclusive s
    → (t u : ℕ) → owns (s.phase t) ≡ true
    → owns (s.phase u) ≡ true
    → t ≡ u
IsExclusive-unique s (none, i) t u ht hu = ground (arith, i.owned t)
IsExclusive-unique s (some o, i) t u ht hu = ground (arith, i.owned t, i.owned u)

-- In every reachable state at most one task has the slot: two tasks that have it are the same.
pub Reach-exclusive :
    {s : Slot} → Reach s → (t u : ℕ) → owns (s.phase t) ≡ true → owns (s.phase u) ≡ true → t ≡ u
Reach-exclusive r t u ht hu = IsExclusive-unique _ (Reach-IsExclusive r) t u ht hu

IsExclusive-waiting :
    (s : Slot)
    → IsExclusive s
    → (t : ℕ) → s.phase t ≡ waiting
    → (u : ℕ) × (owns (s.phase u) ≡ true) × (s.busy ≡ true)
IsExclusive-waiting s (none, i) t e =
    absurd (ground (arith, i.entry t, ap (entries t) (i.quiet refl)))
IsExclusive-waiting s (some o, i) t e = (o, ground (arith, i.owned o), i.busy)

-- In a reachable state, while a task waits for the slot, a task has it and the slot is busy.
pub Reach-waiting_has_owner :
    {s : Slot}
    → Reach s
    → (t : ℕ) → s.phase t ≡ waiting
    → (u : ℕ) × (owns (s.phase u) ≡ true) × (s.busy ≡ true)
Reach-waiting_has_owner r t e = IsExclusive-waiting _ (Reach-IsExclusive r) t e

-- An entry has a smaller priority than another, or the same and a number that is not larger.
abbrev pub Precedes : Waiter → Waiter → Type 0
Precedes w v = (w.priority < v.priority) ⊎ ((w.priority ≡ v.priority) × (w.seq ≤ v.seq))

before-Precedes : (v w : Waiter) → before v w ≡ false → Precedes w v
before-Precedes v w h = ground arith

pub Precedes-before : (w v : Waiter) → Precedes w v → before v w ≡ false
Precedes-before w v p = ground (arith, p)

-- The slot went from its last owner to a waiting task, whose entry precedes those of all waiting
-- tasks; the entries are numbered in the order of their arrival.
pub record Served (s u : Slot) : Type 0 where
  pub waiter : Waiter
  pub member : In waiter s.waiters
  pub was_waiting : s.phase waiter.task ≡ waiting
  pub has_slot : u.phase waiter.task ≡ granted
  pub still_busy : u.busy ≡ true
  pub first : All (λ v. s.phase v.task ≡ waiting → Precedes waiter v) s.waiters
  pub numbered : IsByArrival s.next_seq s.waiters

-- No task waits, and the slot is free.
pub record Freed (s u : Slot) : Type 0 where
  pub nobody : (t : ℕ) → s.phase t ≢ waiting
  pub free : u.busy ≡ false

module _ (s : Slot) (t : ℕ) (x : IsExclusive s) (arrival : IsByArrival s.next_seq s.waiters)
    (own : owns (s.phase t) ≡ true) where
  abbrev orphan : Slot
  orphan = record s { phase = update s.phase t outside }

  Handed-Served : (u : Slot) → Handed orphan u → Freed s u ⊎ Served s u
  Handed-Served u (freed all e) = inl (record {
    nobody = λ v w. ground (arith, x.1.entry v, entries-done orphan.phase s.waiters v all);
    free = rw e refl;
  })
  Handed-Served u (handed w rest pending sub first le ge e) = inr (record {
    waiter = w;
    member = sub w (inl refl);
    was_waiting = ground arith;
    has_slot = rw e (ground arith);
    still_busy = rw e (ground (arith, x.1.busy, x.1.owned t));
    first = All-imp _ (λ v h q. before-Precedes v w (ground arith)) s.waiters first;
    numbered = arrival;
  })

-- In a reachable state, when the body of a task ends, the slot goes to a waiting task that no other
-- precedes, by the priority and then by the order in which they came, or is free if no task waits.
pub leave_serves_first :
    {s : Slot} → Reach s → (t : ℕ) → s.phase t ≡ inside → Freed s (leave t s) ⊎ Served s (leave t s)
unfolding leave
leave_serves_first {s} r t e =
    Handed-Served s t (Reach-IsExclusive r) (Reach-IsByArrival r) (ground arith) _
      (release-Handed _)

-- In a reachable state, a task that is cancelled after it was handed the slot, and before it runs,
-- passes the slot on to a waiting task that no other precedes, by the priority and then by the order in
-- which they came, or frees it if no task waits.
pub abandon_serves_first :
    {s : Slot}
    → Reach s
    → (t : ℕ) → s.phase t ≡ granted_cancelled
    → Freed s (abandon_granted t s) ⊎ Served s (abandon_granted t s)
unfolding abandon_granted release
abandon_serves_first {s} r t e =
    Handed-Served s t (Reach-IsExclusive r) (Reach-IsByArrival r) (ground arith) _
      (release-Handed _)
