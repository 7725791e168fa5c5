-- ===== src/Slot/Arrival.antt =====
-- The numbers of the entries of mq/batcher.py, `PrioritySlot`, follow the order of their arrival.
use sementic_search_engine.Prelude.{
  ℕ, ◌≤◌, ◌<◌, inl, inr, true, false, Bool-cases, ◌||◌, not, Option, none, some, List, [], ◌∷◌,
  is_empty, arith, ◌==◌, if◌then◌else◌, zero, suc,
}
use sementic_search_engine.Slot.{
  granted, Waiter, Slot, update, init, is_done, before, heappop, drop_task, release_loop, release,
  acquire, abandon_granted, abandon_pending, leave, Step, enters, resumes, cancels_pending,
  cancels_granted, abandons_granted, abandons_pending, leaves, Reach, start, later,
}

-- The entries, the latest first, have smaller and smaller numbers, all below the bound.
abbrev pub IsByArrival : ℕ → List Waiter → Type 0
IsByArrival bound [] = Unit
IsByArrival bound (w ∷ ws) = (w.seq < bound) × IsByArrival w.seq ws

raised :
    (bound more : ℕ) (ws : List Waiter) → bound ≤ more → IsByArrival bound ws → IsByArrival more ws
raised bound more [] le h = tt
raised bound more (w ∷ ws) le h = (omega (arith, h.0), h.1)

drop_task-IsByArrival :
    (t bound : ℕ) (ws : List Waiter) → IsByArrival bound ws → IsByArrival bound (drop_task t ws)
unfolding drop_task
drop_task-IsByArrival t bound [] h = tt
drop_task-IsByArrival t bound (w ∷ ws) h = elim (Bool-cases (w.task == t)) [
  | inl e ↦ rw e (raised w.seq bound _ (omega (arith, h.0)) (drop_task-IsByArrival t w.seq ws h.1))
  | inr e ↦ rw e (h.0, drop_task-IsByArrival t w.seq ws h.1)
]

-- What `heappop` leaves, whatever it takes.
abbrev Left : ℕ → Option (Waiter × List Waiter) → Type 0
Left bound none = Unit
Left bound (some (w, rest)) = IsByArrival bound rest

heappop-IsByArrival :
    (bound : ℕ) (ws : List Waiter) → IsByArrival bound ws → Left bound (heappop ws)
unfolding heappop
heappop-IsByArrival bound [] h = tt
heappop-IsByArrival bound (w ∷ ws) h = later_left (heappop ws) (heappop-IsByArrival w.seq ws h.1)
  where
    later_left :
        (r : Option (Waiter × List Waiter))
        → Left w.seq r
        → Left bound (elim r [
          | none ↦ some (w, [])
          | some (m, rest) ↦ if before w m then some (w, ws) else some (m, w ∷ rest)
        ])
    later_left none l = tt
    later_left (some (m, rest)) l = elim (Bool-cases (before w m)) [
      | inl e ↦ rw e (raised w.seq bound ws (omega (arith, h.0)) h.1)
      | inr e ↦ rw e (h.0, l)
    ]

abbrev IsInOrder : Slot → Type 0
IsInOrder s = IsByArrival s.next_seq s.waiters

release_loop-IsInOrder : (fuel : ℕ) (s : Slot) → IsInOrder s → IsInOrder (release_loop fuel s)
unfolding release_loop
release_loop-IsInOrder zero s h = h
release_loop-IsInOrder (suc fuel) s h =
    popped (λ ws o. release_loop-IsInOrder fuel (record s { waiters = ws }) o) (heappop s.waiters)
      (heappop-IsByArrival s.next_seq s.waiters h)
  where
    popped :
        ((ws : List Waiter)
          → IsByArrival s.next_seq ws
          → IsInOrder (release_loop fuel (record s { waiters = ws })))
        → (r : Option (Waiter × List Waiter)) → Left s.next_seq r
        → IsInOrder (elim r [
          | none ↦ record s { busy = false }
          | some (w, rest) ↦ elim (is_done (s.phase w.task)) [
            | true ↦ release_loop fuel (record s { waiters = rest })
            | false ↦ record s { waiters = rest; phase = update s.phase w.task granted }
          ]
        ])
    popped goes_on none l = h
    popped goes_on (some (w, rest)) l = elim (Bool-cases (is_done (s.phase w.task))) [
      | inl e ↦ rw e (goes_on rest l)
      | inr e ↦ rw e l
    ]

Step-IsInOrder : {s u : Slot} → Step s u → IsInOrder s → IsInOrder u
unfolding acquire abandon_granted abandon_pending leave release
Step-IsInOrder (enters t priority s e) h = elim (Bool-cases (s.busy || not (is_empty s.waiters))) [
  | inl waits ↦ rw (waits, acquire) (omega arith, h)
  | inr free ↦ rw (free, acquire) h
]
Step-IsInOrder (resumes t s e) h = h
Step-IsInOrder (cancels_pending t s e) h = h
Step-IsInOrder (cancels_granted t s e) h = h
Step-IsInOrder (abandons_granted t s e) h = release_loop-IsInOrder _ _ h
Step-IsInOrder (abandons_pending t s e) h = drop_task-IsByArrival t s.next_seq s.waiters h
Step-IsInOrder (leaves t s e) h = release_loop-IsInOrder _ _ h

-- In every reachable state the entries are numbered in the order of their arrival.
pub Reach-IsByArrival : {s : Slot} → Reach s → IsByArrival s.next_seq s.waiters
unfolding init
Reach-IsByArrival start = tt
Reach-IsByArrival (later r step) = Step-IsInOrder step (Reach-IsByArrival r)
