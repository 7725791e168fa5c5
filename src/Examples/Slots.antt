-- ===== src/Examples/Slots.antt =====
-- Three tasks at the slot: task 1 is in the body, tasks 2 and 3 wait, the latter with the lower number.
use sementic_search_engine.Prelude.{ℕ, ◌≡◌, refl, inl, arith, ◌⊎◌, true, ℕ_discrete}
use sementic_search_engine.Slot.{
  Slot, init, acquire, leave, abandon_granted, release, release_loop, heappop, update, inside,
  waiting, granted, granted_cancelled, enters, leaves, cancels_granted, Reach, start, later,
}
use sementic_search_engine.Config.{defaults}
use sementic_search_engine.Schemas.{Lane}
use sementic_search_engine.Worker.Lanes.{lane_specs}
use sementic_search_engine.Worker.Encoding
use sementic_search_engine.Worker.Encoding.{begins}
use sementic_search_engine.Worker.Encoding.Turns.{Reach-next_turn}
use sementic_search_engine.Slot.Exclusion.{owns}
use sementic_search_engine.Slot.Service.{
  Served, Freed, Reach-exclusive, Reach-waiting_has_owner, leave_serves_first, abandon_serves_first,
}

abbrev one_in : Slot
unfolding acquire init
one_in = acquire 1 0 init

abbrev one_waits : Slot
unfolding acquire init
one_waits = acquire 2 1 one_in

abbrev two_wait : Slot
unfolding acquire init
two_wait = acquire 3 0 one_waits

two_wait-Reach : Reach two_wait
unfolding acquire init ℕ_discrete
two_wait-Reach =
    later (later (later start (enters 1 0 init refl)) (enters 2 1 one_in refl))
      (enters 3 0 one_waits refl)

phase_1 : two_wait.phase 1 ≡ inside
unfolding acquire init ℕ_discrete
phase_1 = refl

owns_1 : owns (two_wait.phase 1) ≡ true
unfolding acquire init ℕ_discrete
owns_1 = refl

phase_2 : two_wait.phase 2 ≡ waiting
unfolding acquire init ℕ_discrete
phase_2 = refl

Reach-exclusive_example : ◌≡◌ {A = ℕ} 1 1
Reach-exclusive_example = Reach-exclusive two_wait-Reach 1 1 owns_1 owns_1

Reach-waiting_has_owner_example :
    (u : ℕ) × (owns (two_wait.phase u) ≡ true) × (two_wait.busy ≡ true)
Reach-waiting_has_owner_example = Reach-waiting_has_owner two_wait-Reach 2 phase_2

leave_serves_first_example : Freed two_wait (leave 1 two_wait) ⊎ Served two_wait (leave 1 two_wait)
leave_serves_first_example = leave_serves_first two_wait-Reach 1 phase_1

-- Task 1 leaves, task 3 is handed the slot, and is cancelled before it resumes.
abbrev handed_on : Slot
unfolding leave
handed_on = leave 1 two_wait

abbrev cancelled_3 : Slot
cancelled_3 = record handed_on { phase = update handed_on.phase 3 granted_cancelled }

handed_3 : handed_on.phase 3 ≡ granted
unfolding acquire init leave release release_loop heappop ℕ_discrete
handed_3 = refl

cancelled_3-Reach : Reach cancelled_3
unfolding leave
cancelled_3-Reach =
    later (later two_wait-Reach (leaves 1 two_wait phase_1)) (cancels_granted 3 handed_on handed_3)

phase_3 : cancelled_3.phase 3 ≡ granted_cancelled
unfolding ℕ_discrete
phase_3 = refl

abandon_serves_first_example :
    Freed cancelled_3 (abandon_granted 3 cancelled_3)
    ⊎ Served cancelled_3 (abandon_granted 3 cancelled_3)
abandon_serves_first_example = abandon_serves_first cancelled_3-Reach 3 phase_3

-- A batch of the index lane encodes as task 1, and one of the query lane waits as task 2.
abbrev encoding : Encoding.State
unfolding Encoding.init acquire lane_specs
encoding = record {
  slot = acquire 1 1 (Encoding.init).slot;
  lane = Encoding.assign (Encoding.init).lane 1 Lane.index;
}

abbrev query_waits : Encoding.State
unfolding encoding acquire lane_specs
query_waits = record {
  slot = acquire 2 0 encoding.slot;
  lane = Encoding.assign encoding.lane 2 Lane.query;
}

one_lane : (u : ℕ) → Encoding.assign (λ t. Lane.index) 1 Lane.index u ≡ Lane.index
one_lane u = ground arith

query_waits-Reach : Encoding.Reach defaults query_waits
unfolding Encoding.init init encoding query_waits acquire lane_specs ℕ_discrete
query_waits-Reach =
    Encoding.later
      (Encoding.later Encoding.start
        (begins 1 Lane.index Encoding.init refl (λ u out. absurd (out refl))))
      (begins 2 Lane.query encoding refl (λ u out same. cc (one_lane u, same)))

encodes_1 : query_waits.slot.phase 1 ≡ inside
unfolding encoding query_waits acquire init ℕ_discrete Encoding.init
encodes_1 = refl

waits_2 : query_waits.slot.phase 2 ≡ waiting
unfolding encoding query_waits acquire init ℕ_discrete Encoding.init
waits_2 = refl

query_2 : query_waits.lane 2 ≡ Lane.query
unfolding query_waits ℕ_discrete
query_2 = refl

Reach-next_turn_example : (leave 1 query_waits.slot).phase 2 ≡ granted
Reach-next_turn_example =
    Reach-next_turn defaults query_waits-Reach 1 2 encodes_1 waits_2 (inl query_2)
