-- ===== src/Examples/Workers.antt =====
-- The worker of the index lane on three deliveries.
use mathlib.Core.List.{Perm}
use sementic_search_engine.Worker.Entry.Asked.{Asks, Identifies, main-builds_asked}
use sementic_search_engine.Prelude.{
  map, inl, inr, max, ℕ, ◌+◌, arith, ◌≡◌, refl, some, none, codes, true, false, ltb, All, List, [],
  ◌∷◌, ok, strip, text_eq,
}
use sementic_search_engine.Config.{defaults}
use sementic_search_engine.Schemas.{Lane}
use sementic_search_engine.Worker.{or_zero, Stat, Message, process, on_message}
use sementic_search_engine.Worker.Lanes.{
  join, LaneSpec, lane_specs, parse_lanes, collect, split_from, lower, lane_of, has_lane,
}
use sementic_search_engine.Worker.Lanes.Parsing.{distinct}
use sementic_search_engine.Worker.Counters.{
  of_expired, of_outcomes, live_jobs, raised, raised-process,
}
use sementic_search_engine.Worker.Entry.{default_worker_id, Arguments, Built, lanes_argument, main}
use sementic_search_engine.Worker.Entry.Started.{idle, built, main_iff}
use sementic_search_engine.Worker.Settlement.{
  settled, tags, settled-process-perm, IsHandled, on_message-IsHandled,
}
use sementic_search_engine.Handler.{encode_jobs_isolating_failures, not_loaded}
use sementic_search_engine.Worker.Retries.{deliveries_until_limit}
use sementic_search_engine.Worker.Retries
use sementic_search_engine.Worker.Answers.{is_answered, wants_reply, process-is_answered}
use sementic_search_engine.Examples.{engine, libraries, message, outside_world, deliveries, job_a}

abbrev index_lane : LaneSpec
unfolding lane_specs
index_lane = lane_specs defaults Lane.index

settled-process-perm_example :
    Perm (settled (process outside_world index_lane engine deliveries)) (tags deliveries)
settled-process-perm_example = settled-process-perm ℕ outside_world index_lane engine deliveries

on_message-IsHandled_example :
    IsHandled ℕ outside_world index_lane libraries (message 1 (some (codes "q"))) (
      on_message outside_world index_lane libraries defaults
        (codes "new")
        false
        (message 1 (some (codes "q"))))
on_message-IsHandled_example =
    on_message-IsHandled ℕ outside_world index_lane libraries defaults (codes "new") false
      (message 1 (some (codes "q")))

-- The counters of outcomes, told apart.
abbrev weights : Lane → Stat → ℕ
weights l Stat.received = 0
weights l Stat.rejected = 1000
weights l Stat.failed = 10
weights l Stat.dead_lettered = 0
weights l Stat.completed = 1
weights l Stat.timed_out = 100
weights l Stat.reply_failed = 0

raised-process_example :
    raised weights (process outside_world index_lane engine deliveries)
    ≡ of_expired weights index_lane.name outside_world.now deliveries
      + of_outcomes weights index_lane.name (
          encode_jobs_isolating_failures engine
            (some outside_world.worker_id)
            (live_jobs outside_world.now deliveries))
raised-process_example =
    raised-process ℕ outside_world index_lane weights
      (record { no_reply_failed = refl; no_dead_lettered = refl }) engine deliveries

is_index : index_lane.name ≡ Lane.index
unfolding index_lane
is_index = refl

-- The messages 1 and 2 ask for a reply, and message 4 does not.
marked : All (λ d. ltb d.message.tag 4 ≡ wants_reply d.message.reply_to) deliveries
marked = (refl, (refl, (refl, tt)))

process-is_answered_example :
    is_answered (λ tag. ltb tag 4) [] (process outside_world index_lane engine deliveries) ≡ true
process-is_answered_example =
    process-is_answered ℕ outside_world index_lane (λ tag. ltb tag 4) is_index engine deliveries
      marked

abbrev both_lanes : List Lane
both_lanes = Lane.index ∷ Lane.query ∷ []

two_lanes : parse_lanes (codes " Index,,query,index") ≡ ok both_lanes
unfolding parse_lanes collect split_from lower lane_of has_lane strip text_eq
two_lanes = refl

-- `--lanes " Index,,query,index"` on a host named h.
abbrev arguments : Arguments
arguments = record { lanes = some (codes " Index,,query,index"); worker_id = none }

abbrev worker : Built
worker = built defaults (codes "h-7") none both_lanes

-- `--lanes query,index` with an empty `--worker-id`, on a host named h.
abbrev joined : Arguments
joined = record { lanes = some (codes "query,index"); worker_id = some [] }

main-builds_asked_example :
    main defaults (codes "h") (codes "7") joined
    ≡ ok (record {
      worker_id = codes "h-7";
      lanes = map (idle defaults) (Lane.query ∷ Lane.index ∷ []);
    })
unfolding join lane_specs distinct has_lane
main-builds_asked_example =
    main-builds_asked defaults (codes "h") (codes "7") joined (Lane.query ∷ Lane.index ∷ [])
      (codes "h-7") (Asks.by_argument refl) refl refl (omega arith, (omega arith, tt))
      (Identifies.by_host (inr refl) (inl refl))

main_builds : main defaults (codes "h") (codes "7") arguments ≡ ok worker
unfolding lanes_argument default_worker_id lane_specs distinct has_lane
main_builds =
    (main_iff defaults (codes "h") (codes "7") arguments worker).1
      (both_lanes, two_lanes, refl, refl, (omega arith, (omega arith, tt)), refl)

-- How often a message was delivered before, and a broker that counts it under `x-acquired-count`.
abbrev earlier : Message → ℕ
earlier m = max (or_zero m.acquired_count) (or_zero m.delivery_count)

abbrev counts_more : Message → Message
counts_more m = record m { acquired_count = some (earlier m + 1) }

counted : (m : Message) → Retries.IsCounted (earlier m) m
counted m = record { told = ground arith; no_more = (omega arith, omega arith) }

once_more : (m : Message) → earlier (counts_more m) ≡ earlier m + 1
once_more m = omega arith

retries : index_lane.retry_on_failure ≡ true
unfolding index_lane
retries = refl

-- A message that was not delivered before.
abbrev fresh : Message
fresh = record (message 1 none) { delivery_count = none }

first_of_three : earlier fresh + 1 + 2 ≡ outside_world.index_delivery_limit
first_of_three = refl

deliveries_until_limit_example :
    Retries.deliveries ℕ outside_world index_lane counts_more job_a not_loaded 5 fresh ≡ some 3
deliveries_until_limit_example =
    deliveries_until_limit ℕ outside_world index_lane counts_more job_a not_loaded earlier 2 5 fresh
      retries counted once_more first_of_three (omega arith)
