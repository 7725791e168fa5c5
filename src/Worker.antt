-- ===== src/Worker.antt =====
-- mq/worker.py: what a worker does with the messages of a lane. A handler returns the actions that
-- it takes, in order. What the broker and the engine answer are parameters. The acks and nacks
-- themselves are taken to reach the broker.
pub mod Lanes
pub mod Settlement
pub mod Answers
pub mod Retries
pub mod Lifecycle
pub mod Entry
pub mod Counters
pub mod Encoding
pub mod Replies
pub mod Published
pub mod Origins
use sementic_search_engine.Prelude.{
  ℕ, suc, ◌+◌, ◌≡◌, Bool, true, false, ◌&&◌, ◌||◌, not, Option, none, some, List, [], ◌∷◌, ◌++◌,
  leb, if◌then◌else◌, is_empty, length, map, Text, codes, max, Result, ok, raise,
}
use sementic_search_engine.Config.{Settings}
use sementic_search_engine.Batcher.{Batch, Policy, State, add}
use sementic_search_engine.Schemas.{
  Lane, InputType, EmbeddingJob, ErrorCode, internal_error, expired,
}
use sementic_search_engine.Schemas.Reply.{EmbeddingResult}
use sementic_search_engine.Handler.{
  Exception, Engine, Uncaught, Libraries, parse_job, is_expired, error_result,
  encode_jobs_isolating_failures, Outcome,
}
use Lanes.{LaneSpec}

-- An incoming message. Its tag is what an ack or a nack names.
pub record Message : Type 0 where
  pub tag : ℕ
  pub body : List ℕ
  pub message_id : Option Text
  pub correlation_id : Option Text
  pub reply_to : Option Text
  -- the headers `x-acquired-count` and `x-delivery-count`, which the broker writes: numbers that are not
  -- negative, as RabbitMQ documents
  pub acquired_count : Option ℕ
  pub delivery_count : Option ℕ

pub record Delivery : Type 0 where
  pub message : Message
  pub job : EmbeddingJob

-- headers.get(...) or 0
abbrev pub or_zero : Option ℕ → ℕ
or_zero none = 0
or_zero (some n) = n

-- `int` leaves the number that the broker writes as it is.
unfoldable pub delivery_attempt : Message → ℕ
delivery_attempt m = max (or_zero m.acquired_count) (or_zero m.delivery_count) + 1

-- a or b, of optional texts
abbrev pub or_text : Option Text → Option Text → Option Text
or_text none b = b
or_text (some a) b = if is_empty a then b else some a

pub data Stat : Type 0 where
  received rejected failed dead_lettered completed timed_out reply_failed : Stat

-- What a worker does to the outside world, and the counters that it raises.
pub data Action (V : Type 0) : Type 0 where
  counts : Lane → Stat → Action V
  -- a reply that the broker has confirmed: its message's tag, where it goes, whether it is persistent
  -- and mandatory, its correlation id and its body
  publishes :
      (tag : ℕ) (routing_key : Text) (persistent mandatory : Bool) (correlation_id : Text)
      → EmbeddingResult V
      → Action V
  acks : (tag : ℕ) → Action V
  nacks : (tag : ℕ) (requeue : Bool) → Action V

-- message.correlation_id or result.job_id
abbrev pub correlation : Option Text → Text → Text
correlation none id = id
correlation (some c) id = if is_empty c then id else c

-- What the outside gives to a worker.
pub record Outside : Type 0 where
  -- whether the broker confirms the reply to the message with this tag; otherwise the publish raises
  pub confirms : ℕ → Bool
  -- what the clock reads when the message with this tag is checked for expiry
  pub now : ℕ → ℕ
  pub worker_id : Text
  pub index_delivery_limit : ℕ

abbrev pub jobs_of : List Delivery → List EmbeddingJob
jobs_of [] = []
jobs_of (d ∷ ds) = d.job ∷ jobs_of ds

module _ {V : Type 0} (out : Outside) (spec : LaneSpec) where
  open out use {confirms, now, worker_id, index_delivery_limit}

  reply_to : Message → EmbeddingResult V → Text → List (Action V) × Bool
  reply_to m result key =
      if is_empty key
      then ([], true)
      else if confirms m.tag
      then (
        publishes m.tag key spec.persistent_reply spec.mandatory_reply
              (correlation m.correlation_id result.job_id) result
            ∷ [],
        true,
      )
      else ([], false)

  -- `_reply`: what was published, and whether it returned; otherwise it raised.
  unfoldable pub reply : Message → EmbeddingResult V → List (Action V) × Bool
  unfolding reply_to
  reply m result = elim m.reply_to [ none ↦ ([], true) | some key ↦ reply_to m result key ]

  -- `_settle`
  unfoldable pub settle : Message → EmbeddingResult V → Bool → List (Action V)
  unfolding reply
  settle m result retry =
      let (done, returned) = reply m result in
      if returned
      then done ++ acks m.tag ∷ []
      else done ++ counts spec.name reply_failed ∷ nacks m.tag retry ∷ []

  expired_result : Delivery → EmbeddingResult V
  unfolding error_result
  expired_result d =
      error_result d.job.job_id expired (codes "deadline passed before the job was processed")
        (some d.job.metadata) (some worker_id)

  unfoldable pub failed_result : Delivery → EmbeddingResult V
  unfolding error_result
  failed_result d =
      error_result d.job.job_id internal_error (codes "embedding failed") (some d.job.metadata)
        (some worker_id)

  expire_in : Lane → Delivery → List (Action V)
  unfolding settle expired_result
  expire_in Lane.query d = acks d.message.tag ∷ []
  expire_in Lane.index d = settle d.message (expired_result d) false

  -- `_expire`
  unfoldable pub expire : Delivery → List (Action V)
  unfolding expire_in
  expire d = counts spec.name timed_out ∷ expire_in spec.name d

  -- The branch of `_finish` for a failed encode in a lane that retries.
  give_up_or_requeue : Message → List (Action V)
  unfolding delivery_attempt
  give_up_or_requeue m =
      if leb index_delivery_limit (delivery_attempt m)
      then counts spec.name dead_lettered ∷ nacks m.tag false ∷ []
      else nacks m.tag true ∷ []

  -- `_finish`
  unfoldable pub finish : Delivery → Result Exception (EmbeddingResult V) → List (Action V)
  unfolding settle give_up_or_requeue failed_result
  finish d (raise exc) =
      counts spec.name failed
      ∷ (if spec.retry_on_failure
          then give_up_or_requeue d.message
          else settle d.message (failed_result d) spec.retry_on_failure)
  finish d (ok result) = counts spec.name completed ∷ settle d.message result spec.retry_on_failure

  -- The first loop of `_process`: the actions on the deliveries that expired, and the others.
  unfoldable pub sift : List Delivery → List (Action V) × List Delivery
  unfolding expire
  sift [] = ([], [])
  sift (d ∷ ds) =
      let (done, live) = sift ds in
      if is_expired d.job (now d.message.tag) then (expire d ++ done, live) else (done, d ∷ live)

  -- The `zip` at the end of `_process`. The finishes run side by side; each touches its own message
  -- only, so they are listed one after the other.
  unfoldable pub finish_all :
      List Delivery → List (Result Exception (EmbeddingResult V)) → List (Action V)
  unfolding finish
  finish_all (d ∷ ds) (o ∷ os) = finish d o ++ finish_all ds os
  finish_all [] os = []
  finish_all (d ∷ ds) [] = []

  process_live : Engine V → List Delivery → List (Action V)
  unfolding finish_all
  process_live engine [] = []
  process_live engine (d ∷ ds) =
      finish_all (d ∷ ds)
        (encode_jobs_isolating_failures engine (some worker_id) (jobs_of (d ∷ ds)))

  -- `_process`, for the items of a batch.
  unfoldable pub process : Engine V → List Delivery → List (Action V)
  unfolding sift process_live
  process engine items = let (done, live) = sift items in done ++ process_live engine live

  -- What `_on_message` does to its lane: actions, and perhaps an item for the batcher.
  accept : Message → EmbeddingJob → List (Action V) × Option Delivery
  unfolding expire
  accept m job =
      let d : Delivery = record { message = m; job = job } in
      if is_expired job (now m.tag) then (expire d, none) else ([], some d)

  on_parsed :
      Message → Option EmbeddingJob × Option (EmbeddingResult V) → List (Action V) × Option Delivery
  unfolding settle accept
  on_parsed m (job, some rejection) = (counts spec.name rejected ∷ settle m rejection false, none)
  on_parsed m (some job, none) = accept m job
  -- `parse_job` never gives this; the assertion would fail.
  on_parsed m (none, none) = ([], none)

  -- What comes of `parse_job`; what it raises, `_on_message` raises, and the message is left unsettled.
  on_read :
      Message
      → Result Uncaught (Option EmbeddingJob × Option (EmbeddingResult V))
      → List (Action V) × Result Uncaught (Option Delivery)
  unfolding on_parsed
  on_read m (ok p) = let (done, added) = on_parsed m p in (done, ok added)
  on_read m (raise exc) = ([], raise exc)

  -- `_on_message`: the actions that it takes, and what it returns or raises after them.
  unfoldable pub on_message :
      Libraries
      → Settings
      → Text
      → Bool
      → Message
      → List (Action V) × Result Uncaught (Option Delivery)
  unfolding on_read
  on_message lib s new_job_id draining m =
      let (done, added) =
        if draining
        then (nacks m.tag true ∷ [], ok none)
        else on_read m (
            parse_job lib s new_job_id m.body (or_text m.message_id m.correlation_id)
              (some worker_id)) in
      (counts spec.name received ∷ done, added)
