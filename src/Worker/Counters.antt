-- ===== src/Worker/Counters.antt =====
-- mq/worker.py, `self.stats`: what the counters of a worker add up to.
use sementic_search_engine.Prelude.{
  ap, ℕ, ◌+◌, ◌≡◌, refl, ◌∙◌, inl, inr, Bool-cases, Bool, false, some, List, [], ◌∷◌, ◌++◌, length,
  arith, Result, ok, raise, if◌then◌else◌,
}
use sementic_search_engine.Schemas.{Lane, EmbeddingJob}
use sementic_search_engine.Schemas.Reply.{EmbeddingResult}
use sementic_search_engine.Handler.{
  encode_jobs_isolating_failures, encode_jobs, Exception, Engine, is_expired,
}
use sementic_search_engine.Handler.Lengths.{length-isolating}
use sementic_search_engine.Worker.Lanes.{LaneSpec}
use sementic_search_engine.Worker.{
  Message, Delivery, Action, Stat, failed, dead_lettered, completed, timed_out, reply_failed,
  counts, publishes, acks, nacks, Outside, reply_to, settle, expired_result, failed_result,
  expire_in, expire, give_up_or_requeue, finish, sift, finish_all, jobs_of, process_live, process,
}
use sementic_search_engine.Worker.Settlement.{length-jobs_of}

-- What a sequence of actions adds to the counters, each weighed by `f`.
abbrev pub raised : {V : Type 0} → (Lane → Stat → ℕ) → List (Action V) → ℕ
raised f [] = 0
raised f (counts l s ∷ as') = f l s + raised f as'
raised f (publishes t k p m c r ∷ as') = raised f as'
raised f (acks t ∷ as') = raised f as'
raised f (nacks t q ∷ as') = raised f as'

-- The answers and the exceptions of a batch, each weighed as the counter that it should raise.
abbrev pub of_outcomes :
    {V : Type 0} → (Lane → Stat → ℕ) → Lane → List (Result Exception (EmbeddingResult V)) → ℕ
of_outcomes f l [] = 0
of_outcomes f l (ok r ∷ os) = f l completed + of_outcomes f l os
of_outcomes f l (raise exc ∷ os) = f l failed + of_outcomes f l os

-- The expired jobs of a batch, weighed in the same way, and the other jobs.
unfoldable pub of_expired : (Lane → Stat → ℕ) → Lane → (ℕ → ℕ) → List Delivery → ℕ
of_expired f l now [] = 0
of_expired f l now (d ∷ ds) =
    (if is_expired d.job (now d.message.tag) then f l timed_out else 0) + of_expired f l now ds

unfoldable pub live_jobs : (ℕ → ℕ) → List Delivery → List EmbeddingJob
live_jobs now [] = []
live_jobs now (d ∷ ds) =
    let rest = live_jobs now ds in
    if is_expired d.job (now d.message.tag) then rest else d.job ∷ rest

-- A weight of counters that leaves out those of replies and dead letters, which are raised beside the
-- counter of an outcome.
pub record IsOfOutcomes (f : Lane → Stat → ℕ) (l : Lane) : Type 0 where
  pub no_reply_failed : f l reply_failed ≡ 0
  pub no_dead_lettered : f l dead_lettered ≡ 0

raised-append :
    {V : Type 0} (f : Lane → Stat → ℕ) (as' bs : List (Action V))
    → raised f (as' ++ bs) ≡ raised f as' + raised f bs
raised-append f [] bs = omega arith
raised-append f (counts l s ∷ as') bs = omega (arith, raised-append f as' bs)
raised-append f (publishes t k p m c r ∷ as') bs = raised-append f as' bs
raised-append f (acks t ∷ as') bs = raised-append f as' bs
raised-append f (nacks t q ∷ as') bs = raised-append f as' bs

module _ (V : Type 0) (out : Outside) (spec : LaneSpec) (f : Lane → Stat → ℕ)
    (w : IsOfOutcomes f spec.name) where
  raised-settle :
      (m : Message) (r : EmbeddingResult V) (retry : Bool)
      → raised f (settle out spec m r retry) ≡ 0
  unfolding settle reply_to
  raised-settle m r retry = ground (arith, w.no_reply_failed)

  raised-expire_in : (l : Lane) (d : Delivery) → raised f (expire_in {V = V} out spec l d) ≡ 0
  unfolding expire_in
  raised-expire_in Lane.query d = refl
  raised-expire_in Lane.index d = raised-settle d.message (expired_result out spec d) false

  raised-expire : (d : Delivery) → raised f (expire {V = V} out spec d) ≡ f spec.name timed_out
  unfolding expire
  raised-expire d = omega (arith, raised-expire_in spec.name d)

  raised-give_up_or_requeue : (m : Message) → raised f (give_up_or_requeue {V = V} out spec m) ≡ 0
  unfolding give_up_or_requeue
  raised-give_up_or_requeue m = ground (arith, w.no_dead_lettered)

  raised-finish :
      (d : Delivery) (o : Result Exception (EmbeddingResult V))
      → raised f (finish out spec d o) ≡ of_outcomes f spec.name (o ∷ [])
  unfolding finish
  raised-finish d (ok r) = omega (arith, raised-settle d.message r spec.retry_on_failure)
  raised-finish d (raise exc) = elim (Bool-cases spec.retry_on_failure) [
    | inl e ↦ rw (e, raised-give_up_or_requeue d.message) (omega arith)
    | inr e ↦ rw (e, raised-settle d.message (failed_result out spec d) false) (omega arith)
  ]

  of_outcomes-cons :
      (o : Result Exception (EmbeddingResult V)) (os : List (Result Exception (EmbeddingResult V)))
      → of_outcomes f spec.name (o ∷ os)
        ≡ of_outcomes f spec.name (o ∷ []) + of_outcomes f spec.name os
  of_outcomes-cons (ok r) os = omega arith
  of_outcomes-cons (raise exc) os = omega arith

  raised-finish_all :
      (ds : List Delivery) (os : List (Result Exception (EmbeddingResult V)))
      → length os ≡ length ds
      → raised f (finish_all out spec ds os) ≡ of_outcomes f spec.name os
  unfolding finish_all
  raised-finish_all [] [] e = refl
  raised-finish_all [] (o ∷ os) e = absurd (omega (arith, e))
  raised-finish_all (d ∷ ds) [] e = absurd (omega (arith, e))
  raised-finish_all (d ∷ ds) (o ∷ os) e = omega (
    arith,
    raised-append f (finish out spec d o) (finish_all out spec ds os),
    raised-finish d o,
    of_outcomes-cons o os,
    raised-finish_all ds os (omega (arith, e)),
  )

  raised-process_live :
      (engine : Engine V) (ds : List Delivery)
      → raised f (process_live out spec engine ds)
        ≡ of_outcomes f spec.name
            (encode_jobs_isolating_failures engine (some out.worker_id) (jobs_of ds))
  unfolding process_live encode_jobs_isolating_failures encode_jobs
  raised-process_live engine [] = refl
  raised-process_live engine (d ∷ ds) = raised-finish_all (d ∷ ds) _ (
      length-isolating engine (some out.worker_id) (jobs_of (d ∷ ds))
      ∙ length-jobs_of V out spec (d ∷ ds))

  raised-sift :
      (ds : List Delivery)
      → let (done, live) = sift {V = V} out spec ds in
        (raised f done ≡ of_expired f spec.name out.now ds) × (jobs_of live ≡ live_jobs out.now ds)
  unfolding sift of_expired live_jobs
  raised-sift [] = (refl, refl)
  raised-sift (d ∷ ds) = elim (Bool-cases (is_expired d.job (out.now d.message.tag))) [
    | inl e ↦
        rw (e, raised-append f (expire out spec d) (sift out spec ds).0, raised-expire d)
          (omega (arith, (raised-sift ds).0), (raised-sift ds).1)
    | inr e ↦ rw e (omega (arith, (raised-sift ds).0), ap (◌∷◌ d.job) (raised-sift ds).1)
  ]

  -- What processing a batch adds to the counters of its lane, beside those of refused replies and dead
  -- letters, is exactly: expired for each job that has expired, completed for each of the others that
  -- is answered, and failed for each whose encode raises; whichever replies the broker refuses.
  pub raised-process :
      (engine : Engine V) (items : List Delivery)
      → raised f (process out spec engine items)
        ≡ of_expired f spec.name out.now items
          + of_outcomes f spec.name
              (encode_jobs_isolating_failures engine (some out.worker_id) (live_jobs out.now items))
  unfolding process
  raised-process engine items =
      let (done, live) = sift out spec items in
      raised-append f done (process_live out spec engine live)
      ∙ rw ((raised-sift items).0, raised-process_live engine live, (raised-sift items).1) refl
