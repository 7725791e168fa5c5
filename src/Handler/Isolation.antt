-- ===== src/Handler/Isolation.antt =====
-- One job that breaks the model does not fail the jobs that share its batch.
use sementic_search_engine.Prelude.{
  ℕ, suc, ◌≡◌, refl, inl, inr, Bool, false, List, [], ◌∷◌, ◌++◌, ◌==◌, length, All2, arith, Text,
  Option, Result, ok, raise, Result-cases, if◌then◌else◌,
}
use sementic_search_engine.Schemas.{InputType, EmbeddingJob}
use sementic_search_engine.Schemas.Reply.{EmbeddingResult}
use sementic_search_engine.Handler.{
  Exception, Engine, Outcome, oks, outcomes_of, encode_jobs, encode_each,
  encode_jobs_isolating_failures,
}
use sementic_search_engine.Handler.Splitting.{IsPointwise, IsAnswer, Answers, encode_jobs-Answers}

two_not_one : (n : ℕ) → (suc (suc n) == 1) ≡ false
two_not_one n = ground arith

module _ {V : Type 0} (engine : Engine V) (worker_id : Option Text)
    (vector : InputType → Bool → Text → V) (cut : InputType → Bool → Text → Bool) where
  -- The job is answered with its own vectors; or its own encode raises what is reported.
  pub data Isolated (job : EmbeddingJob) : Outcome engine worker_id → Type 0 where
    answered :
        (r : EmbeddingResult V)
        → IsAnswer engine worker_id vector cut job.input_type job.normalize job r
        → Isolated job (ok r)
    failed :
        (exc : Exception)
        → encode_jobs engine worker_id (job ∷ []) ≡ raise exc
        → Isolated job (raise exc)

  oks-Isolated :
      (jobs : List EmbeddingJob) (rs : List (EmbeddingResult V))
      → Answers engine worker_id vector cut jobs rs
      → All2 Isolated jobs (oks engine worker_id rs)
  oks-Isolated [] rs All2.nil = All2.nil
  oks-Isolated (job ∷ jobs) rs (All2.cons a as') =
      All2.cons (answered _ a) (oks-Isolated jobs _ as')

  All2-append :
      {jobs more : List EmbeddingJob} {os qs : List (Outcome engine worker_id)}
      → All2 Isolated jobs os
      → All2 Isolated more qs
      → All2 Isolated (jobs ++ more) (os ++ qs)
  All2-append All2.nil b = b
  All2-append (All2.cons r rs) b = All2.cons r (All2-append rs b)

  module _ (pw : IsPointwise engine vector cut) where
    lone-Isolated :
        (job : EmbeddingJob) (r : Result Exception (List (EmbeddingResult V)))
        → encode_jobs engine worker_id (job ∷ []) ≡ r
        → All2 Isolated (job ∷ []) (outcomes_of engine worker_id r)
    lone-Isolated job (ok rs) e =
        oks-Isolated (job ∷ []) rs
          (encode_jobs-Answers engine worker_id vector cut (job ∷ []) rs pw e)
    lone-Isolated job (raise exc) e = All2.cons (failed exc e) All2.nil

    encode_each-Isolated :
        (jobs : List EmbeddingJob) → All2 Isolated jobs (encode_each engine worker_id jobs)
    unfolding encode_each
    encode_each-Isolated [] = All2.nil
    encode_each-Isolated (job ∷ jobs) =
        All2-append (lone-Isolated job (encode_jobs engine worker_id (job ∷ [])) refl)
          (encode_each-Isolated jobs)

    retried-Isolated :
        (jobs : List EmbeddingJob) (exc : Exception)
        → encode_jobs engine worker_id jobs ≡ raise exc
        → All2 Isolated jobs
            (if length jobs == 1 then raise exc ∷ [] else encode_each engine worker_id jobs)
    retried-Isolated [] exc e = encode_each-Isolated []
    retried-Isolated (job ∷ []) exc e = All2.cons (failed exc e) All2.nil
    retried-Isolated (job ∷ job' ∷ jobs) exc e =
        rw (two_not_one (length jobs)) (encode_each-Isolated (job ∷ job' ∷ jobs))

    -- When the engine encodes each text by itself, there is one outcome for each job, in order: an answer
    -- with the job's own vectors, or an exception that encoding the job alone raises.
    pub isolating-Isolated :
        (jobs : List EmbeddingJob)
        → All2 Isolated jobs (encode_jobs_isolating_failures engine worker_id jobs)
    unfolding encode_jobs_isolating_failures
    isolating-Isolated jobs = elim (Result-cases (encode_jobs engine worker_id jobs)) [
      | inl (rs, e) ↦
          rw (e, encode_jobs_isolating_failures)
            (oks-Isolated jobs rs (encode_jobs-Answers engine worker_id vector cut jobs rs pw e))
      | inr (exc, e) ↦ rw (e, encode_jobs_isolating_failures) (retried-Isolated jobs exc e)
    ]
