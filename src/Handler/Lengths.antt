-- ===== src/Handler/Lengths.antt =====
-- There is one outcome for each job, whatever the engine does.
use sementic_search_engine.Prelude.{
  ℕ, suc, ◌+◌, ◌≡◌, refl, ap, ◌∙◌, inl, inr, Bool-cases, List, [], ◌∷◌, ◌==◌, length, length-append,
  arith, Option, Text, Result, ok, raise, Result-cases, >>=-eq-ok, ok-injective, if◌then◌else◌,
}
use sementic_search_engine.Schemas.{InputType, EmbeddingJob}
use sementic_search_engine.Schemas.Reply.{EmbeddingResult}
use sementic_search_engine.Handler.{
  Exception, Engine, EncodeResult, oks, outcomes_of, any_differs, all_texts, split, result_of,
  encode_same, encode_jobs, encode_each, encode_jobs_isolating_failures,
}

module _ {V : Type 0} (engine : Engine V) (worker_id : Option Text) where
  length-split :
      (encoded : EncodeResult V) (t : InputType) (n : _) (k offset : ℕ) (jobs : List EmbeddingJob)
      (rs : List (EmbeddingResult V))
      → split engine worker_id encoded t n k offset jobs ≡ ok rs
      → length rs ≡ length jobs
  unfolding split
  length-split encoded t n k offset [] rs h = rw (← ok-injective [] rs h) refl
  length-split encoded t n k offset (job ∷ jobs) rs h =
      let (d, _, h1) = >>=-eq-ok engine.dimensions _ h in
      let (rest, got, h2) =
        >>=-eq-ok (split engine worker_id encoded t n k (offset + length job.input) jobs)
          (λ results. ok (result_of engine worker_id encoded t n k offset job d ∷ results)) h1 in
      rw (← ok-injective (result_of engine worker_id encoded t n k offset job d ∷ rest) rs h2)
        (ap suc (length-split encoded t n k (offset + length job.input) jobs rest got))

  length-encode_jobs :
      (jobs : List EmbeddingJob) (rs : List (EmbeddingResult V))
      → encode_jobs engine worker_id jobs ≡ ok rs
      → length rs ≡ length jobs
  unfolding encode_jobs encode_same
  length-encode_jobs [] rs h = rw (← ok-injective [] rs h) refl
  length-encode_jobs (job ∷ jobs) rs h =
      elim (Bool-cases (any_differs job.input_type job.normalize (job ∷ jobs))) [
        | inl mixed ↦ cc (rw mixed at h)
        | inr same ↦
            let t : InputType = job.input_type in
            let texts : List Text = all_texts (job ∷ jobs) in
            let (e, _, got) =
              >>=-eq-ok (engine.encode texts t job.normalize)
                (λ e. split engine worker_id e t job.normalize (length texts) 0 (job ∷ jobs))
                (rw same at h) in
            length-split e t job.normalize (length texts) 0 (job ∷ jobs) rs got
      ]

  length-oks : (rs : List (EmbeddingResult V)) → length (oks engine worker_id rs) ≡ length rs
  length-oks [] = refl
  length-oks (r ∷ rs) = ap suc (length-oks rs)

  length-outcomes_of :
      (job : EmbeddingJob) (r : Result Exception (List (EmbeddingResult V)))
      → encode_jobs engine worker_id (job ∷ []) ≡ r
      → length (outcomes_of engine worker_id r) ≡ 1
  length-outcomes_of job (ok rs) e = length-oks rs ∙ length-encode_jobs (job ∷ []) rs e
  length-outcomes_of job (raise exc) e = refl

  length-encode_each :
      (jobs : List EmbeddingJob) → length (encode_each engine worker_id jobs) ≡ length jobs
  unfolding encode_each
  length-encode_each [] = refl
  length-encode_each (job ∷ jobs) = omega (
    arith,
    length-append {0} (outcomes_of engine worker_id (encode_jobs engine worker_id (job ∷ [])))
        (encode_each engine worker_id jobs),
    length-outcomes_of job (encode_jobs engine worker_id (job ∷ [])) refl,
    length-encode_each jobs,
  )

  length_retried :
      (jobs : List EmbeddingJob) (exc : Exception)
      → length (if length jobs == 1 then raise exc ∷ [] else encode_each engine worker_id jobs)
        ≡ length jobs
  length_retried jobs exc = ground (arith, length-encode_each jobs)

  -- There are as many outcomes as jobs, whatever the engine returns or raises.
  pub length-isolating :
      (jobs : List EmbeddingJob)
      → length (encode_jobs_isolating_failures engine worker_id jobs) ≡ length jobs
  unfolding encode_jobs_isolating_failures
  length-isolating jobs = elim (Result-cases (encode_jobs engine worker_id jobs)) [
    | inl (rs, e) ↦
        rw (e, encode_jobs_isolating_failures) (length-oks rs ∙ length-encode_jobs jobs rs e)
    | inr (exc, e) ↦ rw (e, encode_jobs_isolating_failures) (length_retried jobs exc)
  ]
