-- ===== src/Handler/Parsing.antt =====
-- `parse_job` and `is_expired`.
use sementic_search_engine.Prelude.{
  ℕ, ◌+◌, ◌≤◌, ◌≡◌, refl, inl, inr, true, Option, none, some, List, [], ◌++◌, Text, codes, Result,
  ok, raise, Result-cases, arith,
}
use sementic_search_engine.Config.{Settings}
use sementic_search_engine.Schemas.{validation_error, EmbeddingJob, naive, east, west, validate}
use sementic_search_engine.Schemas.Values.{Json, obj, Fields}
use sementic_search_engine.Schemas.Reply.{Status, EmbeddingResult}
use sementic_search_engine.Schemas.Job.{IsJob, validate-IsJob}
use sementic_search_engine.Handler.{
  LoadsError, not_json, other_error, Uncaught, uncaught, Libraries, parse_job, parse_loaded,
  parse_value, parse_dict, with_fallback, or_unknown, error_result, is_past, is_expired,
}

-- An error reply that says `validation_error` and carries no vectors.
pub record IsRejection {V : Type 0} (worker_id : Option Text) (r : EmbeddingResult V) : Type 0 where
  pub failed : r.status ≡ Status.error
  pub code : (m : Text) × (r.error ≡ some (record { code = validation_error; message = m }))
  pub no_vectors : (r.embeddings ≡ []) × (r.count ≡ 0)
  pub from : r.worker_id ≡ worker_id

abbrev pub Parsed : Type 0 → Type 0
Parsed V = Result Uncaught (Option EmbeddingJob × Option (EmbeddingResult V))

module _ {V : Type 0} (lib : Libraries) (s : Settings) (new_job_id : Text) where
  -- A job and no reply, or a reply and no job; or what `json.loads` raised, where that was no error of
  -- decoding. The job is that of the body, which is a JSON object,
  -- with the fallback for a missing id, and it is within the limits.
  pub data IsParsed (fallback_id worker_id : Option Text) (body : List ℕ) : Parsed V → Type 0 where
    accepted :
        (raw : Fields) (job : EmbeddingJob)
        → lib.loads body ≡ ok (obj raw)
        → validate lib.pydantic s new_job_id (with_fallback fallback_id raw) ≡ ok job
        → IsJob lib.pydantic s new_job_id (with_fallback fallback_id raw) job
        → IsParsed fallback_id worker_id body (ok (some job, none))
    rejected :
        (r : EmbeddingResult V)
        → IsRejection worker_id r
        → IsParsed fallback_id worker_id body (ok (none, some r))
    escaped :
        lib.loads body ≡ raise other_error → IsParsed fallback_id worker_id body (raise uncaught)

  -- A body that is an object and a valid job is accepted.
  pub parse_job-accepts :
      (fallback_id worker_id : Option Text) (body : List ℕ) (raw : Fields) (job : EmbeddingJob)
      → lib.loads body ≡ ok (obj raw)
      → validate lib.pydantic s new_job_id (with_fallback fallback_id raw) ≡ ok job
      → parse_job {V = V} lib s new_job_id body fallback_id worker_id ≡ ok (some job, none)
  unfolding parse_job parse_loaded parse_value parse_dict
  parse_job-accepts fallback_id worker_id body raw job e v =
      rw (e, parse_job) (rw (v, parse_dict) refl)

  parse_dict-IsParsed :
      (fallback_id worker_id : Option Text) (body : List ℕ) (raw : Fields)
      → lib.loads body ≡ ok (obj raw)
      → IsParsed fallback_id worker_id body
          (ok (parse_dict lib s new_job_id worker_id (with_fallback fallback_id raw)))
  unfolding parse_dict error_result
  parse_dict-IsParsed fallback_id worker_id body raw e =
      elim (Result-cases (validate lib.pydantic s new_job_id (with_fallback fallback_id raw))) [
        | inl (job, v) ↦
            rw (v, parse_dict)
              (accepted raw job e v (validate-IsJob lib.pydantic s new_job_id _ job v))
        | inr (errors, v) ↦
            rw (v, parse_dict)
              (rejected _ (record {
                failed = refl;
                code = (lib.details errors, refl);
                no_vectors = (refl, refl);
                from = refl;
              }))
      ]

  not_dict-IsParsed :
      (fallback_id worker_id : Option Text) (body : List ℕ) (message : Text)
      → IsParsed fallback_id worker_id body (
          ok (
            none,
            some (error_result (or_unknown fallback_id) validation_error message none worker_id),
          ))
  unfolding error_result
  not_dict-IsParsed fallback_id worker_id body message =
      rejected _
        (record { failed = refl; code = (message, refl); no_vectors = (refl, refl); from = refl })

  parse_value-IsParsed :
      (fallback_id worker_id : Option Text) (body : List ℕ) (v : Json)
      → lib.loads body ≡ ok v
      → IsParsed fallback_id worker_id body
          (ok (parse_value lib s new_job_id fallback_id worker_id v))
  unfolding parse_value
  parse_value-IsParsed fallback_id worker_id body (obj raw) e =
      parse_dict-IsParsed fallback_id worker_id body raw e
  parse_value-IsParsed fallback_id worker_id body _ e =
      not_dict-IsParsed fallback_id worker_id body (codes "body must be a JSON object")

  parse_loaded-IsParsed :
      (fallback_id worker_id : Option Text) (body : List ℕ) (r : Result LoadsError Json)
      → lib.loads body ≡ r
      → IsParsed fallback_id worker_id body (parse_loaded lib s new_job_id fallback_id worker_id r)
  unfolding parse_loaded
  parse_loaded-IsParsed fallback_id worker_id body (ok v) e =
      parse_value-IsParsed fallback_id worker_id body v e
  parse_loaded-IsParsed fallback_id worker_id body (raise (not_json exc)) e =
      not_dict-IsParsed fallback_id worker_id body (codes "body is not JSON: " ++ exc)
  parse_loaded-IsParsed fallback_id worker_id body (raise other_error) e = escaped e

  -- Whatever the bytes, parsing gives either a job and no rejection, where the bytes are a JSON object
  -- that validates to the job, which is within the limits; or no job and a `validation_error` reply
  -- without vectors; or it raises, and only where json.loads raises something else than the two
  -- errors of decoding.
  pub parse_job-IsParsed :
      (body : List ℕ) (fallback_id worker_id : Option Text)
      → IsParsed fallback_id worker_id body (parse_job lib s new_job_id body fallback_id worker_id)
  unfolding parse_job
  parse_job-IsParsed body fallback_id worker_id =
      parse_loaded-IsParsed fallback_id worker_id body (lib.loads body) refl

-- A job that is expired stays expired as the clock goes on, whatever the offset of its deadline.
pub is_expired_mono :
    (job : EmbeddingJob) (now later : ℕ)
    → now ≤ later
    → is_expired job now ≡ true
    → is_expired job later ≡ true
unfolding is_expired
is_expired_mono job now later le h = ground arith

-- The same moment on another clock: a deadline `o` microseconds east of UTC whose wall clock reads
-- `o` more, and one `o` west whose clock reads `o` less, expire together with the deadline in UTC and
-- with the naive one.
pub is_past_offset :
    (wall o now : ℕ)
    → (is_past (record { wall = wall + o; offset = east o }) now
        ≡ is_past (record { wall = wall; offset = naive }) now)
      × (is_past (record { wall = wall; offset = west o }) now
          ≡ is_past (record { wall = wall + o; offset = naive }) now)
unfolding is_past
is_past_offset wall o now = (ground arith, ground arith)
