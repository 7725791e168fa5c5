-- ===== src/Examples/Jobs.antt =====
-- Jobs encoded together, and bodies parsed.
use sementic_search_engine.Prelude.{
  ℕ, ◌≡◌, refl, true, none, some, List, [], ◌∷◌, length, codes, ok, ◌↔◌, All2, arith, text_eq,
  strip,
}
use sementic_search_engine.Config.{defaults}
use sementic_search_engine.Schemas.{
  passage, validation_error, EmbeddingJob, coerce_and_validate, validate,
}
use sementic_search_engine.Schemas.Values.{str, end, get}
use sementic_search_engine.Schemas.Reply.{EmbeddingResult}
use sementic_search_engine.Schemas.Validated.{Denotes, IsInput, coerce_and_validate_iff}
use sementic_search_engine.Handler.{
  encode_jobs, encode_jobs_isolating_failures, parse_job, result_of, is_expired, error_result,
}
use sementic_search_engine.Handler.Isolation.{Isolated, isolating-Isolated}
use sementic_search_engine.Handler.Lengths.{length-isolating}
use sementic_search_engine.Handler.Parsing.{IsParsed, parse_job-IsParsed, is_expired_mono}
use sementic_search_engine.Handler.Correlation.{HasNoId, parse_job-id}
use sementic_search_engine.Examples.{
  job_a, job_c, engine, engine-IsPointwise, vector, cut, encoded, libraries, body_fields, pydantic,
}

-- Four texts are too many for this engine, so each job is encoded on its own.
isolating-Isolated_example :
    All2
      (Isolated engine (some (codes "w")) vector cut)
      (job_a ∷ job_c ∷ [])
      (encode_jobs_isolating_failures engine (some (codes "w")) (job_a ∷ job_c ∷ []))
isolating-Isolated_example =
    isolating-Isolated engine (some (codes "w")) vector cut engine-IsPointwise (job_a ∷ job_c ∷ [])

length-isolating_example :
    length (encode_jobs_isolating_failures engine none (job_a ∷ job_c ∷ []))
    ≡ length (job_a ∷ job_c ∷ [])
length-isolating_example = length-isolating engine none (job_a ∷ job_c ∷ [])

abbrev answers_a : List (EmbeddingResult ℕ)
unfolding result_of
answers_a = result_of engine none (encoded job_a.input) passage true 2 0 job_a 384 ∷ []

encoded_a : encode_jobs engine none (job_a ∷ []) ≡ ok answers_a
unfolding encode_jobs
encoded_a = refl

coerce_and_validate_iff_example :
    (coerce_and_validate defaults (str (codes "hi")) ≡ ok (codes "hi" ∷ []))
    ↔ (Denotes (codes "hi" ∷ []) (str (codes "hi")) × IsInput defaults (codes "hi" ∷ []))
coerce_and_validate_iff_example =
    coerce_and_validate_iff defaults (str (codes "hi")) (codes "hi" ∷ [])

abbrev job_hello : EmbeddingJob
job_hello = record {
  input = codes "hello" ∷ [];
  input_type = passage;
  normalize = true;
  schema_version = 1;
  job_id = codes "new";
  deadline = none;
  metadata = end;
}

validated : validate pydantic defaults (codes "new") body_fields ≡ ok job_hello
unfolding validate get text_eq strip
validated = refl

parse_job-IsParsed_example :
    IsParsed libraries defaults
      (codes "new")
      (some (codes "id"))
      none
      (7 ∷ [])
      (parse_job {V = ℕ} libraries defaults (codes "new") (7 ∷ []) (some (codes "id")) none)
parse_job-IsParsed_example =
    parse_job-IsParsed libraries defaults (codes "new") (7 ∷ []) (some (codes "id")) none

-- No body that this reader accepts has an id of its own.
none_own : HasNoId libraries (codes "id") refl []
unfolding get
none_own raw h = cc h

rejection : EmbeddingResult ℕ
unfolding error_result
rejection = error_result (codes "id") validation_error (codes "body is not JSON: empty") none none

is_rejection :
    (parse_job {V = ℕ} libraries defaults (codes "new") [] (some (codes "id")) none)
    ≡ ok (none, some rejection)
unfolding parse_job rejection error_result
is_rejection = refl

parse_job-id_example : rejection.job_id ≡ codes "id"
parse_job-id_example =
    parse_job-id libraries defaults (codes "new") (codes "id") refl (λ t. refl) [] none none
      rejection none_own is_rejection

late : is_expired job_a 60 ≡ true
unfolding is_expired
late = refl

is_expired_mono_example : is_expired job_a 70 ≡ true
is_expired_mono_example = is_expired_mono job_a 60 70 (omega arith) late
