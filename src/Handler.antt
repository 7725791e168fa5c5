-- ===== src/Handler.antt =====
-- mq/handler.py: what a worker does with a message, minus the broker. The parsers of the standard
-- library and of pydantic are parameters, gathered in `Libraries`.
pub mod Splitting
pub mod Isolation
pub mod Parsing
pub mod Correlation
pub mod Lengths
pub mod Raising
use sementic_search_engine.Prelude.{
  ℕ, suc, ◌+◌, ◌-◌, ◌≡◌, Bool, true, false, not, ◌&&◌, ◌||◌, Option, none, some, List, [], ◌∷◌,
  ◌++◌, length, is_empty, take, drop, leb, ◌==◌, if◌then◌else◌, Text, codes, Result, ok, raise,
  ◌>>=◌,
}
use sementic_search_engine.Config.{Settings}
use sementic_search_engine.Schemas.{
  InputType, passage, query, ErrorCode, validation_error, DateTime, naive, east, west, Pydantic,
  FieldError, EmbeddingJob, validate,
}
use sementic_search_engine.Schemas.Values.{Json, str, obj, Fields, end, get, put, truthy, no_fields}
use sementic_search_engine.Schemas.Reply.{Status, EmbeddingResult, blank_result}

-- The exceptions that an encode may raise.
pub data Exception : Type 0 where
  -- ModelNotLoadedError
  not_loaded : Exception
  -- the ValueError of `encode_jobs`
  mixed_jobs : Exception
  -- an exception from the model
  model_error : Text → Exception

-- main.py, `EncodeResult`
pub record EncodeResult (V : Type 0) : Type 0 where
  pub embeddings : List V
  pub truncated : List Bool
  pub took_ms : ℕ

-- The protocol `Engine`.
pub record Engine (V : Type 0) : Type 0 where
  pub model_name : Text
  pub dimensions : Result Exception ℕ
  pub encode : List Text → InputType → Bool → Result Exception (EncodeResult V)

-- metadata or {}
abbrev pub or_empty : Option Fields → Fields
or_empty none = end
or_empty (some fs) = fs

unfoldable pub error_result :
    {V : Type 0} → Text → ErrorCode → Text → Option Fields → Option Text → EmbeddingResult V
error_result id code message metadata worker_id = record (blank_result id Status.error) {
  error = some (record { code = code; message = message });
  metadata = or_empty metadata;
  worker_id = worker_id;
}

-- What `json.loads` raises.
pub data LoadsError : Type 0 where
  -- UnicodeDecodeError or JSONDecodeError, with its text
  not_json : Text → LoadsError
  -- any other exception: the ValueError of an integer with too many digits, or a RecursionError
  other_error : LoadsError

-- That exception, where nothing catches it.
pub data Uncaught : Type 0 where
  uncaught : Uncaught

-- What the standard library and pydantic do.
pub record Libraries : Type 0 where
  -- json.loads
  pub loads : List ℕ → Result LoadsError Json
  -- str(value)
  pub py_str : Json → Text
  pub pydantic : Pydantic
  -- the text made of a `ValidationError`
  pub details : List FieldError → Text

-- fallback or "unknown"
abbrev pub or_unknown : Option Text → Text
or_unknown none = codes "unknown"
or_unknown (some id) = if is_empty id then codes "unknown" else id

abbrev pub is_truthy : Option Json → Bool
is_truthy none = false
is_truthy (some v) = truthy v

-- if not raw.get("job_id") and fallback_id: raw["job_id"] = fallback_id
unfoldable pub with_fallback : Option Text → Fields → Fields
with_fallback none raw = raw
with_fallback (some id) raw =
    if not (is_truthy (get (codes "job_id") raw)) && not (is_empty id)
    then put (codes "job_id") (str id) raw
    else raw

-- metadata if isinstance(metadata, dict) else None
abbrev pub dict_only : Option Json → Option Fields
dict_only (some (obj fs)) = some fs
dict_only _ = none

-- str(raw.get("job_id") or "unknown")
abbrev pub id_of : (Json → Text) → Option Json → Text
id_of py_str none = codes "unknown"
id_of py_str (some v) = if truthy v then py_str v else codes "unknown"

module _ {V : Type 0} (lib : Libraries) (s : Settings) (new_job_id : Text) where
  open lib use {loads, py_str, pydantic, details}

  parse_dict : Option Text → Fields → Option EmbeddingJob × Option (EmbeddingResult V)
  parse_dict worker_id raw = elim (validate pydantic s new_job_id raw) [
    | ok job ↦ (some job, none)
    | raise errors ↦ (
      none,
      some (
          error_result (id_of py_str (get (codes "job_id") raw)) validation_error (details errors)
            (dict_only (get (codes "metadata") raw)) worker_id),
    )
  ]

  parse_value : Option Text → Option Text → Json → Option EmbeddingJob × Option (EmbeddingResult V)
  unfolding parse_dict with_fallback error_result
  parse_value fallback_id worker_id (obj raw) = parse_dict worker_id (with_fallback fallback_id raw)
  parse_value fallback_id worker_id _ = (
    none,
    some (
        error_result (or_unknown fallback_id) validation_error (codes "body must be a JSON object")
          none worker_id),
  )

  parse_loaded :
      Option Text
      → Option Text
      → Result LoadsError Json
      → Result Uncaught (Option EmbeddingJob × Option (EmbeddingResult V))
  unfolding parse_value error_result
  parse_loaded fallback_id worker_id (ok value) = ok (parse_value fallback_id worker_id value)
  parse_loaded fallback_id worker_id (raise (not_json exc)) = ok (
    none,
    some (
        error_result (or_unknown fallback_id) validation_error (codes "body is not JSON: " ++ exc)
          none worker_id),
  )
  parse_loaded fallback_id worker_id (raise other_error) = raise uncaught

  -- Only the two errors of decoding are caught.
  unfoldable pub parse_job :
      List ℕ
      → Option Text
      → Option Text
      → Result Uncaught (Option EmbeddingJob × Option (EmbeddingResult V))
  unfolding parse_loaded
  parse_job body fallback_id worker_id = parse_loaded fallback_id worker_id (loads body)

-- deadline <= now, for moments in microseconds of UTC; a naive deadline is read as UTC.
unfoldable pub is_past : DateTime → ℕ → Bool
is_past d now = elim d.offset [
  | naive ↦ leb d.wall now
  | east o ↦ leb d.wall (now + o)
  | west o ↦ leb (d.wall + o) now
]

unfoldable pub is_expired : EmbeddingJob → ℕ → Bool
unfolding is_past
is_expired job now = elim job.deadline [ none ↦ false | some d ↦ is_past d now ]

abbrev pub same_type : InputType → InputType → Bool
same_type passage passage = true
same_type query query = true
same_type passage query = false
same_type query passage = false

abbrev pub same_bool : Bool → Bool → Bool
same_bool true b = b
same_bool false b = not b

-- any(job.input_type != input_type or job.normalize != normalize for job in jobs)
unfoldable pub any_differs : InputType → Bool → List EmbeddingJob → Bool
any_differs t n [] = false
any_differs t n (job ∷ jobs) =
    not (same_type job.input_type t) || not (same_bool job.normalize n) || any_differs t n jobs

-- [text for job in jobs for text in job.input]
abbrev pub all_texts : List EmbeddingJob → List Text
all_texts [] = []
all_texts (job ∷ jobs) = job.input ++ all_texts jobs

module _ {V : Type 0} (engine : Engine V) (worker_id : Option Text) where
  unfoldable pub result_of :
      EncodeResult V → InputType → Bool → ℕ → ℕ → EmbeddingJob → ℕ → EmbeddingResult V
  result_of encoded input_type normalize batch_texts offset job dimensions =
      let stop : ℕ = offset + length job.input in
      record (blank_result job.job_id Status.ok) {
        model_name = some engine.model_name;
        dimensions = some dimensions;
        input_type = some input_type;
        normalized = some normalize;
        count = length job.input;
        truncated = take (stop - offset) (drop offset encoded.truncated);
        embeddings = take (stop - offset) (drop offset encoded.embeddings);
        metadata = job.metadata;
        took_ms = encoded.took_ms;
        batch_texts = batch_texts;
        worker_id = worker_id;
      }

  -- The `for` loop, from `offset`.
  unfoldable pub split :
      EncodeResult V
      → InputType
      → Bool
      → ℕ
      → ℕ
      → List EmbeddingJob
      → Result Exception (List (EmbeddingResult V))
  unfolding result_of
  split encoded t n batch_texts offset [] = ok []
  split encoded t n batch_texts offset (job ∷ jobs) =
      let rest = split encoded t n batch_texts (offset + length job.input) jobs in
      do
        dimensions ← engine.dimensions
        results ← rest
        ok (result_of encoded t n batch_texts offset job dimensions ∷ results)

  encode_same : InputType → Bool → List EmbeddingJob → Result Exception (List (EmbeddingResult V))
  unfolding split
  encode_same t n jobs =
      let texts = all_texts jobs in
      do encoded ← engine.encode texts t n; split encoded t n (length texts) 0 jobs

  unfoldable pub encode_jobs : List EmbeddingJob → Result Exception (List (EmbeddingResult V))
  unfolding encode_same any_differs
  encode_jobs [] = ok []
  encode_jobs (job ∷ jobs) =
      if any_differs job.input_type job.normalize (job ∷ jobs)
      then raise mixed_jobs
      else encode_same job.input_type job.normalize (job ∷ jobs)

  -- A result, or the exception in its place.
  abbrev pub Outcome : Type 0
  Outcome = Result Exception (EmbeddingResult V)

  abbrev oks : List (EmbeddingResult V) → List Outcome
  oks [] = []
  oks (r ∷ rs) = ok r ∷ oks rs

  abbrev outcomes_of : Result Exception (List (EmbeddingResult V)) → List Outcome
  outcomes_of (ok results) = oks results
  outcomes_of (raise exc) = raise exc ∷ []

  -- Each job on its own.
  unfoldable pub encode_each : List EmbeddingJob → List Outcome
  unfolding encode_jobs
  encode_each [] = []
  encode_each (job ∷ jobs) = outcomes_of (encode_jobs (job ∷ [])) ++ encode_each jobs

  unfoldable pub encode_jobs_isolating_failures : List EmbeddingJob → List Outcome
  unfolding encode_jobs encode_each
  encode_jobs_isolating_failures jobs = elim (encode_jobs jobs) [
    | ok results ↦ oks results
    | raise exc ↦ if length jobs == 1 then raise exc ∷ [] else encode_each jobs
  ]
