-- ===== src/Schemas/Dump.antt =====
-- schemas.py: the body that `model_dump_json` writes for a job, and what `model_validate` reads from it.
use sementic_search_engine.Prelude.{
  ℕ, ◌≤◌, ◌≡◌, refl, Bool, false, Option, none, some, List, [], ◌∷◌, length, Text, text_eq, codes,
  map, arith, ok, ap,
}
use sementic_search_engine.Config.{Settings}
use sementic_search_engine.Schemas.Values.{
  Json, null, bool, int, str, arr, obj, Items, nil, cons, to_list, Fields, end, field, get,
  dumps_size,
}
use sementic_search_engine.Schemas.{
  InputType, passage, query, DateTime, east, Pydantic, EmbeddingJob, check_job_id, cap_metadata,
  coerce_and_validate, input_checked, deadline_checked, validate, parts, input_field,
  input_type_field, normalize_field, schema_version_field, job_id_field, deadline_field,
  metadata_field,
}
use sementic_search_engine.Schemas.Validated.{IsInput, listed, coerce_and_validate_iff}

abbrev pub of_list : List Json → Items
of_list [] = nil
of_list (v ∷ vs) = cons v (of_list vs)

abbrev pub input_type_name : InputType → Text
input_type_name passage = codes "passage"
input_type_name query = codes "query"

-- A moment of UTC, in microseconds.
abbrev pub utc : ℕ → DateTime
utc micros = record { wall = micros; offset = east 0 }

abbrev deadline_value : (DateTime → Text) → Option DateTime → Json
deadline_value isoformat none = null
deadline_value isoformat (some d) = str (isoformat d)

-- The object that `model_dump_json` writes, with the fields in their order. `isoformat` is how a
-- moment is written.
unfoldable pub dump_fields : (DateTime → Text) → EmbeddingJob → Fields
dump_fields isoformat job = field (codes "input") (arr (of_list (map str job.input))) (
    field (codes "input_type") (str (input_type_name job.input_type)) (
      field (codes "normalize") (bool job.normalize) (
        field (codes "schema_version") (int false job.schema_version) (
          field (codes "job_id") (str job.job_id) (
            field (codes "deadline") (deadline_value isoformat job.deadline)
              (field (codes "metadata") (obj job.metadata) end))))))

-- What pydantic is documented to read from the values that it writes itself.
pub record ReadsBack (py : Pydantic) (isoformat : DateTime → Text) : Type 0 where
  pub as_input_type : (t : InputType) → py.as_input_type (str (input_type_name t)) ≡ some t
  pub as_bool : (b : Bool) → py.as_bool (bool b) ≡ some b
  pub as_int : (n : ℕ) → py.as_int (int false n) ≡ some n
  pub as_str : (t : Text) → py.as_str (str t) ≡ some t
  pub as_datetime : (micros : ℕ) → py.as_datetime (str (isoformat (utc micros))) ≡ some (utc micros)
  pub as_dict : (fs : Fields) → py.as_dict (obj fs) ≡ some fs

abbrev pub IsUtc : Option DateTime → Type 0
IsUtc none = Unit
IsUtc (some d) = (micros : ℕ) × (d ≡ utc micros)

-- A job within the limits, defaults included.
pub record Fits (s : Settings) (job : EmbeddingJob) : Type 0 where
  pub input : IsInput s job.input
  pub id : (1 ≤ length job.job_id) × (length job.job_id ≤ 128)
  pub deadline : IsUtc job.deadline
  pub metadata : dumps_size (obj job.metadata) ≤ s.mq_metadata_max_bytes

pub to_list-of_list : (vs : List Json) → to_list (of_list vs) ≡ vs
unfolding to_list
to_list-of_list [] = refl
to_list-of_list (v ∷ vs) = ap (v ∷◌) (to_list-of_list vs)

pub listed-ok :
    (s : Settings) (texts : List Text)
    → IsInput s texts
    → coerce_and_validate s (arr (of_list (map str texts))) ≡ ok texts
listed-ok s texts i =
    (coerce_and_validate_iff s _ texts).1
      (listed (of_list (map str texts)) refl (to_list-of_list (map str texts)), i)

pub check_job_id-ok : (id : Text) → (1 ≤ length id) × (length id ≤ 128) → check_job_id id ≡ ok id
unfolding check_job_id
check_job_id-ok id h = ground (arith, h)

pub cap_metadata-ok :
    (s : Settings) (fs : Fields)
    → dumps_size (obj fs) ≤ s.mq_metadata_max_bytes
    → cap_metadata s fs ≡ ok fs
unfolding cap_metadata
cap_metadata-ok s fs h = ground (arith, h)

module _ (py : Pydantic) (s : Settings) (new_job_id : Text) (isoformat : DateTime → Text)
    (reads : ReadsBack py isoformat) (job : EmbeddingJob) (fits : Fits s job) where
  abbrev raw : Fields
  unfolding dump_fields
  raw = dump_fields isoformat job

  input_ok : input_field py s new_job_id raw ≡ ok job.input
  unfolding input_field get text_eq raw
  input_ok = ap input_checked (listed-ok s job.input fits.input)

  input_type_ok : input_type_field py s new_job_id raw ≡ ok job.input_type
  unfolding input_type_field get text_eq raw
  input_type_ok = rw (reads.as_input_type job.input_type) refl

  normalize_ok : normalize_field py s new_job_id raw ≡ ok job.normalize
  unfolding normalize_field get text_eq raw
  normalize_ok = rw (reads.as_bool job.normalize) refl

  schema_version_ok : schema_version_field py s new_job_id raw ≡ ok job.schema_version
  unfolding schema_version_field get text_eq raw
  schema_version_ok = rw (reads.as_int job.schema_version) refl

  job_id_ok : job_id_field py s new_job_id raw ≡ ok job.job_id
  unfolding job_id_field get text_eq raw
  job_id_ok = rw (reads.as_str job.job_id) (check_job_id-ok job.job_id fits.id)

  metadata_ok : metadata_field py s new_job_id raw ≡ ok job.metadata
  unfolding metadata_field get text_eq raw
  metadata_ok = rw (reads.as_dict job.metadata) (cap_metadata-ok s job.metadata fits.metadata)

  deadline_of :
      (d : Option DateTime) → IsUtc d → deadline_checked py (deadline_value isoformat d) ≡ ok d
  unfolding deadline_checked
  deadline_of none u = refl
  deadline_of (some d) (micros, e) = rw (e, reads.as_datetime micros) refl

  deadline_ok : deadline_field py s new_job_id raw ≡ ok job.deadline
  unfolding deadline_field get text_eq raw
  deadline_ok = deadline_of job.deadline fits.deadline

  -- A body that is written for a job within the limits, deadline in UTC, is validated to the same job.
  pub validate-dump_fields : validate py s new_job_id (dump_fields isoformat job) ≡ ok job
  unfolding validate parts get dump_fields
  validate-dump_fields =
      rw
        (
          input_ok, input_type_ok, normalize_ok, schema_version_ok, job_id_ok, deadline_ok,
          metadata_ok,
        )
        refl
