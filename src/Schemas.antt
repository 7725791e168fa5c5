-- ===== src/Schemas.antt =====
-- schemas.py: the requests, jobs and results, and how a body is validated. Pydantic is a parameter:
-- what it makes of the JSON value of a field of a simple type. Its errors come in the order of the
-- fields, those of the parent class first, and a field with an error does not stop the others.
pub mod Values
pub mod Validated
pub mod Job
pub mod Reply
pub mod Dump
use sementic_search_engine.Prelude.{
  ℕ, suc, ◌+◌, ◌≡◌, Bool, true, false, not, Option, none, some, List, [], ◌∷◌, ◌++◌, ltb, leb,
  length, is_empty, if◌then◌else◌, Text, strip, codes, Result, ok, raise, ◌>>=◌,
}
use sementic_search_engine.Config.{Settings}
use Values.{Json, str, arr, Fields, end, to_list, get, dumps_size}

pub data InputType : Type 0 where
  passage query : InputType

pub data Lane : Type 0 where
  query index : Lane

pub data ErrorCode : Type 0 where
  validation_error expired internal_error dead_lettered : ErrorCode

abbrev pub schema_version_1 : ℕ
schema_version_1 = 1

-- The messages of `_coerce_and_validate`.
pub data InputError : Type 0 where
  not_string_or_list no_texts : InputError
  too_many_texts : (count limit : ℕ) → InputError
  not_a_string blank : (position : ℕ) → InputError
  too_long : (position chars limit : ℕ) → InputError

-- The body of the `for` loop, for the text at `position`.
unfoldable pub check_text : Settings → ℕ → Json → Result InputError Text
check_text s position (str text) =
    if is_empty (strip text)
    then raise (blank position)
    else if ltb s.max_chars_per_text (length text)
    then raise (too_long position (length text) s.max_chars_per_text)
    else ok text
check_text s position _ = raise (not_a_string position)

unfoldable pub check_texts : Settings → ℕ → List Json → Result InputError (List Text)
unfolding check_text
check_texts s position [] = ok []
check_texts s position (v ∷ vs) = do
  text ← check_text s position v
  texts ← check_texts s (suc position) vs
  ok (text ∷ texts)

unfoldable pub check_list : Settings → List Json → Result InputError (List Text)
unfolding check_texts
check_list s [] = raise no_texts
check_list s (v ∷ vs) =
    if ltb s.max_batch_items (length (v ∷ vs))
    then raise (too_many_texts (length (v ∷ vs)) s.max_batch_items)
    else check_texts s 0 (v ∷ vs)

-- `_coerce_and_validate`: a bare string is a list of one.
unfoldable pub coerce_and_validate : Settings → Json → Result InputError (List Text)
unfolding check_list
coerce_and_validate s (str text) = check_list s (str text ∷ [])
coerce_and_validate s (arr items) = check_list s (to_list items)
coerce_and_validate s _ = raise not_string_or_list

-- A moment as Python's `datetime`: microseconds on the wall clock, and how far that clock is from
-- UTC if it says so.
pub data Offset : Type 0 where
  naive : Offset
  east west : ℕ → Offset

pub record DateTime : Type 0 where
  pub wall : ℕ
  pub offset : Offset

-- What pydantic makes of a JSON value at a field's type; `none` is an error of its own.
pub record Pydantic : Type 0 where
  pub as_input_type : Json → Option InputType
  pub as_bool : Json → Option Bool
  pub as_int : Json → Option ℕ
  pub as_str : Json → Option Text
  pub as_datetime : Json → Option DateTime
  pub as_dict : Json → Option Fields

pub data Fault : Type 0 where
  missing wrong_type : Fault
  bad_input : InputError → Fault
  too_short : Fault
  too_long_id : Fault
  too_big_metadata : (size limit : ℕ) → Fault

pub record FieldError : Type 0 where
  pub loc : Text
  pub fault : Fault

abbrev pub Checked : Type 0 → Type 0
Checked A = Result (List FieldError) A

abbrev pub fails {ℓ} : {A : Type ℓ} → Text → Fault → Result (List FieldError) A
fails loc fault = raise (record { loc = loc; fault = fault } ∷ [])

abbrev pub from_option {ℓ} : {A : Type ℓ} → Text → Option A → Result (List FieldError) A
from_option loc none = fails loc wrong_type
from_option loc (some a) = ok a

-- Both fields are checked, and the errors are joined.
abbrev pub both {ℓ κ} :
    {A : Type ℓ} {B : Type κ}
    → Result (List FieldError) A
    → Result (List FieldError) B
    → Result (List FieldError) (A × B)
both (ok a) (ok b) = ok (a, b)
both (ok a) (raise es) = raise es
both (raise es) (ok b) = raise es
both (raise es) (raise fs) = raise (es ++ fs)

-- A field of the body, with its default if it is missing.
abbrev pub at_field {ℓ} :
    {A : Type ℓ}
    → Fields
    → Text
    → Result (List FieldError) A
    → (Json → Result (List FieldError) A)
    → Result (List FieldError) A
at_field raw name default check = elim (get name raw) [ none ↦ default | some v ↦ check v ]

pub record EmbeddingJob : Type 0 where
  pub input : List Text
  pub input_type : InputType
  pub normalize : Bool
  pub schema_version : ℕ
  pub job_id : Text
  pub deadline : Option DateTime
  pub metadata : Fields

abbrev pub Parts : Type 0
Parts = List Text × (InputType × (Bool × (ℕ × (Text × (Option DateTime × Fields)))))

abbrev pub job_of : Parts → EmbeddingJob
job_of (i, (t, (n, (v, (j, (d, m)))))) = record {
  input = i;
  input_type = t;
  normalize = n;
  schema_version = v;
  job_id = j;
  deadline = d;
  metadata = m;
}

-- What the validator of `input` gives, or the error of that field.
abbrev pub input_checked : Result InputError (List Text) → Checked (List Text)
input_checked (ok texts) = ok texts
input_checked (raise e) = fails (codes "input") (bad_input e)

-- `min_length=1, max_length=128`; the default is not validated.
unfoldable pub check_job_id : Text → Checked Text
check_job_id id =
    if ltb (length id) 1
    then fails (codes "job_id") too_short
    else if ltb 128 (length id)
    then fails (codes "job_id") too_long_id
    else ok id

-- `_cap_metadata`
unfoldable pub cap_metadata : Settings → Fields → Checked Fields
cap_metadata s value =
    let size = dumps_size (Json.obj value) in
    if ltb s.mq_metadata_max_bytes size
    then fails (codes "metadata") (too_big_metadata size s.mq_metadata_max_bytes)
    else ok value

-- The value of `deadline`, which may be null.
unfoldable pub deadline_checked : Pydantic → Json → Checked (Option DateTime)
deadline_checked py Json.null = ok none
deadline_checked py other =
    from_option (codes "deadline") (py.as_datetime other) >>= λ d. ok (some d)

module _ (py : Pydantic) (s : Settings) (new_job_id : Text) (raw : Fields) where
  open py use {as_input_type, as_bool, as_int, as_str, as_dict}

  unfoldable pub input_field : Checked (List Text)
  unfolding coerce_and_validate
  input_field =
      at_field raw (codes "input") (fails (codes "input") missing)
        λ v. input_checked (coerce_and_validate s v)

  unfoldable pub input_type_field : Checked InputType
  input_type_field =
      at_field raw (codes "input_type") (ok passage)
        λ v. from_option (codes "input_type") (as_input_type v)

  unfoldable pub normalize_field : Checked Bool
  normalize_field =
      at_field raw (codes "normalize") (ok true) λ v. from_option (codes "normalize") (as_bool v)

  unfoldable pub schema_version_field : Checked ℕ
  schema_version_field =
      at_field raw (codes "schema_version") (ok schema_version_1)
        λ v. from_option (codes "schema_version") (as_int v)

  unfoldable pub job_id_field : Checked Text
  unfolding check_job_id
  job_id_field =
      at_field raw (codes "job_id") (ok new_job_id)
        λ v. from_option (codes "job_id") (as_str v) >>= check_job_id

  unfoldable pub deadline_field : Checked (Option DateTime)
  unfolding deadline_checked
  deadline_field = at_field raw (codes "deadline") (ok none) (deadline_checked py)

  unfoldable pub metadata_field : Checked Fields
  unfolding cap_metadata
  metadata_field =
      at_field raw (codes "metadata") (ok end)
        λ v. from_option (codes "metadata") (as_dict v) >>= cap_metadata s

  unfoldable pub parts : Checked Parts
  unfolding input_field input_type_field normalize_field schema_version_field job_id_field
      deadline_field metadata_field
  parts = both input_field (
      both input_type_field (
        both normalize_field
          (both schema_version_field (both job_id_field (both deadline_field metadata_field)))))

  -- EmbeddingJob.model_validate(raw)
  unfoldable pub validate : Checked EmbeddingJob
  unfolding parts
  validate = parts >>= λ p. ok (job_of p)
