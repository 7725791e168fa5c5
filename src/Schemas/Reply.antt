-- ===== src/Schemas/Reply.antt =====
-- schemas.py, the bodies of replies. `V` is the type of a vector. Times are natural numbers.
use sementic_search_engine.Prelude.{ℕ, Bool, Option, none, List, [], Text}
use sementic_search_engine.Schemas.{ErrorCode, InputType, schema_version_1}
use sementic_search_engine.Schemas.Values.{Fields, end}

pub record JobError : Type 0 where
  pub code : ErrorCode
  pub message : Text

pub data Status : Type 0 where
  ok error : Status

pub record EmbeddingResult (V : Type 0) : Type 0 where
  pub schema_version : ℕ
  pub job_id : Text
  pub status : Status
  pub error : Option JobError
  pub model_name : Option Text
  pub dimensions : Option ℕ
  pub input_type : Option InputType
  pub normalized : Option Bool
  pub count : ℕ
  pub truncated : List Bool
  pub embeddings : List V
  pub metadata : Fields
  pub took_ms : ℕ
  pub batch_texts : ℕ
  pub worker_id : Option Text

-- The fields that a caller leaves out.
abbrev pub blank_result : {V : Type 0} → Text → Status → EmbeddingResult V
blank_result id status = record {
  schema_version = schema_version_1;
  job_id = id;
  status = status;
  error = none;
  model_name = none;
  dimensions = none;
  input_type = none;
  normalized = none;
  count = 0;
  truncated = [];
  embeddings = [];
  metadata = end;
  took_ms = 0;
  batch_texts = 0;
  worker_id = none;
}
