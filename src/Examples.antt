-- ===== src/Examples.antt =====
-- Concrete values, and the theorems at them.
mod Batching
mod Slots
mod Jobs
mod Workers
mod Lifecycles
mod Queries
mod Engines
mod Clients
mod Calls
use sementic_search_engine.Prelude.{
  ℕ, ◌≡◌, refl, Bool, true, false, Bool-cases, inl, inr, Option, none, some, List, [], ◌∷◌, map,
  length, ltb, is_empty, if◌then◌else◌, Text, codes, Result, ok, raise, ok-injective, ℕ_discrete,
  sym, ap,
}
use sementic_search_engine.Batcher.{Policy, State}
use sementic_search_engine.Schemas.{
  InputType, passage, query, EmbeddingJob, Pydantic, DateTime, naive,
}
use sementic_search_engine.Schemas.Values.{Json, str, obj, Fields, end, field}
use sementic_search_engine.Handler.{
  not_json, Exception, model_error, EncodeResult, Engine, Libraries,
}
use sementic_search_engine.Handler.Splitting.{IsPointwise}
use sementic_search_engine.Worker.{Message, Delivery, Outside}

-- Items are numbers of two texts each; those below ten have one key, the others another.
abbrev pub policy : Policy ℕ ℕ
policy = record {
  max_texts = 4;
  window = 10;
  size_of = λ x. 2;
  key_of = λ x. if ltb x 10 then 0 else 1;
  key_discrete = ℕ_discrete;
}

abbrev pub empty_batcher : State ℕ ℕ
empty_batcher = record { groups = []; changed = false }

abbrev pub job_named : Text → Text → EmbeddingJob
job_named id text = record {
  input = text ∷ codes "b" ∷ [];
  input_type = passage;
  normalize = true;
  schema_version = 1;
  job_id = id;
  deadline = some (record { wall = 50; offset = naive });
  metadata = end;
}

abbrev pub job_a : EmbeddingJob
job_a = job_named (codes "a") (codes "aaa")

abbrev pub job_c : EmbeddingJob
job_c = job_named (codes "c") (codes "cc")

-- The vector of a text is its length, and nothing is cut.
abbrev pub vector : InputType → Bool → Text → ℕ
vector t n text = length text

abbrev pub cut : InputType → Bool → Text → Bool
cut t n text = false

abbrev pub encoded : List Text → EncodeResult ℕ
encoded texts = record {
  embeddings = map (vector passage true) texts;
  truncated = map (cut passage true) texts;
  took_ms = 1;
}

-- It raises on more than three texts.
abbrev pub engine : Engine ℕ
engine = record {
  model_name = codes "m";
  dimensions = ok 384;
  encode = λ texts t n.
      if ltb 3 (length texts) then raise (model_error (codes "oom")) else ok (encoded texts);
}

encoded-of :
    (b : Bool) (texts : List Text) (r : EncodeResult ℕ)
    → ◌≡◌ {A = Result Exception (EncodeResult ℕ)}
        (if b then raise (model_error (codes "oom")) else ok (encoded texts))
        (ok r)
    → encoded texts ≡ r
encoded-of true texts r h = cc h
encoded-of false texts r h = ok-injective (encoded texts) r h

pub engine-IsPointwise : IsPointwise engine vector cut
engine-IsPointwise = record {
  embeddings =
      λ texts t n r h. ap (λ x. x.embeddings) (sym (encoded-of (ltb 3 (length texts)) texts r h));
  truncated =
      λ texts t n r h. ap (λ x. x.truncated) (sym (encoded-of (ltb 3 (length texts)) texts r h));
}

abbrev pub pydantic : Pydantic
pydantic = record {
  as_input_type = λ v. some passage;
  as_bool = λ v. some true;
  as_int = λ v. some 1;
  as_str = λ v. some (codes "j");
  as_datetime = λ v. none;
  as_dict = λ v. some end;
}

abbrev pub body_fields : Fields
body_fields = field (codes "input") (str (codes "hello")) end

abbrev text_of : Json → Text
text_of (str t) = t
text_of _ = codes "?"

-- An empty body is no JSON; every other body is the same object.
abbrev pub libraries : Libraries
libraries = record {
  loads = λ body. if is_empty body then raise (not_json (codes "empty")) else ok (obj body_fields);
  py_str = text_of;
  pydantic = pydantic;
  details = λ es. codes "bad";
}

abbrev pub message : ℕ → Option Text → Message
message tag reply_to = record {
  tag = tag;
  body = 123 ∷ [];
  message_id = some (codes "id");
  correlation_id = none;
  reply_to = reply_to;
  acquired_count = none;
  delivery_count = some 2;
}

abbrev pub outside_world : Outside
outside_world = record {
  confirms = λ tag. ltb tag 2;
  now = λ tag. if ltb tag 4 then 10 else 99;
  worker_id = codes "w";
  index_delivery_limit = 3;
}

-- One is answered, one whose reply is refused, and one that has expired.
abbrev pub deliveries : List Delivery
deliveries =
    record { message = message 1 (some (codes "q")); job = job_a }
    ∷ record { message = message 2 (some (codes "q")); job = job_c }
    ∷ record { message = message 4 none; job = job_a }
    ∷ []
