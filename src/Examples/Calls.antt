-- ===== src/Examples/Calls.antt =====
-- The calls of a client: a query and a passage, from their arguments on.
use sementic_search_engine.Prelude.{
  ℕ, ◌+◌, ◌≤◌, ◌≡◌, ◌↔◌, refl, Bool, true, false, Option, some, none, List, [], ◌∷◌, Text, codes,
  text_eq, strip, if◌then◌else◌, length, ok, raise, Result, ◌==◌, arith,
}
use sementic_search_engine.Config.{defaults}
use sementic_search_engine.Schemas.{
  InputType, passage, query, DateTime, Pydantic, EmbeddingJob, coerce_and_validate, check_list,
  check_texts, check_text, cap_metadata,
}
use sementic_search_engine.Schemas.Values.{
  Json, bool, int, str, obj, Fields, end, to_list, dumps_size,
}
use sementic_search_engine.Schemas.Dump.{utc, dump_fields, ReadsBack, input_type_name}
use sementic_search_engine.Handler.{LoadsError, not_json, Libraries, is_expired, parse_job}
use sementic_search_engine.Worker.{Message, Outside}
use sementic_search_engine.Worker.Lifecycle.{seen}
use sementic_search_engine.Client
use sementic_search_engine.Client.{index_request, results_queue}
use sementic_search_engine.Client.Calls.{
  Texts, check_input, check_given_id, new_job, timeout_of, query_job, passage_job,
}
use sementic_search_engine.EndToEnd.{message_of}
use sementic_search_engine.EndToEnd.ReadBack.{parse_job-new_job, query_job-expires_iff}
use sementic_search_engine.EndToEnd.Indexed.{delivered}

-- A moment is written as one character.
abbrev isoformat : DateTime → Text
isoformat d = d.wall ∷ []

abbrev read_type : Text → Option InputType
read_type t =
    if text_eq t (codes "passage")
    then some passage
    else if text_eq t (codes "query")
    then some query
    else none

abbrev read_moment : Text → Option DateTime
read_moment (micros ∷ []) = some (utc micros)
read_moment _ = none

abbrev as_text : Json → Option Text
as_text (str t) = some t
as_text _ = none

abbrev as_type : Json → Option InputType
as_type (str t) = read_type t
as_type _ = none

abbrev as_moment : Json → Option DateTime
as_moment (str t) = read_moment t
as_moment _ = none

abbrev as_flag : Json → Option Bool
as_flag (bool b) = some b
as_flag _ = none

abbrev as_number : Json → Option ℕ
as_number (int false n) = some n
as_number _ = none

abbrev as_fields : Json → Option Fields
as_fields (obj fs) = some fs
as_fields _ = none

abbrev pydantic : Pydantic
pydantic = record {
  as_input_type = as_type;
  as_bool = as_flag;
  as_int = as_number;
  as_str = as_text;
  as_datetime = as_moment;
  as_dict = as_fields;
}

type_back : (t : InputType) → as_type (str (input_type_name t)) ≡ some t
unfolding text_eq
type_back passage = refl
type_back query = refl

reads : ReadsBack pydantic isoformat
reads = record {
  as_input_type = type_back;
  as_bool = λ b. refl;
  as_int = λ n. refl;
  as_str = λ t. refl;
  as_datetime = λ micros. refl;
  as_dict = λ fs. refl;
}

abbrev texts : Texts
texts = Texts.bare (codes "hello")

-- The job of a query at time 100 that waits for 50.
abbrev asked : EmbeddingJob
asked = record {
  input = codes "hello" ∷ [];
  input_type = query;
  normalize = true;
  schema_version = 1;
  job_id = codes "new";
  deadline = some (utc 150);
  metadata = end;
}

abbrev queued : EmbeddingJob
queued = record asked { input_type = passage; deadline = none }

-- A query is written as one byte, and a passage as another.
abbrev dump : EmbeddingJob → List ℕ
dump job = elim job.input_type [ query ↦ 1 ∷ [] | passage ↦ 2 ∷ [] ]

abbrev load : List ℕ → Result LoadsError Json
unfolding dump_fields
load [] = raise (not_json (codes "empty"))
load (c ∷ body) =
    if c == 1
    then ok (obj (dump_fields isoformat asked))
    else ok (obj (dump_fields isoformat queued))

abbrev libraries : Libraries
libraries = record {
  loads = load;
  py_str = λ v. codes "?";
  pydantic = pydantic;
  details = λ es. codes "bad";
}

abbrev world : Outside
world = seen defaults (codes "w") (λ t. true) (λ t. 120)

makes_asked : query_job defaults (codes "new") 100 texts true (some 50) none ≡ ok asked
unfolding query_job new_job timeout_of check_input check_given_id coerce_and_validate check_list
    check_texts check_text strip to_list cap_metadata dumps_size
makes_asked = refl

makes_queued : passage_job defaults (codes "new") texts true none none ≡ ok queued
unfolding passage_job new_job check_input check_given_id coerce_and_validate check_list check_texts
    check_text strip to_list cap_metadata dumps_size
makes_queued = refl

id_fits : (1 ≤ length (codes "new")) × (length (codes "new") ≤ 128)
id_fits = (omega arith, omega arith)

loads_queued : load (dump queued) ≡ ok (obj (dump_fields isoformat queued))
unfolding load
loads_queued = refl

query_job-expires_iff_example : (is_expired asked 150 ≡ true) ↔ (100 + 50 ≤ 150)
query_job-expires_iff_example =
    query_job-expires_iff defaults (codes "new") 100 texts true (some 50) none asked 150 id_fits
      makes_asked

parse_job-new_job_example :
    parse_job {V = ℕ} libraries defaults (codes "other") (dump queued) (some (codes "m")) none
    ≡ ok (some queued, none)
unfolding passage_job
parse_job-new_job_example =
    parse_job-new_job libraries defaults isoformat reads dump (codes "new") texts passage true none
      none none queued (codes "other") (some (codes "m")) none id_fits tt makes_queued loads_queued

-- The message of the passage when it is delivered for the third time.
abbrev again : Message
again = delivered (message_of dump (λ a. a) 7 (index_request defaults none queued)) none (some 2)

-- The client waits for its results queue to be declared.
abbrev declaring : Client.State ℕ
unfolding Client.init
declaring = record Client.init { declaring = results_queue defaults none ∷ [] }
