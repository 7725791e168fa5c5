-- ===== src/Client/Calls.antt =====
-- mq/client.py, `embed_query` and `submit_index` from their arguments on: the job that each builds, or
-- the errors of its validation, and what is left of the client then. Moments and timeouts are in
-- microseconds, and a timeout is not negative.
use sementic_search_engine.Prelude.{
  ℕ, ◌+◌, ◌*◌, ◌≤◌, ◌≡◌, refl, Bool, Option, none, some, List, [], ◌∷◌, length, is_empty,
  if◌then◌else◌, Text, codes, map, arith, ok, raise, ◌>>=◌, >>=-eq-ok, ok-injective, sym, ◌∙◌, ap,
}
use sementic_search_engine.Config.{Settings}
use sementic_search_engine.Schemas.Values.{str, arr, obj, to_list, Fields, dumps_size}
use sementic_search_engine.Schemas.{
  InputType, passage, query, schema_version_1, DateTime, EmbeddingJob, Checked, not_string_or_list,
  bad_input, fails, both, input_checked, coerce_and_validate, check_job_id, cap_metadata,
}
use sementic_search_engine.Schemas.Validated.{IsInput, Denotes}
use sementic_search_engine.Schemas.Job.{both-eq-ok, input_checked_sound}
use sementic_search_engine.Schemas.Dump.{utc, of_list, to_list-of_list, IsUtc, Fits}
use sementic_search_engine.Handler.{or_empty}
use sementic_search_engine.Client.{
  State, begin_query, begin_submit, end_submit, begin_declare, end_declare, results_queue,
}

-- The argument `texts`.
pub data Texts : Type 0 where
  bare : Text → Texts
  listed : List Text → Texts
  -- a sequence that is no list, such as a tuple
  other_sequence : List Text → Texts

unfoldable pub check_input : Settings → Texts → Checked (List Text)
unfolding coerce_and_validate
check_input s (bare text) = input_checked (coerce_and_validate s (str text))
check_input s (listed texts) = input_checked (coerce_and_validate s (arr (of_list (map str texts))))
check_input s (other_sequence texts) = fails (codes "input") (bad_input not_string_or_list)

-- {"job_id": job_id} if job_id else {}, as a field of the job
unfoldable pub check_given_id : Text → Option Text → Checked Text
unfolding check_job_id
check_given_id new_job_id none = ok new_job_id
check_given_id new_job_id (some id) = if is_empty id then ok new_job_id else check_job_id id

-- EmbeddingJob(...), where the default of `job_id` is not validated
unfoldable pub new_job :
    Settings
    → Text
    → Texts
    → InputType
    → Bool
    → Option Text
    → Option DateTime
    → Option Fields
    → Checked EmbeddingJob
unfolding check_input check_given_id cap_metadata
new_job s new_job_id texts input_type normalize job_id deadline metadata =
    both (check_input s texts)
      (both (check_given_id new_job_id job_id) (cap_metadata s (or_empty metadata)))
    >>= λ p. ok (record {
      input = p.0;
      input_type = input_type;
      normalize = normalize;
      schema_version = schema_version_1;
      job_id = p.1.0;
      deadline = deadline;
      metadata = p.1.1;
    })

-- timeout if timeout is not None else settings.query_ttl_ms / 1000
unfoldable pub timeout_of : Settings → Option ℕ → ℕ
timeout_of s none = s.query_ttl_ms * 1000
timeout_of s (some timeout) = timeout

-- The job of `embed_query`, which reads the time `now`.
unfoldable pub query_job :
    Settings → Text → ℕ → Texts → Bool → Option ℕ → Option Fields → Checked EmbeddingJob
unfolding new_job timeout_of
query_job s new_job_id now texts normalize timeout metadata =
    new_job s new_job_id texts query normalize none (some (utc (now + timeout_of s timeout)))
      metadata

-- The job of `submit_index`.
unfoldable pub passage_job :
    Settings → Text → Texts → Bool → Option Text → Option Fields → Checked EmbeddingJob
unfolding new_job
passage_job s new_job_id texts normalize job_id metadata =
    new_job s new_job_id texts passage normalize job_id none metadata

-- `embed_query`, up to where it waits: nothing is entered or sent for a job that is not valid.
unfoldable pub embed_query :
    {V : Type 0} → Checked EmbeddingJob → State V → Checked EmbeddingJob × State V
unfolding begin_query
embed_query (ok job) st = (ok job, begin_query job st)
embed_query (raise errors) st = (raise errors, st)

-- `submit_index`: the queue of the results is declared before the job is built.
unfoldable pub submit :
    {V : Type 0} → Settings → Option Text → Checked EmbeddingJob → State V → Checked Text × State V
unfolding begin_submit begin_declare results_queue
submit s reply_to (ok job) st = (ok job.job_id, begin_submit s reply_to job st)
submit s reply_to (raise errors) st = (raise errors, begin_declare (results_queue s reply_to) st)

-- `submit_index`, from the answer to its declaration on.
unfoldable pub resume :
    {V : Type 0} → Settings → Option Text → Checked EmbeddingJob → State V → Checked Text × State V
unfolding end_submit end_declare results_queue
resume s reply_to (ok job) st = (ok job.job_id, end_submit s reply_to job st)
resume s reply_to (raise errors) st = (raise errors, end_declare (results_queue s reply_to) st)

-- The texts that the caller means.
abbrev pub given : Texts → List Text
given (bare text) = text ∷ []
given (listed texts) = texts
given (other_sequence texts) = texts

map-str-injective : (ts us : List Text) → map str ts ≡ map str us → ts ≡ us
map-str-injective [] [] h = refl
map-str-injective [] (u ∷ us) h = cc
map-str-injective (t ∷ ts) [] h = cc
map-str-injective (t ∷ ts) (u ∷ us) h = cc (h, map-str-injective ts us (cc h))

listed-Denotes : (ts texts : List Text) → Denotes texts (arr (of_list (map str ts))) → texts ≡ ts
listed-Denotes ts texts (Denotes.bare t e f) = cc e
listed-Denotes ts texts (Denotes.listed items e f) =
    let same : of_list (map str ts) ≡ items = cc e in
    map-str-injective texts ts (sym f ∙ ap to_list (sym same) ∙ to_list-of_list (map str ts))

bare-Denotes : (t : Text) (texts : List Text) → Denotes texts (str t) → texts ≡ t ∷ []
bare-Denotes t texts (Denotes.bare u e f) = cc (e, f)
bare-Denotes t texts (Denotes.listed items e f) = cc e

check_input_sound :
    (s : Settings) (g : Texts) (texts : List Text)
    → check_input s g ≡ ok texts
    → (texts ≡ given g) × IsInput s texts
unfolding check_input
check_input_sound s (bare t) texts h =
    let (d, i) = input_checked_sound s (str t) texts _ refl h in (bare-Denotes t texts d, i)
check_input_sound s (listed ts) texts h =
    let (d, i) = input_checked_sound s (arr (of_list (map str ts))) texts _ refl h in
    (listed-Denotes ts texts d, i)
check_input_sound s (other_sequence ts) texts h = cc h

check_given_id-fits :
    (new_job_id : Text) (given : Option Text) (id : Text)
    → (1 ≤ length new_job_id) × (length new_job_id ≤ 128)
    → check_given_id new_job_id given ≡ ok id
    → (1 ≤ length id) × (length id ≤ 128)
unfolding check_given_id check_job_id
check_given_id-fits new_job_id none id new h = rw (← ok-injective new_job_id id h) new
check_given_id-fits new_job_id (some given) id new h = ground (arith, new)

cap_metadata-fits :
    (s : Settings) (given fs : Fields)
    → cap_metadata s given ≡ ok fs
    → dumps_size (obj fs) ≤ s.mq_metadata_max_bytes
unfolding cap_metadata
cap_metadata-fits s given fs h = ground arith

-- A job that a client builds for these texts.
pub record IsBuilt (s : Settings) (g : Texts) (t : InputType) (n : Bool) (d : Option DateTime)
    (job : EmbeddingJob) : Type 0 where
  pub fits : IsUtc d → Fits s job
  pub input : job.input ≡ given g
  pub input_type : job.input_type ≡ t
  pub normalize : job.normalize ≡ n
  pub deadline : job.deadline ≡ d

pub new_job-IsBuilt :
    (s : Settings) (new_job_id : Text) (g : Texts) (t : InputType) (n : Bool) (job_id : Option Text)
    (d : Option DateTime) (metadata : Option Fields) (job : EmbeddingJob)
    → (1 ≤ length new_job_id) × (length new_job_id ≤ 128)
    → new_job s new_job_id g t n job_id d metadata ≡ ok job
    → IsBuilt s g t n d job
unfolding new_job
new_job-IsBuilt s new_job_id g t n job_id d metadata job new h =
    let (p, e, r) =
      >>=-eq-ok
        (both (check_input s g)
          (both (check_given_id new_job_id job_id) (cap_metadata s (or_empty metadata))))
        _ h in
    let (i, e1) = both-eq-ok _ _ p e in
    let (j, m) = both-eq-ok _ _ p.1 e1 in
    let (same, valid) = check_input_sound s g p.0 i in
    rw (← ok-injective _ job r) (record {
      fits = λ u. record {
        input = valid;
        id = check_given_id-fits new_job_id job_id p.1.0 new j;
        deadline = u;
        metadata = cap_metadata-fits s (or_empty metadata) p.1.1 m;
      };
      input = same;
      input_type = refl;
      normalize = refl;
      deadline = refl;
    })
