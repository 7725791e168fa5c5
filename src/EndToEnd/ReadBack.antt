-- ===== src/EndToEnd/ReadBack.antt =====
-- The jobs that mq/client.py builds, as mq/handler.py reads them from the bodies of the messages.
use sementic_search_engine.Prelude.{
  ◌*◌, ℕ, ◌+◌, ◌≤◌, ◌≡◌, ◌↔◌, refl, Bool, true, Option, none, some, List, length, Text, text_eq, ok,
  arith,
}
use sementic_search_engine.Config.{Settings}
use sementic_search_engine.Schemas.{InputType, DateTime, EmbeddingJob}
use sementic_search_engine.Schemas.Values.{obj, Fields, get, truthy}
use sementic_search_engine.Schemas.Dump.{
  utc, dump_fields, ReadsBack, IsUtc, Fits, validate-dump_fields,
}
use sementic_search_engine.Handler.{Libraries, is_expired, is_past, with_fallback, parse_job}
use sementic_search_engine.Handler.Parsing.{parse_job-accepts}
use sementic_search_engine.Client.Calls.{
  Texts, new_job, query_job, timeout_of, IsBuilt, new_job-IsBuilt,
}
use sementic_search_engine.EndToEnd.{IsReadBack}

-- The id in the body is not empty, so that no other takes its place.
with_fallback-dump_fields :
    (isoformat : DateTime → Text) (job : EmbeddingJob) (fallback : Option Text)
    → 1 ≤ length job.job_id
    → with_fallback fallback (dump_fields isoformat job) ≡ dump_fields isoformat job
unfolding with_fallback get text_eq truthy dump_fields
with_fallback-dump_fields isoformat job none h = refl
with_fallback-dump_fields isoformat job (some id) h = ground (arith, h)

module _ (lib : Libraries) (s : Settings) (isoformat : DateTime → Text)
    (reads : ReadsBack lib.pydantic isoformat) (dump : EmbeddingJob → List ℕ) where
  pub Fits-IsReadBack :
      (job : EmbeddingJob) (id : Text)
      → Fits s job
      → lib.loads (dump job) ≡ ok (obj (dump_fields isoformat job))
      → IsReadBack lib s dump job id
  Fits-IsReadBack job id fits loaded = record {
    fields = dump_fields isoformat job;
    loaded = loaded;
    valid =
        rw (with_fallback-dump_fields isoformat job (some job.job_id) fits.id.0)
          (validate-dump_fields lib.pydantic s id isoformat reads job fits);
  }

  -- A job that a client builds, from any arguments, is read by a worker with the same settings as the
  -- very same job, whatever the ids of its message: when the id that the client generates has from 1
  -- to 128 characters, the deadline is none or in UTC, and the libraries read back what they write.
  pub parse_job-new_job :
      {V : Type 0} (new_job_id : Text) (g : Texts) (t : InputType) (n : Bool) (job_id : Option Text)
      (d : Option DateTime) (metadata : Option Fields) (job : EmbeddingJob) (id : Text)
      (fallback worker_id : Option Text)
      → (1 ≤ length new_job_id) × (length new_job_id ≤ 128)
      → IsUtc d
      → new_job s new_job_id g t n job_id d metadata ≡ ok job
      → lib.loads (dump job) ≡ ok (obj (dump_fields isoformat job))
      → parse_job {V = V} lib s id (dump job) fallback worker_id ≡ ok (some job, none)
  parse_job-new_job new_job_id g t n job_id d metadata job id fallback worker_id new u built
        loaded =
      let fits = (new_job-IsBuilt s new_job_id g t n job_id d metadata job new built).fits u in
      parse_job-accepts lib s id fallback worker_id (dump job) (dump_fields isoformat job) job
        loaded
        (rw (with_fallback-dump_fields isoformat job fallback fits.id.0)
          (validate-dump_fields lib.pydantic s id isoformat reads job fits))

pub query_job-IsBuilt :
    (s : Settings) (new_job_id : Text) (now : ℕ) (g : Texts) (n : Bool) (timeout : Option ℕ)
    (metadata : Option Fields) (job : EmbeddingJob)
    → (1 ≤ length new_job_id) × (length new_job_id ≤ 128)
    → query_job s new_job_id now g n timeout metadata ≡ ok job
    → IsBuilt s g InputType.query n (some (utc (now + timeout_of s timeout))) job
unfolding query_job
query_job-IsBuilt s new_job_id now g n timeout metadata job new h =
    new_job-IsBuilt s new_job_id g InputType.query n none _ metadata job new h

-- At `later`, the timeout of a call that began at `now` is over: the milliseconds of the setting
-- `query_ttl_ms`, or the microseconds that the caller gave.
abbrev pub IsOver : Settings → Option ℕ → ℕ → ℕ → Type 0
IsOver s none now later = now + s.query_ttl_ms * 1000 ≤ later
IsOver s (some timeout) now later = now + timeout ≤ later

pub timeout_of-IsOver :
    (s : Settings) (timeout : Option ℕ) (now later : ℕ)
    → (now + timeout_of s timeout ≤ later) ↔ IsOver s timeout now later
unfolding timeout_of
timeout_of-IsOver s none now later = (λ h. h, λ h. h)
timeout_of-IsOver s (some timeout) now later = (λ h. h, λ h. h)

-- The job of a query expires, for a worker whose clock agrees, exactly when the timeout of its caller,
-- or the setting query_ttl_ms for a caller that gives none, is over, when the id that the client
-- generated has from 1 to 128 characters.
pub query_job-expires_iff :
    (s : Settings) (new_job_id : Text) (now : ℕ) (g : Texts) (n : Bool) (timeout : Option ℕ)
    (metadata : Option Fields) (job : EmbeddingJob) (later : ℕ)
    → (1 ≤ length new_job_id) × (length new_job_id ≤ 128)
    → query_job s new_job_id now g n timeout metadata ≡ ok job
    → (is_expired job later ≡ true) ↔ IsOver s timeout now later
unfolding is_expired is_past
query_job-expires_iff s new_job_id now g n timeout metadata job later new h =
    let b = query_job-IsBuilt s new_job_id now g n timeout metadata job new h in
    let over = timeout_of-IsOver s timeout now later in
    rw b.deadline (λ e. over.0 (ground (arith, e)), λ le. ground (arith, over.1 le))
