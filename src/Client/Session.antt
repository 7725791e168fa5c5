-- ===== src/Client/Session.antt =====
-- mq/client.py, `EmbeddingClient` from its constructor on: `connect`, `close`, and the calls before,
-- between and after them. A call before `connect` fails an assertion.
pub mod Connected
use sementic_search_engine.Prelude.{
  ℕ, ◌≡◌, Bool, true, false, ◌||◌, Option, none, some, List, [], ◌∷◌, if◌then◌else◌, Text, is_named,
  Result, ok, raise,
}
use sementic_search_engine.Config.{Settings}
use sementic_search_engine.Schemas.{EmbeddingJob, FieldError, Checked}
use sementic_search_engine.Schemas.Reply.{EmbeddingResult}
use sementic_search_engine.Client.{
  ClientError, waiting, State, Confirm, enter, leave, set, publish_error, begin_query, end_query,
  on_reply, results_queue, consume_results,
}
use sementic_search_engine.Client
use sementic_search_engine.Client.Calls.{submit, resume}

pub record Session (V : Type 0) : Type 0 where
  -- whether `_channel` and `_topology` are set
  pub has_channel : Bool
  -- whether `_connection` is set
  pub has_connection : Bool
  pub client : State V

unfoldable pub new : {V : Type 0} → Session V
unfolding Client.init
new = record { has_channel = false; has_connection = false; client = Client.init }

pub data CallError (V : Type 0) : Type 0 where
  -- a ValidationError
  invalid : List FieldError → CallError V
  -- an AssertionError: "call connect() first"
  not_connected : CallError V
  refused : ClientError V → CallError V

module _ {V : Type 0} where
  -- `connect`, and `__aenter__`
  unfoldable pub connect : Session V → Session V
  connect ses = record ses { has_channel = true; has_connection = true }

  -- `close`, and `__aexit__`
  unfoldable pub close : Session V → Session V
  unfolding Client.close
  close ses = record ses { has_connection = false; client = Client.close ses.client }

  -- `embed_query` for its job, up to where it waits. Without a topology `_publish` raises when the
  -- future has been entered, and the `finally` takes it out.
  begin_job : EmbeddingJob → Session V → Result (CallError V) EmbeddingJob × Session V
  unfolding begin_query enter leave set
  begin_job job ses =
      if ses.has_channel then (ok job, record ses { client = begin_query job ses.client }) else (
        raise not_connected,
        record ses {
          client = record ses.client {
            futures = set job.job_id waiting ses.client.futures;
            pending = leave job.job_id (enter job.job_id ses.client.pending);
          };
        },
      )

  unfoldable pub begin :
      Checked EmbeddingJob → Session V → Result (CallError V) EmbeddingJob × Session V
  unfolding begin_job
  begin (raise errors) ses = (raise (invalid errors), ses)
  begin (ok job) ses = begin_job job ses

  -- What `submit_index` gives in the end for a job that it sends.
  sent_as : Confirm → Text → Result (CallError V) Text
  unfolding publish_error
  sent_as c id = elim (publish_error {V = V} c) [ none ↦ ok id | some e ↦ raise (refused e) ]

  submitted :
      Settings
      → Option Text
      → Confirm
      → Checked EmbeddingJob
      → Session V
      → Result (CallError V) Text × Session V
  unfolding sent_as submit
  submitted s reply_to c (raise errors) ses = (
    raise (invalid errors),
    record ses { client = (submit s reply_to (raise errors) ses.client).1 },
  )
  submitted s reply_to c (ok job) ses =
      if ses.has_channel
      then (sent_as c job.job_id, record ses { client = (submit s reply_to (ok job) ses.client).1 })
      else (raise not_connected, ses)

  -- `submit_index`, with what it gives in the end, and the state where it waits for the first time.
  -- Without a channel, a queue that was declared before passes the first assertion.
  unfoldable pub submit_job :
      Settings
      → Option Text
      → Confirm
      → Checked EmbeddingJob
      → Session V
      → Result (CallError V) Text × Session V
  unfolding submitted results_queue
  submit_job s reply_to c job ses =
      let done = submitted s reply_to c job ses in
      if ses.has_channel || is_named (results_queue s reply_to) ses.client.declared_results
      then done
      else (raise not_connected, ses)

  -- `consume_results`, up to where messages come in
  unfoldable pub consume :
      Settings → Option Text → Session V → Result (CallError V) Text × Session V
  unfolding consume_results results_queue
  consume s queue ses =
      if ses.has_connection
      then (ok (results_queue s queue), record ses { client = consume_results s queue ses.client })
      else (raise not_connected, ses)

  -- One thing that happens to a client. Replies come in on the channel of `connect`.
  pub data Step (s : Settings) : Session V → Session V → Type 0 where
    connects : (ses : Session V) → Step s ses (connect ses)
    closes : (ses : Session V) → Step s ses (close ses)
    begins : (job : Checked EmbeddingJob) (ses : Session V) → Step s ses (begin job ses).1
    ends :
        (id : Text) (c : Confirm) (ses : Session V)
        → ses.has_channel ≡ true
        → Step s ses (record ses { client = (end_query id c ses.client).1 })
    replied :
        (c : Option Text) (r : Option (EmbeddingResult V)) (ses : Session V)
        → ses.has_channel ≡ true
        → Step s ses (record ses { client = on_reply c r ses.client })
    submits :
        (reply_to : Option Text) (c : Confirm) (job : Checked EmbeddingJob) (ses : Session V)
        → Step s ses (submit_job s reply_to c job ses).1
    -- the broker answers the declaration of a `submit_index`
    resumes :
        (reply_to : Option Text) (job : Checked EmbeddingJob) (ses : Session V)
        → ses.has_channel ≡ true
        → Step s ses (record ses { client = (resume s reply_to job ses.client).1 })
    consumes : (queue : Option Text) (ses : Session V) → Step s ses (consume s queue ses).1

  pub data Reach (s : Settings) : Session V → Type 0 where
    start : Reach s new
    later : {ses ses' : Session V} → Reach s ses → Step s ses ses' → Reach s ses'
