-- ===== src/Client.antt =====
-- mq/client.py: what a client keeps, and its handlers. A query waits on the future that it entered
-- under its job's id. The broker's answer to a publish is a parameter.
pub mod Pending
pub mod Answered
pub mod Declared
pub mod Results
pub mod Calls
pub mod Session
use sementic_search_engine.Prelude.{
  ℕ, Bool, true, false, Option, none, some, List, [], ◌∷◌, ◌++◌, if◌then◌else◌, is_empty, Text,
  text_eq, codes, Result, ok, raise, ◌>>=◌, is_named,
}
use sementic_search_engine.Config.{Settings}
use sementic_search_engine.Schemas.{EmbeddingJob}
use sementic_search_engine.Schemas.Reply.{Status, EmbeddingResult}
use sementic_search_engine.Topology.{query_key, index_key}

pub data ClientError (V : Type 0) : Type 0 where
  -- EmbeddingClientError, of a request that no queue takes, and of a client that is closed
  unroutable closed : ClientError V
  -- EmbeddingOverloaded
  overloaded : ClientError V
  -- EmbeddingTimeout
  timed_out : Text → ClientError V
  -- EmbeddingJobFailed
  job_failed : EmbeddingResult V → ClientError V
  -- what the broker's library raised, which the client lets through: a TimeoutError, or another
  timeout_error library_error : ClientError V

pub data Future (V : Type 0) : Type 0 where
  waiting : Future V
  resolved : EmbeddingResult V → Future V
  failed : ClientError V → Future V

-- The keys of the dictionary `_pending` after `pending[id] = future`, and after `pending.pop(id, None)`.
unfoldable pub enter : Text → List Text → List Text
enter id ids = if is_named id ids then ids else ids ++ id ∷ []

unfoldable pub leave : Text → List Text → List Text
unfolding text_eq
leave id [] = []
leave id (k ∷ ids) = let rest = leave id ids in if text_eq id k then rest else k ∷ rest

-- One call less that waits.
unfoldable pub without_one : Text → List Text → List Text
unfolding text_eq
without_one name [] = []
without_one name (n ∷ names) =
    let rest = without_one name names in if text_eq name n then names else n ∷ rest

-- Futures with one of them changed.
unfoldable pub set : {V : Type 0} → Text → Future V → (Text → Future V) → Text → Future V
unfolding text_eq
set id f futures k = if text_eq id k then f else futures k

-- What `_publish` is asked to send. How long the request may wait in its queue, its `expiration`, is left
-- out: here a message may always come late, or never.
pub record Request : Type 0 where
  pub job : EmbeddingJob
  pub routing_key : Text
  pub reply_to : Text
  pub persistent : Bool

-- What the client did with the broker: a results queue that the broker has answered the declaration of,
-- and a request.
pub data Sent : Type 0 where
  declares_results : (queue : Text) → Sent
  publishes : Request → Sent

-- `_pending` shares each future with the `embed_query` that waits on it: `futures` is the store of all
-- of them, by the id of the call's job, and `pending` the ids that `_pending` has.
pub record State (V : Type 0) : Type 0 where
  pub futures : Text → Future V
  pub pending : List Text
  pub declared_results : List Text
  -- the queues whose declaration a `declare_results_queue` waits for, once for each call
  pub declaring : List Text
  -- what was sent, the latest first
  pub sent : List Sent

unfoldable pub init : {V : Type 0} → State V
init = record {
  futures = λ id. waiting;
  pending = [];
  declared_results = [];
  declaring = [];
  sent = [];
}

-- How the broker answers a publish.
pub data Confirm : Type 0 where
  confirmed : Confirm
  -- no queue is bound for the key
  returned : Confirm
  -- the queue is full
  nacked : Confirm
  -- the library raises a TimeoutError, or another exception
  times_out fails : Confirm

abbrev pub direct_reply_to : Text
direct_reply_to = codes "amq.rabbitmq.reply-to"

-- reply_to or settings.index_results_queue
unfoldable pub results_queue : Settings → Option Text → Text
results_queue s none = s.index_results_queue
results_queue s (some q) = if is_empty q then s.index_results_queue else q

-- The request of `embed_query`.
abbrev pub query_request : EmbeddingJob → Request
query_request job = record {
  job = job;
  routing_key = query_key;
  reply_to = direct_reply_to;
  persistent = false;
}

-- The request of `submit_index`.
unfoldable pub index_request : Settings → Option Text → EmbeddingJob → Request
unfolding results_queue
index_request s reply_to job = record {
  job = job;
  routing_key = index_key;
  reply_to = results_queue s reply_to;
  persistent = true;
}

module _ {V : Type 0} where
  unfoldable pub publish : Request → State V → State V
  publish r st = record st { sent = publishes r ∷ st.sent }

  -- `embed_query`, up to where it waits for the publish or for its future.
  unfoldable pub begin_query : EmbeddingJob → State V → State V
  unfolding enter set publish
  begin_query job st = publish (query_request job) (record st {
    futures = set job.job_id waiting st.futures;
    pending = enter job.job_id st.pending;
  })

  -- What `_publish` raises, if it does.
  unfoldable pub publish_error : Confirm → Option (ClientError V)
  publish_error confirmed = none
  publish_error returned = some unroutable
  publish_error nacked = some overloaded
  publish_error times_out = some timeout_error
  publish_error fails = some library_error

  -- What the wait ends with: a publish that raised, or the future as it is when it is done or the time
  -- is over.
  waited : Text → Confirm → Future V → Result (ClientError V) (EmbeddingResult V)
  waited id returned f = raise unroutable
  waited id nacked f = raise overloaded
  waited id times_out f = raise (timed_out id)
  waited id fails f = raise library_error
  waited id confirmed (resolved r) = ok r
  waited id confirmed (failed e) = raise e
  waited id confirmed waiting = raise (timed_out id)

  checked : EmbeddingResult V → Status → Result (ClientError V) (EmbeddingResult V)
  checked r Status.error = raise (job_failed r)
  checked r Status.ok = ok r

  unfoldable pub outcome : Text → Confirm → Future V → Result (ClientError V) (EmbeddingResult V)
  unfolding waited checked
  outcome id c f = waited id c f >>= λ r. checked r r.status

  -- `embed_query`, from there: what it returns or raises, and what it leaves behind.
  unfoldable pub end_query :
      Text → Confirm → State V → Result (ClientError V) (EmbeddingResult V) × State V
  unfolding leave outcome
  end_query id c st = (outcome id c (st.futures id), record st { pending = leave id st.pending })

  -- future.set_result, unless it is done; and the same for an exception
  unfoldable pub settle : Future V → Future V → Future V
  settle f waiting = f
  settle f (resolved r) = resolved r
  settle f (failed e) = failed e

  -- message.correlation_id or result.job_id
  unfoldable pub reply_id : Option Text → EmbeddingResult V → Text
  reply_id none r = r.job_id
  reply_id (some c) r = if is_empty c then r.job_id else c

  -- `_on_reply`, with the result that pydantic reads from the body, if it is valid.
  unfoldable pub on_reply : Option Text → Option (EmbeddingResult V) → State V → State V
  unfolding settle set reply_id
  on_reply c none st = st
  on_reply c (some r) st =
      let id = reply_id c r in
      if is_named id st.pending
      then record st { futures = set id (settle (resolved r) (st.futures id)) st.futures }
      else st

  unfoldable pub close_all : List Text → (Text → Future V) → Text → Future V
  unfolding set settle
  close_all [] futures = futures
  close_all (id ∷ ids) futures =
      close_all ids (set id (settle (failed closed) (futures id)) futures)

  -- `close`
  unfoldable pub close : State V → State V
  unfolding close_all
  close st = record st { futures = close_all st.pending st.futures; pending = [] }

  -- `declare_results_queue`, with the name that it settles on: up to where it waits for the broker, if
  -- it does.
  unfoldable pub begin_declare : Text → State V → State V
  begin_declare name st =
      if is_named name st.declared_results
      then st
      else record st { declaring = name ∷ st.declaring }

  -- `declare_results_queue`, from the broker's answer on.
  unfoldable pub end_declare : Text → State V → State V
  unfolding enter without_one
  end_declare name st = record st {
    declaring = without_one name st.declaring;
    declared_results = enter name st.declared_results;
    sent = declares_results name ∷ st.sent;
  }

  -- `submit_index`: up to where it waits for the declaration or, when the queue is known, for the
  -- publish.
  unfoldable pub begin_submit : Settings → Option Text → EmbeddingJob → State V → State V
  unfolding results_queue begin_declare publish index_request
  begin_submit s reply_to job st =
      if is_named (results_queue s reply_to) st.declared_results
      then publish (index_request s reply_to job) st
      else begin_declare (results_queue s reply_to) st

  -- `submit_index`, from the answer to its declaration up to the publish; nothing, when no call waits
  -- for one.
  unfoldable pub end_submit : Settings → Option Text → EmbeddingJob → State V → State V
  unfolding results_queue end_declare publish index_request
  end_submit s reply_to job st =
      if is_named (results_queue s reply_to) st.declaring
      then publish (index_request s reply_to job) (end_declare (results_queue s reply_to) st)
      else st

  -- `consume_results`, from the answer to the declaration of its queue on; it declares it each time.
  unfoldable pub consume_results : Settings → Option Text → State V → State V
  unfolding results_queue enter
  consume_results s queue st =
      let name = results_queue s queue in
      record st {
        declared_results = enter name st.declared_results;
        sent = declares_results name ∷ st.sent;
      }
