-- ===== src/EndToEnd.antt =====
-- A query from mq/client.py through a worker of mq/worker.py and back. What the broker does is in the
-- parameters: the message has a tag, a direct reply-to name becomes an address, and a confirmed reply
-- reaches the client.
pub mod ReadBack
pub mod Served
pub mod Indexed
use mathlib.Core.List.{Mem}
use sementic_search_engine.Prelude.{
  ℕ, ◌≡◌, refl, sym, ap, subst, ◌∙◌, inl, inr, Bool, true, false, none, some, List, [], map, ◌∷◌,
  ◌++◌, is_empty, Text, text_eq_refl, if◌then◌else◌, Result, ok, raise,
}
use sementic_search_engine.Config.{Settings}
use sementic_search_engine.Schemas.{Lane, InputType, EmbeddingJob, validate}
use sementic_search_engine.Schemas.Values.{Fields, obj}
use sementic_search_engine.Schemas.Reply.{Status, EmbeddingResult}
use sementic_search_engine.Handler.{Engine, Libraries, is_expired, with_fallback, parse_job}
use sementic_search_engine.Handler.Splitting.{IsPointwise}
use sementic_search_engine.Worker.Lanes.{lane_specs}
use sementic_search_engine.Worker.{
  Message, Delivery, received, counts, publishes, Outside, on_message, process,
}
use sementic_search_engine.Worker.Replies.{IsSaid}
use sementic_search_engine.Handler.Parsing.{parse_job-accepts}
use sementic_search_engine.Worker.Published.{
  on_message-buffers, Concluded-Published, process-Concluded,
}
use sementic_search_engine.Client
use sementic_search_engine.Client.{
  Request, ClientError, job_failed, confirmed, waiting, resolved, begin_query, end_query, outcome,
  reply_id, direct_reply_to, query_request,
}
use sementic_search_engine.Client.Pending.{Event, replied, run, NoneAbout, first_reply}
use sementic_search_engine.Client.Answered.{
  outcome-resolved, NoneAbout-append, first_reply-append, end_query-outcome,
}

-- What a worker reads of the message that `_publish` builds: its other properties (the type, the app id,
-- the timestamp, the expiration and the delivery mode) are for the broker and for people. `dump` is model_dump_json().encode(), and
-- `address` what the broker makes of the reply-to.
unfoldable pub message_of : (EmbeddingJob → List ℕ) → (Text → Text) → ℕ → Request → Message
message_of dump address tag r = record {
  tag = tag;
  body = dump r.job;
  message_id = some r.job.job_id;
  correlation_id = some r.job.job_id;
  reply_to = some (address r.reply_to);
  acquired_count = none;
  delivery_count = none;
}

pub if-same {ℓ} : {A : Type ℓ} (b : Bool) (x : A) → (if b then x else x) ≡ x
if-same true x = refl
if-same false x = refl

-- What the libraries are documented to do with the job: the worker reads the object that the client
-- dumps, and it is valid.
pub record IsReadBack (lib : Libraries) (s : Settings) (dump : EmbeddingJob → List ℕ)
    (job : EmbeddingJob) (id : Text) : Type 0 where
  pub fields : Fields
  pub loaded : lib.loads (dump job) ≡ ok (obj fields)
  pub valid : validate lib.pydantic s id (with_fallback (some job.job_id) fields) ≡ ok job

-- What `embed_query` gives for a job with this id: the vectors of these texts, or the error that the
-- worker replied.
abbrev pub IsReturned :
    {V : Type 0}
    → (Text → V)
    → List Text
    → Text
    → Result (ClientError V) (EmbeddingResult V)
    → Type 0
IsReturned vector texts id (ok r) = (r.job_id ≡ id) × (r.embeddings ≡ map vector texts)
IsReturned vector texts id (raise (job_failed r)) = (r.job_id ≡ id) × (r.embeddings ≡ [])
IsReturned vector texts id (raise _) = ⊥

abbrev pub IsFaithful :
    {V : Type 0}
    → (InputType → Bool → Text → V)
    → EmbeddingJob
    → Result (ClientError V) (EmbeddingResult V)
    → Type 0
IsFaithful vector job = IsReturned (vector job.input_type job.normalize) job.input job.job_id

module _ {V : Type 0} (lib : Libraries) (s : Settings) (dump : EmbeddingJob → List ℕ)
    (address : Text → Text) (engine : Engine V) (vector : InputType → Bool → Text → V)
    (cut : InputType → Bool → Text → Bool) (job : EmbeddingJob) where
  outcome-IsFaithful :
      (out : Outside) (m : Message) (r : EmbeddingResult V)
      → r.job_id ≡ job.job_id
      → IsSaid out (lane_specs s Lane.query) engine vector cut (record { message = m; job = job }) r
      → IsFaithful vector job (outcome job.job_id confirmed (resolved r))
  outcome-IsFaithful out m r i (inl a) =
      rw (outcome-resolved job.job_id r Status.ok a.success) (i, a.embeddings)
  outcome-IsFaithful out m r i (inr e) =
      rw (outcome-resolved job.job_id r Status.error e.0) (i, e.1)

  -- The reply that a client gets to its query, whatever else happens while it waits.
  first_reply-own :
      (r : EmbeddingResult V) (es : List (Event V))
      → r.job_id ≡ job.job_id
      → first_reply job.job_id (replied (some job.job_id) (some r) ∷ es) ≡ resolved r
  unfolding reply_id
  first_reply-own r es i =
      let own : reply_id (some job.job_id) r ≡ job.job_id =
        rw i (if-same (is_empty job.job_id) job.job_id) in
      rw (own, text_eq_refl job.job_id) refl

  -- A query that a client sends is put into the batcher of a worker's query lane; then the batch that
  -- has it publishes a reply to it, whatever the other jobs of the batch are, and with this reply
  -- `embed_query` returns the vectors of the query's own texts, or raises the error that the worker
  -- replied: when the libraries read the job back, the engine encodes each text by itself, the job has
  -- not expired when it is received and when it is processed, the broker takes the reply, the reply
  -- comes in while no other has settled the query, and no other query with its id begins or ends.
  pub query-answered :
      (tag : ℕ) (id : Text) (at_receipt at_work : Outside) (before after : List Delivery)
      (early late : List (Event V)) (st : Client.State V)
      → IsReadBack lib s dump job id
      → IsPointwise engine vector cut
      → is_empty (address direct_reply_to) ≡ false
      → is_expired job (at_receipt.now tag) ≡ false
      → is_expired job (at_work.now tag) ≡ false
      → at_work.confirms tag ≡ true
      → NoneAbout job.job_id early
      → NoneAbout job.job_id late
      → first_reply job.job_id early ≡ waiting
      → let m = message_of dump address tag (query_request job) in
        let d : Delivery = record { message = m; job = job } in
        (on_message {V = V} at_receipt (lane_specs s Lane.query) lib s id false m
          ≡ (counts Lane.query received ∷ [], ok (some d)))
        × ((r : EmbeddingResult V) × (Mem
                (publishes tag (address direct_reply_to) false false job.job_id r)
                (process at_work (lane_specs s Lane.query) engine (before ++ d ∷ after))
              × IsFaithful vector job
                  (end_query job.job_id confirmed (
                    run s
                      (early ++ replied (some job.job_id) (some r) ∷ late)
                      (begin_query job st))).0))
  unfolding message_of lane_specs
  query-answered tag id at_receipt at_work before after early late st back pw addressed fresh live
        taken before_it after_it unsettled =
      let m : Message = message_of dump address tag (query_request job) in
      let d : Delivery = record { message = m; job = job } in
      let p =
        Concluded-Published at_work (lane_specs s Lane.query) engine vector cut d
          (address direct_reply_to) _ refl taken
          (process-Concluded at_work (lane_specs s Lane.query) engine vector cut d
            (address direct_reply_to) refl addressed pw before after live) in
      (
        on_message-buffers at_receipt (lane_specs s Lane.query) lib s id m job
            (ap (λ f. parse_job {V = V} lib s id (dump job) f (some at_receipt.worker_id))
                (if-same (is_empty job.job_id) (some job.job_id))
              ∙ parse_job-accepts lib s id (some job.job_id) (some at_receipt.worker_id) (dump job)
                  back.fields job back.loaded back.valid)
            fresh,
        (
          p.result,
          (
            subst
                (λ c.
                  Mem (publishes tag (address direct_reply_to) false false c p.result)
                    (process at_work (lane_specs s Lane.query) engine (before ++ d ∷ after)))
                (ap (λ i. if is_empty job.job_id then i else job.job_id) p.id
                  ∙ if-same (is_empty job.job_id) job.job_id)
                p.sent,
            subst (IsFaithful vector job)
                (sym (
                  end_query-outcome s job confirmed
                    (early ++ replied (some job.job_id) (some p.result) ∷ late) st
                    (NoneAbout-append job.job_id early _ before_it (refl, after_it))
                  ∙ ap (outcome job.job_id confirmed) (
                      first_reply-append job.job_id early _ unsettled
                      ∙ first_reply-own p.result late p.id)))
                (outcome-IsFaithful at_work m p.result p.id p.said),
          ),
        ),
      )
