-- ===== src/Worker/Published.antt =====
-- How a batch ends for one of its deliveries, whose reply the broker takes.
use mathlib.Core.List.{Mem, mem-append_left, mem-append_right, mem-cons_self, mem-cons_of_mem}
use sementic_search_engine.Prelude.{
  ◌≡◌, refl, sym, ap, subst, ◌∙◌, inl, inr, Bool-cases, Bool, true, false, none, some, List, [],
  ◌∷◌, ◌++◌, All2, is_empty, Text, Result, ok, raise, not, leb, if◌then◌else◌,
}
use sementic_search_engine.Config.{Settings}
use sementic_search_engine.Schemas.{InputType, EmbeddingJob}
use sementic_search_engine.Schemas.Reply.{EmbeddingResult}
use sementic_search_engine.Handler.{
  Exception, Engine, Libraries, parse_job, is_expired, encode_jobs,
}
use sementic_search_engine.Handler.Splitting.{IsPointwise, IsAnswer}
use sementic_search_engine.Handler.Isolation.{Isolated, answered, failed, isolating-Isolated}
use sementic_search_engine.Worker.Lanes.{LaneSpec}
use sementic_search_engine.Worker
use sementic_search_engine.Worker.{
  Message, Delivery, Action, received, counts, publishes, nacks, completed, Stat, delivery_attempt,
  give_up_or_requeue, or_text, accept, on_parsed, on_read, on_message, Outside, correlation,
  reply_to, reply, settle, failed_result, finish, sift, finish_all, jobs_of, process_live, process,
}
use sementic_search_engine.Worker.Replies.{IsSaid}

-- A message with a job that has not expired goes to the batcher.
pub on_message-buffers :
    {V : Type 0} (out : Outside) (spec : LaneSpec) (lib : Libraries) (s : Settings) (id : Text)
    (m : Message) (job : EmbeddingJob)
    → parse_job {V = V} lib s id m.body (or_text m.message_id m.correlation_id) (some out.worker_id)
      ≡ ok (some job, none)
    → is_expired job (out.now m.tag) ≡ false
    → on_message {V = V} out spec lib s id false m
      ≡ (counts spec.name received ∷ [], ok (some (record { message = m; job = job })))
unfolding on_message on_read on_parsed accept
on_message-buffers out spec lib s id m job e live =
    ap (λ p. (counts spec.name received ∷ (on_read out spec m p).0, (on_read out spec m p).1)) e
    ∙ rw live refl

module _ {V : Type 0} (out : Outside) (spec : LaneSpec) (engine : Engine V)
    (vector : InputType → Bool → Text → V) (cut : InputType → Bool → Text → Bool) (d : Delivery)
    (key : Text) where
  abbrev reply_of : EmbeddingResult V → Action V
  reply_of r =
      publishes d.message.tag key spec.persistent_reply spec.mandatory_reply
        (correlation d.message.correlation_id r.job_id) r

  -- What the worker knows of a job that breaks the model.
  abbrev Breaks : Type 0
  Breaks = (exc : Exception) × (encode_jobs engine (some out.worker_id) (d.job ∷ []) ≡ raise exc)

  -- Whether the delivery is put back into its queue when its encode raised.
  abbrev pub goes_back : Bool
  goes_back = not (leb out.index_delivery_limit (delivery_attempt d.message))

  -- How the actions of a batch end for the delivery: a reply with the vectors of its texts is
  -- published, or an error reply, in a lane without retries, or it is sent back in one with retries.
  -- The last two only for a job whose own encode raises. Or the reply is refused, and the delivery is
  -- sent back in a lane with retries.
  pub data Concluded (actions : List (Action V)) : Type 0 where
    answers :
        (r : EmbeddingResult V)
        → IsAnswer engine (some out.worker_id) vector cut d.job.input_type d.job.normalize d.job r
        → Mem (reply_of r) actions
        → Concluded actions
    apologises :
        spec.retry_on_failure ≡ false
        → Breaks
        → Mem (reply_of (failed_result out spec d)) actions
        → Concluded actions
    sends_back :
        spec.retry_on_failure ≡ true
        → Breaks
        → Mem (nacks d.message.tag goes_back) actions
        → Concluded actions
    -- the broker did not take the reply
    is_refused :
        out.confirms d.message.tag ≡ false
        → Mem (nacks d.message.tag spec.retry_on_failure) actions
        → Concluded actions

  Concluded-imp :
      (as' bs : List (Action V))
      → ((a : Action V) → Mem a as' → Mem a bs)
      → Concluded as'
      → Concluded bs
  Concluded-imp as' bs f (answers r a m) = answers r a (f _ m)
  Concluded-imp as' bs f (apologises e b m) = apologises e b (f _ m)
  Concluded-imp as' bs f (sends_back e b m) = sends_back e b (f _ m)
  Concluded-imp as' bs f (is_refused c m) = is_refused c (f _ m)

  Concluded-left : (as' bs : List (Action V)) → Concluded as' → Concluded (as' ++ bs)
  Concluded-left as' bs = Concluded-imp as' (as' ++ bs) (λ a m. mem-append_left bs m)

  Concluded-right : (as' bs : List (Action V)) → Concluded bs → Concluded (as' ++ bs)
  Concluded-right as' bs = Concluded-imp bs (as' ++ bs) (λ a m. mem-append_right as' m)

  -- A reply to the delivery that these actions publish.
  pub record Published (actions : List (Action V)) : Type 0 where
    pub result : EmbeddingResult V
    pub id : result.job_id ≡ d.job.job_id
    pub said : IsSaid out spec engine vector cut d result
    pub sent : Mem (reply_of result) actions

  -- In a lane without retries it is replied to in any case.
  pub Concluded-Published :
      (actions : List (Action V))
      → spec.retry_on_failure ≡ false
      → out.confirms d.message.tag ≡ true
      → Concluded actions
      → Published actions
  unfolding failed_result
  Concluded-Published actions at_once taken (answers r a m) = record {
    result = r;
    id = a.id;
    said = inl a;
    sent = m;
  }
  Concluded-Published actions at_once taken (apologises e b m) = record {
    result = failed_result out spec d;
    id = refl;
    said = inr (refl, refl);
    sent = m;
  }
  Concluded-Published actions at_once taken (sends_back e b m) = cc (e, at_once)
  Concluded-Published actions at_once taken (is_refused c m) = cc (c, taken)

  module _ (asked : d.message.reply_to ≡ some key) (addressed : is_empty key ≡ false) where
    settle-publishes :
        (r : EmbeddingResult V) (retry : Bool)
        → out.confirms d.message.tag ≡ true
        → Mem (reply_of r) (settle out spec d.message r retry)
    unfolding settle reply reply_to
    settle-publishes r retry confirmed = rw (asked, reply, addressed, confirmed) (mem-cons_self)

    settle-nacks :
        (r : EmbeddingResult V) (retry : Bool)
        → out.confirms d.message.tag ≡ false
        → Mem {A = Action V} (nacks d.message.tag retry) (settle out spec d.message r retry)
    unfolding settle reply reply_to
    settle-nacks r retry refused =
        rw (asked, reply, addressed, refused) (mem-cons_of_mem _ mem-cons_self)

    -- A reply that is settled with the retries of the lane is published, or refused.
    settle-Concluded :
        (r : EmbeddingResult V) (before : Action V)
        → (Mem (reply_of r) (before ∷ settle out spec d.message r spec.retry_on_failure)
            → Concluded (before ∷ settle out spec d.message r spec.retry_on_failure))
        → Concluded (before ∷ settle out spec d.message r spec.retry_on_failure)
    settle-Concluded r before published = elim (Bool-cases (out.confirms d.message.tag)) [
      | inl c ↦ published (mem-cons_of_mem _ (settle-publishes r spec.retry_on_failure c))
      | inr c ↦ is_refused c (mem-cons_of_mem _ (settle-nacks r spec.retry_on_failure c))
    ]

    give_up_or_requeue-nacks :
        Mem {A = Action V} (nacks d.message.tag goes_back) (give_up_or_requeue out spec d.message)
    unfolding give_up_or_requeue
    give_up_or_requeue-nacks =
        elim (Bool-cases (leb out.index_delivery_limit (delivery_attempt d.message))) [
          | inl e ↦ rw (e, give_up_or_requeue) (mem-cons_of_mem _ mem-cons_self)
          | inr e ↦ rw (e, give_up_or_requeue) mem-cons_self
        ]

    if-false {ℓ} : {A : Type ℓ} (b : Bool) (x y : A) → b ≡ false → y ≡ (if b then x else y)
    if-false b x y e = rw e refl

    failed-Concluded : (exc : Exception) → Breaks → Concluded (finish out spec d (raise exc))
    unfolding finish failed_result
    failed-Concluded exc b = elim (Bool-cases spec.retry_on_failure) [
      | inl e ↦ sends_back e b (mem-cons_of_mem _ (rw e give_up_or_requeue-nacks))
      | inr e ↦
          subst (λ as'. Concluded (counts spec.name Worker.failed ∷ as'))
            (if-false spec.retry_on_failure (give_up_or_requeue out spec d.message) _ e)
            (settle-Concluded (failed_result out spec d) (counts spec.name Worker.failed)
              (apologises e b))
    ]

    finish-Concluded :
        (o : Result Exception (EmbeddingResult V))
        → Isolated engine (some out.worker_id) vector cut d.job o
        → Concluded (finish out spec d o)
    unfolding finish
    finish-Concluded o (answered r a) =
        settle-Concluded r (counts spec.name completed) (answers r a)
    finish-Concluded o (failed exc e) = failed-Concluded exc (exc, e)

    finish_all-Concluded :
        (before after : List Delivery) (os : List (Result Exception (EmbeddingResult V)))
        → All2 (Isolated engine (some out.worker_id) vector cut) (jobs_of (before ++ d ∷ after)) os
        → Concluded (finish_all out spec (before ++ d ∷ after) os)
    unfolding finish_all
    finish_all-Concluded [] after [] none_left = elim none_left [ ]
    finish_all-Concluded [] after (o ∷ os) (All2.cons i is) =
        Concluded-left (finish out spec d o) _ (finish-Concluded o i)
    finish_all-Concluded (x ∷ before) after [] none_left = elim none_left [ ]
    finish_all-Concluded (x ∷ before) after (o ∷ os) (All2.cons i is) =
        Concluded-right (finish out spec x o) _ (finish_all-Concluded before after os is)

    sift-append :
        (xs ys : List Delivery)
        → (sift {V = V} out spec (xs ++ ys)).1
          ≡ (sift {V = V} out spec xs).1 ++ (sift {V = V} out spec ys).1
    unfolding sift
    sift-append [] ys = refl
    sift-append (x ∷ xs) ys = elim (Bool-cases (is_expired x.job (out.now x.message.tag))) [
      | inl e ↦ rw e (sift-append xs ys)
      | inr e ↦ rw e (ap (◌∷◌ x) (sift-append xs ys))
    ]

    module _ (pw : IsPointwise engine vector cut) where
      process_live-Concluded :
          (before after : List Delivery)
          → Concluded (process_live out spec engine (before ++ d ∷ after))
      unfolding process_live
      process_live-Concluded [] after =
          finish_all-Concluded [] after _
            (isolating-Isolated engine (some out.worker_id) vector cut pw (jobs_of (d ∷ after)))
      process_live-Concluded (x ∷ before) after = finish_all-Concluded (x ∷ before) after _ (
          isolating-Isolated engine (some out.worker_id) vector cut pw
            (jobs_of ((x ∷ before) ++ d ∷ after)))

      -- A delivery that has not expired when its batch is processed is answered, unless its own encode
      -- raises, whatever else is in the batch.
      pub process-Concluded :
          (before after : List Delivery)
          → is_expired d.job (out.now d.message.tag) ≡ false
          → Concluded (process out spec engine (before ++ d ∷ after))
      unfolding process sift
      process-Concluded before after live =
          let kept : (sift {V = V} out spec (before ++ d ∷ after)).1
              ≡ (sift {V = V} out spec before).1 ++ d ∷ (sift {V = V} out spec after).1 =
            sift-append before (d ∷ after) ∙ rw live refl in
          Concluded-right (sift out spec (before ++ d ∷ after)).0 _ (
            subst (λ ds. Concluded (process_live out spec engine ds)) (sym kept)
              (process_live-Concluded (sift {V = V} out spec before).1
                (sift {V = V} out spec after).1))
