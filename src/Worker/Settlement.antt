-- ===== src/Worker/Settlement.antt =====
-- Each delivery is settled exactly once.
use mathlib.Core.List.Perm
use mathlib.Core.List.{Perm, perm_middle}
use sementic_search_engine.Prelude.{
  ℕ, suc, ◌≡◌, refl, ap, ◌∙◌, inl, inr, Bool-cases, Bool, true, false, Option, none, some, List, [],
  ◌∷◌, ◌++◌, length, arith, Text, Result, ok, raise,
}
use sementic_search_engine.Config.{Settings}
use sementic_search_engine.Schemas.{Lane, EmbeddingJob}
use sementic_search_engine.Schemas.Reply.{EmbeddingResult}
use sementic_search_engine.Handler.{
  Exception, Engine, Uncaught, other_error, Libraries, is_expired, parse_job,
}
use sementic_search_engine.Handler.Lengths.{length-isolating}
use sementic_search_engine.Handler.Parsing.{
  IsParsed, accepted, rejected, escaped, parse_job-IsParsed,
}
use sementic_search_engine.Worker.Lanes.{LaneSpec}
use sementic_search_engine.Worker.{
  Message, Delivery, Action, Stat, received, counts, publishes, acks, nacks, Outside, reply_to,
  settle, expired_result, failed_result, expire_in, expire, give_up_or_requeue, finish, sift,
  finish_all, jobs_of, process_live, process, accept, on_parsed, on_read, on_message, or_text,
}

-- The tags that are acked or nacked, in order.
abbrev pub settled : {V : Type 0} → List (Action V) → List ℕ
settled [] = []
settled (counts l s ∷ as') = settled as'
settled (publishes t k p m c r ∷ as') = settled as'
settled (acks t ∷ as') = t ∷ settled as'
settled (nacks t q ∷ as') = t ∷ settled as'

abbrev pub tags : List Delivery → List ℕ
tags [] = []
tags (d ∷ ds) = d.message.tag ∷ tags ds

settled-append :
    {V : Type 0} (as' bs : List (Action V)) → settled (as' ++ bs) ≡ settled as' ++ settled bs
settled-append [] bs = refl
settled-append (counts l s ∷ as') bs = settled-append as' bs
settled-append (publishes t k p m c r ∷ as') bs = settled-append as' bs
settled-append (acks t ∷ as') bs = ap (◌∷◌ t) (settled-append as' bs)
settled-append (nacks t q ∷ as') bs = ap (◌∷◌ t) (settled-append as' bs)

module _ (V : Type 0) (out : Outside) (spec : LaneSpec) where
  settled-settle :
      (m : Message) (r : EmbeddingResult V) (retry : Bool)
      → settled (settle out spec m r retry) ≡ m.tag ∷ []
  unfolding settle reply_to
  settled-settle m r retry = ground arith

  settled-expire_in :
      (l : Lane) (d : Delivery) → settled (expire_in {V = V} out spec l d) ≡ d.message.tag ∷ []
  unfolding expire_in
  settled-expire_in Lane.query d = refl
  settled-expire_in Lane.index d = settled-settle d.message (expired_result out spec d) false

  settled-expire : (d : Delivery) → settled (expire {V = V} out spec d) ≡ d.message.tag ∷ []
  unfolding expire
  settled-expire d = settled-expire_in spec.name d

  settled-give_up_or_requeue :
      (m : Message) → settled (give_up_or_requeue {V = V} out spec m) ≡ m.tag ∷ []
  unfolding give_up_or_requeue
  settled-give_up_or_requeue m = ground arith

  settled-finish :
      (d : Delivery) (o : Result Exception (EmbeddingResult V))
      → settled (finish out spec d o) ≡ d.message.tag ∷ []
  unfolding finish
  settled-finish d (ok r) = settled-settle d.message r spec.retry_on_failure
  settled-finish d (raise exc) = elim (Bool-cases spec.retry_on_failure) [
    | inl e ↦ rw e (settled-give_up_or_requeue d.message)
    | inr e ↦ rw e (settled-settle d.message (failed_result out spec d) false)
  ]

  settled-finish_all :
      (ds : List Delivery) (os : List (Result Exception (EmbeddingResult V)))
      → length os ≡ length ds
      → settled (finish_all out spec ds os) ≡ tags ds
  unfolding finish_all
  settled-finish_all [] os e = refl
  settled-finish_all (d ∷ ds) [] e = absurd (omega (arith, e))
  settled-finish_all (d ∷ ds) (o ∷ os) e =
      settled-append (finish out spec d o) (finish_all out spec ds os)
      ∙ rw (settled-finish d o, settled-finish_all ds os (omega (arith, e))) refl

  pub length-jobs_of : (ds : List Delivery) → length (jobs_of ds) ≡ length ds
  length-jobs_of [] = refl
  length-jobs_of (d ∷ ds) = ap suc (length-jobs_of ds)

  settled-process_live :
      (engine : Engine V) (ds : List Delivery) → settled (process_live out spec engine ds) ≡ tags ds
  unfolding process_live
  settled-process_live engine [] = refl
  settled-process_live engine (d ∷ ds) =
      settled-finish_all (d ∷ ds) _
        (length-isolating engine (some out.worker_id) (jobs_of (d ∷ ds)) ∙ length-jobs_of (d ∷ ds))

  -- The deliveries of a batch: those that have expired, and those that are encoded.
  sift-perm :
      (ds : List Delivery)
      → let (done, live) = sift {V = V} out spec ds in Perm (settled done ++ tags live) (tags ds)
  unfolding sift
  sift-perm [] = Perm.refl []
  sift-perm (d ∷ ds) = elim (Bool-cases (is_expired d.job (out.now d.message.tag))) [
    | inl e ↦
        rw (e, settled-append (expire out spec d) (sift out spec ds).0, settled-expire d)
          (Perm.cons d.message.tag (sift-perm ds))
    | inr e ↦ rw e (Perm.trans (perm_middle _ _) (Perm.cons d.message.tag (sift-perm ds)))
  ]

  -- Processing a batch acks or nacks each of its deliveries once, and nothing else, whatever the
  -- engine raises and whichever replies the broker refuses.
  pub settled-process-perm :
      (engine : Engine V) (items : List Delivery)
      → Perm (settled (process out spec engine items)) (tags items)
  unfolding process
  settled-process-perm engine items =
      let (done, live) = sift out spec items in
      rw (settled-append done (process_live out spec engine live), settled-process_live engine live)
        (sift-perm items)

  -- What became of a message: it is settled, once, or it waits in the batcher, unsettled, or it is left
  -- unsettled since json.loads raised on its body something else than an error of decoding.
  abbrev pub IsHandled :
      Libraries → Message → List (Action V) × Result Uncaught (Option Delivery) → Type 0
  IsHandled lib m (done, ok none) = settled done ≡ m.tag ∷ []
  IsHandled lib m (done, ok (some d)) = (settled done ≡ []) × (d.message ≡ m)
  IsHandled lib m (done, raise exc) = (settled done ≡ []) × (lib.loads m.body ≡ raise other_error)

  accept-IsHandled :
      (lib : Libraries) (m : Message) (job : EmbeddingJob)
      → let (done, added) = accept out spec m job in IsHandled lib m (done, ok added)
  unfolding accept
  accept-IsHandled lib m job = elim (Bool-cases (is_expired job (out.now m.tag))) [
    | inl e ↦ rw e (settled-expire (record { message = m; job = job }))
    | inr e ↦ rw e (refl, refl)
  ]

  on_read-IsHandled :
      (lib : Libraries) (s : Settings) (id : Text) (fallback w : Option Text) (m : Message)
      {p : Result Uncaught (Option EmbeddingJob × Option (EmbeddingResult V))}
      → IsParsed lib s id fallback w m.body p
      → IsHandled lib m (on_read out spec m p)
  unfolding on_read on_parsed
  on_read-IsHandled lib s id fallback w m (accepted raw job e v i) = accept-IsHandled lib m job
  on_read-IsHandled lib s id fallback w m (rejected r i) = settled-settle m r false
  on_read-IsHandled lib s id fallback w m (escaped e) = (refl, e)

  IsHandled-counts :
      (lib : Libraries) (m : Message) (l : Lane) (st : Stat)
      (h : List (Action V) × Result Uncaught (Option Delivery))
      → IsHandled lib m h
      → IsHandled lib m (counts l st ∷ h.0, h.1)
  IsHandled-counts lib m l st (done, ok none) i = i
  IsHandled-counts lib m l st (done, ok (some d)) i = i
  IsHandled-counts lib m l st (done, raise exc) i = i

  -- Every incoming message is either acked or nacked once, at once, or put into the batcher with no
  -- ack and no nack; or the callback raises and leaves it unsettled, and only where json.loads raises
  -- on its body something else than the two errors of decoding.
  pub on_message-IsHandled :
      (lib : Libraries) (s : Settings) (id : Text) (draining : Bool) (m : Message)
      → IsHandled lib m (on_message out spec lib s id draining m)
  unfolding on_message
  on_message-IsHandled lib s id true m = refl
  on_message-IsHandled lib s id false m =
      IsHandled-counts lib m spec.name received
        (on_read out spec m
          (parse_job lib s id m.body (or_text m.message_id m.correlation_id) (some out.worker_id)))
        (on_read-IsHandled lib s id (or_text m.message_id m.correlation_id) (some out.worker_id) m (
          parse_job-IsParsed lib s id m.body (or_text m.message_id m.correlation_id)
            (some out.worker_id)))
