-- ===== src/Worker/Replies.antt =====
-- What the replies of a batch say, and to whom.
use sementic_search_engine.Prelude.{
  ℕ, ◌≡◌, refl, ap, ◌⊎◌, inl, inr, Bool-cases, Bool, false, Option, none, some, List, [], ◌∷◌, All,
  All-append, All-imp, All2, Some, is_empty, leb, Text, Result,
}
use sementic_search_engine.Schemas.{Lane, InputType}
use sementic_search_engine.Schemas.Reply.{Status, EmbeddingResult}
use sementic_search_engine.Handler.{Exception, Engine, is_expired}
use sementic_search_engine.Handler.Splitting.{IsPointwise, IsAnswer}
use sementic_search_engine.Handler.Isolation.{Isolated, answered, failed, isolating-Isolated}
use sementic_search_engine.Worker.Lanes.{LaneSpec}
use sementic_search_engine.Worker.{
  Delivery, Action, counts, publishes, acks, nacks, Outside, correlation, reply_to, reply, settle,
  delivery_attempt, expired_result, failed_result, expire_in, expire, give_up_or_requeue, finish,
  sift, finish_all, jobs_of, process_live, process,
}

module _ {V : Type 0} (out : Outside) (spec : LaneSpec) (engine : Engine V)
    (vector : InputType → Bool → Text → V) (cut : InputType → Bool → Text → Bool) where
  -- What a reply may say to a job: the vectors of its own texts, or an error without vectors.
  abbrev pub IsSaid : Delivery → EmbeddingResult V → Type 0
  IsSaid d r =
      IsAnswer engine (some out.worker_id) vector cut d.job.input_type d.job.normalize d.job r
      ⊎ ((r.status ≡ Status.error) × (r.embeddings ≡ []))

  -- A reply to this delivery.
  pub record IsReplyTo (t : ℕ) (k c : Text) (r : EmbeddingResult V) (d : Delivery) : Type 0 where
    pub tag : t ≡ d.message.tag
    pub key : d.message.reply_to ≡ some k
    pub correlated : c ≡ correlation d.message.correlation_id d.job.job_id
    pub id : r.job_id ≡ d.job.job_id
    pub said : IsSaid d r

  -- If the action publishes a reply, it is one to some of these deliveries.
  abbrev pub IsJustified : List Delivery → Action V → Type 0
  IsJustified ds (counts l s) = Unit
  IsJustified ds (publishes t k p m c r) = Some (IsReplyTo t k c r) ds
  IsJustified ds (acks t) = Unit
  IsJustified ds (nacks t q) = Unit

  there :
      (d : Delivery) (ds : List Delivery) (a : Action V) → IsJustified ds a → IsJustified (d ∷ ds) a
  there d ds (counts l s) h = tt
  there d ds (publishes t k p m c r) h = inr h
  there d ds (acks t) h = tt
  there d ds (nacks t q) h = tt

  here :
      (d : Delivery) (ds : List Delivery) (a : Action V)
      → IsJustified (d ∷ []) a
      → IsJustified (d ∷ ds) a
  here d ds (counts l s) h = tt
  here d ds (publishes t k p m c r) (inl h) = inl h
  here d ds (publishes t k p m c r) (inr h) = absurd h
  here d ds (acks t) h = tt
  here d ds (nacks t q) h = tt

  both :
      (d : Delivery) (live ds : List Delivery)
      → ((a : Action V) → IsJustified live a → IsJustified ds a)
      → (a : Action V) → IsJustified (d ∷ live) a
      → IsJustified (d ∷ ds) a
  both d live ds f (counts l s) h = tt
  both d live ds f (publishes t k p m c r) (inl h) = inl h
  both d live ds f (publishes t k p m c r) (inr h) = inr (f (publishes t k p m c r) h)
  both d live ds f (acks t) h = tt
  both d live ds f (nacks t q) h = tt

  settle_to :
      (d : Delivery) (r : EmbeddingResult V) (retry : Bool) (to : Option Text)
      → d.message.reply_to ≡ to
      → r.job_id ≡ d.job.job_id
      → IsSaid d r
      → All (IsJustified (d ∷ [])) (settle out spec d.message r retry)
  unfolding settle reply reply_to
  settle_to d r retry none e i s = rw (e, reply) (tt, tt)
  settle_to d r retry (some key) e i s = elim (Bool-cases (is_empty key)) [
    | inl empty ↦ rw (e, empty) (tt, tt)
    | inr full ↦ elim (Bool-cases (out.confirms d.message.tag)) [
      | inl c ↦
          rw (e, full, c)
            (
              inl (record {
                tag = refl;
                key = refl;
                correlated = ap (correlation d.message.correlation_id) i;
                id = i;
                said = s;
              }),
              (tt, tt),
            )
      | inr c ↦ rw (e, full, c) (tt, (tt, tt))
    ]
  ]

  settle-IsJustified :
      (d : Delivery) (r : EmbeddingResult V) (retry : Bool)
      → r.job_id ≡ d.job.job_id
      → IsSaid d r
      → All (IsJustified (d ∷ [])) (settle out spec d.message r retry)
  settle-IsJustified d r retry i s = settle_to d r retry d.message.reply_to refl i s

  expire_in-IsJustified :
      (l : Lane) (d : Delivery) → All (IsJustified (d ∷ [])) (expire_in out spec l d)
  unfolding expire_in expired_result
  expire_in-IsJustified Lane.query d = (tt, tt)
  expire_in-IsJustified Lane.index d =
      settle-IsJustified d (expired_result out spec d) false refl (inr (refl, refl))

  give_up-IsJustified :
      (d : Delivery) → All (IsJustified (d ∷ [])) (give_up_or_requeue {V = V} out spec d.message)
  unfolding give_up_or_requeue
  give_up-IsJustified d =
      elim (Bool-cases (leb out.index_delivery_limit (delivery_attempt d.message))) [
        | inl e ↦ rw e (tt, (tt, tt))
        | inr e ↦ rw e (tt, tt)
      ]

  finish-IsJustified :
      (d : Delivery) (o : Result Exception (EmbeddingResult V))
      → Isolated engine (some out.worker_id) vector cut d.job o
      → All (IsJustified (d ∷ [])) (finish out spec d o)
  unfolding finish failed_result
  finish-IsJustified d o (answered r a) =
      (tt, settle-IsJustified d r spec.retry_on_failure a.id (inl a))
  finish-IsJustified d o (failed exc e) = elim (Bool-cases spec.retry_on_failure) [
    | inl e ↦ rw e (tt, give_up-IsJustified d)
    | inr e ↦
        rw e (tt, settle-IsJustified d (failed_result out spec d) false refl (inr (refl, refl)))
  ]

  finish_all-IsJustified :
      (ds : List Delivery) (os : List (Result Exception (EmbeddingResult V)))
      → All2 (Isolated engine (some out.worker_id) vector cut) (jobs_of ds) os
      → All (IsJustified ds) (finish_all out spec ds os)
  unfolding finish_all
  finish_all-IsJustified [] os All2.nil = tt
  finish_all-IsJustified (d ∷ ds) [] none_left = elim none_left [ ]
  finish_all-IsJustified (d ∷ ds) (o ∷ os) (All2.cons i is) =
      All-append (IsJustified (d ∷ ds)) (finish out spec d o) (finish_all out spec ds os)
        (All-imp (IsJustified (d ∷ [])) (here d ds) _ (finish-IsJustified d o i))
        (All-imp (IsJustified ds) (there d ds) _ (finish_all-IsJustified ds os is))

  sift-IsJustified :
      (ds : List Delivery)
      → let (done, live) = sift {V = V} out spec ds in
        All (IsJustified ds) done × ((a : Action V) → IsJustified live a → IsJustified ds a)
  unfolding sift expire
  sift-IsJustified [] = (tt, λ a h. h)
  sift-IsJustified (d ∷ ds) =
      let (done, kept) = sift-IsJustified ds in
      let before : All (IsJustified (d ∷ ds)) (sift {V = V} out spec ds).0 =
        All-imp (IsJustified ds) (there d ds) _ done in
      elim (Bool-cases (is_expired d.job (out.now d.message.tag))) [
        | inl e ↦ rw e (
          All-append (IsJustified (d ∷ ds)) (expire out spec d) _
              (All-imp (IsJustified (d ∷ [])) (here d ds) (expire out spec d)
                (tt, expire_in-IsJustified spec.name d))
              before,
          λ a h. there d ds a (kept a h),
        )
        | inr e ↦ rw e (before, both d (sift {V = V} out spec ds).1 ds kept)
      ]

  process_live-IsJustified :
      (ds : List Delivery)
      → IsPointwise engine vector cut
      → All (IsJustified ds) (process_live out spec engine ds)
  unfolding process_live
  process_live-IsJustified [] pw = tt
  process_live-IsJustified (d ∷ ds) pw =
      finish_all-IsJustified (d ∷ ds) _
        (isolating-Isolated engine (some out.worker_id) vector cut pw (jobs_of (d ∷ ds)))

  -- When the engine encodes each text by itself, every reply that the processing of a batch publishes
  -- answers some delivery of the batch: it goes where that message asks, under its correlation id and
  -- the id of its job, and says the vectors of that job's own texts or is an error without vectors.
  pub process-IsJustified :
      (items : List Delivery)
      → IsPointwise engine vector cut
      → All (IsJustified items) (process out spec engine items)
  unfolding process
  process-IsJustified items pw =
      let (done, kept) = sift-IsJustified items in
      All-append (IsJustified items) (sift out spec items).0 _ done (
        All-imp (IsJustified (sift {V = V} out spec items).1) kept _
          (process_live-IsJustified (sift {V = V} out spec items).1 pw))
