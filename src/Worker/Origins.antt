-- ===== src/Worker/Origins.antt =====
-- Which messages the replies of a worker answer.
use sementic_search_engine.Prelude.{
  Result, ok, raise, ℕ, ◌≡◌, refl, sym, ap, subst, ◌∙◌, ◌⊎◌, inl, inr, Bool-cases, Bool, true,
  false, Option, none, some, List, [], ◌∷◌, All, All-imp, Some, is_empty, Text,
}
use sementic_search_engine.Config.{Settings}
use sementic_search_engine.Schemas.{Lane, InputType, EmbeddingJob}
use sementic_search_engine.Schemas.Reply.{Status, EmbeddingResult}
use sementic_search_engine.Handler.{Uncaught, Engine, Libraries, is_expired, parse_job}
use sementic_search_engine.Handler.Splitting.{IsPointwise, IsAnswer}
use sementic_search_engine.Handler.Parsing.{
  escaped, IsParsed, accepted, rejected, parse_job-IsParsed,
}
use sementic_search_engine.Worker.Lanes.{LaneSpec}
use sementic_search_engine.Worker.Replies.{IsReplyTo, IsJustified, process-IsJustified}
use sementic_search_engine.Worker.{
  Message, Delivery, Action, received, counts, publishes, acks, nacks, Outside, correlation,
  or_text, reply_to, reply, settle, expired_result, expire_in, expire, accept, on_parsed, on_read,
  on_message, process,
}

module _ {V : Type 0} (lib : Libraries) (s : Settings) (engine : Engine V) (worker_id : Text)
    (vector : InputType → Bool → Text → V) (cut : InputType → Bool → Text → Bool) where
  -- The delivery is what the worker read from this message.
  pub record IsRead (d : Delivery) (m : Message) : Type 0 where
    pub same : d.message ≡ m
    pub id : Text
    pub read :
        parse_job {V = V} lib s id m.body (or_text m.message_id m.correlation_id) (some worker_id)
        ≡ ok (some d.job, none)

  -- A reply to this message: an error without vectors, or the vectors of the texts of its own job.
  pub record IsAnswerTo (t : ℕ) (k c : Text) (r : EmbeddingResult V) (m : Message) : Type 0 where
    pub tag : t ≡ m.tag
    pub key : m.reply_to ≡ some k
    pub correlated : c ≡ correlation m.correlation_id r.job_id
    pub said :
        ((r.status ≡ Status.error) × (r.embeddings ≡ []))
        ⊎ ((d : Delivery) × (IsRead d m
              × IsAnswer engine
                  (some worker_id)
                  vector
                  cut
                  d.job.input_type
                  d.job.normalize
                  d.job
                  r))

  -- If the action publishes a reply, it is one to some of these messages.
  abbrev pub IsOwed : List Message → Action V → Type 0
  IsOwed ms (counts l k) = Unit
  IsOwed ms (publishes t k p m c r) = Some (IsAnswerTo t k c r) ms
  IsOwed ms (acks t) = Unit
  IsOwed ms (nacks t q) = Unit

  -- The delivery is one of these messages.
  abbrev pub Known : List Message → Delivery → Type 0
  Known ms d = Some (IsRead d) ms

  pub IsOwed-more :
      (m : Message) (ms : List Message) (a : Action V) → IsOwed ms a → IsOwed (m ∷ ms) a
  IsOwed-more m ms (counts l k) h = tt
  IsOwed-more m ms (publishes t k p n c r) h = inr h
  IsOwed-more m ms (acks t) h = tt
  IsOwed-more m ms (nacks t q) h = tt

  Some-imp :
      {P Q : Message → Type 0}
      → ((m : Message) → P m → Q m)
      → (ms : List Message) → Some P ms
      → Some Q ms
  Some-imp f (m ∷ ms) (inl h) = inl (f m h)
  Some-imp f (m ∷ ms) (inr h) = inr (Some-imp f ms h)
  Some-imp f [] h = absurd h

  module _ (out : Outside) (spec : LaneSpec) (same_worker : out.worker_id ≡ worker_id) where
    IsReplyTo-IsAnswerTo :
        (t : ℕ) (k c : Text) (r : EmbeddingResult V) (d : Delivery) (m : Message)
        → IsReplyTo out spec engine vector cut t k c r d
        → IsRead d m
        → IsAnswerTo t k c r m
    IsReplyTo-IsAnswerTo t k c r d m h i = record {
      tag = h.tag ∙ ap (λ n. n.tag) i.same;
      key = sym (ap (λ n. n.reply_to) i.same) ∙ h.key;
      correlated =
          h.correlated
          ∙ ap (λ n. correlation n.correlation_id d.job.job_id) i.same
          ∙ ap (correlation m.correlation_id) (sym h.id);
      said = elim h.said [ inl a ↦ inr (d, (i, rw same_worker at a)) | inr e ↦ inl e ];
    }

    owed :
        (ds : List Delivery) (ms : List Message) (a : Action V)
        → All (Known ms) ds
        → IsJustified out spec engine vector cut ds a
        → IsOwed ms a
    owed ds ms (counts l k) known h = tt
    owed (d ∷ ds) ms (publishes t k p m c r) known (inl h) =
        Some-imp (λ n i. IsReplyTo-IsAnswerTo t k c r d n h i) ms known.0
    owed (d ∷ ds) ms (publishes t k p m c r) known (inr h) =
        owed ds ms (publishes t k p m c r) known.1 h
    owed [] ms (publishes t k p m c r) known h = absurd h
    owed ds ms (acks t) known h = tt
    owed ds ms (nacks t q) known h = tt

    -- A batch of deliveries of these messages publishes replies to these messages only.
    pub process-IsOwed :
        (ds : List Delivery) (ms : List Message)
        → IsPointwise engine vector cut
        → All (Known ms) ds
        → All (IsOwed ms) (process out spec engine ds)
    process-IsOwed ds ms pw known =
        All-imp (IsJustified out spec engine vector cut ds) (λ a. owed ds ms a known) _
          (process-IsJustified out spec engine vector cut ds pw)

    -- Settling a message with an error.
    settle_to :
        (m : Message) (r : EmbeddingResult V) (retry : Bool) (to : Option Text)
        → m.reply_to ≡ to
        → (r.status ≡ Status.error) × (r.embeddings ≡ [])
        → All (IsOwed (m ∷ [])) (settle out spec m r retry)
    unfolding settle reply reply_to
    settle_to m r retry none e h = rw (e, reply) (tt, tt)
    settle_to m r retry (some key) e h = elim (Bool-cases (is_empty key)) [
      | inl empty ↦ rw (e, empty) (tt, tt)
      | inr full ↦ elim (Bool-cases (out.confirms m.tag)) [
        | inl c ↦
            rw (e, full, c)
              (inl (record { tag = refl; key = refl; correlated = refl; said = inl h }), (tt, tt))
        | inr c ↦ rw (e, full, c) (tt, (tt, tt))
      ]
    ]

    expire_in-IsOwed :
        (l : Lane) (d : Delivery) → All (IsOwed (d.message ∷ [])) (expire_in out spec l d)
    unfolding expire_in expired_result
    expire_in-IsOwed Lane.query d = (tt, tt)
    expire_in-IsOwed Lane.index d =
        settle_to d.message (expired_result out spec d) false d.message.reply_to refl (refl, refl)

    -- What becomes of a message: replies to it only, and perhaps a delivery of it.
    abbrev pub Handles : Message → List (Action V) × Result Uncaught (Option Delivery) → Type 0
    Handles m (done, ok none) = All (IsOwed (m ∷ [])) done
    Handles m (done, ok (some d)) = All (IsOwed (m ∷ [])) done × IsRead d m
    Handles m (done, raise exc) = All (IsOwed (m ∷ [])) done

    parsed-Handles :
        (m : Message) (id : Text)
        (p : Result Uncaught (Option EmbeddingJob × Option (EmbeddingResult V)))
        → parse_job {V = V} lib s id m.body (or_text m.message_id m.correlation_id) (some worker_id)
          ≡ p
        → IsParsed {V = V} lib s id
            (or_text m.message_id m.correlation_id)
            (some worker_id)
            m.body
            p
        → Handles m (on_read out spec m p)
    unfolding on_read on_parsed accept expire
    parsed-Handles m id p e (rejected r i) =
        (tt, settle_to m r false m.reply_to refl (i.failed, i.no_vectors.0))
    parsed-Handles m id p e (accepted raw job l v i) =
        elim (Bool-cases (is_expired job (out.now m.tag))) [
          | inl h ↦ rw h (tt, expire_in-IsOwed spec.name (record { message = m; job = job }))
          | inr h ↦ rw h (tt, record { same = refl; id = id; read = e })
        ]
    parsed-Handles m id p e (escaped l) = tt

    counted :
        (m : Message) (a : Action V) (h : List (Action V) × Result Uncaught (Option Delivery))
        → IsOwed (m ∷ []) a
        → Handles m h
        → Handles m (a ∷ h.0, h.1)
    counted m a (done, ok none) o h = (o, h)
    counted m a (done, ok (some d)) o h = ((o, h.0), h.1)
    counted m a (done, raise exc) o h = (o, h)

    pub on_message-Handles :
        (id : Text) (draining : Bool) (m : Message)
        → Handles m (on_message out spec lib s id draining m)
    unfolding on_message
    on_message-Handles id true m = (tt, (tt, tt))
    on_message-Handles id false m =
        let fallback : Option Text = or_text m.message_id m.correlation_id in
        let e : parse_job {V = V} lib s id m.body fallback (some worker_id)
            ≡ parse_job lib s id m.body fallback (some out.worker_id) =
          ap (λ w. parse_job {V = V} lib s id m.body fallback (some w)) (sym same_worker) in
        counted m (counts spec.name received)
          (on_read out spec m (parse_job lib s id m.body fallback (some out.worker_id))) tt
          (parsed-Handles m id (parse_job lib s id m.body fallback (some out.worker_id)) e (
            subst (IsParsed {V = V} lib s id fallback (some worker_id) m.body) e
              (parse_job-IsParsed lib s id m.body fallback (some worker_id))))
