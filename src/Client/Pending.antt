-- ===== src/Client/Pending.antt =====
-- What the interleavings of a client's calls and of the replies lead to.
use sementic_search_engine.Prelude.{
  ◌≡◌, refl, ap, ◌∙◌, Bool, true, false, Bool-cases, inl, inr, Option, none, some, List, [], ◌∷◌,
  if◌then◌else◌, Text, text_eq, text_eq_iff, text_eq_sym, is_named,
}
use sementic_search_engine.Config.{Settings}
use sementic_search_engine.Schemas.{EmbeddingJob}
use sementic_search_engine.Schemas.Reply.{EmbeddingResult}
use sementic_search_engine.Client.{
  closed, Future, waiting, resolved, failed, set, State, Confirm, publish, begin_query, end_query,
  settle, reply_id, on_reply, close_all, close, results_queue, begin_declare, end_declare,
  begin_submit, end_submit, consume_results,
}

-- What happens to a client, one thing at a time.
pub data Event (V : Type 0) : Type 0 where
  begins : EmbeddingJob → Event V
  ends : (id : Text) → Confirm → Event V
  replied : (correlation_id : Option Text) → Option (EmbeddingResult V) → Event V
  -- a `submit_index` begins; the broker answers the declaration of one
  submits answered : (reply_to : Option Text) → EmbeddingJob → Event V
  consumes : (queue : Option Text) → Event V
  closes : Event V

if-same {ℓ} : {A : Type ℓ} (b : Bool) (x y : A) → x ≡ y → (if b then x else y) ≡ y
if-same true x y e = e
if-same false x y e = refl

module _ {V : Type 0} where
  abbrev pub handle : Settings → Event V → State V → State V
  handle s (begins job) st = begin_query job st
  handle s (ends id c) st = (end_query id c st).1
  handle s (replied c r) st = on_reply c r st
  handle s (submits q job) st = begin_submit s q job st
  handle s (answered q job) st = end_submit s q job st
  handle s (consumes q) st = consume_results s q st
  handle s closes st = close st

  unfoldable pub run : Settings → List (Event V) → State V → State V
  run s [] st = st
  run s (e ∷ es) st = run s es (handle s e st)

  -- Whether an event begins or ends the query of the job with this id.
  abbrev pub is_about : Text → Event V → Bool
  is_about id (begins job) = text_eq job.job_id id
  is_about id (ends k c) = text_eq k id
  is_about id (replied c r) = false
  is_about id (submits q job) = false
  is_about id (answered q job) = false
  is_about id (consumes q) = false
  is_about id closes = false

  abbrev pub NoneAbout : Text → List (Event V) → Type 0
  NoneAbout id [] = Unit
  NoneAbout id (e ∷ es) = (is_about id e ≡ false) × NoneAbout id es

  -- What settles the query of the job with this id: the first valid reply to it, unless the client is
  -- closed before.
  abbrev pub first_reply : Text → List (Event V) → Future V
  first_reply id [] = waiting
  first_reply id (begins job ∷ es) = first_reply id es
  first_reply id (ends k c ∷ es) = first_reply id es
  first_reply id (replied c none ∷ es) = first_reply id es
  first_reply id (replied c (some r) ∷ es) =
      let rest = first_reply id es in if text_eq (reply_id c r) id then resolved r else rest
  first_reply id (submits q job ∷ es) = first_reply id es
  first_reply id (answered q job ∷ es) = first_reply id es
  first_reply id (consumes q ∷ es) = first_reply id es
  first_reply id (closes ∷ es) = failed closed

  abbrev pub IsDone : Future V → Type 0
  IsDone f = (g : Future V) → settle g f ≡ f

  -- Changing the future of `k` by settling it, seen at `id`.
  pub set-settle :
      (id k : Text) (g : Future V) (futures : Text → Future V)
      → set k (settle g (futures k)) futures id
        ≡ (if text_eq k id then settle g (futures id) else futures id)
  unfolding set
  set-settle id k g futures = elim (Bool-cases (text_eq k id)) [
    | inl e ↦ let same : k ≡ id = (text_eq_iff k id).0 e in rw (e, same) refl
    | inr e ↦ rw e refl
  ]

  close_all-done :
      (id : Text) (ids : List Text) (futures : Text → Future V)
      → IsDone (futures id)
      → close_all ids futures id ≡ futures id
  unfolding close_all
  close_all-done id [] futures d = refl
  close_all-done id (k ∷ ids) futures d =
      let step : set k (settle (failed closed) (futures k)) futures id ≡ futures id =
        set-settle id k (failed closed) futures ∙ if-same (text_eq k id) _ _ (d (failed closed)) in
      close_all-done id ids (set k (settle (failed closed) (futures k)) futures) (rw step d) ∙ step

  pub close_all-waiting :
      (id : Text) (ids : List Text) (futures : Text → Future V)
      → is_named id ids ≡ true
      → futures id ≡ waiting
      → close_all ids futures id ≡ failed closed
  unfolding close_all is_named settle
  close_all-waiting id [] futures n w = cc
  close_all-waiting id (k ∷ ids) futures n w = elim (Bool-cases (text_eq k id)) [
    | inl e ↦
        let step : set k (settle (failed closed) (futures k)) futures id ≡ failed closed =
          set-settle id k (failed closed) futures ∙ rw (e, w) refl in
        close_all-done id ids (set k (settle (failed closed) (futures k)) futures)
          (rw step (λ g. refl))
        ∙ step
    | inr e ↦
        let step : set k (settle (failed closed) (futures k)) futures id ≡ waiting =
          set-settle id k (failed closed) futures ∙ rw e w in
        close_all-waiting id ids (set k (settle (failed closed) (futures k)) futures)
          (rw (text_eq_sym id k, e) at n) step
  ]

  pub begin_submit-keeps :
      (s : Settings) (q : Option Text) (job : EmbeddingJob) (st : State V)
      → ((begin_submit s q job st).futures ≡ st.futures)
        × ((begin_submit s q job st).pending ≡ st.pending)
  unfolding begin_submit begin_declare publish
  begin_submit-keeps s q job st =
      elim (Bool-cases (is_named (results_queue s q) st.declared_results)) [
        | inl e ↦ rw (e, begin_submit) (refl, refl)
        | inr e ↦ rw (e, begin_submit, begin_declare) (refl, refl)
      ]

  pub end_submit-keeps :
      (s : Settings) (q : Option Text) (job : EmbeddingJob) (st : State V)
      → ((end_submit s q job st).futures ≡ st.futures)
        × ((end_submit s q job st).pending ≡ st.pending)
  unfolding end_submit end_declare publish
  end_submit-keeps s q job st = elim (Bool-cases (is_named (results_queue s q) st.declaring)) [
    | inl e ↦ rw (e, end_submit) (refl, refl)
    | inr e ↦ rw (e, end_submit) (refl, refl)
  ]

  -- What is done stays as it is.
  handle-done :
      (s : Settings) (id : Text) (e : Event V) (st : State V)
      → is_about id e ≡ false
      → IsDone (st.futures id)
      → (handle s e st).futures id ≡ st.futures id
  unfolding begin_query publish end_query on_reply close consume_results set
  handle-done s id (begins job) st n d = rw n refl
  handle-done s id (ends k c) st n d = refl
  handle-done s id (replied c none) st n d = refl
  handle-done s id (replied c (some r)) st n d =
      elim (Bool-cases (is_named (reply_id c r) st.pending)) [
        | inl e ↦ rw e (
            set-settle id (reply_id c r) (resolved r) st.futures
            ∙ if-same (text_eq (reply_id c r) id) _ _ (d (resolved r)))
        | inr e ↦ rw e refl
      ]
  handle-done s id (submits q job) st n d = ap (λ f. f id) (begin_submit-keeps s q job st).0
  handle-done s id (answered q job) st n d = ap (λ f. f id) (end_submit-keeps s q job st).0
  handle-done s id (consumes q) st n d = refl
  handle-done s id closes st n d = close_all-done id st.pending st.futures d

  pub run-done :
      (s : Settings) (id : Text) (es : List (Event V)) (st : State V)
      → NoneAbout id es
      → IsDone (st.futures id)
      → (run s es st).futures id ≡ st.futures id
  unfolding run
  run-done s id [] st a d = refl
  run-done s id (e ∷ es) st a d =
      let kept = handle-done s id e st a.0 d in
      run-done s id es (handle s e st) a.1 (rw kept d) ∙ kept
