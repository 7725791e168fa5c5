-- ===== src/Client/Answered.antt =====
-- What `embed_query` returns, and what it leaves behind.
use sementic_search_engine.Prelude.{
  subst, or_true, ◌≡◌, refl, sym, ap, ◌∙◌, true, false, Bool-cases, ◌||◌, inl, inr, Option, none,
  some, List, [], ◌∷◌, ◌++◌, Text, text_eq, text_eq_refl, text_eq_iff, text_eq_sym, is_named,
  Result, ok, raise,
}
use sementic_search_engine.Config.{Settings}
use sementic_search_engine.Schemas.{EmbeddingJob}
use sementic_search_engine.Schemas.Reply.{Status, EmbeddingResult}
use sementic_search_engine.Client.{
  Future, unroutable, overloaded, timed_out, library_error, returned, nacked, times_out, fails,
  ClientError, job_failed, confirmed, waited, checked, closed, waiting, resolved, failed, enter,
  leave, set, State, Confirm, publish, begin_query, end_query, outcome, settle, reply_id, on_reply,
  close, begin_submit, end_submit, consume_results,
}
use sementic_search_engine.Client.Pending.{
  Event, begins, ends, replied, submits, answered, consumes, closes, run, NoneAbout, first_reply,
  IsDone, run-done, set-settle, close_all-waiting, begin_submit-keeps, end_submit-keeps,
}

is_named-append :
    (id : Text) (ids js : List Text) → is_named id (ids ++ js) ≡ (is_named id ids || is_named id js)
unfolding is_named
is_named-append id [] js = refl
is_named-append id (k ∷ ids) js = elim (Bool-cases (text_eq id k)) [
  | inl e ↦ rw e refl
  | inr e ↦ rw e (is_named-append id ids js)
]

enter_self : (id : Text) (ids : List Text) → is_named id (enter id ids) ≡ true
unfolding enter is_named
enter_self id ids = elim (Bool-cases (is_named id ids)) [
  | inl e ↦ rw e e
  | inr e ↦ rw (e, is_named-append id ids (id ∷ []), text_eq_refl id) (or_true (is_named id ids))
]

enter-keeps :
    (id k : Text) (ids : List Text) → is_named id ids ≡ true → is_named id (enter k ids) ≡ true
unfolding enter
enter-keeps id k ids h = elim (Bool-cases (is_named k ids)) [
  | inl e ↦ rw e h
  | inr e ↦ rw (e, is_named-append id ids (k ∷ []), h) refl
]

leave_self : (id : Text) (ids : List Text) → is_named id (leave id ids) ≡ false
unfolding leave is_named
leave_self id [] = refl
leave_self id (k ∷ ids) = elim (Bool-cases (text_eq id k)) [
  | inl e ↦ rw e (leave_self id ids)
  | inr e ↦ rw (e, is_named, e) (leave_self id ids)
]

leave-keeps :
    (id k : Text) (ids : List Text)
    → text_eq k id ≡ false
    → is_named id ids ≡ true
    → is_named id (leave k ids) ≡ true
unfolding leave is_named
leave-keeps id k [] n h = h
leave-keeps id k (j ∷ ids) n h = elim (Bool-cases (text_eq k j)) [
  | inl e ↦
      let same : k ≡ j = (text_eq_iff k j).0 e in
      let other : text_eq id j ≡ false = rw (sym same, text_eq_sym id k) n in
      rw e (leave-keeps id k ids n (rw other at h))
  | inr e ↦ elim (Bool-cases (text_eq id j)) [
    | inl f ↦ rw (e, is_named, f) refl
    | inr f ↦ rw (e, is_named, f) (leave-keeps id k ids n (rw f at h))
  ]
]

resolved-IsDone : {V : Type 0} (r : EmbeddingResult V) → IsDone (resolved r)
unfolding settle
resolved-IsDone r g = refl

failed-IsDone : {V : Type 0} (e : ClientError V) → IsDone (failed e)
unfolding settle
failed-IsDone e g = refl

module _ {V : Type 0} (s : Settings) (id : Text) where
  on_reply-mine :
      (c : Option Text) (r : EmbeddingResult V) (st : State V)
      → text_eq (reply_id c r) id ≡ true
      → is_named id st.pending ≡ true
      → st.futures id ≡ waiting
      → (on_reply c (some r) st).futures id ≡ resolved r
  unfolding on_reply settle
  on_reply-mine c r st e p w =
      let same : reply_id c r ≡ id = (text_eq_iff (reply_id c r) id).0 e in
      let named : is_named (reply_id c r) st.pending ≡ true = rw same p in
      rw named (set-settle id (reply_id c r) (resolved r) st.futures ∙ rw (e, w) refl)

  on_reply-other :
      (c : Option Text) (r : EmbeddingResult V) (st : State V)
      → text_eq (reply_id c r) id ≡ false
      → ((on_reply c (some r) st).futures id ≡ st.futures id)
        × ((on_reply c (some r) st).pending ≡ st.pending)
  unfolding on_reply set
  on_reply-other c r st e = elim (Bool-cases (is_named (reply_id c r) st.pending)) [
    | inl n ↦ rw n (rw e refl, refl)
    | inr n ↦ rw n (refl, refl)
  ]

  -- While the query of the job with this id waits, its future is the first reply to it.
  run-waiting :
      (es : List (Event V)) (st : State V)
      → NoneAbout id es
      → is_named id st.pending ≡ true
      → st.futures id ≡ waiting
      → (run s es st).futures id ≡ first_reply id es
  unfolding run begin_query publish end_query on_reply close consume_results set
  run-waiting [] st a p w = w
  run-waiting (begins job ∷ es) st a p w =
      run-waiting es _ a.1 (enter-keeps id job.job_id st.pending p) (rw a.0 w)
  run-waiting (ends k c ∷ es) st a p w = run-waiting es _ a.1 (leave-keeps id k st.pending a.0 p) w
  run-waiting (replied c none ∷ es) st a p w = run-waiting es st a.1 p w
  run-waiting (replied c (some r) ∷ es) st a p w = elim (Bool-cases (text_eq (reply_id c r) id)) [
    | inl e ↦
        let now = on_reply-mine c r st e p w in
        rw e (run-done s id es (on_reply c (some r) st) a.1 (rw now (resolved-IsDone r)) ∙ now)
    | inr e ↦
        let kept = on_reply-other c r st e in
        rw e (run-waiting es (on_reply c (some r) st) a.1 (rw kept.1 p) (rw kept.0 w))
  ]
  run-waiting (submits q job ∷ es) st a p w =
      let kept = begin_submit-keeps s q job st in
      run-waiting es (begin_submit s q job st) a.1 (rw kept.1 p) (rw kept.0 w)
  run-waiting (answered q job ∷ es) st a p w =
      let kept = end_submit-keeps s q job st in
      run-waiting es (end_submit s q job st) a.1 (rw kept.1 p) (rw kept.0 w)
  run-waiting (consumes q ∷ es) st a p w = run-waiting es _ a.1 p w
  run-waiting (closes ∷ es) st a p w =
      let now = close_all-waiting id st.pending st.futures p w in
      run-done s id es (close st) a.1 (rw now (failed-IsDone closed)) ∙ now

-- What `embed_query` gives for a job with this id, by the broker's answer to its publish and by what
-- settled its future.
pub data Tells {V : Type 0} (id : Text)
    : Confirm → Future V → Result (ClientError V) (EmbeddingResult V) → Type 0 where
  gives : (r : EmbeddingResult V) → r.status ≡ Status.ok → Tells id confirmed (resolved r) (ok r)
  job_fails :
      (r : EmbeddingResult V)
      → r.status ≡ Status.error
      → Tells id confirmed (resolved r) (raise (job_failed r))
  breaks : (e : ClientError V) → Tells id confirmed (failed e) (raise e)
  out_of_time : Tells id confirmed waiting (raise (timed_out id))
  nowhere : (f : Future V) → Tells id returned f (raise unroutable)
  full : (f : Future V) → Tells id nacked f (raise overloaded)
  unanswered : (f : Future V) → Tells id times_out f (raise (timed_out id))
  lost : (f : Future V) → Tells id fails f (raise library_error)

checked-Tells :
    {V : Type 0} (id : Text) (r : EmbeddingResult V) (status : Status)
    → r.status ≡ status
    → Tells id confirmed (resolved r) (checked r status)
unfolding checked
checked-Tells id r Status.ok e = gives r e
checked-Tells id r Status.error e = job_fails r e

outcome-Tells :
    {V : Type 0} (id : Text) (c : Confirm) (f : Future V) → Tells id c f (outcome id c f)
unfolding outcome waited
outcome-Tells id confirmed (resolved r) = checked-Tells id r r.status refl
outcome-Tells id confirmed (failed e) = breaks e
outcome-Tells id confirmed waiting = out_of_time
outcome-Tells id returned f = nowhere f
outcome-Tells id nacked f = full f
outcome-Tells id times_out f = unanswered f
outcome-Tells id fails f = lost f

pub end_query-outcome :
    {V : Type 0} (s : Settings) (job : EmbeddingJob) (c : Confirm) (es : List (Event V))
    (st : State V)
    → NoneAbout job.job_id es
    → (end_query job.job_id c (run s es (begin_query job st))).0
      ≡ outcome job.job_id c (first_reply job.job_id es)
unfolding begin_query publish end_query set
end_query-outcome s job c es st a = ap (outcome job.job_id c) (
    run-waiting s job.job_id es (begin_query job st) a (enter_self job.job_id st.pending)
      (rw (text_eq_refl job.job_id) refl))

-- Whatever else the client does between the start and the end of a query, as long as no other query
-- with the id of its job begins or ends: when the broker takes the request, `embed_query` returns the
-- first valid reply to its job if it says success, and raises it as a failure of the job if it says an
-- error; it raises that the client was closed, when it was before such a reply, and a timeout when
-- there was neither. When the broker does not take the request it raises that the request was
-- unroutable, that the lane is full, a timeout, or what the library raised.
pub embed_query-first_reply :
    {V : Type 0} (s : Settings) (job : EmbeddingJob) (c : Confirm) (es : List (Event V))
    (st : State V)
    → NoneAbout job.job_id es
    → Tells job.job_id c
        (first_reply job.job_id es)
        (end_query job.job_id c (run s es (begin_query job st))).0
embed_query-first_reply s job c es st a =
    subst (Tells job.job_id c (first_reply job.job_id es)) (sym (end_query-outcome s job c es st a))
      (outcome-Tells job.job_id c (first_reply job.job_id es))

-- Once `embed_query` is over, whatever happened, the client does not keep its job's id.
pub end_query-forgets :
    {V : Type 0} (id : Text) (c : Confirm) (st : State V)
    → is_named id (end_query id c st).1.pending ≡ false
unfolding end_query
end_query-forgets id c st = leave_self id st.pending

abbrev pub replied_with :
    {V : Type 0} → EmbeddingResult V → Status → Result (ClientError V) (EmbeddingResult V)
replied_with r Status.ok = ok r
replied_with r Status.error = raise (job_failed r)

-- A reply that says success is returned, and one that says an error is raised.
pub outcome-resolved :
    {V : Type 0} (id : Text) (r : EmbeddingResult V) (status : Status)
    → r.status ≡ status
    → outcome id confirmed (resolved r) ≡ replied_with r status
unfolding outcome waited checked
outcome-resolved id r Status.ok e = rw e refl
outcome-resolved id r Status.error e = rw e refl

module _ {V : Type 0} (id : Text) where
  pub NoneAbout-append :
      (es fs : List (Event V)) → NoneAbout id es → NoneAbout id fs → NoneAbout id (es ++ fs)
  NoneAbout-append [] fs a b = b
  NoneAbout-append (e ∷ es) fs a b = (a.0, NoneAbout-append es fs a.1 b)

  -- Events that do not settle the query leave it to those after them.
  pub first_reply-append :
      (es fs : List (Event V))
      → first_reply id es ≡ waiting
      → first_reply id (es ++ fs) ≡ first_reply id fs
  first_reply-append [] fs h = refl
  first_reply-append (begins job ∷ es) fs h = first_reply-append es fs h
  first_reply-append (ends k c ∷ es) fs h = first_reply-append es fs h
  first_reply-append (replied c none ∷ es) fs h = first_reply-append es fs h
  first_reply-append (replied c (some r) ∷ es) fs h =
      elim (Bool-cases (text_eq (reply_id c r) id)) [
        | inl e ↦ cc (rw e at h)
        | inr e ↦ rw e (first_reply-append es fs (rw e at h))
      ]
  first_reply-append (submits q job ∷ es) fs h = first_reply-append es fs h
  first_reply-append (answered q job ∷ es) fs h = first_reply-append es fs h
  first_reply-append (consumes q ∷ es) fs h = first_reply-append es fs h
  first_reply-append (closes ∷ es) fs h = cc h
