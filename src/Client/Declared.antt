-- ===== src/Client/Declared.antt =====
-- Results queues are declared before anything is to be sent to them.
use sementic_search_engine.Prelude.{
  or_true, ◌≡◌, refl, Bool, true, false, Bool-cases, ◌&&◌, ◌||◌, inl, inr, Option, none, some, List,
  [], ◌∷◌, ◌++◌, Text, text_eq, text_eq_refl, text_eq_iff, is_named,
}
use sementic_search_engine.Config.{Settings}
use sementic_search_engine.Schemas.{EmbeddingJob}
use sementic_search_engine.Schemas.Reply.{EmbeddingResult}
use sementic_search_engine.Client.{
  enter, Request, Sent, declares_results, publishes, State, init, direct_reply_to, publish,
  begin_query, end_query, reply_id, on_reply, close, results_queue, begin_declare, end_declare,
  index_request, begin_submit, end_submit, consume_results,
}
use sementic_search_engine.Client.Pending.{
  Event, begins, ends, replied, submits, answered, consumes, closes, handle, run,
}

-- Whether a results queue was declared, by what was sent.
unfoldable pub was_declared : Text → List Sent → Bool
unfolding text_eq
was_declared q [] = false
was_declared q (declares_results n ∷ sent) = text_eq q n || was_declared q sent
was_declared q (publishes r ∷ sent) = was_declared q sent

-- Whether each request, when it was sent, had a place for its reply: the reply queue of the broker's
-- own, or a results queue that was declared before.
unfoldable pub is_answerable : List Sent → Bool
unfolding text_eq was_declared
is_answerable [] = true
is_answerable (declares_results n ∷ sent) = is_answerable sent
is_answerable (publishes r ∷ sent) =
    (text_eq r.reply_to direct_reply_to || was_declared r.reply_to sent) && is_answerable sent

-- Every name was declared.
AllDeclared : List Text → List Sent → Type 0
AllDeclared [] sent = Unit
AllDeclared (n ∷ names) sent = (was_declared n sent ≡ true) × AllDeclared names sent

declared_more :
    (n : Text) (names : List Text) (sent : List Sent)
    → AllDeclared names sent
    → AllDeclared names (declares_results n ∷ sent)
unfolding AllDeclared was_declared
declared_more n [] sent a = a
declared_more n (m ∷ names) sent a =
    (rw (a.0) (or_true (text_eq m n)), declared_more n names sent a.1)

declared_still :
    (r : Request) (names : List Text) (sent : List Sent)
    → AllDeclared names sent
    → AllDeclared names (publishes r ∷ sent)
unfolding AllDeclared was_declared
declared_still r [] sent a = a
declared_still r (m ∷ names) sent a = (a.0, declared_still r names sent a.1)

declared-append :
    (n : Text) (names : List Text) (sent : List Sent)
    → AllDeclared names sent
    → was_declared n sent ≡ true
    → AllDeclared (names ++ n ∷ []) sent
unfolding AllDeclared
declared-append n [] sent a h = (h, tt)
declared-append n (m ∷ names) sent a h = (a.0, declared-append n names sent a.1 h)

declared-named :
    (n : Text) (names : List Text) (sent : List Sent)
    → AllDeclared names sent
    → is_named n names ≡ true
    → was_declared n sent ≡ true
unfolding AllDeclared is_named
declared-named n [] sent a h = cc
declared-named n (m ∷ names) sent a h = elim (Bool-cases (text_eq n m)) [
  | inl e ↦ let same : n ≡ m = (text_eq_iff n m).0 e in rw same a.0
  | inr e ↦ declared-named n names sent a.1 (rw e at h)
]

module _ {V : Type 0} where
  record IsSound (st : State V) : Type 0 where
    names_declared : AllDeclared st.declared_results st.sent
    answerable : is_answerable st.sent ≡ true

  -- The broker has answered a declaration.
  answer-IsSound :
      (name : Text) (st : State V)
      → IsSound st
      → AllDeclared (enter name st.declared_results) (declares_results name ∷ st.sent)
        × (is_answerable (declares_results name ∷ st.sent) ≡ true)
        × (was_declared name (declares_results name ∷ st.sent) ≡ true)
  unfolding enter was_declared is_answerable
  answer-IsSound name st i =
      let more = declared_more name st.declared_results st.sent i.names_declared in
      (
        elim (Bool-cases (is_named name st.declared_results)) [
          | inl e ↦ rw e more
          | inr e ↦ rw e (
              declared-append name st.declared_results (declares_results name ∷ st.sent) more
                (rw (text_eq_refl name) refl))
        ],
        i.answerable,
        rw (text_eq_refl name) refl,
      )

  publish-IsSound :
      (r : Request) (st : State V)
      → IsSound st
      → (text_eq r.reply_to direct_reply_to || was_declared r.reply_to st.sent) ≡ true
      → IsSound (publish r st)
  unfolding publish is_answerable
  publish-IsSound r st i h = record {
    names_declared = declared_still r st.declared_results st.sent i.names_declared;
    answerable = rw (h, i.answerable) refl;
  }

  consume-IsSound :
      (s : Settings) (q : Option Text) (st : State V)
      → IsSound st
      → IsSound (consume_results s q st)
  unfolding consume_results
  consume-IsSound s q st i =
      let (declared, answerable, there) = answer-IsSound (results_queue s q) st i in
      record { names_declared = declared; answerable = answerable }

  begin_submit-IsSound :
      (s : Settings) (q : Option Text) (job : EmbeddingJob) (st : State V)
      → IsSound st
      → IsSound (begin_submit s q job st)
  unfolding begin_submit begin_declare index_request
  begin_submit-IsSound s q job st i =
      elim (Bool-cases (is_named (results_queue s q) st.declared_results)) [
        | inl e ↦
            let there =
              declared-named (results_queue s q) st.declared_results st.sent i.names_declared e in
            rw (e, begin_submit)
              (publish-IsSound (index_request s q job) st i
                (rw there (or_true (text_eq (results_queue s q) direct_reply_to))))
        | inr e ↦
            rw (e, begin_submit, begin_declare)
              (record { names_declared = i.names_declared; answerable = i.answerable })
      ]

  end_submit-IsSound :
      (s : Settings) (q : Option Text) (job : EmbeddingJob) (st : State V)
      → IsSound st
      → IsSound (end_submit s q job st)
  unfolding end_submit end_declare index_request
  end_submit-IsSound s q job st i = elim (Bool-cases (is_named (results_queue s q) st.declaring)) [
    | inl e ↦
        let (declared, answerable, there) = answer-IsSound (results_queue s q) st i in
        rw (e, end_submit)
          (publish-IsSound (index_request s q job) (end_declare (results_queue s q) st)
            (record { names_declared = declared; answerable = answerable })
            (rw there (or_true (text_eq (results_queue s q) direct_reply_to))))
    | inr e ↦ rw (e, end_submit) i
  ]

  on_reply-sent :
      (c : Option Text) (r : Option (EmbeddingResult V)) (st : State V)
      → IsSound st
      → IsSound (on_reply c r st)
  unfolding on_reply
  on_reply-sent c none st i = i
  on_reply-sent c (some r) st i = elim (Bool-cases (is_named (reply_id c r) st.pending)) [
    | inl e ↦ rw e (record { names_declared = i.names_declared; answerable = i.answerable })
    | inr e ↦ rw e i
  ]

  handle-IsSound :
      (s : Settings) (e : Event V) (st : State V) → IsSound st → IsSound (handle s e st)
  unfolding begin_query end_query close
  handle-IsSound s (begins job) st i =
      publish-IsSound _ _ (record { names_declared = i.names_declared; answerable = i.answerable })
        (rw (text_eq_refl direct_reply_to) refl)
  handle-IsSound s (ends id c) st i = record {
    names_declared = i.names_declared;
    answerable = i.answerable;
  }
  handle-IsSound s (replied c r) st i = on_reply-sent c r st i
  handle-IsSound s (submits q job) st i = begin_submit-IsSound s q job st i
  handle-IsSound s (answered q job) st i = end_submit-IsSound s q job st i
  handle-IsSound s (consumes q) st i = consume-IsSound s q st i
  handle-IsSound s closes st i = record {
    names_declared = i.names_declared;
    answerable = i.answerable;
  }

  run-IsSound :
      (s : Settings) (es : List (Event V)) (st : State V) → IsSound st → IsSound (run s es st)
  unfolding run
  run-IsSound s [] st i = i
  run-IsSound s (e ∷ es) st i = run-IsSound s es (handle s e st) (handle-IsSound s e st i)

  -- Whatever a client does, also when calls of submit_index run side by side, each of its requests asks
  -- for the reply on the broker's own direct reply queue, or on a results queue whose declaration the
  -- broker had answered before the request was sent.
  pub run-is_answerable :
      (s : Settings) (es : List (Event V)) → is_answerable (run s es init).sent ≡ true
  unfolding init AllDeclared is_answerable
  run-is_answerable s es =
      (run-IsSound s es init (record { names_declared = tt; answerable = refl })).answerable
