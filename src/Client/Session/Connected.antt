-- ===== src/Client/Session/Connected.antt =====
-- What a client does that is not connected.
use sementic_search_engine.Prelude.{
  ◌≡◌, refl, sym, ap, subst, ◌∙◌, inl, inr, true, false, Bool-cases, ◌||◌, Option, [],
  if◌then◌else◌, arith, Text, is_named, text_eq_refl, ok, raise,
}
use sementic_search_engine.Config.{Settings}
use sementic_search_engine.Schemas.{EmbeddingJob, Checked}
use sementic_search_engine.Client.{State, enter, leave, results_queue}
use sementic_search_engine.Client
use sementic_search_engine.Client.Calls.{resume}
use sementic_search_engine.Client.Session.{
  Session, new, not_connected, connect, close, begin, begin_job, submitted, submit_job, consume,
  Step, connects, closes, begins, ends, replied, submits, resumes, consumes, Reach, start, later,
}

-- Nothing was sent, no queue is known, no query waits.
pub record IsIdle {V : Type 0} (st : State V) : Type 0 where
  pub sent : st.sent ≡ []
  pub declared : st.declared_results ≡ []
  pub pending : st.pending ≡ []

pub record Inv {V : Type 0} (ses : Session V) : Type 0 where
  pub has_connection : ses.has_channel ≡ false → ses.has_connection ≡ false
  pub idle : ses.has_channel ≡ false → IsIdle ses.client

-- An id that is entered into an empty dictionary and popped again.
leave-enter : (id : Text) → leave id (enter id []) ≡ []
unfolding leave enter is_named
leave-enter id = rw (text_eq_refl id, leave) refl

module _ {V : Type 0} (s : Settings) where
  begin-Inv : (job : Checked EmbeddingJob) (ses : Session V) → Inv ses → Inv (begin job ses).1
  unfolding begin begin_job
  begin-Inv (raise errors) ses i = i
  begin-Inv (ok job) ses i = elim (Bool-cases ses.has_channel) [
    | inl e ↦ rw e (record { has_connection = λ c. cc c; idle = λ c. cc c })
    | inr e ↦ rw e (record {
      has_connection = λ c. i.has_connection e;
      idle = λ c. record {
        sent = (i.idle e).sent;
        declared = (i.idle e).declared;
        pending = rw (i.idle e).pending (leave-enter job.job_id);
      };
    })
  ]

  -- What holds only of a client without a channel.
  has_channel-Inv : (ses : Session V) → ses.has_channel ≡ true → Inv ses
  has_channel-Inv ses e = record { has_connection = λ c. cc (e, c); idle = λ c. cc (e, c) }

  submitted-has_channel :
      (q : Option Text) (c : Client.Confirm) (job : Checked EmbeddingJob) (ses : Session V)
      → (submitted s q c job ses).1.has_channel ≡ ses.has_channel
  unfolding submitted
  submitted-has_channel q c (raise errors) ses = refl
  submitted-has_channel q c (ok job) ses = ground arith

  submit_job-has_channel :
      (q : Option Text) (c : Client.Confirm) (job : Checked EmbeddingJob) (ses : Session V)
      → (submit_job s q c job ses).1.has_channel ≡ ses.has_channel
  unfolding submit_job
  submit_job-has_channel q c job ses =
      elim (Bool-cases
        (ses.has_channel || is_named (results_queue s q) ses.client.declared_results)) [
          | inl e ↦ rw (e, submit_job) (submitted-has_channel q c job ses)
          | inr e ↦ rw (e, submit_job) refl
        ]

  -- Without a channel `submit_index` raises and changes nothing.
  pub submit_job-unconnected :
      (q : Option Text) (c : Client.Confirm) (job : Checked EmbeddingJob) (ses : Session V)
      → Inv ses
      → ses.has_channel ≡ false
      → submit_job s q c job ses ≡ (raise not_connected, ses)
  unfolding submit_job is_named
  submit_job-unconnected q c job ses i e =
      let unknown : (ses.has_channel || is_named (results_queue s q) ses.client.declared_results)
          ≡ false =
        rw (e, (i.idle e).declared) refl in
      ap (λ b. if b then submitted s q c job ses else (raise not_connected, ses)) unknown

  submit_job-Inv :
      (q : Option Text) (c : Client.Confirm) (job : Checked EmbeddingJob) (ses : Session V)
      → Inv ses
      → Inv (submit_job s q c job ses).1
  submit_job-Inv q c job ses i = elim (Bool-cases ses.has_channel) [
    | inl e ↦ has_channel-Inv (submit_job s q c job ses).1 (submit_job-has_channel q c job ses ∙ e)
    | inr e ↦ subst Inv (sym (ap (λ r. r.1) (submit_job-unconnected q c job ses i e))) i
  ]

  consume-Inv : (q : Option Text) (ses : Session V) → Inv ses → Inv (consume s q ses).1
  unfolding consume
  consume-Inv q ses i = elim (Bool-cases ses.has_connection) [
    | inl e ↦ rw e (record {
      has_connection = λ c. cc (e, i.has_connection c);
      idle = λ c. cc (e, i.has_connection c);
    })
    | inr e ↦ rw e (record { has_connection = λ c. refl; idle = i.idle })
  ]

  close-IsIdle : (st : State V) → IsIdle st → IsIdle (Client.close st)
  unfolding Client.close
  close-IsIdle st i = record { sent = i.sent; declared = i.declared; pending = refl }

  Step-Inv : {ses ses' : Session V} → Step s ses ses' → Inv ses → Inv ses'
  unfolding connect close
  Step-Inv (connects ses) i = has_channel-Inv (connect ses) refl
  Step-Inv (closes ses) i = record {
    has_connection = λ c. refl;
    idle = λ c. close-IsIdle ses.client (i.idle c);
  }
  Step-Inv (begins job ses) i = begin-Inv job ses i
  Step-Inv (ends id c ses e) i =
      has_channel-Inv (record ses { client = (Client.end_query id c ses.client).1 }) e
  Step-Inv (replied c r ses e) i =
      has_channel-Inv (record ses { client = Client.on_reply c r ses.client }) e
  Step-Inv (submits q c job ses) i = submit_job-Inv q c job ses i
  Step-Inv (resumes q job ses e) i =
      has_channel-Inv (record ses { client = (resume s q job ses.client).1 }) e
  Step-Inv (consumes q ses) i = consume-Inv q ses i

  Reach-Inv : {ses : Session V} → Reach s ses → Inv ses
  unfolding new Client.init
  Reach-Inv start = record {
    has_connection = λ c. refl;
    idle = λ c. record { sent = refl; declared = refl; pending = refl };
  }
  Reach-Inv (later r step) = Step-Inv step (Reach-Inv r)

  -- A client that was never connected, whatever was called on it, has sent nothing and no query of it
  -- waits; `submit_index` and `consume_results` raise the assertion and change nothing, and a query
  -- whose job is valid raises it and is forgotten.
  pub Reach-unconnected :
      {ses : Session V}
      → Reach s ses
      → (q : Option Text) (c : Client.Confirm) (job : Checked EmbeddingJob) (valid : EmbeddingJob)
      → ses.has_channel ≡ false
      → IsIdle ses.client
        × (submit_job s q c job ses ≡ (raise not_connected, ses))
        × (consume s q ses ≡ (raise not_connected, ses))
        × ((begin (ok valid) ses).0 ≡ raise not_connected)
        × IsIdle (begin (ok valid) ses).1.client
  unfolding begin begin_job consume
  Reach-unconnected {ses} r q c job valid e =
      let i = Reach-Inv r in
      (
        i.idle e,
        submit_job-unconnected q c job ses i e,
        ap
            (λ b.
              if b
              then (
                ok (results_queue s q),
                record ses { client = Client.consume_results s q ses.client },
              )
              else (raise not_connected, ses))
            (i.has_connection e),
        rw e refl,
        (begin-Inv (ok valid) ses i).idle (rw e refl),
      )
