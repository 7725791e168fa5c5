-- ===== src/Examples/Clients.antt =====
-- A client with two queries under way, and the topology.
use sementic_search_engine.Prelude.{
  text_eq_iff, sym, ◌∙◌, ℕ, ◌≡◌, ◌≢◌, refl, true, false, none, some, List, [], ◌∷◌, codes, is_named,
  text_eq, ok, raise,
}
use sementic_search_engine.Config.{defaults}
use sementic_search_engine.Schemas.{Lane}
use sementic_search_engine.Schemas.Reply.{Status, EmbeddingResult, blank_result}
use sementic_search_engine.Worker.Lanes.{lane_specs}
use sementic_search_engine.Topology.{text, direct, index_key, declare_topology}
use sementic_search_engine.Topology.Routing.{
  bound_queues, bound_exchanges, routing_key, copies, is_ordered, exchange_type, Keeps,
  requests-routed, declare_topology-is_ordered, dead_letters-kept,
}
use sementic_search_engine.Client.{init, confirmed, begin_query, end_query}
use sementic_search_engine.Client.Session
use sementic_search_engine.Client.Session.{
  Session, not_connected, begin, submit_job, consume, consumes, later,
}
use sementic_search_engine.Client.Session.Connected.{IsIdle, Reach-unconnected}
use sementic_search_engine.Client.Pending.{
  Event, begins, replied, submits, answered, consumes, closes, run, NoneAbout, first_reply,
}
use sementic_search_engine.Client.Answered.{Tells, embed_query-first_reply, end_query-forgets}
use sementic_search_engine.Client.Declared.{is_answerable, run-is_answerable}
use sementic_search_engine.Examples.{job_a, job_c}

abbrev result_of_a : EmbeddingResult ℕ
result_of_a = blank_result (codes "a") Status.ok

-- The other query begins, its reply and a malformed one come, then the reply to the first.
abbrev events : List (Event ℕ)
events =
    begins job_c
    ∷ replied (some (codes "c")) (some (blank_result (codes "c") Status.ok))
    ∷ replied none none
    ∷ submits none job_c
    ∷ answered none job_c
    ∷ replied (some (codes "a")) (some result_of_a)
    ∷ consumes none
    ∷ closes
    ∷ []

not_about_a : NoneAbout job_a.job_id events
unfolding text_eq
not_about_a = (refl, (refl, (refl, (refl, (refl, (refl, (refl, (refl, tt))))))))

embed_query-first_reply_example :
    Tells job_a.job_id confirmed
      (first_reply job_a.job_id events)
      (end_query job_a.job_id confirmed (run defaults events (begin_query job_a init))).0
embed_query-first_reply_example =
    embed_query-first_reply defaults job_a confirmed events init not_about_a

end_query-forgets_example :
    is_named
      (codes "a")
      (end_query (codes "a") confirmed (begin_query {V = ℕ} job_a init)).1.pending
    ≡ false
end_query-forgets_example = end_query-forgets (codes "a") confirmed (begin_query {V = ℕ} job_a init)

run-is_answerable_example : is_answerable (run defaults events init).sent ≡ true
run-is_answerable_example = run-is_answerable defaults events

dlx_apart : defaults.mq_exchange_dlx ≢ defaults.mq_exchange_requests
dlx_apart h = cc h

requests_apart : defaults.mq_exchange_requests ≢ defaults.mq_exchange_dlx
requests_apart h = cc h

requests-routed_example :
    (exchange_type defaults.mq_exchange_requests (declare_topology defaults).0 ≡ some direct)
    × (bound_queues defaults.mq_exchange_requests
          (routing_key Lane.index)
          (declare_topology defaults).0
        ≡ (lane_specs defaults Lane.index).queue ∷ [])
    × (bound_exchanges defaults.mq_exchange_requests
          (routing_key Lane.index)
          (declare_topology defaults).0
        ≡ copies defaults Lane.index)
requests-routed_example = requests-routed defaults Lane.index dlx_apart

declare_topology-is_ordered_example : is_ordered [] [] (declare_topology defaults).0 ≡ true
declare_topology-is_ordered_example = declare_topology-is_ordered defaults

dead_query_apart : defaults.mq_dead_letter_queue ≢ defaults.query_queue
dead_query_apart h = cc h

dead_index_apart : defaults.mq_dead_letter_queue ≢ defaults.index_queue
dead_index_apart h = cc h

different : text_eq defaults.query_queue defaults.index_queue ≡ false
unfolding text_eq
different = refl

lanes_apart : defaults.query_queue ≢ defaults.index_queue
lanes_apart h = cc (sym different ∙ (text_eq_iff defaults.query_queue defaults.index_queue).1 h)

dead_letters-kept_example :
    Keeps defaults.index_queue (declare_topology defaults).0 (some (text defaults.mq_exchange_dlx))
    × (exchange_type defaults.mq_exchange_dlx (declare_topology defaults).0 ≡ some direct)
    × (bound_queues defaults.mq_exchange_dlx index_key (declare_topology defaults).0
        ≡ defaults.mq_dead_letter_queue ∷ [])
    × Keeps defaults.query_queue (declare_topology defaults).0 none
dead_letters-kept_example =
    dead_letters-kept defaults requests_apart dead_query_apart dead_index_apart lanes_apart

-- A client on which `consume_results` and `close` were called, and `connect` was not.
abbrev unconnected : Session ℕ
unfolding Session.close Session.consume Session.new
unconnected = Session.close (Session.consume defaults none Session.new).1

unconnected-Reach : Session.Reach defaults unconnected
unfolding Session.close Session.consume Session.new
unconnected-Reach =
    later (later Session.start (consumes none Session.new))
      (Session.closes (Session.consume defaults none Session.new).1)

Reach-unconnected_example :
    IsIdle unconnected.client
    × (submit_job defaults none confirmed (ok job_a) unconnected
        ≡ (raise not_connected, unconnected))
    × (consume defaults none unconnected ≡ (raise not_connected, unconnected))
    × ((begin (ok job_c) unconnected).0 ≡ raise not_connected)
    × IsIdle (begin (ok job_c) unconnected).1.client
unfolding unconnected
Reach-unconnected_example =
    Reach-unconnected defaults unconnected-Reach none confirmed (ok job_a) job_c refl
