-- ===== src/EndToEnd/Indexed.antt =====
-- mq/client.py, `submit_index`, from its arguments to the reply of a worker of mq/worker.py.
use mathlib.Core.List.{Mem}
use sementic_search_engine.Prelude.{
  ℕ, ◌≡◌, true, false, not, leb, Option, some, List, [], ◌∷◌, map, Text, ok, raise,
}
use sementic_search_engine.Schemas.Reply.{Status, EmbeddingResult}
use sementic_search_engine.Handler.{Exception, Engine, encode_jobs}
use sementic_search_engine.Worker.{
  Message, Delivery, delivery_attempt, Action, publishes, nacks, Outside,
}
use sementic_search_engine.Client
use sementic_search_engine.Client.{Sent}

-- What a batch of the index lane does for a job: it publishes a reply, persistent and mandatory, with
-- the vectors of these texts and the job's id and metadata; or the encode of this job alone raises, and
-- the message is put back, or given up at the limit of its deliveries; or the broker does not take the
-- reply, and the message is put back.
pub data IsIndexed {V : Type 0} (out : Outside) (engine : Engine V) (vector : Text → V)
    (texts : List Text) (d : Delivery) (key : Text) (actions : List (Action V)) : Type 0 where
  indexed :
      (r : EmbeddingResult V)
      → (r.status ≡ Status.ok)
        × (r.job_id ≡ d.job.job_id)
        × (r.metadata ≡ d.job.metadata)
        × (r.embeddings ≡ map vector texts)
      → Mem (publishes d.message.tag key true true d.job.job_id r) actions
      → IsIndexed out engine vector texts d key actions
  put_back :
      (exc : Exception)
      → encode_jobs engine (some out.worker_id) (d.job ∷ []) ≡ raise exc
      → Mem
          (nacks d.message.tag (not (leb out.index_delivery_limit (delivery_attempt d.message))))
          actions
      → IsIndexed out engine vector texts d key actions
  unheard :
      out.confirms d.message.tag ≡ false
      → Mem (nacks d.message.tag true) actions
      → IsIndexed out engine vector texts d key actions

-- The message as it is delivered some time: the broker counts its deliveries.
abbrev pub delivered : Message → Option ℕ → Option ℕ → Message
delivered m acquired again = record m { acquired_count = acquired; delivery_count = again }
