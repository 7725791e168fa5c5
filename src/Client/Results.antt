-- ===== src/Client/Results.antt =====
-- mq/client.py, `consume_results`: the callback that feeds results to a handler, and the queue that it
-- consumes, one atomic step at a time.
pub mod Kept
use sementic_search_engine.Prelude.{
  subst, All-append, All-append_left, All-append_right, ℕ, ◌+◌, ◌≤◌, ◌<◌, ◌≡◌, refl, ap, inl, inr,
  Bool-cases, Bool, Option, none, some, List, [], ◌∷◌, ◌++◌, arith, All, length, length-append,
  if◌then◌else◌,
}
use sementic_search_engine.Schemas.Reply.{EmbeddingResult}
use sementic_search_engine.Batcher.Fill.{total, total-append}

pub data Settlement : Type 0 where
  -- message.ack(), message.nack(requeue=True) and message.reject(requeue=False)
  acked requeued dropped : Settlement

-- A message of the results queue: its number, and the result that pydantic reads from its body, if it
-- is valid.
abbrev pub ResultMessage : Type 0 → Type 0
ResultMessage V = ℕ × Option (EmbeddingResult V)

-- `on_message`, when the handler returns or raises on the result.
unfoldable pub on_message : {V : Type 0} → (EmbeddingResult V → Bool) → ResultMessage V → Settlement
on_message returns (n, none) = dropped
on_message returns (n, some r) = if returns r then acked else requeued

-- A message that was delivered: nothing, while its handler runs, or how `on_message` is to settle it.
abbrev pub Delivered : Type 0 → Type 0
Delivered V = ResultMessage V × Option Settlement

pub record State (V : Type 0) : Type 0 where
  pub queue : List (ResultMessage V)
  -- delivered and not settled
  pub unacked : List (Delivered V)
  pub acked : List (ResultMessage V)
  pub dropped : List (ResultMessage V)
  -- those that a call of the handler returned on, once for each such call
  pub handled : List (ResultMessage V)

unfoldable pub init : {V : Type 0} → List (ResultMessage V) → State V
init queue = record { queue = queue; unacked = []; acked = []; dropped = []; handled = [] }

-- The messages that a call of the handler on this one adds to those it returned on.
abbrev pub returned :
    {V : Type 0} → (EmbeddingResult V → Bool) → ResultMessage V → List (ResultMessage V)
returned returns (n, none) = []
returned returns (n, some r) = if returns r then (n, some r) ∷ [] else []

-- What the queue makes of a message that is settled.
unfoldable pub settle : {V : Type 0} → ResultMessage V → Settlement → State V → State V
settle m Settlement.acked st = record st { acked = m ∷ st.acked }
settle m Settlement.requeued st = record st { queue = st.queue ++ m ∷ [] }
settle m Settlement.dropped st = record st { dropped = m ∷ st.dropped }

-- The messages that were delivered.
abbrev pub messages : {V : Type 0} → List (Delivered V) → List (ResultMessage V)
messages [] = []
messages ((m, x) ∷ ds) = m ∷ messages ds

module _ {V : Type 0} (prefetch : ℕ) where
  pub data Step : State V → State V → Type 0 where
    delivers :
        (before after : List (ResultMessage V)) (m : ResultMessage V) (st : State V)
        → st.queue ≡ before ++ m ∷ after
        → length st.unacked < prefetch
        → Step st (record st { queue = before ++ after; unacked = (m, none) ∷ st.unacked })
    -- the body turns out malformed, or the handler returns or raises
    handles :
        (returns : EmbeddingResult V → Bool) (before after : List (Delivered V))
        (m : ResultMessage V) (st : State V)
        → st.unacked ≡ before ++ (m, none) ∷ after
        → Step st (record st {
          unacked = before ++ (m, some (on_message returns m)) ∷ after;
          handled = returned returns m ++ st.handled;
        })
    -- the broker takes the ack, nack or reject
    settles :
        (before after : List (Delivered V)) (m : ResultMessage V) (x : Settlement) (st : State V)
        → st.unacked ≡ before ++ (m, some x) ∷ after
        → Step st (settle m x (record st { unacked = before ++ after }))
    -- the connection is lost or the subscription's channel closed: what is unacked goes back
    disconnects :
        (st : State V)
        → Step st (record st { queue = messages st.unacked ++ st.queue; unacked = [] })

  pub data Reach (queue : List (ResultMessage V)) : State V → Type 0 where
    start : Reach queue (init queue)
    next : {st st' : State V} → Reach queue st → Step st st' → Reach queue st'
