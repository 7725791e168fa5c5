-- ===== src/Client/Results/Kept.antt =====
-- What becomes of the messages of a results queue that `consume_results` of mq/client.py feeds to a
-- handler.
use sementic_search_engine.Prelude.{
  subst, All-append, All-append_left, All-append_right, ℕ, ◌+◌, ◌≤◌, ◌≡◌, refl, ap, inl, inr, Bool,
  Bool-cases, Option, none, some, List, [], ◌∷◌, ◌++◌, arith, All, length, length-append,
}
use sementic_search_engine.Schemas.Reply.{EmbeddingResult}
use sementic_search_engine.Batcher.Fill.{total, total-append}
use sementic_search_engine.Client.Results.{
  Settlement, ResultMessage, on_message, Delivered, State, init, returned, settle, messages, Step,
  delivers, handles, settles, disconnects, Reach, start, next,
}

-- What is taken out of the middle of a list.
total-middle :
    {A : Type 0} (f : A → ℕ) (before after ms : List A) (m : A)
    → ms ≡ before ++ m ∷ after
    → total f ms ≡ f m + total f (before ++ after)
total-middle f before after ms m e =
    omega (arith, ap (total f) e, total-append f before (m ∷ after), total-append f before after)

length-middle :
    {A : Type 0} (before after ms : List A) (m : A)
    → ms ≡ before ++ m ∷ after
    → length ms ≡ length (before ++ after) + 1
length-middle before after ms m e =
    omega (arith, ap length e, length-append before (m ∷ after), length-append before after)

module _ {V : Type 0} (prefetch : ℕ) where
  abbrev pub IsValid : ResultMessage V → Type 0
  IsValid (n, r) = (x : EmbeddingResult V) × (r ≡ some x)

  abbrev pub IsMalformed : ResultMessage V → Type 0
  IsMalformed (n, r) = r ≡ none

  -- What a settlement that is under way says of its message.
  abbrev pub IsMeant : Delivered V → Type 0
  IsMeant (m, none) = Unit
  IsMeant (m, some Settlement.acked) = IsValid m
  IsMeant (m, some Settlement.requeued) = Unit
  IsMeant (m, some Settlement.dropped) = IsMalformed m

  -- The messages on their way to be acked, measured by `f`.
  abbrev pub to_ack : (ResultMessage V → ℕ) → Delivered V → ℕ
  to_ack f (m, none) = 0
  to_ack f (m, some Settlement.acked) = f m
  to_ack f (m, some Settlement.requeued) = 0
  to_ack f (m, some Settlement.dropped) = 0

  abbrev pub of_message : (ResultMessage V → ℕ) → Delivered V → ℕ
  of_message f d = f d.0

  -- Where the messages of the queue are, and why they have left it.
  pub record IsKept (queue : List (ResultMessage V)) (st : State V) : Type 0 where
    pub whole :
        (f : ResultMessage V → ℕ)
        → total f st.queue + total (of_message f) st.unacked + total f st.acked + total f st.dropped
          ≡ total f queue
    pub acked_handled :
        (f : ResultMessage V → ℕ)
        → total f st.acked + total (to_ack f) st.unacked ≤ total f st.handled
    pub meant : All IsMeant st.unacked
    pub acked_valid : All IsValid st.acked
    pub dropped_malformed : All IsMalformed st.dropped
    pub bounded : length st.unacked ≤ prefetch

  total-messages :
      (f : ResultMessage V → ℕ) (ds : List (Delivered V))
      → total f (messages ds) ≡ total (of_message f) ds
  total-messages f [] = refl
  total-messages f ((m, x) ∷ ds) = omega (arith, total-messages f ds)

  -- A handler that has decided on an ack has returned.
  decides :
      (f : ResultMessage V → ℕ) (returns : EmbeddingResult V → Bool) (m : ResultMessage V)
      → to_ack f (m, some (on_message returns m)) ≤ total f (returned returns m)
  unfolding on_message
  decides f returns (n, none) = omega arith
  decides f returns (n, some r) = elim (Bool-cases (returns r)) [
    | inl e ↦ rw e (omega arith)
    | inr e ↦ rw e (omega arith)
  ]

  means :
      (returns : EmbeddingResult V → Bool) (m : ResultMessage V)
      → IsMeant (m, some (on_message returns m))
  unfolding on_message
  means returns (n, none) = refl
  means returns (n, some r) = elim (Bool-cases (returns r)) [
    | inl e ↦ rw e (r, refl)
    | inr e ↦ rw e tt
  ]

  module _ (queue : List (ResultMessage V)) (before after : List (Delivered V))
      (m : ResultMessage V) (st : State V) (a : IsKept queue st) where
    others-IsMeant :
        (x : Option Settlement)
        → st.unacked ≡ before ++ (m, x) ∷ after
        → All IsMeant (before ++ after)
    others-IsMeant x e =
        let all : All IsMeant (before ++ (m, x) ∷ after) = subst (All IsMeant) e a.meant in
        All-append IsMeant before after (All-append_left IsMeant before ((m, x) ∷ after) all)
          (All-append_right IsMeant before ((m, x) ∷ after) all).1

    its_meaning : (x : Option Settlement) → st.unacked ≡ before ++ (m, x) ∷ after → IsMeant (m, x)
    its_meaning x e =
        (All-append_right IsMeant before ((m, x) ∷ after) (subst (All IsMeant) e a.meant)).0

    handle-IsKept :
        (returns : EmbeddingResult V → Bool)
        → st.unacked ≡ before ++ (m, none) ∷ after
        → IsKept queue (record st {
          unacked = before ++ (m, some (on_message returns m)) ∷ after;
          handled = returned returns m ++ st.handled;
        })
    handle-IsKept returns e =
        let x : Option Settlement = some (on_message returns m) in
        let all : All IsMeant (before ++ (m, none) ∷ after) = subst (All IsMeant) e a.meant in
        record {
          whole = λ f. omega (
            arith,
            a.whole f,
            total-middle (of_message f) before after st.unacked (m, none) e,
            total-middle (of_message f) before after (before ++ (m, x) ∷ after) (m, x) refl,
          );
          acked_handled = λ f. omega (
            arith,
            a.acked_handled f,
            decides f returns m,
            total-middle (to_ack f) before after st.unacked (m, none) e,
            total-middle (to_ack f) before after (before ++ (m, x) ∷ after) (m, x) refl,
            total-append f (returned returns m) st.handled,
          );
          meant =
              All-append IsMeant before ((m, x) ∷ after)
                (All-append_left IsMeant before ((m, none) ∷ after) all)
                (means returns m, (All-append_right IsMeant before ((m, none) ∷ after) all).1);
          acked_valid = a.acked_valid;
          dropped_malformed = a.dropped_malformed;
          bounded = omega (
            arith,
            a.bounded,
            length-middle before after st.unacked (m, none) e,
            length-middle before after (before ++ (m, x) ∷ after) (m, x) refl,
          );
        }

    settle-IsKept :
        (x : Settlement)
        → st.unacked ≡ before ++ (m, some x) ∷ after
        → IsKept queue (settle m x (record st { unacked = before ++ after }))
    unfolding settle
    settle-IsKept Settlement.acked e = record {
      whole = λ f. omega (
        arith,
        a.whole f,
        total-middle (of_message f) before after st.unacked (m, some Settlement.acked) e,
      );
      acked_handled = λ f. omega (
        arith,
        a.acked_handled f,
        total-middle (to_ack f) before after st.unacked (m, some Settlement.acked) e,
      );
      meant = others-IsMeant (some Settlement.acked) e;
      acked_valid = (its_meaning (some Settlement.acked) e, a.acked_valid);
      dropped_malformed = a.dropped_malformed;
      bounded =
          omega
            (arith, a.bounded, length-middle before after st.unacked (m, some Settlement.acked) e);
    }
    settle-IsKept Settlement.requeued e = record {
      whole = λ f. omega (
        arith,
        a.whole f,
        total-middle (of_message f) before after st.unacked (m, some Settlement.requeued) e,
        total-append f st.queue (m ∷ []),
      );
      acked_handled = λ f. omega (
        arith,
        a.acked_handled f,
        total-middle (to_ack f) before after st.unacked (m, some Settlement.requeued) e,
      );
      meant = others-IsMeant (some Settlement.requeued) e;
      acked_valid = a.acked_valid;
      dropped_malformed = a.dropped_malformed;
      bounded =
          omega (
            arith,
            a.bounded,
            length-middle before after st.unacked (m, some Settlement.requeued) e,
          );
    }
    settle-IsKept Settlement.dropped e = record {
      whole = λ f. omega (
        arith,
        a.whole f,
        total-middle (of_message f) before after st.unacked (m, some Settlement.dropped) e,
      );
      acked_handled = λ f. omega (
        arith,
        a.acked_handled f,
        total-middle (to_ack f) before after st.unacked (m, some Settlement.dropped) e,
      );
      meant = others-IsMeant (some Settlement.dropped) e;
      acked_valid = a.acked_valid;
      dropped_malformed = (its_meaning (some Settlement.dropped) e, a.dropped_malformed);
      bounded =
          omega (
            arith,
            a.bounded,
            length-middle before after st.unacked (m, some Settlement.dropped) e,
          );
    }

  Step-IsKept :
      (queue : List (ResultMessage V)) {st st' : State V}
      → Step prefetch st st'
      → IsKept queue st
      → IsKept queue st'
  Step-IsKept queue (delivers before after m st e room) a = record {
    whole = λ f. omega (arith, a.whole f, total-middle f before after st.queue m e);
    acked_handled = λ f. omega (arith, a.acked_handled f);
    meant = (tt, a.meant);
    acked_valid = a.acked_valid;
    dropped_malformed = a.dropped_malformed;
    bounded = omega (arith, room);
  }
  Step-IsKept queue (handles returns before after m st e) a =
      handle-IsKept queue before after m st a returns e
  Step-IsKept queue (settles before after m x st e) a = settle-IsKept queue before after m st a x e
  Step-IsKept queue (disconnects st) a = record {
    whole = λ f. omega (
      arith,
      a.whole f,
      total-append f (messages st.unacked) st.queue,
      total-messages f st.unacked,
    );
    acked_handled = λ f. omega (arith, a.acked_handled f);
    meant = tt;
    acked_valid = a.acked_valid;
    dropped_malformed = a.dropped_malformed;
    bounded = omega arith;
  }

  -- However deliveries, handler calls, acks and lost connections interleave, each message of the
  -- results queue is still in it, or is delivered and not settled, or was acked, or was dropped, once;
  -- a message is acked, or on its way to be, at most as often as a call of the handler has returned on
  -- it; the acked ones are valid, and only malformed ones are dropped; and no more are delivered and
  -- not settled than the prefetch limit allows.
  pub Reach-IsKept :
      (queue : List (ResultMessage V)) (st : State V) → Reach prefetch queue st → IsKept queue st
  unfolding init
  Reach-IsKept queue st start = record {
    whole = λ f. omega arith;
    acked_handled = λ f. omega arith;
    meant = tt;
    acked_valid = tt;
    dropped_malformed = tt;
    bounded = omega arith;
  }
  Reach-IsKept queue st (next r step) = Step-IsKept queue step (Reach-IsKept queue _ r)
