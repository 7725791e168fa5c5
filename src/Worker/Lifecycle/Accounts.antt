-- ===== src/Worker/Lifecycle/Accounts.antt =====
-- Where each message of a worker is: settled, in a task, in a batcher, or in a batch that waits for
-- its turn. Tags are measured by an arbitrary function, which counts the occurrences of each.
use native.Mathlib.Nat.{ℕ_set}
use mathlib.Core.List.Perm
use mathlib.Core.List.{Perm, foldr}
use sementic_search_engine.Prelude.{
  ℕ, ◌+◌, ◌≡◌, refl, sym, ap, ◌∙◌, Bool, Option, none, some, Result, ok, raise, List, [], ◌∷◌, ◌++◌,
  arith, Text,
}
use sementic_search_engine.Config.{Settings}
use sementic_search_engine.Schemas.{Lane}
use sementic_search_engine.Batcher.{Batch, Policy, Group, take_ready, drain, add}
use sementic_search_engine.Batcher
use sementic_search_engine.Batcher.Fill.{total, total-append}
use sementic_search_engine.Batcher.Weight.{
  weight, load, weight-add, weight-take_ready, weight-drain,
}
use sementic_search_engine.Handler.{Engine, Uncaught, Libraries}
use sementic_search_engine.Worker.{
  Message, Delivery, Action, counts, publishes, acks, nacks, Outside, on_message,
}
use sementic_search_engine.Worker.Lanes.{lane_specs}
use sementic_search_engine.Worker.Settlement.{
  settled, tags, settled-process-perm, IsHandled, on_message-IsHandled,
}
use sementic_search_engine.Worker.Lifecycle.{
  Key, is_draining, Owner, callback, Task, State, init, update, buffer, added, left, tagged, seen,
  receive, begin_batch,
}
use sementic_search_engine.Worker.Lifecycle.Steps.{
  Step, starts_lane, gets_ready, receives, takes, acts, misses, gives_up, ends, stops,
  cancels_loops, drains, flushes, times_out, finishes, Reach, start, next,
}

total-foldr : (f : ℕ → ℕ) (xs : List ℕ) → total f xs ≡ foldr (λ x n. f x + n) 0 xs
total-foldr f [] = refl
total-foldr f (x ∷ xs) = ap (λ n. f x + n) (total-foldr f xs)

total-Perm : (f : ℕ → ℕ) (xs ys : List ℕ) → Perm xs ys → total f xs ≡ total f ys
total-Perm f xs ys p =
    total-foldr f xs
    ∙ Perm.foldr-eq ℕ_set (λ x n. f x + n) (λ a b n. omega arith) p 0
    ∙ sym (total-foldr f ys)

module _ (f : ℕ → ℕ) where
  abbrev pub tag_of : Delivery → ℕ
  tag_of d = f d.message.tag

  total-tags : (ds : List Delivery) → total f (tags ds) ≡ total tag_of ds
  total-tags [] = refl
  total-tags (d ∷ ds) = omega (arith, total-tags ds)

  -- What the tasks have still to settle.
  abbrev pub due : {V : Type 0} → List (Task V) → ℕ
  due [] = 0
  due ((o, as') ∷ ts) = total f (settled as') + due ts

  abbrev pub buffered : (Lane → Batcher.State Delivery Key) → ℕ
  buffered batchers =
      weight tag_of (batchers Lane.query).groups + weight tag_of (batchers Lane.index).groups

  abbrev pub waiting : List (Lane × Batch Delivery Key) → ℕ
  waiting [] = 0
  waiting ((l, b) ∷ bs) = total tag_of b.items + waiting bs

  -- What the worker has and has not settled.
  abbrev pub held : {V : Type 0} → State V → ℕ
  held st = due st.tasks + buffered st.batchers + waiting st.backlog

  due-append : {V : Type 0} (xs ys : List (Task V)) → due (xs ++ ys) ≡ due xs + due ys
  due-append [] ys = omega arith
  due-append ((o, as') ∷ xs) ys = omega (arith, due-append xs ys)

  waiting-tagged :
      (l : Lane) (bs : List (Batch Delivery Key)) → waiting (tagged l bs) ≡ load tag_of bs
  waiting-tagged l [] = refl
  waiting-tagged l (b ∷ bs) = omega (arith, waiting-tagged l bs)

  buffered-update :
      (l : Lane) (b : Batcher.State Delivery Key) (batchers : Lane → Batcher.State Delivery Key)
      → buffered (update l b batchers) + weight tag_of (batchers l).groups
        ≡ buffered batchers + weight tag_of b.groups
  unfolding update
  buffered-update Lane.query b batchers = omega arith
  buffered-update Lane.index b batchers = omega arith

  settled-cons :
      {V : Type 0} (a : Action V) (rest log : List (Action V))
      → total f (settled (a ∷ log)) + total f (settled rest)
        ≡ total f (settled log) + total f (settled (a ∷ rest))
  settled-cons (counts l k) rest log = refl
  settled-cons (publishes t k p m c r) rest log = refl
  settled-cons (acks t) rest log = omega arith
  settled-cons (nacks t q) rest log = omega arith

  module _ {V : Type 0} (lib : Libraries) (s : Settings) (engine : Engine V) (worker_id : Text)
      (policy : Lane → Policy Delivery Key) where
    handled :
        (at : ℕ) (l : Lane) (m : Message) (out : Outside)
        (batchers : Lane → Batcher.State Delivery Key)
        (h : List (Action V) × Result Uncaught (Option Delivery))
        → IsHandled V out (lane_specs s l) lib m h
        → total f (settled h.0)
            + total f (left m h.1)
            + buffered (buffer policy at l (added h.1) batchers)
          ≡ buffered batchers + f m.tag
    unfolding buffer
    handled at l m out batchers (done, ok none) i = omega (arith, ap (total f) i)
    handled at l m out batchers (done, ok (some d)) i = omega (
      arith,
      ap (total f) i.0,
      ap (λ n. f n.tag) i.1,
      buffered-update l (add (policy l) at d (batchers l)) batchers,
      weight-add (policy l) tag_of at d (batchers l),
    )
    handled at l m out batchers (done, raise exc) i = omega (arith, ap (total f) i.0)

    held-receive :
        (at : ℕ) (l : Lane) (m : Message) (id : Text) (out : Outside) (st : State V)
        → let st' = receive lib s policy out id at l m st in
          held st' + total f st'.abandoned ≡ held st + total f st.abandoned + f m.tag
    unfolding receive
    held-receive at l m id out st =
        let draining : Bool = is_draining st.phase in
        omega (
          arith,
          handled at l m out st.batchers (on_message out (lane_specs s l) lib s id draining m)
              (on_message-IsHandled V out (lane_specs s l) lib s id draining m),
          total-append f (left m (on_message {V = V} out (lane_specs s l) lib s id draining m).1)
              st.abandoned,
        )

    held-begin_batch :
        (out : Outside) (o : Owner) (l : Lane) (b : Batch Delivery Key) (st : State V)
        → held (begin_batch s engine out o l b st) ≡ held st + total tag_of b.items
    unfolding begin_batch
    held-begin_batch out o l b st = omega (
      arith,
      total-Perm f _ _ (settled-process-perm V out (lane_specs s l) engine b.items),
      total-tags b.items,
    )

    abbrev Accounted : State V → Type 0
    Accounted st =
        total f (settled st.log) + total f st.abandoned + held st ≡ total (λ m. f m.tag) st.received

    Step-Accounted :
        {st st' : State V}
        → Step lib s engine worker_id policy st st'
        → Accounted st
        → Accounted st'
    unfolding begin_batch receive
    Step-Accounted (starts_lane l ls st p e) a = a
    Step-Accounted (gets_ready st p e) a = a
    Step-Accounted (receives confirms now id at l m st p started) a =
        omega (arith, a, held-receive at l m id (seen s worker_id confirms now) st)
    Step-Accounted (takes confirms now at l b batcher st p started alive free taken) a = omega (
      arith,
      a,
      held-begin_batch (seen s worker_id confirms now) (Owner.loop l) l b
          (record st { batchers = update l batcher st.batchers }),
      buffered-update l batcher st.batchers,
      weight-take_ready (policy l) tag_of at (st.batchers l) batcher b taken,
    )
    Step-Accounted (acts before after o x rest st p e) a = omega (
      arith,
      a,
      ap due e,
      due-append before ((o, x ∷ rest) ∷ after),
      due-append before ((o, rest) ∷ after),
      settled-cons x rest st.log,
    )
    Step-Accounted (misses before after o x rest st p i e) a = omega (
      arith,
      a,
      ap due e,
      due-append before ((o, x ∷ rest) ∷ after),
      due-append before ((callback, rest) ∷ after),
      settled-cons x rest [],
      total-append f (settled (x ∷ [])) st.abandoned,
    )
    Step-Accounted (gives_up before after o x rest st p i e) a = omega (
      arith,
      a,
      ap due e,
      due-append before ((o, x ∷ rest) ∷ after),
      due-append before ((o, []) ∷ after),
      total-append f (settled (x ∷ rest)) st.abandoned,
    )
    Step-Accounted (ends before after o st p e) a =
        omega (arith, a, ap due e, due-append before ((o, []) ∷ after), due-append before after)
    Step-Accounted (stops st p) a = a
    Step-Accounted (cancels_loops st p) a = a
    Step-Accounted (drains l ls bs batcher st p free none_left e drained) a = omega (
      arith,
      a,
      ap waiting none_left,
      waiting-tagged l bs,
      buffered-update l batcher st.batchers,
      weight-drain (policy l) tag_of (st.batchers l) batcher bs drained,
    )
    Step-Accounted (flushes confirms now l b rest st p free e) a = omega (
      arith,
      a,
      ap waiting e,
      held-begin_batch (seen s worker_id confirms now) Owner.shutdown l b
          (record st { backlog = rest }),
    )
    Step-Accounted (times_out st p) a = a
    Step-Accounted (finishes st p free none_left e) a = a

    -- At each moment of a worker's life, every message that came in is settled, or was left unsettled
    -- by an ack, a nack or a parse that raised, or is in a task that has still to settle it, in a batcher, or in a batch
    -- that waits for its turn in the shutdown, and in one of these places only, once for each time
    -- that it came: for every measure of tags, the measures of the places add up to that of the
    -- messages.
    pub Reach-accounts :
        (lanes : List Lane) (st : State V)
        → Reach lib s engine worker_id policy lanes st
        → total f (settled st.log) + total f st.abandoned + held st
          ≡ total (λ m. f m.tag) st.received
    unfolding init
    Reach-accounts lanes st start = refl
    Reach-accounts lanes st (next r step) = Step-Accounted step (Reach-accounts lanes _ r)
