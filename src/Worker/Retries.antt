-- ===== src/Worker/Retries.antt =====
-- How often a job that always fails is delivered.
use mathlib.Core.Option
use sementic_search_engine.Prelude.{
  ℕ, zero, suc, ◌+◌, ◌≤◌, ◌<◌, ◌⊎◌, ◌≡◌, refl, inl, inr, Bool, Bool-cases, true, false, ◌||◌,
  Option, none, some, List, [], ◌∷◌, leb, arith, raise, if◌then◌else◌,
}
use sementic_search_engine.Schemas.{EmbeddingJob}
use sementic_search_engine.Handler.{Exception}
use sementic_search_engine.Worker.Lanes.{LaneSpec}
use sementic_search_engine.Worker.{
  Message, Action, counts, publishes, acks, nacks, Outside, or_zero, delivery_attempt,
  give_up_or_requeue, finish,
}

-- Whether a message goes back to its queue.
unfoldable pub is_requeued : {V : Type 0} → List (Action V) → Bool
is_requeued [] = false
is_requeued (counts l s ∷ as') = is_requeued as'
is_requeued (publishes t k p m c r ∷ as') = is_requeued as'
is_requeued (acks t ∷ as') = is_requeued as'
is_requeued (nacks t requeue ∷ as') = requeue || is_requeued as'

-- The headers of a message tell how often it was delivered before: one of the two is this number, none
-- is more, and one that is missing counts as zero.
pub record IsCounted (times : ℕ) (m : Message) : Type 0 where
  pub told : (or_zero m.acquired_count ≡ times) ⊎ (or_zero m.delivery_count ≡ times)
  pub no_more : (or_zero m.acquired_count ≤ times) × (or_zero m.delivery_count ≤ times)

delivery_attempt-IsCounted :
    (times : ℕ) (m : Message) → IsCounted times m → delivery_attempt m ≡ times + 1
unfolding delivery_attempt
delivery_attempt-IsCounted times m c = ground (arith, c.told, c.no_more.0, c.no_more.1)

module _ (V : Type 0) (out : Outside) (spec : LaneSpec) (redelivered : Message → Message)
    (job : EmbeddingJob) (exc : Exception) where
  -- How often a message is delivered when each encode of its job raises, at most `fuel` times;
  -- `redelivered` is what the broker makes of a message that goes back to its queue.
  unfoldable pub deliveries : ℕ → Message → Option ℕ
  unfolding is_requeued finish
  deliveries zero m = none
  deliveries (suc fuel) m =
      let rest = deliveries fuel (redelivered m) in
      if is_requeued {V = V} (finish out spec (record { message = m; job = job }) (raise exc))
      then Option.map suc rest
      else some 1

  finish-is_requeued :
      (m : Message)
      → spec.retry_on_failure ≡ true
      → is_requeued {V = V} (finish out spec (record { message = m; job = job }) (raise exc))
        ≡ (if leb out.index_delivery_limit (delivery_attempt m) then false else true)
  unfolding finish give_up_or_requeue is_requeued
  finish-is_requeued m e = elim (Bool-cases (leb out.index_delivery_limit (delivery_attempt m))) [
    | inl h ↦ rw (e, h) refl
    | inr h ↦ rw (e, h) refl
  ]

  -- In a lane that retries, a job whose encodes all raise is delivered until it was delivered as often
  -- as the limit says, and not once more, when one of the headers x-acquired-count and
  -- x-delivery-count of each of its messages tells how often it was delivered before and the other
  -- tells no more.
  pub deliveries_until_limit :
      (times : Message → ℕ) (k fuel : ℕ) (m : Message)
      → spec.retry_on_failure ≡ true
      → ((n : Message) → IsCounted (times n) n)
      → ((n : Message) → times (redelivered n) ≡ times n + 1)
      → times m + 1 + k ≡ out.index_delivery_limit
      → k < fuel
      → deliveries fuel m ≡ some (suc k)
  unfolding deliveries
  deliveries_until_limit times k zero m e counted once at_k lt = absurd (omega (arith, lt))
  deliveries_until_limit times zero (suc fuel) m e counted once at_k lt =
      let number = delivery_attempt-IsCounted (times m) m (counted m) in
      let over : leb out.index_delivery_limit (delivery_attempt m) ≡ true =
        ground (arith, at_k, number) in
      rw (finish-is_requeued m e, over) refl
  deliveries_until_limit times (suc k) (suc fuel) m e counted once at_k lt =
      let number = delivery_attempt-IsCounted (times m) m (counted m) in
      let under : leb out.index_delivery_limit (delivery_attempt m) ≡ false =
        ground (arith, at_k, number) in
      let rest : deliveries fuel (redelivered m) ≡ some (suc k) =
        deliveries_until_limit times k fuel (redelivered m) e counted once
          (omega (arith, once m, at_k)) (omega (arith, lt)) in
      rw (finish-is_requeued m e, under, rest) refl
