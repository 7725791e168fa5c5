-- ===== src/Examples/Queries.antt =====
-- A query from a client to a worker and back, and a consumer of results.
use sementic_search_engine.Prelude.{
  ℕ, ◌≡◌, refl, true, false, some, none, List, [], ◌∷◌, codes, arith,
}
use sementic_search_engine.Config.{defaults}
use sementic_search_engine.Schemas.{EmbeddingJob}
use sementic_search_engine.Schemas.Reply.{Status, blank_result}
use sementic_search_engine.Handler.{is_expired}
use sementic_search_engine.Worker.{Outside}
use sementic_search_engine.Worker.Lifecycle.{seen}
use sementic_search_engine.Client.Results.{
  ResultMessage, Reach, start, next, delivers, handles, settles,
}
use sementic_search_engine.Client.Results
use sementic_search_engine.Client.Results.Kept.{IsKept, Reach-IsKept}
use sementic_search_engine.Examples.Lifecycles.{job_read}

-- Every job is written as one byte, and the libraries read the same job from it.
abbrev dump : EmbeddingJob → List ℕ
dump job = 1 ∷ []

abbrev world : Outside
world = seen defaults (codes "w") (λ t. true) (λ t. 0)

is_fresh : is_expired job_read 0 ≡ false
unfolding is_expired
is_fresh = refl

-- A valid result, and a malformed one.
abbrev results : List (ResultMessage ℕ)
results = (0, some (blank_result (codes "j") Status.ok)) ∷ (1, none) ∷ []

abbrev first_result : ResultMessage ℕ
first_result = (0, some (blank_result (codes "j") Status.ok))

abbrev delivered : Results.State ℕ
unfolding Results.init
delivered = record (Results.init results) {
  queue = (1, none) ∷ [];
  unacked = (first_result, none) ∷ [];
}

-- The handler has returned, and its ack is on its way.
abbrev decided : Results.State ℕ
unfolding delivered Results.on_message
decided = record delivered {
  unacked = (first_result, some (Results.on_message (λ r. true) first_result)) ∷ [];
  handled = first_result ∷ [];
}

abbrev settled : Results.State ℕ
unfolding decided Results.on_message
settled = record decided { unacked = []; acked = first_result ∷ [] }

settled-Reach : Reach 1 results settled
unfolding Results.init Results.settle Results.on_message delivered decided settled
settled-Reach =
    next
      (next
        (next start
          (delivers [] ((1, none) ∷ []) first_result (Results.init results) refl (omega arith)))
        (handles (λ r. true) [] [] first_result delivered refl))
      (settles [] [] first_result Results.acked decided refl)

Reach-IsKept_example : IsKept 1 results settled
Reach-IsKept_example = Reach-IsKept 1 results settled settled-Reach
