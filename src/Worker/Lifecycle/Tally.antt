-- ===== src/Worker/Lifecycle/Tally.antt =====
-- How many batches a worker's tasks are at, by whose they are.
use sementic_search_engine.Prelude.{
  ℕ, ◌+◌, ◌≤◌, ◌≡◌, ◌≢◌, refl, ap, List, [], ◌∷◌, ◌++◌, arith, if◌then◌else◌,
}
use sementic_search_engine.Schemas.{Lane}
use sementic_search_engine.Batcher.Fill.{total, total-append}
use sementic_search_engine.Worker.{Action}
use sementic_search_engine.Worker.Lanes.{same_lane}
use sementic_search_engine.Worker.Lifecycle.{Owner, callback, loop, shutdown, Task, Free}

-- 1 for a batch of this lane's loop
abbrev pub in_loop : Lane → Owner → ℕ
in_loop l callback = 0
in_loop l (loop k) = if same_lane l k then 1 else 0
in_loop l shutdown = 0

-- 1 for a batch of the shutdown
abbrev pub in_shutdown : Owner → ℕ
in_shutdown callback = 0
in_shutdown (loop k) = 0
in_shutdown shutdown = 1

abbrev pub tally : {V : Type 0} → (Owner → ℕ) → List (Task V) → ℕ
tally g ts = total (λ t. g t.0) ts

-- The batches in progress that are this lane's or the shutdown's. A batch of which an ack or a nack has
-- raised belongs to neither any more: its loop or the shutdown has gone on without it.
unfoldable pub in_progress : {V : Type 0} → Lane → List (Task V) → ℕ
in_progress l ts = tally (in_loop l) ts + tally in_shutdown ts

off_loop : (l : Lane) (o : Owner) → o ≢ loop l → in_loop l o ≡ 0
off_loop l callback h = refl
off_loop Lane.query (loop Lane.query) h = absurd (h refl)
off_loop Lane.query (loop Lane.index) h = refl
off_loop Lane.index (loop Lane.query) h = refl
off_loop Lane.index (loop Lane.index) h = absurd (h refl)
off_loop l shutdown h = refl

pub off_shutdown : (o : Owner) → o ≢ shutdown → in_shutdown o ≡ 0
off_shutdown callback h = refl
off_shutdown (loop k) h = refl
off_shutdown shutdown h = absurd (h refl)

module _ {V : Type 0} where
  pub tally-Free :
      (g : Owner → ℕ) (o : Owner) (ts : List (Task V))
      → ((o' : Owner) → o' ≢ o → g o' ≡ 0)
      → Free o ts
      → tally g ts ≡ 0
  tally-Free g o [] off free = refl
  tally-Free g o (t ∷ ts) off free = omega (arith, off t.0 free.0, tally-Free g o ts off free.1)

  -- A task that has taken or skipped actions does not change how many tasks there are.
  pub tally-acts :
      (g : Owner → ℕ) (o : Owner) (a : Action V) (rest left : List (Action V))
      (before after ts : List (Task V))
      → ts ≡ before ++ (o, a ∷ rest) ∷ after
      → tally g (before ++ (o, left) ∷ after) ≡ tally g ts
  tally-acts g o a rest left before after ts e = omega (
    arith,
    ap (tally g) e,
    total-append (λ t. g t.0) before ((o, left) ∷ after),
    total-append (λ t. g t.0) before ((o, a ∷ rest) ∷ after),
  )

  pub loops-Free :
      (l : Lane) (ts : List (Task V))
      → Free (loop Lane.query) ts
      → Free (loop Lane.index) ts
      → tally (in_loop l) ts ≡ 0
  loops-Free Lane.query ts q i = tally-Free (in_loop Lane.query) _ ts (off_loop Lane.query) q
  loops-Free Lane.index ts q i = tally-Free (in_loop Lane.index) _ ts (off_loop Lane.index) i

  pub one-take :
      (k l : Lane) (ts : List (Task V)) (as' : List (Action V))
      → Free (loop l) ts
      → tally in_shutdown ts ≡ 0
      → in_progress k ts ≤ 1
      → in_progress k ((loop l, as') ∷ ts) ≤ 1
  unfolding in_progress
  one-take Lane.query Lane.query ts as' free none_down h =
      omega (arith, none_down, tally-Free (in_loop Lane.query) _ ts (off_loop Lane.query) free)
  one-take Lane.query Lane.index ts as' free none_down h = omega (arith, h)
  one-take Lane.index Lane.query ts as' free none_down h = omega (arith, h)
  one-take Lane.index Lane.index ts as' free none_down h =
      omega (arith, none_down, tally-Free (in_loop Lane.index) _ ts (off_loop Lane.index) free)

  pub tally-orphaned :
      (g : Owner → ℕ) (o : Owner) (a : Action V) (rest : List (Action V))
      (before after ts : List (Task V))
      → g callback ≡ 0
      → ts ≡ before ++ (o, a ∷ rest) ∷ after
      → tally g (before ++ (callback, rest) ∷ after) ≤ tally g ts
  tally-orphaned g o a rest before after ts h e = omega (
    arith,
    h,
    ap (tally g) e,
    total-append (λ t. g t.0) before ((callback, rest) ∷ after),
    total-append (λ t. g t.0) before ((o, a ∷ rest) ∷ after),
  )

  pub tally-ends :
      (g : Owner → ℕ) (o : Owner) (before after ts : List (Task V))
      → ts ≡ before ++ (o, []) ∷ after
      → tally g (before ++ after) ≤ tally g ts
  tally-ends g o before after ts e = omega (
    arith,
    ap (tally g) e,
    total-append (λ t. g t.0) before after,
    total-append (λ t. g t.0) before ((o, []) ∷ after),
  )
