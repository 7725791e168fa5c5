-- ===== src/Api/Slots.antt =====
-- The slots of the limiter and the counters, while requests are served side by side.
use sementic_search_engine.Prelude.{
  ℕ, ◌+◌, ◌≤◌, ◌<◌, ◌≡◌, refl, true, false, Bool-cases, inl, inr, Option, Result, ok, raise,
  Result-cases, sum, List, [], ◌∷◌, length, arith,
}
use sementic_search_engine.Config.{Settings}
use sementic_search_engine.Main.{Transformer, Loaded, is_ready, encode}
use sementic_search_engine.Handler.{Exception, EncodeResult}
use sementic_search_engine.Api.{
  EmbeddingRequest, State, init, begin_request, release, ended, end_request,
}

module _ {M V : Type 0} (t : Transformer M V) (s : Settings) (model : Option (Loaded M)) where
  -- What the encode of a request gives.
  abbrev pub encoding : EmbeddingRequest → ℕ → Result Exception (EncodeResult V)
  encoding request took_ms =
      encode t s model took_ms request.input request.input_type request.normalize

  -- The times of the encodes that returned, with that of one more if it did.
  abbrev pub with_time : Result Exception (EncodeResult V) → List ℕ → List ℕ
  with_time (ok result) times = result.took_ms ∷ times
  with_time (raise exc) times = times

  -- The states that a server whose limiter has `total` slots can come to, while `running` requests
  -- have begun their encode and not ended it, `ended` have, and `times` are the times of the encodes
  -- that returned. The limiter gives a slot only if one is free.
  pub data Serves (total : ℕ) : ℕ → ℕ → List ℕ → State → Type 0 where
    start : Serves total 0 0 [] init
    turned_away :
        (running ended : ℕ) (times : List ℕ) (st : State)
        → Serves total running ended times st
        → Serves total running ended times (begin_request t s model false st).1
    begun :
        (running ended : ℕ) (times : List ℕ) (st : State)
        → Serves total running ended times st
        → st.borrowed < total
        → is_ready model ≡ true
        → Serves total (running + 1) ended times (begin_request t s model true st).1
    finished :
        (running ended : ℕ) (times : List ℕ) (st : State) (request : EmbeddingRequest) (took_ms : ℕ)
        → Serves total (running + 1) ended times st
        → Serves total running
            (ended + 1)
            (with_time (encoding request took_ms) times)
            (end_request t s model request took_ms st).1

  -- The slots and the counters of the route.
  pub record IsCounted (total running ended : ℕ) (times : List ℕ) (st : State) : Type 0 where
    pub borrowed : st.borrowed ≡ running
    pub within : running ≤ total
    pub tasks : st.tasks_run ≡ running + ended
    pub time : st.total_time ≡ sum times
    pub returned : length times ≤ ended

  end_request-IsCounted :
      (total running ended : ℕ) (times : List ℕ) (request : EmbeddingRequest) (took_ms : ℕ)
      (st : State)
      → IsCounted total (running + 1) ended times st
      → IsCounted total running
          (ended + 1)
          (with_time (encoding request took_ms) times)
          (end_request t s model request took_ms st).1
  unfolding end_request ended release
  end_request-IsCounted total running ended times request took_ms st i =
      elim (Result-cases (encoding request took_ms)) [
        | inl (r, e) ↦ rw e (record {
          borrowed = omega (arith, i.borrowed);
          within = omega (arith, i.within);
          tasks = omega (arith, i.tasks);
          time = omega (arith, i.time);
          returned = omega (arith, i.returned);
        })
        | inr (exc, e) ↦ rw e (record {
          borrowed = omega (arith, i.borrowed);
          within = omega (arith, i.within);
          tasks = omega (arith, i.tasks);
          time = i.time;
          returned = omega (arith, i.returned);
        })
      ]

  begin_request-refused : (st : State) → (begin_request t s model false st).1 ≡ st
  unfolding begin_request
  begin_request-refused st = elim (Bool-cases (is_ready model)) [
    | inl e ↦ rw e refl
    | inr e ↦ rw e refl
  ]

  begin_request-IsCounted :
      (total running ended : ℕ) (times : List ℕ) (st : State)
      → st.borrowed < total
      → is_ready model ≡ true
      → IsCounted total running ended times st
      → IsCounted total (running + 1) ended times (begin_request t s model true st).1
  unfolding begin_request
  begin_request-IsCounted total running ended times st free e i = rw e (record {
    borrowed = omega (arith, i.borrowed);
    within = omega (arith, i.borrowed, free);
    tasks = omega (arith, i.tasks);
    time = i.time;
    returned = i.returned;
  })

  -- Every slot that is taken is held by a request whose encode is running, and there are never more of
  -- these than the limiter has slots: whether encodes return or raise, no slot leaks. The counter of
  -- tasks is the number of encodes that are running or have ended, also those that raised, while the
  -- total time is that of the encodes that returned, which are at most those that have ended.
  pub Serves-IsCounted :
      (total running ended : ℕ) (times : List ℕ) (st : State)
      → Serves total running ended times st
      → IsCounted total running ended times st
  unfolding init
  Serves-IsCounted total _ _ _ _ start = record {
    borrowed = refl;
    within = omega arith;
    tasks = refl;
    time = refl;
    returned = omega arith;
  }
  Serves-IsCounted total running ended times _ (turned_away _ _ _ st r) =
      rw (begin_request-refused st) (Serves-IsCounted total running ended times st r)
  Serves-IsCounted total _ ended times _ (begun running _ _ st r free ready) =
      begin_request-IsCounted total running ended times st free ready
        (Serves-IsCounted total running ended times st r)
  Serves-IsCounted total running _ _ _ (finished _ ended times st request took_ms r) =
      end_request-IsCounted total running ended times request took_ms st
        (Serves-IsCounted total (running + 1) ended times st r)
