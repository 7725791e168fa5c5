-- ===== src/Worker/Entry/Started.antt =====
-- What `main` of mq/worker.py builds.
use sementic_search_engine.Prelude.{
  ℕ, ◌≤◌, ◌≡◌, ◌↔◌, refl, sym, ap, ◌∙◌, inl, inr, true, false, Bool-cases, Option, List, [], ◌∷◌,
  All, map, length, is_empty, ltb, Text, ok, ◌>>=◌, >>=-eq-ok, ok-injective, map_error,
  map_error-eq-ok, arith,
}
use sementic_search_engine.Config.{Settings}
use sementic_search_engine.Schemas.{Lane}
use sementic_search_engine.Batcher.{Policy, clip}
use sementic_search_engine.Batcher
use sementic_search_engine.Worker.{Delivery}
use sementic_search_engine.Worker.Lanes.{lane_specs, parse_lanes}
use sementic_search_engine.Worker.Lanes.Parsing.{distinct, parse_lanes-distinct, parse_lanes_stable}
use sementic_search_engine.Worker.Lifecycle.{Key, Key-discrete, new_batcher, worker_id_of}
use sementic_search_engine.Worker.Entry.{
  default_worker_id, bad_lanes, Batching, Built, lane_batching, make_lanes, checked_lanes,
  construct, Arguments, lanes_argument, main,
}

-- A batcher with the limits of the lane's settings and nothing in it; a negative window counts as none.
unfoldable pub lane_policy : Settings → Lane → Policy Delivery Key
unfolding clip
lane_policy s l = record {
  max_texts = (lane_specs s l).max_texts;
  window = clip (lane_specs s l).window;
  size_of = λ d. length d.job.input;
  key_of = λ d. (d.job.input_type, d.job.normalize);
  key_discrete = Key-discrete;
}

abbrev pub idle : Settings → Lane → Lane × Batching
idle s l = (l, (lane_policy s l, record { groups = []; changed = false }))

-- A lane whose batches may hold a text.
abbrev pub HasRoom : Settings → Lane → Type 0
HasRoom s l = 1 ≤ (lane_specs s l).max_texts

lt_false : (n : ℕ) → 1 ≤ n → ltb n 1 ≡ false
lt_false n h = ground (arith, h)

lane_batching-ok : (s : Settings) (l : Lane) → HasRoom s l → lane_batching s l ≡ ok (idle s l).1
unfolding lane_batching new_batcher Batcher.init clip lane_policy
lane_batching-ok s l h =
    rw (lane_batching, new_batcher, Batcher.init, lt_false (lane_specs s l).max_texts h) refl

lane_batching-eq-ok :
    (s : Settings) (l : Lane) (b : Batching)
    → lane_batching s l ≡ ok b
    → HasRoom s l × (b ≡ (idle s l).1)
unfolding lane_batching new_batcher Batcher.init
lane_batching-eq-ok s l b h = elim (Bool-cases (ltb (lane_specs s l).max_texts 1)) [
  | inl e ↦ cc (rw (e, lane_batching, new_batcher, Batcher.init) at h)
  | inr e ↦
      let room : HasRoom s l = ground (arith, e) in
      (room, sym (ok-injective (idle s l).1 b (sym (lane_batching-ok s l room) ∙ h)))
]

make_lanes-ok :
    (s : Settings) (lanes : List Lane)
    → All (HasRoom s) lanes
    → make_lanes s lanes ≡ ok (map (idle s) lanes)
unfolding make_lanes
make_lanes-ok s [] h = refl
make_lanes-ok s (l ∷ ls) h = rw (lane_batching-ok s l h.0, make_lanes-ok s ls h.1) refl

make_lanes-eq-ok :
    (s : Settings) (lanes : List Lane) (bs : List (Lane × Batching))
    → make_lanes s lanes ≡ ok bs
    → All (HasRoom s) lanes × (bs ≡ map (idle s) lanes)
unfolding make_lanes
make_lanes-eq-ok s [] bs h = (tt, sym (ok-injective [] bs h))
make_lanes-eq-ok s (l ∷ ls) bs h =
    let (b, e, r) = >>=-eq-ok (lane_batching s l) _ h in
    let (cs, f, q) = >>=-eq-ok (make_lanes s ls) (λ cs. ok ((l, b) ∷ cs)) r in
    let (room, same) = lane_batching-eq-ok s l b e in
    let (rooms, rest) = make_lanes-eq-ok s ls cs f in
    ((room, rooms), sym (ok-injective ((l, b) ∷ cs) bs q) ∙ cc (same, rest))

checked_lanes-eq-ok :
    (value : Text) (lanes : List Lane)
    → checked_lanes value ≡ ok lanes
    → parse_lanes value ≡ ok lanes
unfolding checked_lanes
checked_lanes-eq-ok value lanes h = map_error-eq-ok bad_lanes (parse_lanes value) h

checked_lanes-ok :
    (value : Text) (lanes : List Lane)
    → parse_lanes value ≡ ok lanes
    → checked_lanes value ≡ ok lanes
unfolding checked_lanes
checked_lanes-ok value lanes h = ap (map_error bad_lanes) h

-- The worker that these arguments ask for.
abbrev pub built : Settings → Text → Option Text → List Lane → Built
built s default worker_id lanes = record {
  worker_id = worker_id_of worker_id s default;
  lanes = map (idle s) lanes;
}

construct-eq :
    (s : Settings) (default value : Text) (worker_id : Option Text) (lanes : List Lane)
    → parse_lanes value ≡ ok lanes
    → construct s default worker_id lanes ≡ (
        make_lanes s lanes >>= λ bs.
        ok (record { worker_id = worker_id_of worker_id s default; lanes = bs }))
unfolding construct
construct-eq s default value worker_id lanes h =
    rw (checked_lanes-ok _ lanes (parse_lanes_stable value lanes h)) refl

-- `main` builds a worker exactly when the argument `--lanes`, or else the setting `worker_lanes`, names
-- lanes and the settings of each let a batch hold a text. The worker has these lanes in the order in
-- which they were first named, each once and at least one, each with an empty batcher under the lane's
-- own limits, and the id of the first of the argument, the settings and the host that gives one.
pub main_iff :
    (s : Settings) (hostname pid : Text) (args : Arguments) (w : Built)
    → (main s hostname pid args ≡ ok w) ↔ (
        (lanes : List Lane) × (parse_lanes (lanes_argument s args) ≡ ok lanes)
        × (is_empty lanes ≡ false)
        × (distinct lanes ≡ true)
        × All (HasRoom s) lanes
        × (w ≡ built s (default_worker_id hostname pid) args.worker_id lanes))
unfolding main
main_iff s hostname pid args w =
    let default = default_worker_id hostname pid in
    (
      λ h.
          let (lanes, e, r) = >>=-eq-ok (checked_lanes (lanes_argument s args)) _ h in
          let parsed = checked_lanes-eq-ok (lanes_argument s args) lanes e in
          let (some_lane, once) = parse_lanes-distinct (lanes_argument s args) lanes parsed in
          let (bs, f, q) = >>=-eq-ok (make_lanes s lanes) _ (
            sym (construct-eq s default (lanes_argument s args) args.worker_id lanes parsed) ∙ r) in
          let (rooms, same) = make_lanes-eq-ok s lanes bs f in
          (lanes, parsed, some_lane, once, rooms, sym (ok-injective _ w q) ∙ rw same refl),
      λ (lanes, parsed, some_lane, once, rooms, same).
          rw
            (
              checked_lanes-ok (lanes_argument s args) lanes parsed,
              construct-eq s default (lanes_argument s args) args.worker_id lanes parsed,
              make_lanes-ok s lanes rooms,
              same,
            )
            refl,
    )
