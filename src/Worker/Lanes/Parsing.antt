-- ===== src/Worker/Lanes/Parsing.antt =====
-- `parse_lanes`, and its use on the lanes that it gave.
use sementic_search_engine.Prelude.{
  ◌≡◌, refl, sym, inl, inr, Bool, Bool-cases, true, false, not, ◌&&◌, ◌||◌, List, [], ◌∷◌, ◌++◌,
  map, is_empty, Text, text_eq, strip, ok, raise, Option-cases, >>=-eq-ok, ok-injective,
  if◌then◌else◌, arith,
}
use sementic_search_engine.Schemas.{Lane}
use sementic_search_engine.Worker.Lanes.{
  no_lanes, lower, split_from, join, lane_name, lane_of, same_lane, has_lane, add_lane, collect,
  parse_lanes,
}

-- Whether no lane comes twice.
unfoldable pub distinct : List Lane → Bool
unfolding has_lane
distinct [] = true
distinct (l ∷ lanes) = not (has_lane l lanes) && distinct lanes

has_lane-append :
    (m l : Lane) (lanes : List Lane)
    → has_lane m (lanes ++ l ∷ []) ≡ (has_lane m lanes || same_lane m l)
unfolding has_lane
has_lane-append m l [] = ground arith
has_lane-append m l (k ∷ lanes) = ground (arith, has_lane-append m l lanes)

same_lane_sym : (l m : Lane) → same_lane l m ≡ same_lane m l
same_lane_sym Lane.query Lane.query = refl
same_lane_sym Lane.query Lane.index = refl
same_lane_sym Lane.index Lane.query = refl
same_lane_sym Lane.index Lane.index = refl

distinct-snoc :
    (l : Lane) (lanes : List Lane)
    → distinct lanes ≡ true
    → has_lane l lanes ≡ false
    → distinct (lanes ++ l ∷ []) ≡ true
unfolding distinct has_lane
distinct-snoc l [] d h = refl
distinct-snoc l (m ∷ lanes) d h =
    ground (arith, has_lane-append m l lanes, same_lane_sym l m, distinct-snoc l lanes)

distinct-add_lane :
    (l : Lane) (lanes : List Lane) → distinct lanes ≡ true → distinct (add_lane l lanes) ≡ true
distinct-add_lane l lanes d = elim (Bool-cases (has_lane l lanes)) [
  | inl e ↦ rw e d
  | inr e ↦ rw e (distinct-snoc l lanes d e)
]

distinct-collect :
    (lanes : List Lane) (parts : List Text) (result : List Lane)
    → distinct lanes ≡ true
    → collect lanes parts ≡ ok result
    → distinct result ≡ true
unfolding collect
distinct-collect lanes [] result d h = rw (sym (ok-injective lanes result h)) d
distinct-collect lanes (part ∷ parts) result d h =
    elim (Bool-cases (is_empty (lower (strip part)))) [
      | inl e ↦ distinct-collect lanes parts result d (rw (e, collect) at h)
      | inr e ↦ elim (Option-cases (lane_of (lower (strip part)))) [
        | inl n ↦ cc (rw (e, n, collect) at h)
        | inr (l, n) ↦
            distinct-collect (add_lane l lanes) parts result (distinct-add_lane l lanes d)
              (rw (e, n, collect) at h)
      ]
    ]

parsed :
    (lanes result : List Lane)
    → distinct lanes ≡ true
    → (if is_empty lanes then raise no_lanes else ok lanes) ≡ ok result
    → (is_empty result ≡ false) × (distinct result ≡ true)
parsed [] result d h = cc h
parsed (l ∷ lanes) result d h = rw (sym (ok-injective (l ∷ lanes) result h)) (refl, d)

-- When `parse_lanes` gives lanes, there is at least one, and none comes twice.
pub parse_lanes-distinct :
    (value : Text) (lanes : List Lane)
    → parse_lanes value ≡ ok lanes
    → (is_empty lanes ≡ false) × (distinct lanes ≡ true)
unfolding parse_lanes distinct
parse_lanes-distinct value lanes h =
    let (found, e, r) =
      >>=-eq-ok (collect [] (split_from b',' [] value))
        (λ found. if is_empty found then raise no_lanes else ok found) h in
    parsed found lanes (distinct-collect [] (split_from b',' [] value) found refl e) r

and_right : (a b : Bool) → (a && b) ≡ true → b ≡ true
and_right true b h = h
and_right false b h = cc h

not_three : (l m k : Lane) (lanes : List Lane) → ¬ (distinct (l ∷ m ∷ k ∷ lanes) ≡ true)
unfolding distinct has_lane
not_three Lane.query Lane.query k lanes d = cc d
not_three Lane.index Lane.index k lanes d = cc d
not_three Lane.query Lane.index Lane.query lanes d = cc d
not_three Lane.index Lane.query Lane.index lanes d = cc d
not_three Lane.query Lane.index Lane.index lanes d = cc (
    and_right (not (has_lane Lane.query (Lane.index ∷ Lane.index ∷ lanes)))
      (distinct (Lane.index ∷ Lane.index ∷ lanes)) d)
not_three Lane.index Lane.query Lane.query lanes d = cc (
    and_right (not (has_lane Lane.index (Lane.query ∷ Lane.query ∷ lanes)))
      (distinct (Lane.query ∷ Lane.query ∷ lanes)) d)

-- Lanes joined by commas parse to themselves, if there are some and none comes twice.
pub parse_lanes-join :
    (lanes : List Lane)
    → is_empty lanes ≡ false
    → distinct lanes ≡ true
    → parse_lanes (join b',' (map lane_name lanes)) ≡ ok lanes
unfolding parse_lanes join distinct has_lane collect split_from lower lane_of text_eq strip
parse_lanes-join [] n d = cc n
parse_lanes-join (Lane.query ∷ []) n d = refl
parse_lanes-join (Lane.index ∷ []) n d = refl
parse_lanes-join (Lane.query ∷ Lane.index ∷ []) n d = refl
parse_lanes-join (Lane.index ∷ Lane.query ∷ []) n d = refl
parse_lanes-join (l ∷ m ∷ k ∷ lanes) n d = absurd (not_three l m k lanes d)
parse_lanes-join (Lane.query ∷ Lane.query ∷ []) n d = cc d
parse_lanes-join (Lane.index ∷ Lane.index ∷ []) n d = cc d

-- When `parse_lanes` gives lanes, joining them by commas and parsing them again, as a worker does, gives
-- the same lanes in the same order.
pub parse_lanes_stable :
    (value : Text) (lanes : List Lane)
    → parse_lanes value ≡ ok lanes
    → parse_lanes (join b',' (map lane_name lanes)) ≡ ok lanes
parse_lanes_stable value lanes h =
    let (n, d) = parse_lanes-distinct value lanes h in parse_lanes-join lanes n d
