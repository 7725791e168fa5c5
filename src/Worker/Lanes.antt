-- ===== src/Worker/Lanes.antt =====
-- mq/worker.py: the two lanes, their settings, and the choice of lanes on the command line.
pub mod Parsing
use sementic_search_engine.Prelude.{
  ℕ, ◌+◌, Bool, true, false, ◌&&◌, ◌||◌, Option, none, some, List, [], ◌∷◌, ◌++◌, leb, ◌==◌,
  if◌then◌else◌, is_empty, Text, text_eq, codes, strip, Result, ok, raise, ◌>>=◌,
}
use sementic_search_engine.Config.{Settings, Duration}
use sementic_search_engine.Schemas.{Lane}

pub record LaneSpec : Type 0 where
  pub name : Lane
  pub queue : Text
  pub prefetch : ℕ
  pub max_texts : ℕ
  pub window : Duration
  -- Lower runs first when both lanes share a process.
  pub priority : ℕ
  pub persistent_reply : Bool
  pub mandatory_reply : Bool
  pub retry_on_failure : Bool

unfoldable pub lane_specs : Settings → Lane → LaneSpec
lane_specs s Lane.query = record {
  name = Lane.query;
  queue = s.query_queue;
  prefetch = s.query_prefetch;
  max_texts = s.query_batch_max_texts;
  window = s.query_batch_window_ms;
  priority = 0;
  persistent_reply = false;
  mandatory_reply = false;
  retry_on_failure = false;
}
lane_specs s Lane.index = record {
  name = Lane.index;
  queue = s.index_queue;
  prefetch = s.index_prefetch;
  max_texts = s.index_batch_max_texts;
  window = s.index_batch_window_ms;
  priority = 1;
  persistent_reply = true;
  mandatory_reply = true;
  retry_on_failure = true;
}

pub data LanesError : Type 0 where
  unknown_lane no_lanes : LanesError

-- `str.lower` on ASCII. A letter outside ASCII is kept: no such letter makes the name of a lane.
unfoldable pub lower : Text → Text
lower [] = []
lower (c ∷ s) = (if leb 65 c && leb c 90 then c + 32 else c) ∷ lower s

-- s.split(sep) for a separator of one character: `part` is what was read of the current part.
unfoldable pub split_from : ℕ → Text → Text → List Text
split_from sep part [] = part ∷ []
split_from sep part (c ∷ s) = elim (c == sep) [
  | true ↦ part ∷ split_from sep [] s
  | false ↦ split_from sep (part ++ c ∷ []) s
]

-- sep.join(parts)
unfoldable pub join : ℕ → List Text → Text
join sep [] = []
join sep (p ∷ []) = p
join sep (p ∷ q ∷ ps) = p ++ sep ∷ join sep (q ∷ ps)

abbrev pub lane_name : Lane → Text
lane_name Lane.query = codes "query"
lane_name Lane.index = codes "index"

unfoldable pub lane_of : Text → Option Lane
lane_of name =
    if text_eq name (codes "query")
    then some Lane.query
    else if text_eq name (codes "index")
    then some Lane.index
    else none

abbrev pub same_lane : Lane → Lane → Bool
same_lane Lane.query Lane.query = true
same_lane Lane.index Lane.index = true
same_lane Lane.query Lane.index = false
same_lane Lane.index Lane.query = false

unfoldable pub has_lane : Lane → List Lane → Bool
has_lane l [] = false
has_lane l (m ∷ ms) = same_lane l m || has_lane l ms

abbrev pub add_lane : Lane → List Lane → List Lane
add_lane l lanes = if has_lane l lanes then lanes else lanes ++ l ∷ []

-- The `for` loop of `parse_lanes`, over the parts.
unfoldable pub collect : List Lane → List Text → Result LanesError (List Lane)
unfolding lane_of has_lane lower
collect lanes [] = ok lanes
collect lanes (part ∷ parts) =
    let name : Text = lower (strip part) in
    elim (is_empty name) [
      | true ↦ collect lanes parts
      | false ↦ elim (lane_of name) [
        | none ↦ raise unknown_lane
        | some l ↦ collect (add_lane l lanes) parts
      ]
    ]

unfoldable pub parse_lanes : Text → Result LanesError (List Lane)
unfolding collect split_from
parse_lanes value = do
  lanes ← collect [] (split_from b',' [] value)
  if is_empty lanes then raise no_lanes else ok lanes
