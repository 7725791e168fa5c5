-- ===== src/Worker/Lifecycle/Kept.antt =====
-- Which lanes of a worker may hold items in their batcher, and what keeps it so.
use sementic_search_engine.Prelude.{
  ◌≡◌, refl, sym, ap, ◌∙◌, inl, inr, Bool, true, false, Bool-cases, List, [], ◌∷◌, or_true, ◌≢◌,
}
use sementic_search_engine.Schemas.{Lane}
use sementic_search_engine.Batcher.{Batch, Policy, drain}
use sementic_search_engine.Batcher
use sementic_search_engine.Worker.{Delivery}
use sementic_search_engine.Worker.Lanes.{same_lane, has_lane}
use sementic_search_engine.Worker.Lifecycle.{
  Key, Phase, starting, ready, stopping, flushing, closed, is_draining, Owner, callback, loop,
  shutdown, break_phase, State, update,
}

-- The lane loops are cancelled.
unfoldable pub is_past : Phase → Bool
is_past starting = false
is_past ready = false
is_past stopping = false
is_past flushing = true
is_past closed = true

pub not_past : (phase : Phase) → (phase ≢ flushing) × (phase ≢ closed) → is_past phase ≡ false
unfolding is_past
not_past starting h = refl
not_past ready h = refl
not_past stopping h = refl
not_past flushing h = absurd (h.0 refl)
not_past closed h = absurd (h.1 refl)

pub not_draining : (phase : Phase) → is_draining phase ≡ false → is_past phase ≡ false
unfolding is_past is_draining
not_draining starting h = refl
not_draining ready h = refl
not_draining stopping h = refl
not_draining flushing h = h
not_draining closed h = h

pub past_before :
    (o : Owner) (phase : Phase) → is_past (break_phase o phase) ≡ false → is_past phase ≡ false
unfolding is_past break_phase
past_before callback phase h = h
past_before (loop l) phase h = h
past_before shutdown phase h = cc h

abbrev pub Batchers : Type 0
Batchers = Lane → Batcher.State Delivery Key

-- Which lanes may hold items.
pub record IsKept (lanes : List Lane) (phase : Phase) (to_flush started to_start : List Lane)
    (batchers : Batchers) : Type 0 where
  pub whole : is_past phase ≡ false → to_flush ≡ lanes
  pub started_known : (l : Lane) → has_lane l started ≡ true → has_lane l lanes ≡ true
  pub to_start_known : (l : Lane) → has_lane l to_start ≡ true → has_lane l lanes ≡ true
  pub flushed : (l : Lane) → has_lane l to_flush ≡ false → (batchers l).groups ≡ []

abbrev pub Kept : {V : Type 0} → List Lane → State V → Type 0
Kept lanes st = IsKept lanes st.phase st.to_flush st.started st.to_start st.batchers

pub IsKept-phase :
    (lanes to_flush started to_start : List Lane) (phase phase' : Phase) (batchers : Batchers)
    → (is_past phase' ≡ false → is_past phase ≡ false)
    → IsKept lanes phase to_flush started to_start batchers
    → IsKept lanes phase' to_flush started to_start batchers
IsKept-phase lanes to_flush started to_start phase phase' batchers h a = record {
  whole = λ e. a.whole (h e);
  started_known = a.started_known;
  to_start_known = a.to_start_known;
  flushed = a.flushed;
}

has_lane-here : (l : Lane) (ls : List Lane) → has_lane l (l ∷ ls) ≡ true
unfolding has_lane
has_lane-here Lane.query ls = refl
has_lane-here Lane.index ls = refl

has_lane-there : (k l : Lane) (ls : List Lane) → has_lane k ls ≡ true → has_lane k (l ∷ ls) ≡ true
unfolding has_lane
has_lane-there k l ls h = rw h (or_true (same_lane k l))

pub other_lane :
    (l k : Lane) (ls : List Lane)
    → has_lane l ls ≡ true
    → has_lane k ls ≡ false
    → same_lane l k ≡ false
other_lane Lane.query Lane.query ls h m = cc
other_lane Lane.query Lane.index ls h m = refl
other_lane Lane.index Lane.query ls h m = refl
other_lane Lane.index Lane.index ls h m = cc

same_lane_comm : (l k : Lane) → same_lane l k ≡ same_lane k l
same_lane_comm Lane.query Lane.query = refl
same_lane_comm Lane.query Lane.index = refl
same_lane_comm Lane.index Lane.query = refl
same_lane_comm Lane.index Lane.index = refl

pub IsKept-start :
    (lanes to_flush started ls : List Lane) (l : Lane) (phase : Phase) (batchers : Batchers)
    → IsKept lanes phase to_flush started (l ∷ ls) batchers
    → IsKept lanes phase to_flush (l ∷ started) ls batchers
unfolding has_lane
IsKept-start lanes to_flush started ls l phase batchers a = record {
  whole = a.whole;
  started_known = λ k h. elim (Bool-cases (same_lane k l)) [
    | inl e ↦ a.to_start_known k (rw e refl)
    | inr e ↦ a.started_known k (rw e at h)
  ];
  to_start_known = λ k h. a.to_start_known k (has_lane-there k l ls h);
  flushed = a.flushed;
}

pub IsKept-drain :
    (lanes ls started to_start : List Lane) (l : Lane) (b : Batcher.State Delivery Key)
    (phase : Phase) (batchers : Batchers)
    → is_past phase ≡ true
    → b.groups ≡ []
    → IsKept lanes phase (l ∷ ls) started to_start batchers
    → IsKept lanes phase ls started to_start (update l b batchers)
unfolding has_lane update
IsKept-drain lanes ls started to_start l b phase batchers past empty a = record {
  whole = λ h. cc;
  started_known = a.started_known;
  to_start_known = a.to_start_known;
  flushed = λ k off. elim (Bool-cases (same_lane l k)) [
    | inl e ↦ rw e empty
    | inr e ↦ rw e (a.flushed k (rw (sym (same_lane_comm l k), e) off))
  ];
}

pub IsKept-batchers :
    (lanes to_flush started to_start : List Lane) (phase : Phase) (batchers batchers' : Batchers)
    → ((k : Lane) → has_lane k to_flush ≡ false → batchers' k ≡ batchers k)
    → IsKept lanes phase to_flush started to_start batchers
    → IsKept lanes phase to_flush started to_start batchers'
IsKept-batchers lanes to_flush started to_start phase batchers batchers' h a = record {
  whole = a.whole;
  started_known = a.started_known;
  to_start_known = a.to_start_known;
  flushed = λ k off. ap (λ b. b.groups) (h k off) ∙ a.flushed k off;
}
