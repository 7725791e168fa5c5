-- ===== src/Worker/Encoding/Turns.antt =====
-- Which lane encodes next.
use sementic_search_engine.Prelude.{
  All-imp, ℕ, ◌≡◌, ◌≢◌, refl, sym, subst, ◌∙◌, ◌⊎◌, inl, inr, false, List, [], ◌∷◌, All, arith,
}
use sementic_search_engine.Config.{Settings}
use sementic_search_engine.Schemas.{Lane}
use sementic_search_engine.Slot.{
  Phase, outside, waiting, granted, inside, Waiter, Slot, before, leave,
}
use sementic_search_engine.Slot.Heap.{In, entries}
use sementic_search_engine.Slot.Exclusion.{IsExclusive, Reach-IsExclusive}
use sementic_search_engine.Slot.Service.{Precedes-before, Served, leave_serves_first}
use sementic_search_engine.Worker.Lanes.{lane_specs}
use sementic_search_engine.Worker.Encoding.{State, Reach}
use sementic_search_engine.Worker.Encoding.Apart.{Inv, entries-In, Reach-slot, Reach-Inv}

All-In : (P : Waiter → Type 0) (ws : List Waiter) → All P ws → (w : Waiter) → In w ws → P w
All-In P [] h w i = absurd i
All-In P (x ∷ ws) h w (inl e) = subst P e h.0
All-In P (x ∷ ws) h w (inr i) = All-In P ws h.1 w i

waiting-entry :
    (st : State) (q : ℕ)
    → IsExclusive st.slot
    → st.slot.phase q ≡ waiting
    → (w : Waiter) × In w st.slot.waiters × (w.task ≡ q)
waiting-entry st q (o, i) e =
    let one : entries q st.slot.waiters ≡ 1 = rw e at (i.entry q) in
    entries-In q st.slot.waiters (omega (arith, one))

-- No entry of the query lane comes behind one of the index lane.
first-query :
    (s : Settings) (lane : ℕ → Lane) (v w : Waiter) (l : Lane)
    → lane v.task ≡ Lane.query
    → lane w.task ≡ l
    → v.priority ≡ (lane_specs s (lane v.task)).priority
    → w.priority ≡ (lane_specs s (lane w.task)).priority
    → before v w ≡ false
    → l ≡ Lane.query
unfolding lane_specs
first-query s lane v w Lane.query qv qw pv pw b = refl
first-query s lane v w Lane.index qv qw pv pw b =
    let zero_v : v.priority ≡ 0 = rw qv at pv in
    let one_w : w.priority ≡ 1 = rw qw at pw in absurd (ground (arith, b, zero_v, one_w))

waiting_inside : (x : Phase) → x ≡ waiting → x ≢ outside
waiting_inside x e h = cc (e, h)

not_query : (l : Lane) → l ≢ Lane.query → l ≡ Lane.index
not_query Lane.query n = absurd (n refl)
not_query Lane.index n = refl

-- Of a waiting query batch and the waiter that the slot goes to.
grants_query :
    (s : Settings) (st : State) (u : Slot) (q : ℕ)
    → Inv s st
    → IsExclusive st.slot
    → Served st.slot u
    → st.slot.phase q ≡ waiting
    → st.lane q ≡ Lane.query
    → u.phase q ≡ granted
grants_query s st u q i x served e query =
    let (v, member, own) = waiting-entry st q x e in
    let query_v : st.lane v.task ≡ Lane.query = rw own query in
    let b : before v served.waiter ≡ false =
      All-In (λ k. st.slot.phase k.task ≡ waiting → before k served.waiter ≡ false) st.slot.waiters
        (All-imp _ (λ k p w. Precedes-before served.waiter k (p w)) st.slot.waiters served.first) v
        member (rw own e) in
    let query_w : st.lane served.waiter.task ≡ Lane.query =
      first-query s st.lane v served.waiter (st.lane served.waiter.task) query_v refl
        (i.ranked v member) (i.ranked served.waiter served.member) b in
    let same : served.waiter.task ≡ q =
      i.apart served.waiter.task q (waiting_inside _ served.was_waiting) (waiting_inside _ e)
        (query_w ∙ sym query) in
    rw same at served.has_slot

-- The lane of the waiter that the slot goes to, when only the index lane waits.
grants_index :
    (s : Settings) (st : State) (u : Slot) (k : ℕ)
    → Inv s st
    → Served st.slot u
    → st.slot.phase k ≡ waiting
    → st.lane k ≡ Lane.index
    → ((v : ℕ) → st.slot.phase v ≡ waiting → st.lane v ≢ Lane.query)
    → u.phase k ≡ granted
grants_index s st u k i served e index no_query =
    let same : served.waiter.task ≡ k =
      i.apart served.waiter.task k (waiting_inside _ served.was_waiting) (waiting_inside _ e)
        (not_query _ (no_query served.waiter.task served.was_waiting) ∙ sym index) in
    rw same at served.has_slot

-- When the encode of a batch ends while a batch of the query lane waits, this batch encodes next, so
-- that a query waits for no more than the one encode that is running when it comes; and a batch of the
-- index lane that waits encodes next when no query waits.
pub Reach-next_turn :
    (s : Settings) {st : State}
    → Reach s st
    → (t k : ℕ) → st.slot.phase t ≡ inside
    → st.slot.phase k ≡ waiting
    → (st.lane k ≡ Lane.query) ⊎ ((u : ℕ) → st.slot.phase u ≡ waiting → st.lane u ≢ Lane.query)
    → (leave t st.slot).phase k ≡ granted
Reach-next_turn s {st} r t k e w turn = elim (leave_serves_first (Reach-slot s r) t e) [
  | inl freed ↦ absurd (freed.nobody k w)
  | inr served ↦ elim turn [
    | inl query ↦
        grants_query s st _ k (Reach-Inv s r) (Reach-IsExclusive (Reach-slot s r)) served w query
    | inr no_query ↦
        grants_index s st _ k (Reach-Inv s r) served w (not_query _ (no_query k w)) no_query
  ]
]
