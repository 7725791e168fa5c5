-- ===== src/Main/Loading/Once.antt =====
-- However many threads run `load`, one loads.
use sementic_search_engine.Prelude.{
  ==-same, ℕ, ◌≤◌, ◌≡◌, ◌≢◌, refl, sym, ap, ◌∙◌, Bool, true, false, Bool-cases, inl, inr, subst,
  Option, none, some, ◌==◌, if◌then◌else◌, ok, >>=-eq-ok, ok-injective, ℕ_discrete, arith,
}
use sementic_search_engine.Config.{Settings}
use sementic_search_engine.Main.{Transformer, Loaded, is_ready, load}
use sementic_search_engine.Main.Loading.{
  Pc, outside, missed, holding, building, placed, returned, raised, State, init, move, Step,
  first_hit, first_miss, acquires, second_hit, second_miss, places, releases, fails, Reach, start,
  next,
}

-- What holds of thread `j`, where `r` tells whether there is a model.
abbrev Thread : Bool → Option ℕ → ℕ → Pc → Type 0
Thread r l j outside = Unit
Thread r l j missed = Unit
Thread r l j holding = l ≡ some j
Thread r l j building = (l ≡ some j) × (r ≡ false)
Thread r l j placed = (l ≡ some j) × (r ≡ true)
Thread r l j returned = r ≡ true
Thread r l j raised = Unit

==-distinct : (i j : ℕ) → i ≢ j → (i == j) ≡ false
==-distinct i j n = ground arith

get_or : ℕ → Option ℕ → ℕ
get_or d none = d
get_or d (some i) = i

some-some : (i j : ℕ) → ◌≡◌ {A = Option ℕ} (some i) (some j) → i ≡ j
unfolding get_or
some-some i j h = ap (get_or 0) h

move-all :
    (Q : ℕ → Pc → Type 0) (i : ℕ) (p : Pc) (pc : ℕ → Pc)
    → Q i p
    → ((j : ℕ) → i ≢ j → Q j (pc j))
    → (j : ℕ) → Q j (move i p pc j)
unfolding move
move-all Q i p pc here others j = elim (ℕ_discrete i j) [
  | yes e ↦ rw (sym e, ==-same i) here
  | no n ↦ rw (==-distinct i j n) (others j n)
]

Thread-locks : (r : Bool) (i j : ℕ) (p : Pc) → Thread r none j p → Thread r (some i) j p
Thread-locks r i j outside h = h
Thread-locks r i j missed h = h
Thread-locks r i j holding h = cc
Thread-locks r i j building (h, n) = cc
Thread-locks r i j placed (h, n) = cc
Thread-locks r i j returned h = h
Thread-locks r i j raised h = h

Thread-unlocks :
    (r r' : Bool) (i j : ℕ) (p : Pc)
    → i ≢ j
    → (r ≡ true → r' ≡ true)
    → Thread r (some i) j p
    → Thread r' none j p
Thread-unlocks r r' i j outside n k h = h
Thread-unlocks r r' i j missed n k h = h
Thread-unlocks r r' i j holding n k h = absurd (n (some-some i j h))
Thread-unlocks r r' i j building n k h = absurd (n (some-some i j h.0))
Thread-unlocks r r' i j placed n k h = absurd (n (some-some i j h.0))
Thread-unlocks r r' i j returned n k h = k h
Thread-unlocks r r' i j raised n k h = h

Thread-places :
    (r : Bool) (i j : ℕ) (p : Pc) → i ≢ j → Thread r (some i) j p → Thread true (some i) j p
Thread-places r i j outside n h = h
Thread-places r i j missed n h = h
Thread-places r i j holding n h = h
Thread-places r i j building n h = absurd (n (some-some i j h.0))
Thread-places r i j placed n h = (h.0, refl)
Thread-places r i j returned n h = refl
Thread-places r i j raised n h = h

expected : Bool → ℕ
expected b = if b then 1 else 0

module _ {M V : Type 0} (t : Transformer M V) (s : Settings) where
  record Inv (st : State M) : Type 0 where
    threads : (j : ℕ) → Thread (is_ready st.model) st.lock j (st.pc j)
    count : st.built ≡ expected (is_ready st.model)

  load-is_ready : (m m' : Option (Loaded M)) → load t s m ≡ ok m' → is_ready m' ≡ true
  unfolding load is_ready
  load-is_ready (some m) m' h = rw (sym (ok-injective (some m) m' h)) refl
  load-is_ready none m' h =
      let (x, ex, hx) =
        >>=-eq-ok (t.new s.model_name s.device)
          (λ x. ok (some (record { model = x; max_seq_length = s.max_seq_length }))) h in
      rw (sym (ok-injective (some (record { model = x; max_seq_length = s.max_seq_length })) m' hx))
        refl

  -- A thread that moves and keeps the lock and the model.
  Inv-moves :
      (i : ℕ) (p : Pc) (st : State M)
      → Inv st
      → Thread (is_ready st.model) st.lock i p
      → Inv (record st { pc = move i p st.pc })
  Inv-moves i p st v h = record {
    threads = move-all (Thread (is_ready st.model) st.lock) i p st.pc h (λ j n. v.threads j);
    count = v.count;
  }

  -- A thread that has the lock and gives it back.
  Inv-unlocks :
      (i : ℕ) (p : Pc) (st : State M) (m : Option (Loaded M)) (built : ℕ)
      → Inv st
      → st.lock ≡ some i
      → Thread (is_ready m) none i p
      → (is_ready st.model ≡ true → is_ready m ≡ true)
      → built ≡ expected (is_ready m)
      → Inv (record { model = m; lock = none; pc = move i p st.pc; built = built })
  Inv-unlocks i p st m built v l h k c = record {
    threads = move-all (Thread (is_ready m) none) i p st.pc h (λ j n.
        Thread-unlocks (is_ready st.model) (is_ready m) i j (st.pc j) n k
          (subst (λ o. Thread (is_ready st.model) o j (st.pc j)) l (v.threads j)));
    count = c;
  }

  Thread-at :
      (i : ℕ) (p : Pc) (st : State M)
      → Inv st
      → st.pc i ≡ p
      → Thread (is_ready st.model) st.lock i p
  Thread-at i p st v e = subst (Thread (is_ready st.model) st.lock i) e (v.threads i)

  Step-Inv : (st st' : State M) → Step t s st st' → Inv st → Inv st'
  unfolding expected
  Step-Inv _ _ (first_hit i st e r) v = Inv-moves i returned st v r
  Step-Inv _ _ (first_miss i st e r) v = Inv-moves i missed st v tt
  Step-Inv _ _ (acquires i st e l) v = record {
    threads = move-all (Thread (is_ready st.model) (some i)) i holding st.pc refl (λ j n.
        Thread-locks (is_ready st.model) i j (st.pc j)
          (subst (λ o. Thread (is_ready st.model) o j (st.pc j)) l (v.threads j)));
    count = v.count;
  }
  Step-Inv _ _ (second_hit i st e r) v =
      Inv-unlocks i returned st st.model st.built v (Thread-at i holding st v e) r (λ h. h) v.count
  Step-Inv _ _ (second_miss i st e r) v = Inv-moves i building st v (Thread-at i holding st v e, r)
  Step-Inv _ _ (places i st m e h) v =
      let (l, r) = Thread-at i building st v e in
      let ready = load-is_ready none m h in
      record {
        threads =
            move-all (Thread (is_ready m) st.lock) i placed st.pc (l, ready)
              (λ j n.
                subst (λ b. Thread b st.lock j (st.pc j)) (sym ready)
                  (subst (λ o. Thread true o j (st.pc j)) (sym l)
                    (Thread-places (is_ready st.model) i j (st.pc j) n
                      (subst (λ o. Thread (is_ready st.model) o j (st.pc j)) l (v.threads j)))));
        count = rw (v.count, r, ready) refl;
      }
  Step-Inv _ _ (releases i st e) v =
      let (l, r) = Thread-at i placed st v e in
      Inv-unlocks i returned st st.model st.built v l r (λ h. h) v.count
  Step-Inv _ _ (fails i st exc e h) v =
      let (l, r) = Thread-at i building st v e in
      Inv-unlocks i raised st st.model st.built v l tt (λ h. h) v.count

  Reach-Inv : (st : State M) → Reach t s st → Inv st
  unfolding init expected is_ready
  Reach-Inv _ start = record { threads = λ j. tt; count = refl }
  Reach-Inv st' (next st _ r step) = Step-Inv st st' step (Reach-Inv st r)

  -- In every state that threads calling `load` can reach, a model was put in place at most once.
  pub Reach-built_once : (st : State M) → Reach t s st → st.built ≤ 1
  unfolding expected
  Reach-built_once st r =
      let count = (Reach-Inv st r).count in
      elim (Bool-cases (is_ready st.model)) [
        | inl e ↦ rw (count, e) (omega arith)
        | inr e ↦ rw (count, e) (omega arith)
      ]

  -- In a reachable state, two threads that load are the same, and there is no model yet.
  pub Reach-one_builder :
      (st : State M) (i j : ℕ)
      → Reach t s st
      → st.pc i ≡ building
      → st.pc j ≡ building
      → (i ≡ j) × (is_ready st.model ≡ false)
  Reach-one_builder st i j r ei ej =
      let v = Reach-Inv st r in
      let (li, none_yet) = Thread-at i building st v ei in
      let (lj, _) = Thread-at j building st v ej in (some-some i j (sym li ∙ lj), none_yet)

  -- In a reachable state, if the `load` of some thread has returned, there is a model.
  pub Reach-returned_ready :
      (st : State M) (i : ℕ) → Reach t s st → st.pc i ≡ returned → is_ready st.model ≡ true
  Reach-returned_ready st i r e = Thread-at i returned st (Reach-Inv st r) e
