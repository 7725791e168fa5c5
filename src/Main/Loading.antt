-- ===== src/Main/Loading.antt =====
-- `EmbeddingEngine.load` run by many threads at once: the double-checked lock, one atomic step at a
-- time.
pub mod Once
use sementic_search_engine.Prelude.{
  ==-same, ℕ, ◌+◌, ◌≤◌, ◌≡◌, ◌≢◌, refl, sym, ap, ◌∙◌, Bool, true, false, Bool-cases, inl, inr,
  subst, Option, none, some, ◌==◌, if◌then◌else◌, ok, raise, >>=-eq-ok, ok-injective, ℕ_discrete,
  arith,
}
use sementic_search_engine.Config.{Settings}
use sementic_search_engine.Handler.{Exception}
use sementic_search_engine.Main.{Transformer, Loaded, is_ready, load}

-- Where a thread is in `load`.
pub data Pc : Type 0 where
  -- before the first check
  outside : Pc
  -- the first check found no model
  missed : Pc
  -- it has the lock, and is before the second check
  holding : Pc
  -- it has the lock, and loads
  building : Pc
  -- it has the lock, and has put the model in place
  placed : Pc
  returned : Pc
  raised : Pc

pub record State (M : Type 0) : Type 0 where
  pub model : Option (Loaded M)
  -- the thread that has `_load_lock`
  pub lock : Option ℕ
  pub pc : ℕ → Pc
  -- how often a model was put in place
  pub built : ℕ

unfoldable pub init : {M : Type 0} → State M
init = record { model = none; lock = none; pc = λ i. outside; built = 0 }

-- The threads, once thread `i` is at `p`.
unfoldable pub move : ℕ → Pc → (ℕ → Pc) → ℕ → Pc
move i p pc j = if i == j then p else pc j

module _ {M V : Type 0} (t : Transformer M V) (s : Settings) where
  pub data Step : State M → State M → Type 0 where
    first_hit :
        (i : ℕ) (st : State M)
        → st.pc i ≡ outside
        → is_ready st.model ≡ true
        → Step st (record st { pc = move i returned st.pc })
    first_miss :
        (i : ℕ) (st : State M)
        → st.pc i ≡ outside
        → is_ready st.model ≡ false
        → Step st (record st { pc = move i missed st.pc })
    acquires :
        (i : ℕ) (st : State M)
        → st.pc i ≡ missed
        → st.lock ≡ none
        → Step st (record st { lock = some i; pc = move i holding st.pc })
    second_hit :
        (i : ℕ) (st : State M)
        → st.pc i ≡ holding
        → is_ready st.model ≡ true
        → Step st (record st { lock = none; pc = move i returned st.pc })
    second_miss :
        (i : ℕ) (st : State M)
        → st.pc i ≡ holding
        → is_ready st.model ≡ false
        → Step st (record st { pc = move i building st.pc })
    places :
        (i : ℕ) (st : State M) (m : Option (Loaded M))
        → st.pc i ≡ building
        → load t s none ≡ ok m
        → Step st (record st { model = m; pc = move i placed st.pc; built = st.built + 1 })
    releases :
        (i : ℕ) (st : State M)
        → st.pc i ≡ placed
        → Step st (record st { lock = none; pc = move i returned st.pc })
    fails :
        (i : ℕ) (st : State M) (e : Exception)
        → st.pc i ≡ building
        → load t s none ≡ raise e
        → Step st (record st { lock = none; pc = move i raised st.pc })

  pub data Reach : State M → Type 0 where
    start : Reach init
    next : (st st' : State M) → Reach st → Step st st' → Reach st'
