-- ===== src/Batcher.antt =====
-- mq/batcher.py, `MicroBatcher`: jobs wait in one group for each key until a group holds
-- `max_texts` texts or its oldest job has waited for the window. Clock readings and the window are
-- natural numbers of one unit. The dictionary `_groups` is an association list in insertion order.
pub mod Fill
pub mod Invariant
pub mod Pop
pub mod Add
pub mod Scan
pub mod Ready
pub mod Timing
pub mod Waiting
pub mod Drain
pub mod Runs
pub mod Weight
pub mod Items
use sementic_search_engine.Config.{Duration, at_least_zero, below_zero}
use sementic_search_engine.Prelude.{
  ℕ, zero, suc, ◌+◌, ◌-◌, Bool, true, false, ◌||◌, Option, none, some, List, [], ◌∷◌, ◌++◌, ite,
  leb, ltb, if◌then◌else◌, Result, ok, raise, length, is_empty,
}

pub record Batch {ℓ} (T K : Type ℓ) : Type ℓ where
  pub key : K
  pub items : List T
  pub texts : ℕ

pub record Group {ℓ} (T : Type ℓ) : Type ℓ where
  pub first_added : ℕ
  pub items : List T
  pub texts : ℕ

-- What `__init__` fixes: the limits and the two functions of an item.
pub record Policy {ℓ} (T K : Type ℓ) : Type ℓ where
  pub max_texts : ℕ
  pub window : ℕ
  pub size_of : T → ℕ
  pub key_of : T → K
  pub key_discrete : Discrete K

abbrev pub Groups {ℓ} : Type ℓ → Type ℓ → Type ℓ
Groups T K = List (K × Group T)

-- What the methods change. `changed` is the flag of the event that wakes `next_batch`.
pub record State {ℓ} (T K : Type ℓ) : Type ℓ where
  pub groups : Groups T K
  pub changed : Bool

pub data InitError : Type 0 where
  max_texts_too_small : InitError

-- max(window_s, 0.0)
unfoldable pub clip : Duration → ℕ
clip (at_least_zero w) = w
clip (below_zero w) = 0

unfoldable pub init {ℓ} :
    {T K : Type ℓ}
    → ℕ
    → Duration
    → (T → ℕ)
    → (T → K)
    → Discrete K
    → Result InitError (Policy T K × State T K)
unfolding clip
init max_texts window size_of key_of key_discrete =
    if ltb max_texts 1
    then raise max_texts_too_small
    else ok (
      record {
        max_texts = max_texts;
        window = clip window;
        size_of = size_of;
        key_of = key_of;
        key_discrete = key_discrete;
      },
      record { groups = []; changed = false },
    )

-- `__len__` and `pending_texts`
unfoldable pub count {ℓ} : {T K : Type ℓ} → Groups T K → ℕ
count [] = 0
count ((k, g) ∷ gs) = length g.items + count gs

unfoldable pub pending_texts {ℓ} : {T K : Type ℓ} → Groups T K → ℕ
pending_texts [] = 0
pending_texts ((k, g) ∷ gs) = g.texts + pending_texts gs

module _ {ℓ} {T K : Type ℓ} (p : Policy T K) where
  open p use {max_texts, window, size_of, key_of, key_discrete}

  -- self._groups.get(key)
  unfoldable pub find : K → Groups T K → Option (Group T)
  find key [] = none
  find key ((k, g) ∷ gs) = ite (key_discrete k key) (some g) (find key gs)

  -- The dictionary without `key`, for `self._groups.pop(key)`.
  unfoldable pub without : K → Groups T K → Groups T K
  without key [] = []
  without key ((k, g) ∷ gs) = ite (key_discrete k key) gs ((k, g) ∷ without key gs)

  -- A new group goes to the end of the dictionary; an old one is changed in its place.
  unfoldable pub add_to : ℕ → T → Groups T K → Groups T K
  add_to now item [] =
      (key_of item, record { first_added = now; items = item ∷ []; texts = size_of item }) ∷ []
  add_to now item ((k, g) ∷ gs) =
      ite (key_discrete k (key_of item))
        ((k, record g { items = g.items ++ item ∷ []; texts = g.texts + size_of item }) ∷ gs)
        ((k, g) ∷ add_to now item gs)

  -- `now` is what the clock reads.
  unfoldable pub add : ℕ → T → State T K → State T K
  unfolding add_to
  add now item s = record { groups = add_to now item s.groups; changed = true }

  -- The `while` loop of `_pop`: what was taken with its number of texts, and what is left.
  unfoldable pub fill : List T → ℕ → List T → List T × ℕ × List T
  fill taken texts [] = (taken, texts, [])
  fill taken texts (x ∷ xs) =
      if is_empty taken || leb (texts + size_of x) max_texts
      then fill (taken ++ x ∷ []) (texts + size_of x) xs
      else (taken, texts, x ∷ xs)

  -- What `_pop` writes back: nothing, or the leftovers under their key, at the end.
  unfoldable pub put_back : K → Group T → ℕ → List T → State T K → State T K
  put_back key group texts [] s = s
  put_back key group texts (x ∷ xs) s = record {
    groups = s.groups ++ (key, record group { items = x ∷ xs; texts = group.texts - texts }) ∷ [];
    changed = true;
  }

  pop_group : K → Group T → State T K → Batch T K × State T K
  unfolding fill put_back
  pop_group key group s =
      let (taken, texts, left) = fill [] 0 group.items in
      (record { key = key; items = taken; texts = texts }, put_back key group texts left s)

  -- `_pop`; `none` is the KeyError of `self._groups.pop(key)`.
  unfoldable pub pop : K → State T K → Option (Batch T K × State T K)
  unfolding pop_group find without
  pop key s = elim (find key s.groups) [
    | none ↦ none
    | some group ↦ some (pop_group key group (record s { groups = without key s.groups }))
  ]

  -- if due is None or group.first_added < due[0]: due = (group.first_added, key)
  unfoldable pub earlier : Option (ℕ × K) → ℕ → K → Option (ℕ × K)
  earlier none first key = some (first, key)
  earlier (some (t, k)) first key = if ltb first t then some (first, key) else some (t, k)

  -- now - group.first_added >= self._window_s
  unfoldable pub has_waited : ℕ → Group T → Bool
  has_waited now group = leb (group.first_added + window) now

  abbrev key_of_due : Option (ℕ × K) → Option K
  key_of_due none = none
  key_of_due (some (t, k)) = some k

  -- The `for` loop of `take_ready`: the key to pop.
  unfoldable pub scan : ℕ → Option (ℕ × K) → Groups T K → Option K
  unfolding earlier has_waited
  scan now due [] = key_of_due due
  scan now due ((k, g) ∷ gs) =
      if leb max_texts g.texts
      then some k
      else scan now (if has_waited now g then earlier due g.first_added k else due) gs

  -- `none` is the KeyError of `_pop`; otherwise the batch, if one is due.
  unfoldable pub take_ready : ℕ → State T K → Option (Option (Batch T K) × State T K)
  unfolding scan pop
  take_ready now s = elim (scan now none s.groups) [
    | none ↦ some (none, s)
    | some key ↦ elim (pop key s) [ none ↦ none | some (batch, s') ↦ some (some batch, s') ]
  ]

  -- min(group.first_added for group in self._groups.values())
  unfoldable pub oldest : Groups T K → Option ℕ
  oldest [] = none
  oldest ((k, g) ∷ gs) = elim (oldest gs) [
    | none ↦ some g.first_added
    | some t ↦ some (if ltb t g.first_added then t else g.first_added)
  ]

  -- How long `next_batch` sleeps when nothing is due; `none` is for ever, until an item comes.
  unfoldable pub timeout : ℕ → State T K → Option ℕ
  unfolding oldest
  timeout now s = elim (oldest s.groups) [ none ↦ none | some t ↦ some ((t + window) - now) ]

  -- One round of the `while True` of `next_batch`: a batch, or the time to sleep.
  unfoldable pub next_round : ℕ → State T K → Option (Result (Option ℕ) (Batch T K) × State T K)
  unfolding take_ready timeout
  next_round now s = elim (take_ready now (record s { changed = false })) [
    | none ↦ none
    | some (some batch, s') ↦ some (ok batch, s')
    | some (none, s') ↦ some (raise (timeout now s'), s')
  ]

  -- next(iter(self._groups))
  unfoldable pub first_key : Groups T K → Option K
  first_key [] = none
  first_key ((k, g) ∷ gs) = some k

  -- The `while self._groups` of `drain` on fuel. `none` is a KeyError or a lack of fuel.
  unfoldable pub drain_loop : ℕ → State T K → Option (List (Batch T K) × State T K)
  unfolding first_key pop
  drain_loop zero s = none
  drain_loop (suc fuel) s = elim (first_key s.groups) [
    | none ↦ some ([], s)
    | some key ↦ elim (pop key s) [
      | none ↦ none
      | some (batch, s') ↦ elim (drain_loop fuel s') [
        | none ↦ none
        | some (batches, s'') ↦ some (batch ∷ batches, s'')
      ]
    ]
  ]

  -- Each `_pop` takes an item or removes a group, so this many rounds are enough.
  unfoldable pub drain : State T K → Option (List (Batch T K) × State T K)
  unfolding drain_loop count
  drain s = drain_loop (suc (count s.groups + length s.groups)) s
