-- ===== src/Schemas/Validated.antt =====
-- What a validated job satisfies, and which inputs are accepted.
use sementic_search_engine.Prelude.{
  ℕ, suc, ◌≤◌, ◌≡◌, refl, inl, inr, ◌↔◌, false, Bool-cases, List, [], ◌∷◌, length, is_empty, All,
  arith, ltb, Text, strip, ok, map, ap, ok-injective, >>=-eq-ok, length-map, ◌∙◌,
}
use sementic_search_engine.Config.{Settings}
use sementic_search_engine.Schemas.Values.{Json, str, arr, Items, to_list}
use sementic_search_engine.Schemas.{check_text, check_texts, check_list, coerce_and_validate}

-- A text that is not blank and not too long.
pub record IsText (s : Settings) (text : Text) : Type 0 where
  pub not_blank : is_empty (strip text) ≡ false
  pub short : length text ≤ s.max_chars_per_text

pub record IsInput (s : Settings) (texts : List Text) : Type 0 where
  pub some_text : 1 ≤ length texts
  pub few : length texts ≤ s.max_batch_items
  pub each : All (IsText s) texts

check_text-eq-ok :
    (s : Settings) (i : ℕ) (v : Json) (text : Text)
    → check_text s i v ≡ ok text
    → (v ≡ str text) × IsText s text
unfolding check_text
check_text-eq-ok s i (str t) text h = ground arith
check_text-eq-ok s i _ text h = cc h

check_text-ok :
    (s : Settings) (i : ℕ) (text : Text) → IsText s text → check_text s i (str text) ≡ ok text
unfolding check_text
check_text-ok s i text t = ground (arith, t.not_blank, t.short)

check_texts-eq-ok :
    (s : Settings) (i : ℕ) (vs : List Json) (texts : List Text)
    → check_texts s i vs ≡ ok texts
    → (vs ≡ map str texts) × All (IsText s) texts
unfolding check_texts
check_texts-eq-ok s i [] texts h = rw (← ok-injective [] texts h) (refl, tt)
check_texts-eq-ok s i (v ∷ vs) texts h =
    let (t, e, r) = >>=-eq-ok (check_text s i v) _ h in
    let (ts, f, q) = >>=-eq-ok (check_texts s (suc i) vs) (λ us. ok (t ∷ us)) r in
    let (e', good) = check_text-eq-ok s i v t e in
    let (f', all) = check_texts-eq-ok s (suc i) vs ts f in
    rw (← ok-injective (t ∷ ts) texts q) (cc (e', f'), (good, all))

check_texts-ok :
    (s : Settings) (i : ℕ) (texts : List Text)
    → All (IsText s) texts
    → check_texts s i (map str texts) ≡ ok texts
unfolding check_texts
check_texts-ok s i [] h = refl
check_texts-ok s i (t ∷ ts) h = rw (check_text-ok s i t h.0, check_texts-ok s (suc i) ts h.1) refl

check_list-eq-ok :
    (s : Settings) (vs : List Json) (texts : List Text)
    → check_list s vs ≡ ok texts
    → (vs ≡ map str texts) × IsInput s texts
unfolding check_list
check_list-eq-ok s [] texts h = cc h
check_list-eq-ok s (v ∷ vs) texts h = elim (Bool-cases (ltb s.max_batch_items (length (v ∷ vs)))) [
  | inl over ↦ cc (rw over at h)
  | inr fits ↦
      let (e, all) = check_texts-eq-ok s 0 (v ∷ vs) texts (rw fits at h) in
      let n : length (v ∷ vs) ≡ length texts = ap length e ∙ length-map str texts in
      (e, record { some_text = omega (arith, n); few = ground (arith, n, fits); each = all })
]

check_list-ok :
    (s : Settings) (texts : List Text) → IsInput s texts → check_list s (map str texts) ≡ ok texts
unfolding check_list
check_list-ok s [] i = absurd (omega (arith, i.some_text))
check_list-ok s (t ∷ ts) i =
    let n : ltb s.max_batch_items (suc (length (map str ts))) ≡ false =
      ground (arith, i.few, length-map str ts) in
    rw n (check_texts-ok s 0 (t ∷ ts) i.each)

-- The two JSON forms of an input.
pub data Denotes (texts : List Text) (v : Json) : Type 0 where
  bare : (t : Text) → v ≡ str t → texts ≡ t ∷ [] → Denotes texts v
  listed : (items : Items) → v ≡ arr items → to_list items ≡ map str texts → Denotes texts v

map-singleton : (t : Text) (texts : List Text) → (str t ∷ []) ≡ map str texts → texts ≡ t ∷ []
map-singleton t [] e = cc
map-singleton t (u ∷ []) e = cc
map-singleton t (u ∷ v ∷ texts) e = cc

coerce_sound :
    (s : Settings) (v : Json) (texts : List Text)
    → coerce_and_validate s v ≡ ok texts
    → Denotes texts v × IsInput s texts
unfolding coerce_and_validate
coerce_sound s (str t) texts h =
    let (e, i) = check_list-eq-ok s (str t ∷ []) texts h in
    (bare t refl (map-singleton t texts e), i)
coerce_sound s (arr items) texts h =
    let (e, i) = check_list-eq-ok s (to_list items) texts h in (listed items refl e, i)
coerce_sound s _ texts h = cc h

coerce_complete :
    (s : Settings) (v : Json) (texts : List Text)
    → Denotes texts v × IsInput s texts
    → coerce_and_validate s v ≡ ok texts
unfolding coerce_and_validate
coerce_complete s v texts (bare t e f, i) =
    rw (e, coerce_and_validate, f) (check_list-ok s (t ∷ []) (rw f at i))
coerce_complete s v texts (listed items e f, i) =
    rw (e, coerce_and_validate, f) (check_list-ok s texts i)

-- The validator of `input` accepts a JSON value, as these texts, exactly when it is a string or a
-- list of strings that denotes them, their number is from 1 to `max_batch_items`, and each has
-- something besides white space and at most `max_chars_per_text` characters.
pub coerce_and_validate_iff :
    (s : Settings) (v : Json) (texts : List Text)
    → (coerce_and_validate s v ≡ ok texts) ↔ (Denotes texts v × IsInput s texts)
coerce_and_validate_iff s v texts = (coerce_sound s v texts, coerce_complete s v texts)
