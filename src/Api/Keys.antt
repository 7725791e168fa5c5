-- ===== src/Api/Keys.antt =====
-- Who may call the embedding route.
use sementic_search_engine.Prelude.{
  ◌≡◌, ◌≢◌, refl, sym, ap, ◌↔◌, ◌⊎◌, inl, inr, Bool, true, false, Bool-cases, ◌&&◌, Option, none,
  some, if◌then◌else◌, is_empty, Text, text_eq, text_eq_iff, text_eq_refl,
}
use sementic_search_engine.Api.{
  admitted, unauthorized, is_ascii, compare_digest, access_of, require_api_key,
}

unauthorized≢admitted : unauthorized ≢ admitted
unauthorized≢admitted h = cc

-- The key that was set, when the header is that key and can be compared.
abbrev pub IsKey : Option Text → Option Text → Type 0
IsKey key header =
    (k : Text) × (key ≡ some k) × (header ≡ some k) × (is_empty k ≡ false) × (is_ascii k ≡ true)

both_true :
    (a b c : Bool)
    → access_of (if a && b then some c else none) ≡ admitted
    → (b ≡ true) × (c ≡ true)
unfolding access_of
both_true true true true e = (refl, refl)
both_true true true false e = absurd (unauthorized≢admitted e)
both_true true false c e = cc
both_true false b c e = cc

compared : (k h : Text) → access_of (compare_digest h k) ≡ admitted → (h ≡ k) × (is_ascii k ≡ true)
unfolding compare_digest
compared k h e =
    let (ascii, same) = both_true (is_ascii h) (is_ascii k) (text_eq h k) e in
    ((text_eq_iff h k).0 same, ascii)

admitted-IsKey :
    (key header : Option Text)
    → require_api_key key header ≡ admitted
    → (key ≡ none) ⊎ IsKey key header
unfolding require_api_key
admitted-IsKey none header e = inl refl
admitted-IsKey (some k) none e = cc
admitted-IsKey (some k) (some h) e = elim (Bool-cases (is_empty h)) [
  | inl n ↦ absurd (unauthorized≢admitted (rw n at e))
  | inr n ↦
      let (same, ascii) = compared k h (rw n at e) in
      inr (k, refl, ap some same, rw (sym same) n, ascii)
]

IsKey-admitted :
    (key header : Option Text)
    → (key ≡ none) ⊎ IsKey key header
    → require_api_key key header ≡ admitted
unfolding require_api_key compare_digest access_of
IsKey-admitted key header (inl e) = rw e refl
IsKey-admitted key header (inr (k, e, e', n, a)) = rw (e, e', n, a, text_eq_refl k) refl

-- A request is admitted when no key is set; otherwise, only if its header is the key, and the key is
-- not empty and is ASCII text.
pub require_api_key_iff :
    (key header : Option Text)
    → (require_api_key key header ≡ admitted) ↔ ((key ≡ none) ⊎ IsKey key header)
require_api_key_iff key header = (admitted-IsKey key header, IsKey-admitted key header)
