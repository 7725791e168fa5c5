-- ===== src/Schemas/Values.antt =====
-- JSON values as `json.loads` builds them, and the size of the text that `json.dumps` makes of one.
use sementic_search_engine.Prelude.{
  ℕ, zero, suc, ◌+◌, ◌/◌, Bool, true, false, ◌&&◌, ◌||◌, not, Option, none, some, List, [], ◌∷◌,
  leb, ltb, ◌==◌, if◌then◌else◌, Text, text_eq, length, is_empty,
}

mutual
  pub data Json : Type 0 where
    null : Json
    bool : Bool → Json
    -- the sign and the size of an `int`
    int : Bool → ℕ → Json
    -- the `repr` of a `float`, and whether it is zero
    float : Text → Bool → Json
    str : Text → Json
    arr : Items → Json
    obj : Fields → Json

  pub data Items : Type 0 where
    nil : Items
    cons : Json → Items → Items

  pub data Fields : Type 0 where
    end : Fields
    field : Text → Json → Fields → Fields

unfoldable pub to_list : Items → List Json
to_list nil = []
to_list (cons v vs) = v ∷ to_list vs

-- raw.get(key)
unfoldable pub get : Text → Fields → Option Json
get key end = none
get key (field k v fs) = let rest = get key fs in if text_eq k key then some v else rest

-- raw[key] = value
unfoldable pub put : Text → Json → Fields → Fields
put key v end = field key v end
put key v (field k w fs) = if text_eq k key then field k v fs else field k w (put key v fs)

abbrev no_items : Items → Bool
no_items nil = true
no_items (cons v vs) = false

abbrev pub no_fields : Fields → Bool
no_fields end = true
no_fields (field k v fs) = false

-- bool(value)
unfoldable pub truthy : Json → Bool
truthy null = false
truthy (bool b) = b
truthy (int sign n) = not (n == 0)
truthy (float repr is_zero) = not is_zero
truthy (str t) = not (is_empty t)
truthy (arr xs) = not (no_items xs)
truthy (obj fs) = not (no_fields fs)

-- The escape of a code point under `ensure_ascii`, without the quotes of the string.
unfoldable pub char_size : ℕ → ℕ
char_size c =
    if c == 34 || c == 92 || (leb 8 c && leb c 10) || c == 12 || c == 13
    then 2
    else if leb 32 c && leb c 126
    then 1
    else if leb c 0xffff
    then 6
    else 12

unfoldable pub text_size : Text → ℕ
text_size [] = 2
text_size (c ∷ s) = char_size c + text_size s

-- The number of decimal digits, on fuel; a number has no more digits than its successor.
unfoldable pub digits : ℕ → ℕ → ℕ
digits zero n = 1
digits (suc fuel) n = let rest = digits fuel (n / 10) in if ltb n 10 then 1 else suc rest

unfoldable pub int_size : Bool → ℕ → ℕ
unfolding digits
int_size negative n = (if negative then 1 else 0) + digits (suc n) n

-- len(json.dumps(value, separators=(",", ":")).encode()): the text is ASCII. A comma stands before
-- each entry but the first.
unfoldable mutual
  unfolding text_size char_size int_size

  pub dumps_size : Json → ℕ
  dumps_size null = 4
  dumps_size (bool b) = if b then 4 else 5
  dumps_size (int negative n) = int_size negative n
  dumps_size (float repr is_zero) = length repr
  dumps_size (str t) = text_size t
  dumps_size (arr xs) = 2 + items_size xs
  dumps_size (obj fs) = 2 + fields_size fs

  pub items_size : Items → ℕ
  items_size nil = 0
  items_size (cons v vs) = dumps_size v + (if no_items vs then 0 else 1) + items_size vs

  pub fields_size : Fields → ℕ
  fields_size end = 0
  fields_size (field k v fs) =
      text_size k + 1 + dumps_size v + (if no_fields fs then 0 else 1) + fields_size fs
