-- ===== src/Main.antt =====
-- main.py: the engine that holds the model. `SentenceTransformer` is a parameter, and so is the time
-- that an encode takes.
pub mod Encoding
pub mod Loading
pub mod Pointwise
pub mod Startup
use sementic_search_engine.Prelude.{
  ℕ, ◌≡◌, Bool, true, false, Option, none, some, List, [], ◌∷◌, ◌++◌, map, ltb, if◌then◌else◌,
  is_empty, length, Text, Result, ok, raise, ◌>>=◌,
}
use sementic_search_engine.Config.{Settings}
use sementic_search_engine.Schemas.{InputType, query, passage}
use sementic_search_engine.Handler.{Exception, not_loaded, EncodeResult, Engine}

-- What `SentenceTransformer` does, for models of type `M` and vectors of type `V`.
pub record Transformer (M V : Type 0) : Type 0 where
  -- SentenceTransformer(name, device=device)
  pub new : Text → Option Text → Result Exception M
  pub dimension : M → ℕ
  -- model.encode(texts, batch_size, normalize_embeddings)
  pub embed : M → List Text → ℕ → Bool → Result Exception (List V)
  -- model.tokenizer(texts)["length"]
  pub token_lengths : M → List Text → Result Exception (List ℕ)

-- What the library documents: a vector for each text, and a length for each text.
pub record IsDocumented {M V : Type 0} (t : Transformer M V) : Type 0 where
  pub length-embed :
      (m : M) (texts : List Text) (batch_size : ℕ) (normalize : Bool) (vs : List V)
      → t.embed m texts batch_size normalize ≡ ok vs
      → length vs ≡ length texts
  pub length-token_lengths :
      (m : M) (texts : List Text) (ls : List ℕ)
      → t.token_lengths m texts ≡ ok ls
      → length ls ≡ length texts

-- A model, with the attribute that `load` sets.
pub record Loaded (M : Type 0) : Type 0 where
  pub model : M
  pub max_seq_length : ℕ

-- `_require_model`
unfoldable pub require_model : {M : Type 0} → Option (Loaded M) → Result Exception (Loaded M)
require_model none = raise not_loaded
require_model (some m) = ok m

unfoldable pub is_ready : {M : Type 0} → Option (Loaded M) → Bool
is_ready none = false
is_ready (some m) = true

-- [length > limit for length in lengths]
unfoldable pub over : ℕ → List ℕ → List Bool
over limit ls = map (ltb limit) ls

unfoldable pub prepared : Settings → InputType → List Text → List Text
prepared s passage texts = texts
prepared s query texts =
    if is_empty s.query_instruction then texts else map (λ text. s.query_instruction ++ text) texts

module _ {M V : Type 0} (t : Transformer M V) (s : Settings) where
  open t use {new, dimension, embed, token_lengths}

  -- `load`, run by one thread: `_model` afterwards.
  unfoldable pub load : Option (Loaded M) → Result Exception (Option (Loaded M))
  load (some m) = ok (some m)
  load none = do
    model ← new s.model_name s.device
    ok (some (record { model = model; max_seq_length = s.max_seq_length }))

  unfoldable pub dimensions : Option (Loaded M) → Result Exception ℕ
  unfolding require_model
  dimensions m = do loaded ← require_model m; ok (dimension loaded.model)

  -- `_detect_truncation`
  unfoldable pub detect_truncation : Loaded M → List Text → Result Exception (List Bool)
  unfolding over
  detect_truncation m texts = do ls ← token_lengths m.model texts; ok (over m.max_seq_length ls)

  encode_with : Loaded M → ℕ → List Text → InputType → Bool → Result Exception (EncodeResult V)
  unfolding prepared detect_truncation
  encode_with m took_ms [] input_type normalize =
      ok (record { embeddings = []; truncated = []; took_ms = 0 })
  encode_with m took_ms (text ∷ texts) input_type normalize = do
    vectors ← embed m.model (prepared s input_type (text ∷ texts)) s.encode_batch_size normalize
    truncated ← detect_truncation m (prepared s input_type (text ∷ texts))
    ok (record { embeddings = vectors; truncated = truncated; took_ms = took_ms })

  -- `encode`
  unfoldable pub encode :
      Option (Loaded M) → ℕ → List Text → InputType → Bool → Result Exception (EncodeResult V)
  unfolding require_model encode_with
  encode model took_ms texts input_type normalize = do
    m ← require_model model
    encode_with m took_ms texts input_type normalize

  -- What the worker sees of the engine.
  abbrev pub engine : Option (Loaded M) → ℕ → Engine V
  engine model took_ms = record {
    model_name = s.model_name;
    dimensions = dimensions model;
    encode = encode model took_ms;
  }
