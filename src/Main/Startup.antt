-- ===== src/Main/Startup.antt =====
-- main.py: `warmup` and `generate_embedding`, and the start of both services, in apis.py and
-- mq/worker.py, which load the model and warm it up.
use sementic_search_engine.Prelude.{
  ℕ, ◌≡◌, refl, sym, ap, ◌∙◌, Bool, true, if◌then◌else◌, Option, none, some, List, [], ◌∷◌, Text,
  codes, Result, ok, ◌>>=◌, length, >>=-eq-ok, ok-injective,
}
use sementic_search_engine.Config.{Settings}
use sementic_search_engine.Schemas.{InputType, passage}
use sementic_search_engine.Handler.{Exception}
use sementic_search_engine.Main.{Transformer, IsDocumented, Loaded, load, encode, is_ready}
use sementic_search_engine.Main.Encoding.{encode-lengths}

-- A string, or a sequence of strings.
pub data Sentences : Type 0 where
  one : Text → Sentences
  many : List Text → Sentences

-- [sentences] if isinstance(sentences, str) else list(sentences)
unfoldable pub texts_of : Sentences → List Text
texts_of (one text) = text ∷ []
texts_of (many texts) = texts

module _ {M V : Type 0} (t : Transformer M V) (s : Settings) where
  -- `warmup`: the model afterwards.
  unfoldable pub warmup : ℕ → Option (Loaded M) → Result Exception (Option (Loaded M))
  warmup took_ms model = do
    result ← encode t s model took_ms (codes "warmup" ∷ []) passage true
    ok model

  -- The start of a service: load, then warm up.
  unfoldable pub start_up : ℕ → Option (Loaded M) → Result Exception (Option (Loaded M))
  unfolding warmup
  start_up took_ms model = do loaded ← load t s model; warmup took_ms loaded

  -- The start of `run`, which may be told not to load.
  unfoldable pub prepare : Bool → ℕ → Option (Loaded M) → Result Exception (Option (Loaded M))
  unfolding start_up
  prepare load_model took_ms model = if load_model then start_up took_ms model else ok model

  -- `generate_embedding`: the vectors, and the model afterwards.
  unfoldable pub generate_embedding :
      ℕ → Option (Loaded M) → Sentences → InputType → Result Exception (List V × Option (Loaded M))
  unfolding texts_of
  generate_embedding took_ms model sentences input_type = do
    loaded ← load t s model
    result ← encode t s loaded took_ms (texts_of sentences) input_type true
    ok (result.embeddings, loaded)

  load-ready : (model m : Option (Loaded M)) → load t s model ≡ ok m → is_ready m ≡ true
  unfolding load is_ready
  load-ready (some l) m h = rw (sym (ok-injective (some l) m h)) refl
  load-ready none m h =
      let (new, made, h1) = >>=-eq-ok (t.new s.model_name s.device) _ h in
      rw
        (sym (ok-injective (some (record { model = new; max_seq_length = s.max_seq_length })) m h1))
        refl

  -- A start that raises nothing leaves a model.
  pub start_up-ready :
      (took_ms : ℕ) (model m : Option (Loaded M))
      → start_up took_ms model ≡ ok m
      → is_ready m ≡ true
  unfolding start_up warmup
  start_up-ready took_ms model m h =
      let (loaded, got, h1) = >>=-eq-ok (load t s model) (warmup took_ms) h in
      let (result, made, h2) =
        >>=-eq-ok (encode t s loaded took_ms (codes "warmup" ∷ []) passage true) (λ r. ok loaded)
          h1 in
      ap is_ready (sym (ok-injective loaded m h2)) ∙ load-ready model loaded got

  -- Whether or not the model was loaded before, when `generate_embedding` returns it gives a vector for
  -- each sentence and leaves a model, if the library gives a vector and a length for each text.
  pub generate_embedding-lengths :
      (took_ms : ℕ) (model m : Option (Loaded M)) (sentences : Sentences) (input_type : InputType)
      (vectors : List V)
      → IsDocumented t
      → generate_embedding took_ms model sentences input_type ≡ ok (vectors, m)
      → (length vectors ≡ length (texts_of sentences)) × (is_ready m ≡ true)
  unfolding generate_embedding
  generate_embedding-lengths took_ms model m sentences input_type vectors d h =
      let texts = texts_of sentences in
      let (loaded, got, h1) =
        >>=-eq-ok (load t s model)
          (λ l. encode t s l took_ms texts input_type true >>= λ r. ok (r.embeddings, l)) h in
      let (r, encoded, h2) =
        >>=-eq-ok (encode t s loaded took_ms texts input_type true) (λ r. ok (r.embeddings, loaded))
          h1 in
      let same : ◌≡◌ {A = List V × Option (Loaded M)} (r.embeddings, loaded) (vectors, m) =
        ok-injective (r.embeddings, loaded) (vectors, m) h2 in
      (
        ap (λ p. length p.0) (sym same)
            ∙ (encode-lengths t s d loaded took_ms texts input_type true r encoded).0,
        ap (λ p. is_ready p.1) (sym same) ∙ load-ready model loaded got,
      )
