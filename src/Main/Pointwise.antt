-- ===== src/Main/Pointwise.antt =====
-- The engine as mq/handler.py uses it: the vector and the flag of a text do not depend on the texts
-- that are encoded with it.
use sementic_search_engine.Prelude.{
  ℕ, ◌≡◌, refl, sym, ap, ◌∙◌, Bool, some, List, [], ◌∷◌, ◌++◌, map, ltb, Text, ok, Result, ◌>>=◌,
  >>=-eq-ok, ok-injective,
}
use sementic_search_engine.Config.{Settings}
use sementic_search_engine.Schemas.{InputType, query, passage}
use sementic_search_engine.Handler.{Exception, EncodeResult}
use sementic_search_engine.Handler.Splitting.{IsPointwise}
use sementic_search_engine.Main.Encoding.{prepared_passage, prepared_query}
use sementic_search_engine.Main.{
  Transformer, Loaded, over, prepared, detect_truncation, encode_with, require_model, encode,
  engine,
}

-- What the library does with a list of texts, when it does it text by text: the vector of a text for
-- a model and a choice of normalisation, and the number of its tokens.
pub record IsTextwise {M V : Type 0} (t : Transformer M V) (vector : M → Bool → Text → V)
    (tokens : M → Text → ℕ) : Type 0 where
  pub embed :
      (m : M) (texts : List Text) (batch_size : ℕ) (normalize : Bool) (vs : List V)
      → t.embed m texts batch_size normalize ≡ ok vs
      → vs ≡ map (vector m normalize) texts
  pub token_lengths :
      (m : M) (texts : List Text) (ls : List ℕ)
      → t.token_lengths m texts ≡ ok ls
      → ls ≡ map (tokens m) texts

-- What the model is given for a text.
unfoldable pub prepared_text : Settings → InputType → Text → Text
prepared_text s passage text = text
prepared_text s query text = s.query_instruction ++ text

map_same {ℓ} : {A : Type ℓ} (f : A → A) (xs : List A) → ((x : A) → f x ≡ x) → map f xs ≡ xs
map_same f [] h = refl
map_same f (x ∷ xs) h = rw (h x, map_same f xs h) refl

map-map {ℓ} :
    {A B C : Type ℓ} (f : A → B) (g : B → C) (xs : List A)
    → map g (map f xs) ≡ map (λ x. g (f x)) xs
map-map f g [] = refl
map-map f g (x ∷ xs) = ap (◌∷◌ (g (f x))) (map-map f g xs)

module _ {M V : Type 0} (t : Transformer M V) (s : Settings) (vector : M → Bool → Text → V)
    (tokens : M → Text → ℕ) (m : Loaded M) where
  abbrev pub vector_of : InputType → Bool → Text → V
  vector_of type normalize text = vector m.model normalize (prepared_text s type text)

  abbrev pub is_cut : InputType → Bool → Text → Bool
  is_cut type normalize text = ltb m.max_seq_length (tokens m.model (prepared_text s type text))

  prepared-map :
      (type : InputType) (texts : List Text)
      → prepared s type texts ≡ map (prepared_text s type) texts
  unfolding prepared_text
  prepared-map passage texts =
      prepared_passage t s texts ∙ sym (map_same (λ text. text) texts (λ text. refl))
  prepared-map query texts = prepared_query t s texts

  textwise-cons :
      (took_ms : ℕ) (text : Text) (texts : List Text) (type : InputType) (normalize : Bool)
      (r : EncodeResult V)
      → IsTextwise t vector tokens
      → encode t s (some m) took_ms (text ∷ texts) type normalize ≡ ok r
      → (r.embeddings ≡ map (vector_of type normalize) (text ∷ texts))
        × (r.truncated ≡ map (is_cut type normalize) (text ∷ texts))
  unfolding encode require_model encode_with detect_truncation over
  textwise-cons took_ms text texts type normalize r w h =
      let ready = prepared s type (text ∷ texts) in
      let made : List V → List Bool → Result Exception (EncodeResult V) =
        λ vs flags. ok (record { embeddings = vs; truncated = flags; took_ms = took_ms }) in
      let (vs, ev, h1) =
        >>=-eq-ok (t.embed m.model ready s.encode_batch_size normalize)
          (λ vs. detect_truncation t s m ready >>= made vs) h in
      let (flags, ef, h2) = >>=-eq-ok (detect_truncation t s m ready) (made vs) h1 in
      let (ls, el, h3) =
        >>=-eq-ok (t.token_lengths m.model ready) (λ ls. ok (over m.max_seq_length ls)) ef in
      let same = prepared-map type (text ∷ texts) in
      rw
        (sym (ok-injective (record { embeddings = vs; truncated = flags; took_ms = took_ms }) r h2))
        (
          w.embed m.model ready s.encode_batch_size normalize vs ev
              ∙ ap (map (vector m.model normalize)) same
              ∙ map-map (prepared_text s type) (vector m.model normalize) (text ∷ texts),
          sym (ok-injective (over m.max_seq_length ls) flags h3)
              ∙ ap (over m.max_seq_length)
                  (w.token_lengths m.model ready ls el ∙ ap (map (tokens m.model)) same)
              ∙ map-map (tokens m.model) (ltb m.max_seq_length)
                  (map (prepared_text s type) (text ∷ texts))
              ∙ map-map (prepared_text s type) (λ x. ltb m.max_seq_length (tokens m.model x))
                  (text ∷ texts),
        )

  encode-textwise :
      (took_ms : ℕ) (texts : List Text) (type : InputType) (normalize : Bool) (r : EncodeResult V)
      → IsTextwise t vector tokens
      → encode t s (some m) took_ms texts type normalize ≡ ok r
      → (r.embeddings ≡ map (vector_of type normalize) texts)
        × (r.truncated ≡ map (is_cut type normalize) texts)
  unfolding encode require_model encode_with
  encode-textwise took_ms [] type normalize r w h =
      rw (sym (ok-injective (record { embeddings = []; truncated = []; took_ms = 0 }) r h))
        (refl, refl)
  encode-textwise took_ms (text ∷ texts) type normalize r w h =
      textwise-cons took_ms text texts type normalize r w h

  -- When the library works text by text, so does the engine that the worker is given: the vector of a
  -- query is that of the text with the instruction in front, and its flag tells that this text, with
  -- the instruction, has more tokens than the model reads.
  pub engine-IsPointwise :
      (took_ms : ℕ)
      → IsTextwise t vector tokens
      → IsPointwise (engine t s (some m) took_ms) vector_of is_cut
  engine-IsPointwise took_ms w = record {
    embeddings = λ texts type normalize r h. (encode-textwise took_ms texts type normalize r w h).0;
    truncated = λ texts type normalize r h. (encode-textwise took_ms texts type normalize r w h).1;
  }
