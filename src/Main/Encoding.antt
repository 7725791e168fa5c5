-- ===== src/Main/Encoding.antt =====
-- What an encode gives.
use sementic_search_engine.Prelude.{
  ℕ, suc, ◌≡◌, refl, sym, ap, ◌∙◌, Bool, true, Bool-cases, inl, inr, Option, none, some, List, [],
  ◌∷◌, ◌++◌, map, ltb, is_empty, length, Text, Result, ok, ◌>>=◌, >>=-eq-ok, ok-injective,
}
use sementic_search_engine.Config.{Settings}
use sementic_search_engine.Schemas.{InputType, query, passage}
use sementic_search_engine.Handler.{Exception, EncodeResult}
use sementic_search_engine.Main.{
  Transformer, IsDocumented, Loaded, require_model, over, detect_truncation, prepared, encode_with,
  encode,
}

length-map {ℓ κ} :
    {A : Type ℓ} {B : Type κ} (f : A → B) (xs : List A) → length (map f xs) ≡ length xs
length-map f [] = refl
length-map f (x ∷ xs) = ap suc (length-map f xs)

map-nil_append :
    (i : Text) (texts : List Text) → is_empty i ≡ true → map (λ t. i ++ t) texts ≡ texts
map-nil_append [] [] h = refl
map-nil_append [] (t ∷ texts) h = ap (◌∷◌ t) (map-nil_append [] texts h)
map-nil_append (c ∷ i) texts h = cc

module _ {M V : Type 0} (t : Transformer M V) (s : Settings) where
  length-prepared :
      (it : InputType) (texts : List Text) → length (prepared s it texts) ≡ length texts
  unfolding prepared
  length-prepared passage texts = refl
  length-prepared query texts = elim (Bool-cases (is_empty s.query_instruction)) [
    | inl e ↦ rw e refl
    | inr e ↦ rw e (length-map (λ text. s.query_instruction ++ text) texts)
  ]

  pub prepared_passage : (texts : List Text) → prepared s passage texts ≡ texts
  unfolding prepared
  prepared_passage texts = refl

  pub prepared_query :
      (texts : List Text) → prepared s query texts ≡ map (λ text. s.query_instruction ++ text) texts
  unfolding prepared
  prepared_query texts = elim (Bool-cases (is_empty s.query_instruction)) [
    | inl e ↦ rw e (sym (map-nil_append s.query_instruction texts e))
    | inr e ↦ rw e refl
  ]

  length-detect_truncation :
      (d : IsDocumented t) (m : Loaded M) (texts : List Text) (flags : List Bool)
      → detect_truncation t s m texts ≡ ok flags
      → length flags ≡ length texts
  unfolding detect_truncation over
  length-detect_truncation d m texts flags h =
      let (ls, el, h1) =
        >>=-eq-ok (t.token_lengths m.model texts) (λ ls. ok (over m.max_seq_length ls)) h in
      rw (sym (ok-injective (over m.max_seq_length ls) flags h1))
        (length-map (ltb m.max_seq_length) ls ∙ d.length-token_lengths m.model texts ls el)

  -- Encoding texts as queries is encoding, as passages, the texts with the instruction in front of
  -- each; passages are encoded as they are.
  pub encode_query :
      (model : Option (Loaded M)) (took_ms : ℕ) (texts : List Text) (normalize : Bool)
      → encode t s model took_ms texts query normalize
        ≡ encode t s model took_ms
            (map (λ text. s.query_instruction ++ text) texts)
            passage
            normalize
  unfolding encode encode_with require_model
  encode_query none took_ms texts normalize = refl
  encode_query (some m) took_ms [] normalize = refl
  encode_query (some m) took_ms (x ∷ texts) normalize =
      rw
        (
          prepared_query (x ∷ texts),
          prepared_passage (map (λ text. s.query_instruction ++ text) (x ∷ texts)),
        )
        refl

  -- When the model gives a vector and the tokenizer a length for each text, an encode that succeeds
  -- returns a vector and a truncation flag for each of its texts.
  pub encode-lengths :
      (d : IsDocumented t) (model : Option (Loaded M)) (took_ms : ℕ) (texts : List Text)
      (it : InputType) (normalize : Bool) (r : EncodeResult V)
      → encode t s model took_ms texts it normalize ≡ ok r
      → (length r.embeddings ≡ length texts) × (length r.truncated ≡ length texts)
  unfolding encode encode_with require_model
  encode-lengths d none took_ms texts it normalize r h = cc
  encode-lengths d (some m) took_ms [] it normalize r h =
      rw (sym (ok-injective (record { embeddings = []; truncated = []; took_ms = 0 }) r h))
        (refl, refl)
  encode-lengths d (some m) took_ms (x ∷ texts) it normalize r h =
      let ready = prepared s it (x ∷ texts) in
      let made : List V → List Bool → Result Exception (EncodeResult V) =
        λ vs flags. ok (record { embeddings = vs; truncated = flags; took_ms = took_ms }) in
      let (vs, ev, h1) =
        >>=-eq-ok (t.embed m.model ready s.encode_batch_size normalize)
          (λ vs. detect_truncation t s m ready >>= made vs) h in
      let (flags, ef, h2) = >>=-eq-ok (detect_truncation t s m ready) (made vs) h1 in
      let same = length-prepared it (x ∷ texts) in
      rw
        (sym (ok-injective (record { embeddings = vs; truncated = flags; took_ms = took_ms }) r h2))
        (
          d.length-embed m.model _ _ _ vs ev ∙ same,
          length-detect_truncation d m (prepared s it (x ∷ texts)) flags ef ∙ same,
        )
