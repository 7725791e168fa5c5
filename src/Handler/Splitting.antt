-- ===== src/Handler/Splitting.antt =====
-- Batching is transparent: one model call for many jobs gives each job the vectors and flags that
-- belong to its own texts.
use sementic_search_engine.Prelude.{
  ℕ, ◌+◌, ◌-◌, ◌≡◌, refl, sym, ap, ◌∙◌, not, ◌||◌, inl, inr, Bool, false, Bool-cases, Option, some,
  List, [], ◌∷◌, ◌++◌, append_assoc, map, map-append, length, length-append, length-map, take, drop,
  take_left, drop_left, All2, arith, Text, ok, >>=-eq-ok, ok-injective,
}
use sementic_search_engine.Schemas.{InputType, EmbeddingJob}
use sementic_search_engine.Schemas.Reply.{Status, EmbeddingResult}
use sementic_search_engine.Handler.{
  EncodeResult, Engine, same_type, same_bool, any_differs, result_of, split, all_texts, encode_same,
  encode_jobs,
}

-- What the engine is documented to do: a vector and a flag for each text, in order, that depend on
-- the text, the input type and the normalisation only.
pub record IsPointwise {V : Type 0} (engine : Engine V) (vector : InputType → Bool → Text → V)
    (cut : InputType → Bool → Text → Bool) : Type 0 where
  pub embeddings :
      (texts : List Text) (t : InputType) (n : Bool) (r : EncodeResult V)
      → engine.encode texts t n ≡ ok r
      → r.embeddings ≡ map (vector t n) texts
  pub truncated :
      (texts : List Text) (t : InputType) (n : Bool) (r : EncodeResult V)
      → engine.encode texts t n ≡ ok r
      → r.truncated ≡ map (cut t n) texts

slice_middle {ℓ} :
    {A : Type ℓ} (xs ys zs : List A) (k : ℕ)
    → k ≡ length ys
    → take (length xs + k - length xs) (drop (length xs) (xs ++ (ys ++ zs))) ≡ ys
slice_middle xs ys zs k e =
    rw (drop_left xs (ys ++ zs))
      (ap (λ (n : ℕ). take n (ys ++ zs)) (omega (arith, e)) ∙ take_left ys zs)

slice-map {ℓ κ} :
    {A : Type ℓ} {B : Type κ} (f : A → B) (xs ys zs : List A)
    → take (length xs + length ys - length xs) (drop (length xs) (map f (xs ++ (ys ++ zs))))
      ≡ map f ys
slice-map f xs ys zs =
    let m : map f (xs ++ (ys ++ zs)) ≡ map f xs ++ (map f ys ++ map f zs) =
      map-append f xs (ys ++ zs) ∙ ap (λ l. map f xs ++ l) (map-append f ys zs) in
    rw m (
      rw (length-map f xs) at
        (slice_middle (map f xs) (map f ys) (map f zs) (length ys) (sym (length-map f ys))))

module _ {V : Type 0} (engine : Engine V) (worker_id : Option Text)
    (vector : InputType → Bool → Text → V) (cut : InputType → Bool → Text → Bool) where
  -- The answer to a job: correlated by its id, with its metadata, and with its own vectors.
  pub record IsAnswer (t : InputType) (n : Bool) (job : EmbeddingJob) (r : EmbeddingResult V)
      : Type 0 where
    pub id : r.job_id ≡ job.job_id
    pub success : r.status ≡ Status.ok
    pub metadata : r.metadata ≡ job.metadata
    pub count : r.count ≡ length job.input
    pub embeddings : r.embeddings ≡ map (vector t n) job.input
    pub truncated : r.truncated ≡ map (cut t n) job.input
    pub input_type : r.input_type ≡ some t
    pub normalized : r.normalized ≡ some n

  module _ (t : InputType) (n : Bool) (encoded : EncodeResult V) (batch_texts : ℕ) where
    slices :
        (job : EmbeddingJob) (jobs : List EmbeddingJob) (before : List Text) (offset d : ℕ)
        → offset ≡ length before
        → encoded.embeddings ≡ map (vector t n) (before ++ all_texts (job ∷ jobs))
        → encoded.truncated ≡ map (cut t n) (before ++ all_texts (job ∷ jobs))
        → IsAnswer t n job (result_of engine worker_id encoded t n batch_texts offset job d)
    unfolding result_of
    slices job jobs before offset d o e f = record {
      id = refl;
      success = refl;
      metadata = refl;
      count = refl;
      embeddings = rw (e, o) (slice-map (vector t n) before job.input (all_texts jobs));
      truncated = rw (f, o) (slice-map (cut t n) before job.input (all_texts jobs));
      input_type = refl;
      normalized = refl;
    }

    split-IsAnswer :
        (jobs : List EmbeddingJob) (before : List Text) (offset : ℕ) (rs : List (EmbeddingResult V))
        → offset ≡ length before
        → encoded.embeddings ≡ map (vector t n) (before ++ all_texts jobs)
        → encoded.truncated ≡ map (cut t n) (before ++ all_texts jobs)
        → split engine worker_id encoded t n batch_texts offset jobs ≡ ok rs
        → All2 (IsAnswer t n) jobs rs
    unfolding split
    split-IsAnswer [] before offset rs o e f h = rw (← ok-injective [] rs h) All2.nil
    split-IsAnswer (job ∷ jobs) before offset rs o e f h =
        let (d, _, h1) = >>=-eq-ok engine.dimensions _ h in
        let (rest, got, h2) =
          >>=-eq-ok
            (split engine worker_id encoded t n batch_texts (offset + length job.input) jobs)
            (λ results.
              ok (result_of engine worker_id encoded t n batch_texts offset job d ∷ results))
            h1 in
        rw
          (← ok-injective (result_of engine worker_id encoded t n batch_texts offset job d ∷ rest)
            rs h2)
          (All2.cons (slices job jobs before offset d o e f) (
            split-IsAnswer jobs (before ++ job.input) (offset + length job.input) rest
              (omega (arith, o, length-append {0} before job.input)) (rw append_assoc e)
              (rw append_assoc f) got))

  abbrev pub Answers : List EmbeddingJob → List (EmbeddingResult V) → Type 0
  Answers = All2 (λ job r. IsAnswer job.input_type job.normalize job r)

  same_key :
      (t : InputType) (n : Bool) (job : EmbeddingJob)
      → (not (same_type job.input_type t) || not (same_bool job.normalize n)) ≡ false
      → (job.input_type ≡ t) × (job.normalize ≡ n)
  same_key t n job h = ground arith

  re_key :
      (t : InputType) (n : Bool) (t' : InputType) (n' : Bool) (job : EmbeddingJob)
      (r : EmbeddingResult V)
      → t' ≡ t
      → n' ≡ n
      → IsAnswer t n job r
      → IsAnswer t' n' job r
  re_key t n t' n' job r e f a = rw (e, f) a

  own_keys :
      (t : InputType) (n : Bool) (jobs : List EmbeddingJob) (rs : List (EmbeddingResult V))
      → any_differs t n jobs ≡ false
      → All2 (IsAnswer t n) jobs rs
      → Answers jobs rs
  unfolding any_differs
  own_keys t n [] rs h All2.nil = All2.nil
  own_keys t n (job ∷ jobs) rs h (All2.cons a as') =
      let (e, f) = same_key t n job (ground arith) in
      All2.cons (re_key t n _ _ job _ e f a) (own_keys t n jobs _ (ground arith) as')

  encode_same-answers :
      (t : InputType) (n : Bool) (jobs : List EmbeddingJob) (rs : List (EmbeddingResult V))
      → IsPointwise engine vector cut
      → encode_same engine worker_id t n jobs ≡ ok rs
      → All2 (IsAnswer t n) jobs rs
  unfolding encode_same
  encode_same-answers t n jobs rs pw h =
      let texts : List Text = all_texts jobs in
      let (r, encoded, got) =
        >>=-eq-ok (engine.encode texts t n)
          (λ e. split engine worker_id e t n (length texts) 0 jobs) h in
      split-IsAnswer t n r (length texts) jobs [] 0 rs refl (pw.embeddings texts t n r encoded)
        (pw.truncated texts t n r encoded) got

  -- When the engine encodes each text by itself, an `encode_jobs` that succeeds answers each job, in order, with what its own texts give,
  -- whatever the other jobs of the batch are.
  pub encode_jobs-Answers :
      (jobs : List EmbeddingJob) (rs : List (EmbeddingResult V))
      → IsPointwise engine vector cut
      → encode_jobs engine worker_id jobs ≡ ok rs
      → Answers jobs rs
  unfolding encode_jobs
  encode_jobs-Answers [] rs pw h = rw (← ok-injective [] rs h) All2.nil
  encode_jobs-Answers (job ∷ jobs) rs pw h =
      elim (Bool-cases (any_differs job.input_type job.normalize (job ∷ jobs))) [
        | inl mixed ↦ cc (rw mixed at h)
        | inr same ↦
            own_keys job.input_type job.normalize (job ∷ jobs) rs same
              (encode_same-answers job.input_type job.normalize (job ∷ jobs) rs pw (rw same at h))
      ]
