-- ===== src/Handler/Raising.antt =====
-- What `encode_jobs` of mq/handler.py raises.
use sementic_search_engine.Prelude.{
  ℕ, ◌+◌, ◌≡◌, refl, ◌⊎◌, inl, inr, Bool, true, false, Option, List, [], ◌∷◌, All, length, Text, ok,
  raise, >>=-eq-raise,
}
use sementic_search_engine.Schemas.{InputType, passage, query, EmbeddingJob}
use sementic_search_engine.Handler.{
  Exception, Engine, EncodeResult, same_type, same_bool, any_differs, all_texts, result_of, split,
  encode_same, encode_jobs,
}

-- Jobs of one input type and one choice of `normalize`.
abbrev pub Alike : InputType → Bool → List EmbeddingJob → Type 0
Alike t n = All (λ job. (job.input_type ≡ t) × (job.normalize ≡ n))

same_type_refl : (t : InputType) → same_type t t ≡ true
same_type_refl passage = refl
same_type_refl query = refl

same_bool_refl : (b : Bool) → same_bool b b ≡ true
same_bool_refl true = refl
same_bool_refl false = refl

any_differs-Alike :
    (t : InputType) (n : Bool) (jobs : List EmbeddingJob)
    → Alike t n jobs
    → any_differs t n jobs ≡ false
unfolding any_differs
any_differs-Alike t n [] a = refl
any_differs-Alike t n (job ∷ jobs) a =
    rw (a.0.0, a.0.1, same_type_refl t, same_bool_refl n) (any_differs-Alike t n jobs a.1)

module _ {V : Type 0} (engine : Engine V) (worker_id : Option Text) where
  -- What the loop raises, the attribute `dimensions` raised.
  split-raises :
      (encoded : EncodeResult V) (t : InputType) (n : Bool) (texts offset : ℕ)
      (jobs : List EmbeddingJob) (exc : Exception)
      → split engine worker_id encoded t n texts offset jobs ≡ raise exc
      → engine.dimensions ≡ raise exc
  unfolding split
  split-raises encoded t n texts offset [] exc h = cc h
  split-raises encoded t n texts offset (job ∷ jobs) exc h =
      elim (>>=-eq-raise engine.dimensions _ h) [
        | inl e ↦ e
        | inr (d, e, h') ↦
            elim (>>=-eq-raise
              (split engine worker_id encoded t n texts (offset + length job.input) jobs)
              (λ results. ok (result_of engine worker_id encoded t n texts offset job d ∷ results))
              h') [
                | inl r ↦ split-raises encoded t n texts (offset + length job.input) jobs exc r
                | inr (results, r, impossible) ↦ cc impossible
              ]
      ]

  encode_own-raises :
      (job : EmbeddingJob) (jobs : List EmbeddingJob) (exc : Exception)
      → Alike job.input_type job.normalize jobs
      → encode_jobs engine worker_id (job ∷ jobs) ≡ raise exc
      → (engine.encode (all_texts (job ∷ jobs)) job.input_type job.normalize ≡ raise exc)
        ⊎ (engine.dimensions ≡ raise exc)
  unfolding encode_jobs encode_same
  encode_own-raises job jobs exc a h =
      let same : encode_same engine worker_id job.input_type job.normalize (job ∷ jobs)
          ≡ raise exc =
        rw
          (
            same_type_refl job.input_type,
            same_bool_refl job.normalize,
            any_differs-Alike job.input_type job.normalize jobs a,
          )
          at h in
      elim (>>=-eq-raise (engine.encode (all_texts (job ∷ jobs)) job.input_type job.normalize) _
        same) [
          | inl e ↦ inl e
          | inr (encoded, e, h') ↦ inr (split-raises encoded _ _ _ 0 (job ∷ jobs) exc h')
        ]

  -- What `encode_jobs` raises on jobs that may share a call, the engine raised: never its own ValueError.
  pub encode_jobs-raises :
      (t : InputType) (n : Bool) (jobs : List EmbeddingJob) (exc : Exception)
      → Alike t n jobs
      → encode_jobs engine worker_id jobs ≡ raise exc
      → (engine.encode (all_texts jobs) t n ≡ raise exc) ⊎ (engine.dimensions ≡ raise exc)
  unfolding encode_jobs
  encode_jobs-raises t n [] exc a h = cc h
  encode_jobs-raises t n (job ∷ jobs) exc a h =
      let own : Alike job.input_type job.normalize jobs = rw (a.0.0, a.0.1) a.1 in
      rw (a.0.0, a.0.1) at (encode_own-raises job jobs exc own h)
