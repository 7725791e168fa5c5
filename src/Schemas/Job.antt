-- ===== src/Schemas/Job.antt =====
-- What holds of a job that `model_validate` accepts.
use sementic_search_engine.Prelude.{
  ◌≤◌, ◌≡◌, refl, ◌⊎◌, inl, inr, Option, none, some, List, length, arith, ◌∙◌, Text, codes, Result,
  ok, raise, >>=-eq-ok, ok-injective, ap,
}
use sementic_search_engine.Config.{Settings}
use sementic_search_engine.Schemas.Values.{Json, Fields, end, get, dumps_size}
use sementic_search_engine.Schemas.{
  Pydantic, EmbeddingJob, FieldError, InputError, input_checked, both, validate, parts, Parts,
  job_of, input_field, job_id_field, metadata_field, coerce_and_validate,
}
use sementic_search_engine.Schemas.Validated.{IsInput, Denotes, coerce_and_validate_iff}

pub both-eq-ok {ℓ κ} :
    {A : Type ℓ} {B : Type κ} (r : Result (List FieldError) A) (q : Result (List FieldError) B)
    (p : A × B)
    → both r q ≡ ok p
    → (r ≡ ok p.0) × (q ≡ ok p.1)
both-eq-ok (ok a) (ok b) p h = let e = ok-injective (a, b) p h in (λ i. ok (e i).0, λ i. ok (e i).1)
both-eq-ok (ok a) (raise e) p h = cc h
both-eq-ok (raise e) (ok b) p h = cc h
both-eq-ok (raise e) (raise f) p h = cc h

optional-eq-ok {ℓ} :
    {A : Type ℓ} (o : Option Json) (default : Result (List FieldError) A)
    (check : Json → Result (List FieldError) A) {a : A}
    → elim o [ none ↦ default | some v ↦ check v ] ≡ ok a
    → (default ≡ ok a) ⊎ ((v : Json) × (o ≡ some v) × (check v ≡ ok a))
optional-eq-ok none default check h = inl h
optional-eq-ok (some v) default check h = inr (v, refl, h)

pub input_checked_sound :
    (s : Settings) (v : Json) (texts : List Text) (r : Result InputError (List Text))
    → coerce_and_validate s v ≡ r
    → input_checked r ≡ ok texts
    → Denotes texts v × IsInput s texts
input_checked_sound s v texts (ok ts) c h =
    (coerce_and_validate_iff s v texts).0 (c ∙ ap ok (ok-injective ts texts h))
input_checked_sound s v texts (raise e) c h = cc h

module _ (py : Pydantic) (s : Settings) (new_job_id : Text) (raw : Fields) where
  -- The limits hold; only defaults, which pydantic does not validate, may be outside.
  pub record IsJob (job : EmbeddingJob) : Type 0 where
    pub input : IsInput s job.input
    pub id : ((1 ≤ length job.job_id) × (length job.job_id ≤ 128)) ⊎ (job.job_id ≡ new_job_id)
    pub metadata :
        (dumps_size (Json.obj job.metadata) ≤ s.mq_metadata_max_bytes) ⊎ (job.metadata ≡ end)

  input_field-IsInput :
      (texts : List Text) → input_field py s new_job_id raw ≡ ok texts → IsInput s texts
  unfolding input_field
  input_field-IsInput texts h = elim (optional-eq-ok (get (codes "input") raw) _ _ h) [
    | inl e ↦ cc e
    | inr (v, e, c) ↦ (input_checked_sound s v texts _ refl c).1
  ]

  job_id_field-fits :
      (id : Text)
      → job_id_field py s new_job_id raw ≡ ok id
      → ((1 ≤ length id) × (length id ≤ 128)) ⊎ (id ≡ new_job_id)
  unfolding job_id_field
  job_id_field-fits id h = ground arith

  metadata_field-fits :
      (m : Fields)
      → metadata_field py s new_job_id raw ≡ ok m
      → (dumps_size (Json.obj m) ≤ s.mq_metadata_max_bytes) ⊎ (m ≡ end)
  unfolding metadata_field
  metadata_field-fits m h = ground arith

  parts-IsJob : (p : Parts) → parts py s new_job_id raw ≡ ok p → IsJob (job_of p)
  unfolding parts
  parts-IsJob p e =
      let (i, e1) = both-eq-ok _ _ p e in
      let (t, e2) = both-eq-ok _ _ p.1 e1 in
      let (n, e3) = both-eq-ok _ _ p.1.1 e2 in
      let (v, e4) = both-eq-ok _ _ p.1.1.1 e3 in
      let (j, e5) = both-eq-ok _ _ p.1.1.1.1 e4 in
      let (d, m) = both-eq-ok _ _ p.1.1.1.1.1 e5 in
      record {
        input = input_field-IsInput p.0 i;
        id = job_id_field-fits p.1.1.1.1.0 j;
        metadata = metadata_field-fits p.1.1.1.1.1.1 m;
      }

  -- A body that `model_validate` accepts gives a job within the limits.
  pub validate-IsJob : (job : EmbeddingJob) → validate py s new_job_id raw ≡ ok job → IsJob job
  unfolding validate
  validate-IsJob job h =
      let (p, e, r) = >>=-eq-ok (parts py s new_job_id raw) (λ q. ok (job_of q)) h in
      rw (← ok-injective (job_of p) job r) (parts-IsJob p e)
