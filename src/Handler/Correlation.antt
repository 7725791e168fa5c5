-- ===== src/Handler/Correlation.antt =====
-- A reply can be told by the id of its message, also when the body carries none.
use mathlib.Core.Option.{some-injective}
use sementic_search_engine.Prelude.{
  ◌≡◌, refl, sym, ap, ◌∙◌, inl, inr, Bool-cases, false, Option, some, List, ℕ, Text, codes, text_eq,
  text_eq_refl, Result, raise, ok-injective, ok, Result-cases, is_empty,
}
use sementic_search_engine.Config.{Settings}
use sementic_search_engine.Schemas.{EmbeddingJob, validate}
use sementic_search_engine.Schemas.Values.{Json, obj, str, Fields, end, field, get, put, truthy}
use sementic_search_engine.Schemas.Reply.{EmbeddingResult}
use sementic_search_engine.Handler.{
  LoadsError, not_json, other_error, Libraries, parse_job, parse_loaded, parse_value, parse_dict,
  with_fallback, is_truthy, id_of, or_unknown, error_result,
}

get-put : (k : Text) (v : Json) (fs : Fields) → get k (put k v fs) ≡ some v
unfolding get put
get-put k v end = rw (text_eq_refl k) refl
get-put k v (field j w fs) = elim (Bool-cases (text_eq j k)) [
  | inl e ↦ rw (e, e) refl
  | inr n ↦ rw (n, n) (get-put k v fs)
]

some_id : {V : Type 0} (q r : EmbeddingResult V) → some q ≡ some r → q.job_id ≡ r.job_id
some_id q r h = ap (λ x. x.job_id) (some-injective q r h)

module _ (lib : Libraries) (id : Text) (given : is_empty id ≡ false) where
  open lib use {loads, py_str}

  -- The body is not a JSON object with an id of its own.
  abbrev pub HasNoId : List ℕ → Type 0
  HasNoId body =
      (raw : Fields) → loads body ≡ ok (obj raw) → is_truthy (get (codes "job_id") raw) ≡ false

  get-with_fallback :
      (raw : Fields)
      → is_truthy (get (codes "job_id") raw) ≡ false
      → get (codes "job_id") (with_fallback (some id) raw) ≡ some (str id)
  unfolding with_fallback
  get-with_fallback raw h = rw (h, given) (get-put (codes "job_id") (str id) raw)

  or_unknown-given : or_unknown (some id) ≡ id
  or_unknown-given = rw given refl

  id_of-given : ((t : Text) → py_str (str t) ≡ t) → id_of py_str (some (str id)) ≡ id
  unfolding truthy
  id_of-given same = rw given (same id)

module _ {V : Type 0} (lib : Libraries) (s : Settings) (new_job_id : Text) (id : Text)
    (given : is_empty id ≡ false) (same : (t : Text) → lib.py_str (str t) ≡ t) where
  parse_dict-id :
      (worker_id : Option Text) (raw : Fields) (r : EmbeddingResult V)
      → get (codes "job_id") raw ≡ some (str id)
      → (parse_dict lib s new_job_id worker_id raw).1 ≡ some r
      → r.job_id ≡ id
  unfolding parse_dict error_result
  parse_dict-id worker_id raw r got h =
      elim (Result-cases (validate lib.pydantic s new_job_id raw)) [
        | inl (job, v) ↦ cc (rw (v, parse_dict) at h)
        | inr (errors, v) ↦
            let e : id_of lib.py_str (get (codes "job_id") raw) ≡ r.job_id =
              some_id _ r (rw (v, parse_dict) at h) in
            sym e ∙ rw got (id_of-given lib id given same)
      ]

  parse_value-id :
      (worker_id : Option Text) (v : Json) (r : EmbeddingResult V)
      → ((raw : Fields) → v ≡ obj raw → is_truthy (get (codes "job_id") raw) ≡ false)
      → (parse_value lib s new_job_id (some id) worker_id v).1 ≡ some r
      → r.job_id ≡ id
  unfolding parse_value error_result
  parse_value-id worker_id (obj raw) r none_own h =
      parse_dict-id worker_id _ r (get-with_fallback lib id given raw (none_own raw refl)) h
  parse_value-id worker_id _ r none_own h = sym (some_id _ r h) ∙ or_unknown-given lib id given

  parse_loaded-id :
      (l : Result LoadsError Json) (worker_id : Option Text) (job : Option EmbeddingJob)
      (r : EmbeddingResult V)
      → ((raw : Fields) → l ≡ ok (obj raw) → is_truthy (get (codes "job_id") raw) ≡ false)
      → parse_loaded lib s new_job_id (some id) worker_id l ≡ ok (job, some r)
      → r.job_id ≡ id
  unfolding parse_loaded error_result
  parse_loaded-id (ok v) worker_id job r none_own h =
      parse_value-id worker_id v r (λ raw q. none_own raw (ap ok q))
        (ap (λ p. p.1) (ok-injective _ _ h))
  parse_loaded-id (raise (not_json exc)) worker_id job r none_own h =
      sym (some_id _ r (ap (λ p. p.1) (ok-injective _ _ h))) ∙ or_unknown-given lib id given
  parse_loaded-id (raise other_error) worker_id job r none_own h = cc h

  -- When the AMQP message has an id that is not empty, `str` leaves text as it is, and the body has no
  -- id of its own, a rejection carries the id of the message, whatever is wrong with the body.
  pub parse_job-id :
      (body : List ℕ) (worker_id : Option Text) (job : Option EmbeddingJob) (r : EmbeddingResult V)
      → HasNoId lib id given body
      → parse_job lib s new_job_id body (some id) worker_id ≡ ok (job, some r)
      → r.job_id ≡ id
  unfolding parse_job
  parse_job-id body worker_id job r none_own h =
      parse_loaded-id (lib.loads body) worker_id job r none_own h
