-- ===== src/Api/Requests.antt =====
-- apis.py: the id of a request, in its answer. `V` is the type of an answer's content.
use sementic_search_engine.Prelude.{
  ℕ, ◌≡◌, refl, Option, none, some, if◌then◌else◌, is_empty, Text, codes, Result, ok, raise,
}

pub record Answered (V : Type 0) : Type 0 where
  pub status : ℕ
  pub content : V
  -- the header `X-Request-ID`
  pub header : Option Text

-- The body of an answer, or that of `unhandled_exception_handler`.
pub data Body (V : Type 0) : Type 0 where
  page : V → Body V
  failure : (detail request_id : Text) → Body V

-- request.headers.get("X-Request-ID") or uuid.uuid4().hex[:12]
unfoldable pub request_id : Option Text → Text → Text
request_id none new_id = new_id
request_id (some id) new_id = if is_empty id then new_id else id

module _ {V : Type 0} where
  -- `request_context`, around the answer of the route, which may raise.
  unfoldable pub request_context {ℓ} :
      {E : Type ℓ} → Text → Result E (Answered (Body V)) → Result E (Answered (Body V))
  request_context id (raise exc) = raise exc
  request_context id (ok answer) = ok (record answer { header = some id })

  -- `unhandled_exception_handler`, with the request's `state.request_id` if it is set
  unfoldable pub unhandled_exception_handler : Option Text → Answered (Body V)
  unhandled_exception_handler id = record {
    status = 500;
    content =
        failure (codes "internal server error") (elim id [ none ↦ codes "unknown" | some i ↦ i ]);
    header = none;
  }

  -- A request: the server puts its handler of exceptions around the middleware.
  unfoldable pub respond {ℓ} :
      {E : Type ℓ} → Text → Result E (Answered (Body V)) → Answered (Body V)
  unfolding request_context unhandled_exception_handler
  respond id outcome = elim (request_context id outcome) [
    | ok answer ↦ answer
    | raise exc ↦ unhandled_exception_handler (some id)
  ]

  abbrev named_in : Body V → Option Text → Option Text
  named_in (page v) header = header
  named_in (failure detail id) header = some id

  -- Where the id of a request is in its answer: in the header, or in the body of a failure.
  abbrev pub named : Answered (Body V) → Option Text
  named answer = named_in answer.content answer.header

  -- The answer to a request names its id, if its route raises or answers with a page.
  respond-named {ℓ} :
      {E : Type ℓ} (id : Text) (outcome : Result E (Answered (Body V)))
      → ((answer : Answered (Body V)) → outcome ≡ ok answer → (v : V) × (answer.content ≡ page v))
      → named (respond id outcome) ≡ some id
  unfolding respond request_context unhandled_exception_handler
  respond-named id (raise exc) h = refl
  respond-named id (ok answer) h = let (v, e) = h answer refl in rw e refl
