-- ===== src/Api.antt =====
-- apis.py: the HTTP routes. The server's routing, the limiter's queue and the clocks are parameters.
pub mod Keys
pub mod Health
pub mod Requests
pub mod Slots
use sementic_search_engine.Prelude.{
  ℕ, ◌+◌, ◌-◌, Bool, true, false, not, ◌||◌, ◌&&◌, Option, none, some, List, [], ◌∷◌, ltb,
  if◌then◌else◌, is_empty, length, Text, codes, text_eq, Result, ok, raise,
}
use sementic_search_engine.Config.{Settings}
use sementic_search_engine.Schemas.{InputType}
use sementic_search_engine.Handler.{Exception, EncodeResult}
use sementic_search_engine.Main.{Transformer, Loaded, is_ready, dimensions, encode}

pub data Access : Type 0 where
  admitted : Access
  -- HTTP 401
  unauthorized : Access
  -- the TypeError of `secrets.compare_digest`
  type_error : Access

-- Whether all of the text is ASCII.
unfoldable pub is_ascii : Text → Bool
is_ascii [] = true
is_ascii (c ∷ s) = ltb c 128 && is_ascii s

-- secrets.compare_digest(a, b), which raises a TypeError on text that is not ASCII
unfoldable pub compare_digest : Text → Text → Option Bool
unfolding is_ascii text_eq
compare_digest a b = if is_ascii a && is_ascii b then some (text_eq a b) else none

unfoldable pub access_of : Option Bool → Access
access_of none = type_error
access_of (some true) = admitted
access_of (some false) = unauthorized

-- `require_api_key`
unfoldable pub require_api_key : Option Text → Option Text → Access
unfolding compare_digest access_of
require_api_key none header = admitted
require_api_key (some key) none = unauthorized
require_api_key (some key) (some header) =
    if is_empty header then unauthorized else access_of (compare_digest header key)

-- A validated `EmbeddingRequest`.
pub record EmbeddingRequest : Type 0 where
  pub input : List Text
  pub input_type : InputType
  pub normalize : Bool

pub record EmbeddingResponse (V : Type 0) : Type 0 where
  pub model_name : Text
  pub dimensions : ℕ
  pub input_type : InputType
  pub normalized : Bool
  pub count : ℕ
  pub truncated : List Bool
  pub embeddings : List V
  pub took_ms : ℕ

pub data Response (V : Type 0) : Type 0 where
  embedded : EmbeddingResponse V → Response V
  http_error : (status : ℕ) (detail : Text) → Response V

-- What `unhandled_exception_handler` answers.
abbrev pub server_error : {V : Type 0} → Response V
server_error = http_error 500 (codes "internal server error")

pub record State : Type 0 where
  -- the slots of `_encode_limiter` that are taken
  pub borrowed : ℕ
  pub tasks_run : ℕ
  pub total_time : ℕ

unfoldable pub init : State
init = record { borrowed = 0; tasks_run = 0; total_time = 0 }

module _ {M V : Type 0} (t : Transformer M V) (s : Settings) (model : Option (Loaded M)) where
  -- `create_embeddings` up to the encode: an answer, or nothing when the encode is to run.
  -- `slot` tells whether the limiter gave a slot in time.
  unfoldable pub begin_request : Bool → State → Option (Response V) × State
  unfolding is_ready
  begin_request slot st =
      if not (is_ready model)
      then (some (http_error 503 (codes "model is still loading")), st)
      else if slot
      then (none, record st { borrowed = st.borrowed + 1; tasks_run = st.tasks_run + 1 })
      else (some (http_error 503 (codes "server busy, retry shortly")), st)

  release : State → State
  release st = record st { borrowed = st.borrowed - 1 }

  response_of : EmbeddingRequest → EncodeResult V → Result Exception ℕ → Response V
  response_of request result (raise exc) = server_error
  response_of request result (ok dims) = embedded (record {
    model_name = s.model_name;
    dimensions = dims;
    input_type = request.input_type;
    normalized = request.normalize;
    count = length result.embeddings;
    truncated = result.truncated;
    embeddings = result.embeddings;
    took_ms = result.took_ms;
  })

  ended : EmbeddingRequest → State → Result Exception (EncodeResult V) → Response V × State
  unfolding release response_of
  ended request st (raise exc) = (server_error, release st)
  ended request st (ok result) = (
    response_of request result (dimensions t s model),
    release (record st { total_time = st.total_time + result.took_ms }),
  )

  -- `create_embeddings` from the encode on, which takes `took_ms`.
  unfoldable pub end_request : EmbeddingRequest → ℕ → State → Response V × State
  unfolding ended
  end_request request took_ms st =
      ended request st (encode t s model took_ms request.input request.input_type request.normalize)
