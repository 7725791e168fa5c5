-- ===== src/Api/Health.antt =====
-- apis.py: the health routes, and the start of the service.
use sementic_search_engine.Prelude.{
  length, arith, ℕ, ◌≡◌, ◌↔◌, refl, ap, Bool, true, false, not, max, Option, none, some, List, [],
  ◌∷◌, if◌then◌else◌, Text, codes, Result, ok, raise, ◌>>=◌,
}
use sementic_search_engine.Config.{Settings}
use sementic_search_engine.Handler.{Exception}
use sementic_search_engine.Main.{Transformer, Loaded, is_ready, require_model, dimensions}
use sementic_search_engine.Main.Startup.{start_up, start_up-ready}
use sementic_search_engine.Api.{Response, http_error, State, begin_request}

pub record HealthResponse : Type 0 where
  pub status : Text
  pub model_name : Text
  pub dimensions : Option ℕ
  pub max_seq_length : Option ℕ
  pub pending_jobs : Option ℕ

pub record EngineResponse : Type 0 where
  pub engine_status : Text
  pub models_supported : List Text
  pub total_processed_tasks : ℕ
  -- a time and what it is divided by
  pub average_time_to_process : ℕ × ℕ
  pub device : Option Text

-- What a health route answers.
pub data Answer : Type 0 where
  healthy : HealthResponse → Answer
  unhealthy : (status : ℕ) (detail : Text) → Answer

unfoldable pub read_root : Text
read_root = codes "AI server Up"

unfoldable pub health_live : Settings → HealthResponse
health_live s = record {
  status = codes "alive";
  model_name = s.model_name;
  dimensions = none;
  max_seq_length = none;
  pending_jobs = none;
}

-- engine.max_seq_length
unfoldable pub max_seq_length : {M : Type 0} → Option (Loaded M) → Result Exception ℕ
unfolding require_model
max_seq_length model = do loaded ← require_model model; ok loaded.max_seq_length

-- The answer, from the attributes of the engine, either of which may raise.
ready_answer : Settings → ℕ → Result Exception ℕ → Result Exception ℕ → Answer
ready_answer s waiting (ok dims) (ok most) = healthy (record {
  status = codes "ready";
  model_name = s.model_name;
  dimensions = some dims;
  max_seq_length = some most;
  pending_jobs = some waiting;
})
ready_answer s waiting (raise e) most = unhealthy 500 (codes "internal server error")
ready_answer s waiting (ok dims) (raise e) = unhealthy 500 (codes "internal server error")

detail_of : {V : Type 0} → Option (Response V) → Text
detail_of (some (http_error status detail)) = detail
detail_of _ = []

module _ {M V : Type 0} (t : Transformer M V) (s : Settings) where
  -- `health_ready`, while `waiting` requests wait for the limiter.
  unfoldable pub health_ready : ℕ → Option (Loaded M) → Answer
  unfolding ready_answer
  health_ready waiting model =
      if not (is_ready model)
      then unhealthy 503 (codes "model is still loading")
      else ready_answer s waiting (dimensions t s model) (max_seq_length model)

  unfoldable pub engine_health : Option (Loaded M) → State → EngineResponse
  engine_health model st = record {
    engine_status = if is_ready model then codes "RUNNING" else codes "NOT_RUNNING";
    models_supported = codes "BAAI/bge-small-en-v1.5" ∷ [];
    total_processed_tasks = st.tasks_run;
    average_time_to_process = (st.total_time, max st.tasks_run 1);
    device = s.device;
  }

  -- What the service says while there is a model: it is ready, and a request that gets a slot runs.
  pub record IsServing (model : Option (Loaded M)) : Type 0 where
    pub loaded : Loaded M
    pub model_is : model ≡ some loaded
    pub ready :
        (waiting : ℕ)
        → health_ready waiting model
          ≡ healthy (record {
            status = codes "ready";
            model_name = s.model_name;
            dimensions = some (t.dimension loaded.model);
            max_seq_length = some loaded.max_seq_length;
            pending_jobs = some waiting;
          })
    pub running : (st : State) → (engine_health model st).engine_status ≡ codes "RUNNING"
    pub serves : (st : State) → (begin_request t s model true st).0 ≡ none

  ready-IsServing : (model : Option (Loaded M)) → is_ready model ≡ true → IsServing model
  unfolding is_ready health_ready ready_answer begin_request dimensions max_seq_length require_model
      engine_health
  ready-IsServing none e = cc e
  ready-IsServing (some loaded) e = record {
    loaded = loaded;
    model_is = refl;
    ready = λ waiting. refl;
    running = λ st. refl;
    serves = λ st. refl;
  }

  -- When the start of the service raises nothing, then the service says that it is ready, with the
  -- attributes of the model, and a request that gets a slot runs.
  pub start_up-IsServing :
      (took_ms : ℕ) (model m : Option (Loaded M)) → start_up t s took_ms model ≡ ok m → IsServing m
  start_up-IsServing took_ms model m h = ready-IsServing m (start_up-ready t s took_ms model m h)

  -- Whether or not there is a slot, a request is told that the model is still loading exactly when
  -- `health_ready` says so, and then it takes no slot and is not counted.
  pub loading_iff :
      (waiting : ℕ) (slot : Bool) (model : Option (Loaded M)) (st : State)
      → (begin_request t s model slot st
          ≡ (some (http_error 503 (codes "model is still loading")), st))
        ↔ (health_ready waiting model ≡ unhealthy 503 (codes "model is still loading"))
  unfolding is_ready health_ready ready_answer begin_request dimensions max_seq_length require_model
      detail_of
  loading_iff waiting slot none st = (λ h. refl, λ h. refl)
  loading_iff waiting true (some m) st = (λ h. cc, λ h. cc)
  loading_iff waiting false (some m) st = (
    λ h.
        let apart : ◌≡◌ {A = ℕ} (length (codes "server busy, retry shortly"))
            (length (codes "model is still loading")) =
          ap (λ q. length (detail_of q.0)) h in
        absurd (omega (arith, apart)),
    λ h. cc,
  )
