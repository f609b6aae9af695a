-- ===== src/ControlPlane/Router.antt =====
-- src/control_plane/router.py: the routes that run a task through the pipeline. FastAPI, which
-- validates the bodies and sends the replies, is not modelled.
pub mod Routes
pub mod Hitl
use aegis_os.Prelude.{
  ℕ, String, string_eq, ◌==◌, Bool, true, false, Option, none, some, List, [], ◌∷◌, ◌++◌, contains,
  if◌then◌else◌,
}
use aegis_os.Dict.{Dict}
use aegis_os.Decimal.{Decimal}
use aegis_os.Governance.Policy
use aegis_os.Governance.Session
use aegis_os.Watchdog.Budget
use aegis_os.Watchdog.Loop
use aegis_os.Watchdog.Loop.{LoopSignal}
use aegis_os.ControlPlane.Orchestrator.{
  OrchestratorRequest, LlmResponse, OrchestratorResult, Kind, permission, value, other, Error,
  missing_task_id, prompt_injection, policy_denied, policy_error, session_error, token_scope,
  permission_error, no_binding, budget_limit, budget_error, loop_halt, loop_velocity, loop_approval,
  loop_error, provider_error, audit_ordering, State, Result, returned, raised, Env,
}
use aegis_os.ControlPlane.Orchestrator.Stages.Run.{run}

-- An `HTTPException` with its status, or another exception.
pub data HttpError : Type 0 where
  http_error : ℕ → HttpError
  uncaught : HttpError

pub data Reply (A : Type 0) : Type 0 where
  replied : A → Reply A
  failed : HttpError → Reply A

pub data AgentType : Type 0 where
  finance hr it legal general : AgentType

abbrev pub agent_type_value : AgentType → String
agent_type_value finance = "finance"
agent_type_value hr = "hr"
agent_type_value it = "it"
agent_type_value legal = "legal"
agent_type_value general = "general"

pub record TaskRequest : Type 0 where
  pub task_id : String
  pub prompt : String
  pub description : String
  pub agent_type : AgentType
  pub requester_id : String
  pub model : String
  pub max_tokens : ℕ
  pub temperature : Decimal
  pub system_prompt : String
  pub metadata : Dict String String
  pub protect_outbound_request : Bool

pub record TaskResponse (Token : Type 0) : Type 0 where
  pub task_id : String
  pub agent_type : AgentType
  pub session_token : Token
  pub message : String
  pub tokens_used : ℕ
  pub model : String
  pub pii_found : List String

pub record ExecuteRequest (Token : Type 0) : Type 0 where
  pub task_id : String
  pub prompt : String
  pub agent_type : AgentType
  pub requester_id : String
  pub session_token : Option Token
  pub model : String
  pub max_tokens : ℕ
  pub temperature : Decimal
  pub system_prompt : String
  pub metadata : Dict String String
  pub protect_outbound_request : Bool

-- The classes `PermissionError` and `ValueError` of an exception, where it has one of these.
abbrev pub kind_of : Error → Kind
kind_of missing_task_id = value
kind_of (prompt_injection p) = value
kind_of policy_denied = permission
kind_of (policy_error Policy.opa_unavailable) = other
kind_of (policy_error Policy.transport) = other
kind_of (policy_error (Policy.http_status status)) = other
kind_of (policy_error Policy.bad_body) = value
kind_of (session_error (Session.value_error m)) = value
kind_of (session_error (Session.key_error m)) = other
kind_of (session_error Session.jwt_error) = other
kind_of (session_error Session.token_expired) = permission
kind_of (session_error (Session.token_revoked jti)) = permission
kind_of (session_error (Session.token_action jti action)) = permission
kind_of (session_error (Session.token_binding m)) = permission
kind_of (session_error (Session.dpop_proof m)) = permission
kind_of (session_error (Session.dpop_replay jti)) = permission
kind_of token_scope = permission
kind_of permission_error = permission
kind_of no_binding = value
kind_of (budget_limit a) = other
kind_of (budget_error e) = other
kind_of (loop_halt e) = other
kind_of (loop_velocity e) = other
kind_of (loop_approval e) = other
kind_of (loop_error (Loop.not_found id)) = other
kind_of (loop_error (Loop.token_velocity step delta max)) = other
kind_of (loop_error (Loop.pending_approval step)) = other
kind_of (loop_error (Loop.loop_detected streak max)) = other
kind_of (loop_error Loop.bad_value) = value
kind_of (provider_error kind) = kind
kind_of audit_ordering = other

abbrev pub status_of_kind : Kind → ℕ
status_of_kind permission = 403
status_of_kind value = 400
status_of_kind other = 500

-- The handlers of exceptions that both routes have.
pub status_of : Error → ℕ
status_of (budget_limit a) = 429
status_of err = status_of_kind (kind_of err)

-- `list(dict.fromkeys(…))`, after the keys that are there
pub from_keys : List String → List String → List String
from_keys seen [] = seen
from_keys seen (x ∷ xs) = from_keys (if contains seen x then seen else seen ++ x ∷ []) xs

module _ {Token : Type 0} where
  -- The fields that the routes leave to their defaults.
  abbrev pub pipeline_request : Decimal → ExecuteRequest Token → OrchestratorRequest Token
  pipeline_request cost_per_token r = record {
    task_id = some r.task_id;
    prompt = r.prompt;
    agent_type = agent_type_value r.agent_type;
    requester_id = r.requester_id;
    session_token = r.session_token;
    model = r.model;
    max_tokens = r.max_tokens;
    temperature = r.temperature;
    system_prompt = r.system_prompt;
    metadata = r.metadata;
    protect_outbound_request = r.protect_outbound_request;
    budget_session_id = none;
    cost_per_token = cost_per_token;
    loop_session_id = none;
    loop_signal = LoopSignal.no_progress;
    loop_token_delta = none;
  }

  -- A task is executed without a token.
  abbrev pub execution_of : TaskRequest → ExecuteRequest Token
  execution_of r = record {
    task_id = r.task_id;
    prompt = r.prompt;
    agent_type = r.agent_type;
    requester_id = r.requester_id;
    session_token = none;
    model = r.model;
    max_tokens = r.max_tokens;
    temperature = r.temperature;
    system_prompt = r.system_prompt;
    metadata = r.metadata;
    protect_outbound_request = r.protect_outbound_request;
  }

  abbrev pub task_response : AgentType → OrchestratorResult Token → TaskResponse Token
  task_response agent_type result = record {
    task_id = result.task_id;
    agent_type = agent_type;
    session_token = result.session_token;
    message = result.response.content;
    tokens_used = result.response.tokens_used;
    model = result.response.model;
    pii_found = from_keys [] (result.pii_found_in_prompt ++ result.pii_found_in_response);
  }

  pub reply : {A B : Type 0} → (A → B) → State Token × Result A → State Token × Reply B
  reply f (st, returned a) = (st, replied (f a))
  reply f (st, raised err) = (st, failed (http_error (status_of err)))

  -- `execute_task`, where the orchestrator may not have been configured
  pub execute_task :
      Decimal
      → Option (Env Token)
      → ExecuteRequest Token
      → State Token
      → State Token × Reply (OrchestratorResult Token)
  unfolding reply
  execute_task cost none r st = (st, failed uncaught)
  execute_task cost (some env) r st =
      reply (λ result. result) (run env (pipeline_request cost r) st)

  -- `route_task`
  pub route_task :
      Decimal
      → Option (Env Token)
      → TaskRequest
      → State Token
      → State Token × Reply (TaskResponse Token)
  unfolding reply
  route_task cost none r st = (st, failed uncaught)
  route_task cost (some env) r st =
      reply (task_response r.agent_type) (run env (pipeline_request cost (execution_of r)) st)
