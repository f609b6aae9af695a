-- ===== src/ControlPlane/Orchestrator.antt =====
-- src/control_plane/orchestrator.py: what the pipeline is given, its state and errors, and the guard
-- around a stage. The provider's adapter, the clock and the tracer are a parameter.
pub mod Stages
use aegis_os.Prelude.{
  ℕ, suc, ◌+◌, String, Bool, true, false, Option, none, some, List, [], ◌∷◌, ◌++◌, if◌then◌else◌,
}
use aegis_os.Prelude.Int.{pos}
use aegis_os.Dict.{Dict}
use aegis_os.Decimal.{Decimal}
use aegis_os.Audit.{
  AuditLogger, DateTime, Event, Kwargs, Outcome, stage_event, text, texts, uuid, num,
}
use aegis_os.Governance.Guardrails.{TextTools, Pattern}
use aegis_os.Governance.Policy
use aegis_os.Governance.Policy.{PolicyInput, Posted}
use aegis_os.Governance.Session
use aegis_os.Governance.Session.{Jose, Settings, SessionManager}
use aegis_os.Governance.Dpop.{Proofs, Jwk}
use aegis_os.Watchdog.Budget
use aegis_os.Watchdog.Budget.{BudgetEnforcer, Alert}
use aegis_os.Watchdog.Loop
use aegis_os.Watchdog.Loop.{LoopDetector, LoopSignal}
use aegis_os.ControlPlane.Steps
use aegis_os.ControlPlane.Steps.{Step}
pub use aegis_os.ControlPlane.Steps.{returned, raised, pure, raise}
unfoldable pub use aegis_os.ControlPlane.Steps.{continue, recover, handle, ◌>>=◌, ◌>>◌}

-- A task id is the text of its UUID. A session token that is empty counts as none.
pub record OrchestratorRequest (Token : Type 0) : Type 0 where
  pub task_id : Option String
  pub prompt : String
  pub agent_type : String
  pub requester_id : String
  pub session_token : Option Token
  pub model : String
  pub max_tokens : ℕ
  pub temperature : Decimal
  pub system_prompt : String
  pub metadata : Dict String String
  pub protect_outbound_request : Bool
  pub budget_session_id : Option ℕ
  pub cost_per_token : Decimal
  pub loop_session_id : Option ℕ
  pub loop_signal : LoopSignal
  pub loop_token_delta : Option ℕ

-- `LLMRequest`, with the entries of its metadata as fields: "aegis_token", and "aegis_dpop_proof",
-- beside which "aegis_protected" is "true".
pub record LlmRequest (Token : Type 0) : Type 0 where
  pub prompt : String
  pub model : String
  pub max_tokens : ℕ
  pub temperature : Decimal
  pub system_prompt : String
  pub aegis_token : Token
  pub aegis_dpop_proof : Option String

pub record LlmResponse : Type 0 where
  pub content : String
  pub tokens_used : ℕ
  pub model : String
  pub provider : String
  pub finish_reason : String

pub record OrchestratorResult (Token : Type 0) : Type 0 where
  pub task_id : String
  pub response : LlmResponse
  pub session_token : Token
  pub sanitized_prompt : String
  pub pii_found_in_prompt : List String
  pub pii_found_in_response : List String

-- The built-in class of an exception that is not the program's own, as handlers tell them apart.
pub data Kind : Type 0 where
  permission value other : Kind

-- What comes of a call of the provider's adapter.
pub data Completion : Type 0 where
  failed : Kind → Completion
  completed : LlmResponse → Completion

-- The exceptions that leave the pipeline: its own, and those of the parts that it calls.
pub data Error : Type 0 where
  missing_task_id : Error
  prompt_injection : Pattern → Error
  policy_denied : Error
  policy_error : Policy.Error → Error
  session_error : Session.Error → Error
  token_scope : Error
  permission_error : Error
  no_binding : Error
  budget_limit : Alert → Error
  budget_error : Budget.Error → Error
  loop_halt loop_velocity loop_approval : Loop.Error → Error
  loop_error : Loop.Error → Error
  provider_error : Kind → Error
  audit_ordering : Error

-- `_CONTROLLED_EXC`
abbrev pub is_controlled : Error → Bool
is_controlled missing_task_id = false
is_controlled (prompt_injection p) = false
is_controlled policy_denied = true
is_controlled (policy_error e) = false
is_controlled (session_error (Session.value_error m)) = false
is_controlled (session_error (Session.key_error m)) = false
is_controlled (session_error Session.jwt_error) = false
is_controlled (session_error Session.token_expired) = true
is_controlled (session_error (Session.token_revoked jti)) = true
is_controlled (session_error (Session.token_action jti action)) = false
is_controlled (session_error (Session.token_binding m)) = false
is_controlled (session_error (Session.dpop_proof m)) = false
is_controlled (session_error (Session.dpop_replay jti)) = false
is_controlled token_scope = true
is_controlled permission_error = false
is_controlled no_binding = false
is_controlled (budget_limit a) = true
is_controlled (budget_error e) = false
is_controlled (loop_halt e) = true
is_controlled (loop_velocity e) = true
is_controlled (loop_approval e) = true
is_controlled (loop_error e) = false
is_controlled (provider_error kind) = false
is_controlled audit_ordering = false

-- The parts that the pipeline holds, the labels that the counter of errors was increased with, the
-- requests that were sent to the provider, and how often the clock and `uuid4` were read.
pub record State (Token : Type 0) : Type 0 where
  pub sessions : SessionManager
  pub audit : AuditLogger
  pub budget : Option BudgetEnforcer
  pub loop : Option LoopDetector
  pub errors : List (String × String)
  pub sent : List (LlmRequest Token)
  pub readings : ℕ

-- What surrounds the pipeline. The n-th reading of the clock, of `uuid4` and of the key generator is
-- theirs at n; the adapter may share the session manager.
pub record Env (Token : Type 0) : Type 0 where
  pub jose : Jose Token
  pub settings : Settings
  pub proofs : Proofs Token
  pub tools : TextTools
  pub opa : PolicyInput → Posted
  pub complete : LlmRequest Token → SessionManager → SessionManager × Completion
  pub outbound_request_binding : LlmRequest Token → Option (String × String)
  pub clock : ℕ → ℕ
  pub uuid4 : ℕ → String
  pub key_pair : ℕ → String × Jwk
  pub traceparent : String → String
  pub message : Error → String

-- A step of the pipeline returns the state as it leaves it, also where it raises.
abbrev pub Result : Type 0 → Type 0
Result A = Steps.Result Error A

abbrev pub M : Type 0 → Type 0 → Type 0
M Token A = Step (State Token) Error A

module _ {Token : Type 0} where
  -- The number of readings before this one.
  pub reading : M Token ℕ
  reading st = (record st { readings = suc st.readings }, returned st.readings)

  pub after_audit : State Token → Option AuditLogger → State Token × Result (Unit {0})
  after_audit st none = (st, raised audit_ordering)
  after_audit st (some audit) = (record st { audit = audit }, returned tt)

  module _ (env : Env Token) (task_id : String) (r : OrchestratorRequest Token) where
    -- `self._audit.stage_event` at the time of the n-th reading
    pub audit_at : Outcome → String → String → Kwargs → ℕ → M Token (Unit {0})
    audit_at outcome event stage kwargs n st = after_audit st (
        stage_event outcome
          (record {
            event = event;
            task_id = task_id;
            agent_type = r.agent_type;
            stage = stage;
            traceparent = env.traceparent stage;
            timestamp_override = none;
            kwargs = kwargs;
          })
          (record { wall = pos (env.clock n); utc_offset = some (pos 0) }) st.audit)

    pub audited : Outcome → String → String → Kwargs → M Token (Unit {0})
    audited outcome event stage kwargs = reading >>= audit_at outcome event stage kwargs

    -- The counter of errors is increased; an error that is not a decision of the pipeline has an
    -- event of its own.
    pub count_error : String → M Token (Unit {0})
    count_error key st = (record st { errors = (key, r.agent_type) ∷ st.errors }, returned tt)

    pub report : {A : Type 0} → String → Error → M Token A
    report span err =
        if is_controlled err
        then raise err
        else (audited Outcome.failure "stage.error" span
              (("error_message", text (env.message err)) ∷ [])
            >> raise err)

    pub on_error : {A : Type 0} → String → String → Error → M Token A
    on_error span key err = count_error key >> report span err

    -- `_span_stage`
    pub stage : {A : Type 0} → String → String → M Token A → M Token A
    stage span key body = handle body (on_error span key)
