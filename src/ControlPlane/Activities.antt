-- ===== src/ControlPlane/Activities.antt =====
-- src/control_plane/scheduler.py: `AegisActivities` and `WorkflowAuditActivities`, the worker that runs
-- the activities of the workflow: its parts, what surrounds it, its errors and its audit events. The
-- spans of the tracer are left out.
pub mod Rules
pub mod Screening
pub mod Invocation
pub mod Spending
pub mod Looping
use aegis_os.Prelude.{
  ℕ, suc, ◌+◌, String, ◌==◌, string_eq, Bool, true, false, Option, none, some, List, [], ◌∷◌, ◌++◌,
  if◌then◌else◌,
}
use aegis_os.Prelude.Int.{pos}
use aegis_os.Audit.{
  AuditLogger, DateTime, Event, Kwargs, Level, Outcome, LifecycleEvent, lifecycle_text, text, plain,
  stage_event, lifecycle_event,
}
use aegis_os.Governance.Guardrails.{TextTools, Pattern}
use aegis_os.Governance.Policy
use aegis_os.Governance.Policy.{PolicyInput, Posted}
use aegis_os.Governance.Session
use aegis_os.Governance.Session.{Jose, Settings, SessionManager, TokenClaims}
use aegis_os.Governance.Session.Validation.{validate_token}
use aegis_os.Governance.Dpop.{Proofs, Jwk}
use aegis_os.Watchdog.Budget
use aegis_os.Watchdog.Budget.{BudgetEnforcer, Alert}
use aegis_os.Watchdog.Loop
use aegis_os.ControlPlane.Steps.{Result, returned, raised, Step, ◌>>=◌, ◌>>◌, pure, raise}
use aegis_os.ControlPlane.Orchestrator.{LlmRequest, Completion, Kind}

-- The message of an `ApplicationError`: the data that it is made from.
pub data Message : Type 0 where
  unavailable : Message
  denied : (agent_type : String) (reasons : List String) → Message
  exhausted : Alert → Message
  halted : Loop.Error → (step_count total_tokens : ℕ) → Message

-- The exceptions that leave an activity. An `ApplicationError` has its type, and is not retried.
pub data Error : Type 0 where
  missing_task_id : String → Error
  prompt_injection : Pattern → Error
  application_error : String → Message → Error
  policy_error : Policy.Error → Error
  session_error : Session.Error → Error
  budget_error : Budget.Error → Error
  loop_error : Loop.Error → Error
  no_key_material no_binding bad_uuid : Error
  provider_error : Kind → Error
  audit_ordering : Error

-- What the worker holds (the budget enforcer has a log of its own), the requests that it has sent to the provider, and how often the clock,
-- `uuid4` and the key generator were read.
pub record Worker : Type 0 where
  pub sessions : SessionManager
  pub audit : AuditLogger
  pub budget : BudgetEnforcer
  pub sent : List (LlmRequest String)
  pub readings : ℕ

-- What surrounds the worker, where a token is its text. The n-th reading of the clock and of the
-- generators is theirs at n; the adapter may share the session manager. A traceparent belongs to a
-- span and to the traceparent that the activity was given. The defaults are the settings'.
pub record Env : Type 0 where
  pub jose : Jose String
  pub settings : Settings
  pub proofs : Proofs String
  pub tools : TextTools
  pub opa : PolicyInput → Posted
  pub complete : LlmRequest String → SessionManager → SessionManager × Completion
  pub outbound_request_binding : LlmRequest String → Option (String × String)
  pub clock : ℕ → ℕ
  pub uuid4 : ℕ → String
  pub key_pair : ℕ → String × Jwk
  pub uuid : String → Option ℕ
  pub traceparent : String → Option String → String
  pub message : Error → String
  pub max_agent_steps : ℕ
  pub max_token_velocity : ℕ

-- An activity returns the worker as it leaves it, also where it raises.
abbrev pub M : Type 0 → Type 0
M A = Step Worker Error A

-- `activity.info()`. Temporal counts the attempts from one: `retries` is the number less one.
pub record Info : Type 0 where
  pub workflow_id : Option String
  pub activity_id : String
  pub retries : ℕ

-- The number of readings before this one.
unfoldable pub reading : M ℕ
reading st = (record st { readings = suc st.readings }, returned st.readings)

-- A call of a part leaves it as the part's own state says, and raises its errors.
module _ {A : Type 0} where
  unfoldable pub from_session : Worker → Session.Call A → Worker × Result Error A
  from_session st (m, Session.returned a) = (record st { sessions = m }, returned a)
  from_session st (m, Session.raised err) = (record st { sessions = m }, raised (session_error err))

  unfoldable pub in_sessions : (SessionManager → Session.Call A) → M A
  in_sessions f st = from_session st (f st.sessions)

  pub session_result : Session.Result A → M A
  session_result (Session.returned a) = pure a
  session_result (Session.raised err) = raise (session_error err)

  unfoldable pub from_budget : Worker → Budget.Call A → Worker × Result Error A
  from_budget st (e, Budget.returned a) = (record st { budget = e }, returned a)
  from_budget st (e, Budget.raised err) = (record st { budget = e }, raised (budget_error err))

  unfoldable pub in_budget : (BudgetEnforcer → Budget.Call A) → M A
  in_budget f st = from_budget st (f st.budget)

unfoldable pub uuid_or_raise : Option ℕ → M ℕ
uuid_or_raise none = raise bad_uuid
uuid_or_raise (some id) = pure id

-- What all events of an activity have in common.
pub record Call : Type 0 where
  pub task_id : String
  pub agent_type : String
  pub span : String
  pub traceparent : Option String

unfoldable pub after_audit : Worker → Option AuditLogger → Worker × Result Error (Unit {0})
after_audit st none = (st, raised audit_ordering)
after_audit st (some audit) = (record st { audit = audit }, returned tt)

unfoldable pub in_audit : (AuditLogger → Option AuditLogger) → M (Unit {0})
in_audit f st = after_audit st (f st.audit)

module _ (env : Env) where
  -- `_require_task_id`; an id that is missing is empty.
  unfoldable pub require_task_id : String → String → String → M (Unit {0})
  require_task_id task_id stage agent_type =
      if task_id == ""
      then (do
        in_audit (λ a. some (
            plain Level.error "audit.propagation_error"
              (("stage", text stage)
                ∷ ("task_id", text "missing-task-id")
                ∷ ("agent_type", text agent_type)
                ∷ ("error_message", text "Temporal activity input is missing task_id")
                ∷ [])
              a))
        raise (missing_task_id stage))
      else pure tt

  module _ (c : Call) where
    abbrev pub event_of : String → String → Kwargs → Event
    event_of event stage kwargs = record {
      event = event;
      task_id = c.task_id;
      agent_type = c.agent_type;
      stage = stage;
      traceparent = env.traceparent c.span c.traceparent;
      timestamp_override = none;
      kwargs = kwargs;
    }

    abbrev pub time_at : ℕ → DateTime
    time_at n = record { wall = pos (env.clock n); utc_offset = some (pos 0) }

    -- `self._audit.stage_event`
    unfoldable pub log : Outcome → String → String → Kwargs → M (Unit {0})
    log outcome event stage kwargs = do
      n ← reading
      in_audit (stage_event outcome (event_of event stage kwargs) (time_at n))

    -- `self._audit.lifecycle_event`
    pub log_lifecycle : String → String → Option String → String → String → Kwargs → M (Unit {0})
    log_lifecycle event event_type session_id workflow_status stage kwargs = do
      n ← reading
      in_audit (
          lifecycle_event event_type session_id workflow_status (event_of event stage kwargs)
            (time_at n))

  -- `self._session_mgr.validate_token`
  pub validated : String → M TokenClaims
  validated token = do
    t ← reading
    purged ← reading
    checked ← reading
    in_sessions (
        validate_token env.jose env.settings token (env.clock t) (env.clock purged)
          (env.clock checked))
