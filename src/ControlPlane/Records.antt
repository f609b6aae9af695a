-- ===== src/ControlPlane/Records.antt =====
-- src/control_plane/scheduler.py: the records that the workflow and its activities exchange.
use aegis_os.Prelude.{ℕ, String, Bool, Option, List}
use aegis_os.Dict.{Dict}
use aegis_os.Decimal.{Decimal}
use aegis_os.Watchdog.Budget.{BudgetSession, HistoryEntry}
use aegis_os.Watchdog.Loop.{LoopSignal, ExecutionCheckpoint}

pub data WorkflowStatus : Type 0 where
  pending running completed failed human_intervention_required : WorkflowStatus

abbrev pub status_value : WorkflowStatus → String
status_value WorkflowStatus.pending = "pending"
status_value WorkflowStatus.running = "running"
status_value WorkflowStatus.completed = "completed"
status_value WorkflowStatus.failed = "failed"
status_value WorkflowStatus.human_intervention_required = "human_intervention_required"

pub data PendingApprovalState : Type 0 where
  not_required awaiting_approval approved denied timed_out : PendingApprovalState

abbrev pub approval_value : PendingApprovalState → String
approval_value PendingApprovalState.not_required = "not-required"
approval_value PendingApprovalState.awaiting_approval = "awaiting-approval"
approval_value PendingApprovalState.approved = "approved"
approval_value PendingApprovalState.denied = "denied"
approval_value PendingApprovalState.timed_out = "timed-out"

pub record ApprovalSignalPayload : Type 0 where
  pub approver_id : String
  pub reason : String
  pub approved : Bool

-- The fields of the loop detector are not read by the workflow.
pub record WorkflowInput : Type 0 where
  pub task_id : String
  pub prompt : String
  pub agent_type : String
  pub requester_id : String
  pub model : String
  pub max_tokens : ℕ
  pub temperature : Decimal
  pub system_prompt : String
  pub protect_outbound_request : Bool
  pub session_id : Option String
  pub budget_session_id : Option String
  pub budget_limit_usd : Option Decimal
  pub cost_per_token_usd : Decimal
  pub projected_spend_usd : Decimal
  pub traceparent : Option String

pub record PrePiiScrubResult : Type 0 where
  pub sanitized_prompt : String
  pub pii_types : List String

pub record PolicyEvalInput : Type 0 where
  pub task_id : String
  pub sanitized_prompt : String
  pub agent_type : String
  pub requester_id : String
  pub model : String
  pub traceparent : Option String

pub record PolicyEvalResult : Type 0 where
  pub allowed : Bool
  pub action : String
  pub fields : List String
  pub sanitized_prompt : String
  pub extra_pii_types : List String

pub record JitTokenInput : Type 0 where
  pub agent_type : String
  pub requester_id : String
  pub task_id : String
  pub protect_outbound_request : Bool
  pub session_id : Option String
  pub allowed_actions : List String
  pub role : Option String
  pub rotation_key : Option String
  pub traceparent : Option String

pub record JitTokenResult : Type 0 where
  pub token : String
  pub jti : String
  pub protected_private_key_pem : Option String
  pub protected_public_jwk : Option (Dict String String)

pub record LlmInvokeInput : Type 0 where
  pub task_id : String
  pub token : String
  pub sanitized_prompt : String
  pub agent_type : String
  pub requester_id : String
  pub model : String
  pub max_tokens : ℕ
  pub temperature : Decimal
  pub system_prompt : String
  pub protect_outbound_request : Bool
  pub session_id : Option String
  pub allowed_actions : List String
  pub role : Option String
  pub rotation_key : Option String
  pub protected_private_key_pem : Option String
  pub protected_public_jwk : Option (Dict String String)
  pub traceparent : Option String

pub record LlmInvokeResult : Type 0 where
  pub content : String
  pub tokens_used : ℕ
  pub model : String
  pub provider : String
  pub retry_count : ℕ

pub record PostSanitizeInput : Type 0 where
  pub task_id : String
  pub agent_type : String
  pub content : String
  pub tokens_used : ℕ
  pub model : String
  pub provider : String
  pub session_id : Option String
  pub total_retries : ℕ
  pub traceparent : Option String

pub record PostSanitizeResult : Type 0 where
  pub sanitized_content : String
  pub pii_types : List String

-- A decimal in a message is its value, not its text.
pub record BudgetPreCheckInput : Type 0 where
  pub task_id : String
  pub agent_type : String
  pub budget_session_id : String
  pub budget_limit_usd : Decimal
  pub history : List HistoryEntry
  pub traceparent : Option String

pub record BudgetRecordInput : Type 0 where
  pub task_id : String
  pub agent_type : String
  pub budget_session_id : String
  pub budget_limit_usd : Decimal
  pub tokens_used : ℕ
  pub cost_per_token_usd : Decimal
  pub history : List HistoryEntry
  pub traceparent : Option String

-- A snapshot of a budget session is the session that it describes.
pub record BudgetPreCheckResult : Type 0 where
  pub snapshot : BudgetSession

pub record BudgetRecordResult : Type 0 where
  pub snapshot : BudgetSession
  pub history : List HistoryEntry

pub record LoopRecordInput : Type 0 where
  pub task_id : String
  pub agent_type : String
  pub loop_session_id : String
  pub token_delta : ℕ
  pub signal : LoopSignal
  pub description : String
  pub checkpoint : Option ExecutionCheckpoint
  pub max_agent_steps : Option ℕ
  pub max_token_velocity : Option ℕ
  pub traceparent : Option String

pub record LoopRecordResult : Type 0 where
  pub checkpoint : ExecutionCheckpoint
  pub step_count : ℕ
  pub total_tokens : ℕ
  pub loop_detected : Bool
  pub intervention_required : Bool

pub record WorkflowOutput : Type 0 where
  pub task_id : String
  pub content : String
  pub sanitized_prompt : String
  pub pii_types : List String
  pub tokens_used : ℕ
  pub model : String
  pub workflow_status : String
  pub approval_state : String
  pub approver_id : Option String
  pub reason : Option String
  pub budget_spent_usd : Option Decimal

-- The texts among the details of an audit event.
pub record WorkflowAuditInput : Type 0 where
  pub event : String
  pub outcome : String
  pub stage : String
  pub task_id : String
  pub agent_type : String
  pub session_id : Option String
  pub workflow_status : String
  pub event_type : Option String
  pub details : Dict String String
