-- ===== src/ControlPlane/Inputs.antt =====
-- src/control_plane/scheduler.py: what `AgentTaskWorkflow.run` gives to its activities and gets from them, and
-- the other values that it makes.
use aegis_os.Prelude.{
  ℕ, String, Option, none, some, List, [], ◌∷◌, ◌++◌, contains, if◌then◌else◌, string_eq,
}
use Prim.Native.String.{◌++◌ as str_append}
use aegis_os.Prelude.Int.{pos}
use aegis_os.Decimal.{Decimal}
use aegis_os.ControlPlane.Records.{
  approval_value, ApprovalSignalPayload, WorkflowInput, PrePiiScrubResult, PolicyEvalInput,
  PolicyEvalResult, JitTokenInput, JitTokenResult, LlmInvokeInput, LlmInvokeResult,
  PostSanitizeInput, PostSanitizeResult, BudgetPreCheckInput, BudgetRecordInput, WorkflowOutput,
  WorkflowAuditInput,
}
use aegis_os.ControlPlane.Approval.{WorkflowState, Signal}

-- What comes of "LLMInvoke": a result, or a failure with the type and the message of its cause,
-- where that is an `ApplicationError`, and the retry state.
pub data LlmOutcome : Type 0 where
  answered : LlmInvokeResult → LlmOutcome
  failed : Option (String × String) → String → LlmOutcome

-- What comes of each activity, in all its attempts; the budget activities give the cost so far.
pub record Activities : Type 0 where
  pub pre_pii_scrub : WorkflowInput → Option PrePiiScrubResult
  pub policy_eval : PolicyEvalInput → Option PolicyEvalResult
  pub jit_token_issue : JitTokenInput → Option JitTokenResult
  pub budget_pre_check : BudgetPreCheckInput → Option Decimal
  pub llm_invoke : LlmInvokeInput → LlmOutcome
  pub budget_record_spend : BudgetRecordInput → Option Decimal
  pub post_sanitize : PostSanitizeInput → Option PostSanitizeResult
  pub workflow_audit : WorkflowAuditInput → Option (Unit {0})

-- What reaches a workflow from outside: the signals before the gate and at the gate, the time then,
-- and how a decimal is written.
pub record Outside : Type 0 where
  pub early : List Signal
  pub at_gate : List Signal
  pub now : ℕ
  pub text_of : Decimal → String

abbrev pub policy_input : WorkflowInput → PrePiiScrubResult → PolicyEvalInput
policy_input inp s = record {
  task_id = inp.task_id;
  sanitized_prompt = s.sanitized_prompt;
  agent_type = inp.agent_type;
  requester_id = inp.requester_id;
  model = inp.model;
  traceparent = inp.traceparent;
}

-- The rotation key of the task is its id after the prefix "llm:".
abbrev pub rotation_key : WorkflowInput → Option String
rotation_key inp = some (str_append "llm:" inp.task_id)

abbrev pub token_input : WorkflowInput → JitTokenInput
token_input inp = record {
  agent_type = inp.agent_type;
  requester_id = inp.requester_id;
  task_id = inp.task_id;
  protect_outbound_request = inp.protect_outbound_request;
  session_id = inp.session_id;
  allowed_actions = "llm:complete" ∷ [];
  role = none;
  rotation_key = rotation_key inp;
  traceparent = inp.traceparent;
}

abbrev pub llm_input : WorkflowInput → PolicyEvalResult → JitTokenResult → LlmInvokeInput
llm_input inp p t = record {
  task_id = inp.task_id;
  token = t.token;
  sanitized_prompt = p.sanitized_prompt;
  agent_type = inp.agent_type;
  requester_id = inp.requester_id;
  model = inp.model;
  max_tokens = inp.max_tokens;
  temperature = inp.temperature;
  system_prompt = inp.system_prompt;
  protect_outbound_request = inp.protect_outbound_request;
  session_id = inp.session_id;
  allowed_actions = "llm:complete" ∷ [];
  role = none;
  rotation_key = rotation_key inp;
  protected_private_key_pem = t.protected_private_key_pem;
  protected_public_jwk = t.protected_public_jwk;
  traceparent = inp.traceparent;
}

abbrev pub pre_check_input : WorkflowInput → String → Decimal → BudgetPreCheckInput
pre_check_input inp budget_session_id limit = record {
  task_id = inp.task_id;
  agent_type = inp.agent_type;
  budget_session_id = budget_session_id;
  budget_limit_usd = limit;
  history = [];
  traceparent = inp.traceparent;
}

abbrev pub spend_input : WorkflowInput → String → Decimal → LlmInvokeResult → BudgetRecordInput
spend_input inp budget_session_id limit l = record {
  task_id = inp.task_id;
  agent_type = inp.agent_type;
  budget_session_id = budget_session_id;
  budget_limit_usd = limit;
  tokens_used = l.tokens_used;
  cost_per_token_usd = inp.cost_per_token_usd;
  history = [];
  traceparent = inp.traceparent;
}

abbrev pub post_input : WorkflowInput → LlmInvokeResult → PostSanitizeInput
post_input inp l = record {
  task_id = inp.task_id;
  agent_type = inp.agent_type;
  content = l.content;
  tokens_used = l.tokens_used;
  model = l.model;
  provider = l.provider;
  session_id = inp.session_id;
  total_retries = l.retry_count;
  traceparent = inp.traceparent;
}

abbrev pub denied_output :
    WorkflowInput
    → PrePiiScrubResult
    → PolicyEvalResult
    → ApprovalSignalPayload
    → WorkflowState
    → WorkflowOutput
denied_output inp s p decision st = record {
  task_id = inp.task_id;
  content = "";
  sanitized_prompt = p.sanitized_prompt;
  pii_types = s.pii_types;
  tokens_used = 0;
  model = inp.model;
  workflow_status = st.workflow_status;
  approval_state = approval_value st.approval_state;
  approver_id = some decision.approver_id;
  reason = some decision.reason;
  budget_spent_usd = none;
}

-- `if t not in all_pii_types: all_pii_types.append(t)`
abbrev pub merge_types : List String → List String → List String
merge_types types [] = types
merge_types types (t ∷ ts) = merge_types (if contains types t then types else types ++ t ∷ []) ts

-- `Decimal("50.00")`
abbrev pub approval_threshold : Decimal
approval_threshold = record { coefficient = pos 5000; scale = 2 }

-- The session and the limit of the budget, where both are given.
abbrev pub budget_of : Option String → Option Decimal → Option (String × Decimal)
budget_of none limit = none
budget_of (some id) none = none
budget_of (some id) (some limit) = some (id, limit)

-- The error types that end the workflow as failed.
abbrev pub fatal_types : List String
fatal_types = "PolicyDeniedError" ∷ "TokenScopeError" ∷ "TokenExpiredError" ∷ []

abbrev pub with_status : String → WorkflowState → WorkflowState
with_status status st = record st { workflow_status = status }

-- The activity "WorkflowAudit" after a failure of "LLMInvoke".
abbrev pub failure_audit :
    String
    → Option String
    → List (String × String)
    → WorkflowInput
    → WorkflowState
    → WorkflowAuditInput
failure_audit event event_type details inp st = record {
  event = event;
  outcome = "error";
  stage = "llm-invoke";
  task_id = inp.task_id;
  agent_type = inp.agent_type;
  session_id = inp.session_id;
  workflow_status = st.workflow_status;
  event_type = event_type;
  details = details;
}
