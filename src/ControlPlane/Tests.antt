-- ===== src/ControlPlane/Tests.antt =====
-- Runs of the workflow of src/control_plane/scheduler.py.
mod Pipeline
mod Working
mod Gauges
use aegis_os.Prelude.{ℕ, ◌≡◌, refl, true, false, some, none, [], ◌∷◌, List, Option}
use aegis_os.Prelude.Int.{pos}
use aegis_os.Decimal.{Decimal}
use aegis_os.ControlPlane.Records.{
  ApprovalSignalPayload, WorkflowInput, PrePiiScrubResult, PolicyEvalResult, JitTokenResult,
  LlmInvokeResult, PostSanitizeResult, WorkflowAuditInput,
}
use aegis_os.ControlPlane.Approval.{
  Signal, approve, deny, new_workflow, returned, await_pending_approval, execute, deliver_all,
  decide, go_on,
}
use aegis_os.ControlPlane.Approval.Signals.{last_decision, await_pending_approval-approved}
use aegis_os.ControlPlane.Inputs.{Activities, Outside, answered}
use aegis_os.ControlPlane.Workflow.{run}
use aegis_os.ControlPlane.Workflow.Dispatch.{Dispatches, run-Dispatches}
use aegis_os.ControlPlane.Workflow.Requests.{requests}

abbrev pub cents : ℕ → Decimal
cents n = record { coefficient = pos n; scale = 2 }

abbrev pub task : WorkflowInput
task = record {
  task_id = "task-1";
  prompt = "pay 10 to anna@example.org";
  agent_type = "finance";
  requester_id = "tim";
  model = "gpt-4o-mini";
  max_tokens = 1024;
  temperature = record { coefficient = pos 7; scale = 1 };
  system_prompt = "";
  protect_outbound_request = false;
  session_id = none;
  budget_session_id = some "b-1";
  budget_limit_usd = some (cents 10000);
  cost_per_token_usd = cents 1;
  projected_spend_usd = cents 6000;
  traceparent = none;
}

abbrev scrubbed : PrePiiScrubResult
scrubbed = record { sanitized_prompt = "pay 10 to [EMAIL]"; pii_types = "email" ∷ [] }

abbrev allowed : PolicyEvalResult
allowed = record {
  allowed = true;
  action = "allow";
  fields = [];
  sanitized_prompt = "pay 10 to [EMAIL]";
  extra_pii_types = [];
}

abbrev issued : JitTokenResult
issued = record {
  token = "token";
  jti = "jti-1";
  protected_private_key_pem = none;
  protected_public_jwk = none;
}

abbrev answer : LlmInvokeResult
answer = record {
  content = "done";
  tokens_used = 12;
  model = "gpt-4o-mini";
  provider = "openai";
  retry_count = 0;
}

abbrev clean : PostSanitizeResult
clean = record { sanitized_content = "done"; pii_types = [] }

abbrev audited : WorkflowAuditInput → Option (Unit {0})
audited event = some tt

abbrev activities : Activities
activities = record {
  pre_pii_scrub = λ i. some scrubbed;
  policy_eval = λ i. some allowed;
  jit_token_issue = λ i. some issued;
  budget_pre_check = λ i. some (cents 0);
  llm_invoke = λ i. answered answer;
  budget_record_spend = λ i. some (cents 12);
  post_sanitize = λ i. some clean;
  workflow_audit = audited;
}

abbrev yes_payload : ApprovalSignalPayload
yes_payload = record { approver_id = "ada"; reason = "fine"; approved = true }

abbrev no_payload : ApprovalSignalPayload
no_payload = record { approver_id = "bob"; reason = "too much"; approved = false }

abbrev signals : List Signal
signals = deny no_payload ∷ approve yes_payload ∷ []

abbrev pub outside : Outside
outside = record {
  early = approve yes_payload ∷ [];
  at_gate = signals;
  now = 5;
  text_of = λ d. "60.00";
}

run-Dispatches_example :
    Dispatches activities outside task (requests (run activities outside task).0.executed)
run-Dispatches_example = run-Dispatches activities outside task

approved_at_gate :
    (await_pending_approval audited signals 5 "60.00" task new_workflow).1 ≡ returned yes_payload
unfolding await_pending_approval execute deliver_all decide go_on
approved_at_gate = refl

await_pending_approval-approved_example : last_decision none signals ≡ some yes_payload
await_pending_approval-approved_example =
    await_pending_approval-approved audited task refl signals 5 "60.00" new_workflow
      approved_at_gate
