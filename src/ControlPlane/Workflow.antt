-- ===== src/ControlPlane/Workflow.antt =====
-- src/control_plane/scheduler.py: `AgentTaskWorkflow.run`, a function for what follows each activity.
pub mod Requests
pub mod Dispatch
pub mod Outcome
use aegis_os.Prelude.{
  ℕ, String, Bool, true, false, Option, none, some, List, [], ◌∷◌, ◌++◌, contains, if◌then◌else◌,
  string_eq,
}
use Prim.Native.String.{◌++◌ as str_append}
use aegis_os.Prelude.Int.{pos}
use aegis_os.Decimal.{Decimal, less}
use aegis_os.Audit.{LifecycleEvent, lifecycle_text}
use aegis_os.Watchdog.Budget.{HistoryEntry}
use aegis_os.ControlPlane.Records.{
  WorkflowStatus, status_value, PendingApprovalState, approval_value, ApprovalSignalPayload,
  WorkflowInput, PrePiiScrubResult, PolicyEvalInput, PolicyEvalResult, JitTokenInput,
  JitTokenResult, LlmInvokeInput, LlmInvokeResult, PostSanitizeInput, PostSanitizeResult,
  BudgetPreCheckInput, BudgetRecordInput, WorkflowOutput, WorkflowAuditInput,
}
use aegis_os.ControlPlane.Approval.{
  Activity, pre_pii_scrub, policy_eval, jit_token_issue, budget_pre_check, llm_invoke,
  budget_record_spend, post_sanitize, workflow_audit, WorkflowState, activity_error,
  application_error, hitl_escalation, Result, returned, raised, Call, new_workflow, Signal,
  deliver_all, perform, execute, await_pending_approval,
}
use aegis_os.ControlPlane.Inputs.{
  LlmOutcome, Activities, Outside, policy_input, rotation_key, token_input, llm_input,
  pre_check_input, spend_input, post_input, denied_output, merge_types, approval_threshold,
  budget_of, fatal_types, with_status, failure_audit, answered, failed,
}

module _ (env : Activities) (outside : Outside) (inp : WorkflowInput) where
  -- The last part of `run`.
  finish :
      PrePiiScrubResult
      → PolicyEvalResult
      → LlmInvokeResult
      → Option Decimal
      → PostSanitizeResult
      → WorkflowState
      → Call WorkflowOutput
  finish s p l spent post st =
      let st' = with_status (status_value WorkflowStatus.completed) st in
      (
        st',
        returned (record {
          task_id = inp.task_id;
          content = post.sanitized_content;
          sanitized_prompt = p.sanitized_prompt;
          pii_types = merge_types (merge_types s.pii_types p.extra_pii_types) post.pii_types;
          tokens_used = l.tokens_used;
          model = l.model;
          workflow_status = "completed";
          approval_state = approval_value st.approval_state;
          approver_id = none;
          reason = none;
          budget_spent_usd = spent;
        }),
      )

  -- Stage 5
  sanitize :
      PrePiiScrubResult
      → PolicyEvalResult
      → LlmInvokeResult
      → Option Decimal
      → WorkflowState
      → Call WorkflowOutput
  unfolding execute finish
  sanitize s p l spent =
      execute (post_sanitize (post_input inp l)) (env.post_sanitize (post_input inp l))
        (finish s p l spent)

  charge :
      PrePiiScrubResult
      → PolicyEvalResult
      → LlmInvokeResult
      → Option Decimal
      → Option (String × Decimal)
      → WorkflowState
      → Call WorkflowOutput
  unfolding execute sanitize
  charge s p l spent none = sanitize s p l spent
  charge s p l spent (some (id, limit)) =
      execute (budget_record_spend (spend_input inp id limit l))
        (env.budget_record_spend (spend_input inp id limit l)) (λ cost. sanitize s p l (some cost))

  -- An error of a kind that no retry mends: the workflow fails.
  fail : String → String → WorkflowState → Call WorkflowOutput
  unfolding execute
  fail error_type message st =
      let st' = with_status (status_value WorkflowStatus.failed) st in
      let event =
        failure_audit "workflow.failed" (some (lifecycle_text LifecycleEvent.failed))
          (("error_type", error_type) ∷ ("reason", message) ∷ []) inp st' in
      execute (workflow_audit event) (env.workflow_audit event)
        (λ done st2. (st2, raised (application_error error_type message))) st'

  -- All retries are exhausted.
  escalate : String → WorkflowState → Call WorkflowOutput
  unfolding execute
  escalate retry_state st =
      let st' = with_status (status_value WorkflowStatus.human_intervention_required) st in
      let event =
        failure_audit "workflow.hitl_required" none
          (("maximum_attempts", "5") ∷ ("retry_state", retry_state) ∷ []) inp st' in
      execute (workflow_audit event) (env.workflow_audit event)
        (λ done st2. (st2, raised hitl_escalation)) st'

  invoked :
      PrePiiScrubResult
      → PolicyEvalResult
      → Option Decimal
      → LlmOutcome
      → WorkflowState
      → Call WorkflowOutput
  unfolding charge fail escalate
  invoked s p spent (answered l) st =
      charge s p l spent (budget_of inp.budget_session_id inp.budget_limit_usd) st
  invoked s p spent (failed none retry_state) st = escalate retry_state st
  invoked s p spent (failed (some (error_type, message)) retry_state) st =
      if contains fatal_types error_type
      then fail error_type message st
      else escalate retry_state st

  -- Stage 4
  pub invoke :
      PrePiiScrubResult
      → PolicyEvalResult
      → JitTokenResult
      → Option Decimal
      → WorkflowState
      → Call WorkflowOutput
  unfolding invoked
  invoke s p t spent st =
      invoked s p spent (env.llm_invoke (llm_input inp p t))
        (perform (llm_invoke (llm_input inp p t)) st)

  pre_check :
      PrePiiScrubResult
      → PolicyEvalResult
      → JitTokenResult
      → Option (String × Decimal)
      → WorkflowState
      → Call WorkflowOutput
  unfolding execute invoke
  pre_check s p t none = invoke s p t none
  pre_check s p t (some (id, limit)) =
      execute (budget_pre_check (pre_check_input inp id limit))
        (env.budget_pre_check (pre_check_input inp id limit)) (λ cost. invoke s p t (some cost))

  -- What follows the decision.
  decided :
      PrePiiScrubResult
      → PolicyEvalResult
      → JitTokenResult
      → Call ApprovalSignalPayload
      → Call WorkflowOutput
  unfolding pre_check
  decided s p t (st, raised err) = (st, raised err)
  decided s p t (st, returned decision) =
      if decision.approved
      then pre_check s p t (budget_of inp.budget_session_id inp.budget_limit_usd) st
      else (st, returned (denied_output inp s p decision st))

  -- The gate
  gate : PrePiiScrubResult → PolicyEvalResult → JitTokenResult → WorkflowState → Call WorkflowOutput
  unfolding decided await_pending_approval
  gate s p t st =
      if less approval_threshold inp.projected_spend_usd
      then decided s p t (
          await_pending_approval env.workflow_audit outside.at_gate outside.now
            (outside.text_of inp.projected_spend_usd) inp st)
      else pre_check s p t (budget_of inp.budget_session_id inp.budget_limit_usd) st

  -- Stage 3
  issue : PrePiiScrubResult → PolicyEvalResult → WorkflowState → Call WorkflowOutput
  unfolding execute gate
  issue s p =
      execute (jit_token_issue (token_input inp)) (env.jit_token_issue (token_input inp)) (gate s p)

  -- Stage 2
  evaluate : PrePiiScrubResult → WorkflowState → Call WorkflowOutput
  unfolding execute issue
  evaluate s =
      execute (policy_eval (policy_input inp s)) (env.policy_eval (policy_input inp s)) (issue s)

  -- The assignments that begin `run`
  abbrev pub started : WorkflowState → WorkflowState
  started st = record st {
    task_id = inp.task_id;
    session_id = inp.session_id;
    agent_type = inp.agent_type;
    workflow_status = status_value WorkflowStatus.running;
    pending_since = none;
  }

  -- `run`, in a new workflow that has taken the early signals
  unfoldable pub run : Call WorkflowOutput
  unfolding execute evaluate deliver_all
  run =
      execute (pre_pii_scrub inp) (env.pre_pii_scrub inp) evaluate
        (started (deliver_all outside.early new_workflow))
