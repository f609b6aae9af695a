-- ===== src/ControlPlane/Approval.antt =====
-- src/control_plane/scheduler.py: the state of `AgentTaskWorkflow`, its signals and the approval
-- gate. The activities are run by Temporal, which retries them: what comes of one is a parameter.
pub mod Signals
use aegis_os.Prelude.{
  ℕ, String, Bool, true, false, Option, none, some, List, [], ◌∷◌, ◌++◌, if◌then◌else◌,
}
use aegis_os.Decimal.{Decimal}
use aegis_os.Audit.{LifecycleEvent, lifecycle_text}
use aegis_os.ControlPlane.Records.{
  WorkflowStatus, status_value, PendingApprovalState, approval_value, ApprovalSignalPayload,
  WorkflowInput, PolicyEvalInput, JitTokenInput, LlmInvokeInput, PostSanitizeInput,
  BudgetPreCheckInput, BudgetRecordInput, WorkflowAuditInput,
}

-- The activities, with what they are given.
pub data Activity : Type 0 where
  pre_pii_scrub : WorkflowInput → Activity
  policy_eval : PolicyEvalInput → Activity
  jit_token_issue : JitTokenInput → Activity
  budget_pre_check : BudgetPreCheckInput → Activity
  llm_invoke : LlmInvokeInput → Activity
  budget_record_spend : BudgetRecordInput → Activity
  post_sanitize : PostSanitizeInput → Activity
  workflow_audit : WorkflowAuditInput → Activity

-- The state of a workflow, and the activities that it has had executed, in order.
pub record WorkflowState : Type 0 where
  pub task_id : String
  pub session_id : Option String
  pub agent_type : String
  pub workflow_status : String
  pub approval_state : PendingApprovalState
  pub approval_signal : Option ApprovalSignalPayload
  pub pending_since : Option ℕ
  pub executed : List Activity

-- `ActivityError`, the `ApplicationError` that was its cause, and `HITLEscalationError`.
pub data Error : Type 0 where
  activity_error : Activity → Error
  application_error : String → String → Error
  hitl_escalation : Error

pub data Result (A : Type 0) : Type 0 where
  returned : A → Result A
  raised : Error → Result A

abbrev pub Call : Type 0 → Type 0
Call A = WorkflowState × Result A

-- `__init__`
abbrev pub new_workflow : WorkflowState
new_workflow = record {
  task_id = "";
  session_id = none;
  agent_type = "general";
  workflow_status = status_value WorkflowStatus.pending;
  approval_state = PendingApprovalState.not_required;
  approval_signal = none;
  pending_since = none;
  executed = [];
}

pub data Signal : Type 0 where
  approve deny : ApprovalSignalPayload → Signal

-- A decision is kept while the workflow awaits one.
abbrev pub keep_decision :
    PendingApprovalState
    → ApprovalSignalPayload
    → Option ApprovalSignalPayload
    → Option ApprovalSignalPayload
keep_decision PendingApprovalState.awaiting_approval decision old = some decision
keep_decision PendingApprovalState.not_required decision old = old
keep_decision PendingApprovalState.approved decision old = old
keep_decision PendingApprovalState.denied decision old = old
keep_decision PendingApprovalState.timed_out decision old = old

abbrev pub record_decision : ApprovalSignalPayload → WorkflowState → WorkflowState
record_decision decision st = record st {
  approval_signal = keep_decision st.approval_state decision st.approval_signal;
}

-- `approve` and `deny`
unfoldable pub deliver : Signal → WorkflowState → WorkflowState
deliver (approve decision) st = record_decision decision st
deliver (deny decision) st = record_decision decision st

-- The signals that arrive, in order.
unfoldable pub deliver_all : List Signal → WorkflowState → WorkflowState
unfolding deliver
deliver_all [] st = st
deliver_all (s ∷ ss) st = deliver_all ss (deliver s st)

abbrev pub perform : Activity → WorkflowState → WorkflowState
perform a st = record st { executed = st.executed ++ a ∷ [] }

-- `await workflow.execute_activity(...)`: `none` where all attempts failed.
unfoldable pub execute :
    {A R : Type 0} → Activity → Option R → (R → WorkflowState → Call A) → WorkflowState → Call A
execute a none k st = (perform a st, raised (activity_error a))
execute a (some r) k st = k r (perform a st)

-- The activity "WorkflowAudit" of the approval gate.
abbrev pub approval_audit :
    String
    → String
    → LifecycleEvent
    → List (String × String)
    → WorkflowInput
    → WorkflowState
    → WorkflowAuditInput
approval_audit event outcome lifecycle details inp st = record {
  event = event;
  outcome = outcome;
  stage = "pending-approval";
  task_id = inp.task_id;
  agent_type = inp.agent_type;
  session_id = inp.session_id;
  workflow_status = st.workflow_status;
  event_type = some (lifecycle_text lifecycle);
  details = details;
}

-- The state of the gate while it waits.
abbrev pub awaiting : ℕ → WorkflowState → WorkflowState
awaiting now st = record st {
  approval_state = PendingApprovalState.awaiting_approval;
  workflow_status = status_value WorkflowStatus.human_intervention_required;
  pending_since = some now;
}

-- The state once the wait is over.
abbrev pub settled : PendingApprovalState → String → WorkflowState → WorkflowState
settled approval status st = record st {
  approval_state = approval;
  workflow_status = status;
  pending_since = none;
}

abbrev pub timeout_decision : ApprovalSignalPayload
timeout_decision = record {
  approver_id = "timeout";
  reason = "Approval timed out";
  approved = false;
}

abbrev pub reply : ApprovalSignalPayload → Unit {0} → WorkflowState → Call ApprovalSignalPayload
reply decision done st = (st, returned decision)

abbrev signal_details : ApprovalSignalPayload → List (String × String)
signal_details signal = ("approver_id", signal.approver_id) ∷ ("reason", signal.reason) ∷ []

unfoldable pub go_on :
    (WorkflowAuditInput → Option (Unit {0}))
    → WorkflowInput
    → ApprovalSignalPayload
    → WorkflowState
    → Call ApprovalSignalPayload
unfolding execute
go_on audit inp signal st =
    let st' = settled PendingApprovalState.approved (status_value WorkflowStatus.running) st in
    let event =
      approval_audit "workflow.approved" "allow" LifecycleEvent.approved (signal_details signal) inp
        st' in
    execute (workflow_audit event) (audit event) (reply signal) st'

unfoldable pub refuse :
    (WorkflowAuditInput → Option (Unit {0}))
    → WorkflowInput
    → ApprovalSignalPayload
    → WorkflowState
    → Call ApprovalSignalPayload
unfolding execute
refuse audit inp signal st =
    let st' = settled PendingApprovalState.denied (approval_value PendingApprovalState.denied) st in
    let event =
      approval_audit "workflow.denied" "deny" LifecycleEvent.denied (signal_details signal) inp
        st' in
    execute (workflow_audit event) (audit event) (reply signal) st'

-- What comes of an audit activity is looked up in the first argument.
unfoldable pub decide :
    (WorkflowAuditInput → Option (Unit {0}))
    → WorkflowInput
    → Option ApprovalSignalPayload
    → WorkflowState
    → Call ApprovalSignalPayload
unfolding execute go_on refuse
decide audit inp none st =
    let st' =
      settled PendingApprovalState.timed_out (approval_value PendingApprovalState.timed_out) st in
    let event =
      approval_audit "workflow.timed_out" "deny" LifecycleEvent.denied
        (("approver_id", "timeout") ∷ []) inp st' in
    execute (workflow_audit event) (audit event) (reply timeout_decision) st'
decide audit inp (some signal) st =
    if signal.approved then go_on audit inp signal st else refuse audit inp signal st

-- `_await_pending_approval`, begun at `now`. The wait ends when a signal has been recorded, or, where
-- none arrives, at the timeout. `spend` is the text of the projected spend.
unfoldable pub await_pending_approval :
    (WorkflowAuditInput → Option (Unit {0}))
    → List Signal
    → ℕ
    → String
    → WorkflowInput
    → WorkflowState
    → Call ApprovalSignalPayload
unfolding decide deliver_all execute
await_pending_approval audit signals now spend inp st =
    let st1 = awaiting now st in
    let event =
      approval_audit "workflow.pending_approval" "allow" LifecycleEvent.pending_approval
        (("projected_spend_usd", spend) ∷ []) inp st1 in
    execute (workflow_audit event) (audit event)
      (λ done st2. let st3 = deliver_all signals st2 in decide audit inp st3.approval_signal st3)
      st1
