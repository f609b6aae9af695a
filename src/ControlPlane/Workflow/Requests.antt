-- ===== src/ControlPlane/Workflow/Requests.antt =====
-- src/control_plane/scheduler.py: the executions of "LLMInvoke", each a request for the provider's
-- answer, among the activities that a part of `AgentTaskWorkflow.run` executes.
use mathlib.Core.List.{append-nil}
use aegis_os.Prelude.{
  String, ◌≡◌, refl, sym, subst, ap, ◌∙◌, Bool-cases, inl, inr, if_cases, Option, none, some, List,
  [], ◌∷◌, ◌++◌, contains, string_eq,
}
use aegis_os.Decimal.{Decimal}
use aegis_os.ControlPlane.Records.{
  ApprovalSignalPayload, WorkflowInput, PrePiiScrubResult, PolicyEvalResult, JitTokenResult,
  LlmInvokeInput, LlmInvokeResult, WorkflowAuditInput,
}
use aegis_os.ControlPlane.Approval.{
  Activity, pre_pii_scrub, policy_eval, jit_token_issue, budget_pre_check, llm_invoke,
  budget_record_spend, post_sanitize, workflow_audit, WorkflowState, application_error,
  hitl_escalation, Result, raised, Call, deliver_all, perform, execute, await_pending_approval,
  decide, go_on, refuse, reply, timeout_decision,
}
use aegis_os.ControlPlane.Approval.Signals.{deliver_all-executed}
use aegis_os.ControlPlane.Inputs.{
  LlmOutcome, Activities, Outside, answered, failed, llm_input, spend_input, post_input, budget_of,
  fatal_types,
}
use aegis_os.ControlPlane.Workflow.{finish, sanitize, charge, fail, escalate, invoked, invoke}

-- The inputs of "LLMInvoke", in order.
abbrev pub requests_of : Activity → List LlmInvokeInput → List LlmInvokeInput
requests_of (pre_pii_scrub i) rest = rest
requests_of (policy_eval i) rest = rest
requests_of (jit_token_issue i) rest = rest
requests_of (budget_pre_check i) rest = rest
requests_of (llm_invoke i) rest = i ∷ rest
requests_of (budget_record_spend i) rest = rest
requests_of (post_sanitize i) rest = rest
requests_of (workflow_audit i) rest = rest

unfoldable pub requests : List Activity → List LlmInvokeInput
requests [] = []
requests (a ∷ done) = requests_of a (requests done)

pub requests-append :
    (done : List Activity) (a : Activity)
    → requests (done ++ a ∷ []) ≡ requests done ++ requests_of a []
unfolding requests
requests-append [] a = refl
requests-append (pre_pii_scrub i ∷ done) a = requests-append done a
requests-append (policy_eval i ∷ done) a = requests-append done a
requests-append (jit_token_issue i ∷ done) a = requests-append done a
requests-append (budget_pre_check i ∷ done) a = requests-append done a
requests-append (llm_invoke i ∷ done) a = ap (λ r. i ∷ r) (requests-append done a)
requests-append (budget_record_spend i ∷ done) a = requests-append done a
requests-append (post_sanitize i ∷ done) a = requests-append done a
requests-append (workflow_audit i ∷ done) a = requests-append done a

pub requests-quiet :
    (done : List Activity) (a : Activity)
    → requests_of a [] ≡ []
    → requests (done ++ a ∷ []) ≡ requests done
requests-quiet done a quiet =
    requests-append done a ∙ ap (λ r. requests done ++ r) quiet ∙ append-nil (requests done)

abbrev pub sent : {A : Type 0} → Call A → List LlmInvokeInput
sent c = requests c.0.executed

-- What holds of a call, by what is sent before it: of an activity that is no request, if it holds of
-- what follows.
pub execute-holds :
    {A R : Type 0} (P : List LlmInvokeInput → Type 0) (a : Activity) (o : Option R)
    (k : R → WorkflowState → Call A) (st : WorkflowState) (before : List LlmInvokeInput)
    → requests_of a [] ≡ []
    → requests st.executed ≡ before
    → P before
    → ((r : R) (st' : WorkflowState)
        → o ≡ some r
        → requests st'.executed ≡ before
        → P (sent (k r st')))
    → P (sent (execute a o k st))
unfolding execute
execute-holds P a none k st before quiet h p next =
    subst P (sym (requests-quiet st.executed a quiet ∙ h)) p
execute-holds P a (some r) k st before quiet h p next =
    next r (perform a st) refl (requests-quiet st.executed a quiet ∙ h)

module _ (env : Activities) (outside : Outside) (inp : WorkflowInput) where
  module _ (s : PrePiiScrubResult) (p : PolicyEvalResult) (before : List LlmInvokeInput) where
    sanitize-sent :
        (l : LlmInvokeResult) (spent : Option Decimal) (st : WorkflowState)
        → requests st.executed ≡ before
        → sent (sanitize env outside inp s p l spent st) ≡ before
    unfolding sanitize finish
    sanitize-sent l spent st h =
        execute-holds (λ r. r ≡ before) (post_sanitize (post_input inp l))
          (env.post_sanitize (post_input inp l)) (finish env outside inp s p l spent) st before refl
          h refl (λ post st' found h'. h')

    charge-sent :
        (l : LlmInvokeResult) (spent : Option Decimal) (budget : Option (String × Decimal))
        (st : WorkflowState)
        → requests st.executed ≡ before
        → sent (charge env outside inp s p l spent budget st) ≡ before
    unfolding charge
    charge-sent l spent none st h = sanitize-sent l spent st h
    charge-sent l spent (some (id, limit)) st h =
        execute-holds (λ r. r ≡ before) (budget_record_spend (spend_input inp id limit l))
          (env.budget_record_spend (spend_input inp id limit l))
          (λ cost. sanitize env outside inp s p l (some cost)) st before refl h refl
          (λ cost st' found h'. sanitize-sent l (some cost) st' h')

    audit-sent :
        {A : Type 0} (event : WorkflowAuditInput) (r : Result A) (st : WorkflowState)
        → requests st.executed ≡ before
        → sent (
            execute
              (workflow_audit event)
              (env.workflow_audit event)
              (λ (done : Unit {0}) st2. (st2, r))
              st)
          ≡ before
    audit-sent event r st h =
        execute-holds (λ q. q ≡ before) (workflow_audit event) (env.workflow_audit event)
          (λ done st2. (st2, r)) st before refl h refl (λ done st' found h'. h')

    fail-sent :
        (error_type message : String) (st : WorkflowState)
        → requests st.executed ≡ before
        → sent (fail env outside inp error_type message st) ≡ before
    unfolding fail
    fail-sent error_type message st h =
        audit-sent _ (raised (application_error error_type message)) _ h

    escalate-sent :
        (retry_state : String) (st : WorkflowState)
        → requests st.executed ≡ before
        → sent (escalate env outside inp retry_state st) ≡ before
    unfolding escalate
    escalate-sent retry_state st h = audit-sent _ (raised hitl_escalation) _ h

    invoked-sent :
        (spent : Option Decimal) (o : LlmOutcome) (st : WorkflowState)
        → requests st.executed ≡ before
        → sent (invoked env outside inp s p spent o st) ≡ before
    unfolding invoked fail escalate execute
    invoked-sent spent (answered l) st h =
        charge-sent l spent (budget_of inp.budget_session_id inp.budget_limit_usd) st h
    invoked-sent spent (failed none retry_state) st h = escalate-sent retry_state st h
    invoked-sent spent (failed (some (error_type, message)) retry_state) st h =
        elim (Bool-cases (contains fatal_types error_type)) [
          | inl fatal ↦ rw fatal (fail-sent error_type message st h)
          | inr passing ↦ rw passing (escalate-sent retry_state st h)
        ]

    pub invoke-sent :
        (t : JitTokenResult) (spent : Option Decimal) (st : WorkflowState)
        → requests st.executed ≡ []
        → before ≡ llm_input inp p t ∷ []
        → sent (invoke env outside inp s p t spent st) ≡ before
    unfolding invoke
    invoke-sent t spent st h one =
        invoked-sent spent (env.llm_invoke (llm_input inp p t))
          (perform (llm_invoke (llm_input inp p t)) st)
          (requests-append st.executed (llm_invoke (llm_input inp p t)) ∙ rw h (sym one))

  decide-sent :
      (o : Option ApprovalSignalPayload) (st : WorkflowState)
      → requests st.executed ≡ []
      → sent (decide env.workflow_audit inp o st) ≡ []
  unfolding decide go_on refuse
  decide-sent none st h =
      execute-holds (λ q. q ≡ []) _ _ (reply timeout_decision) _ [] refl h refl
        (λ done st' found h'. h')
  decide-sent (some signal) st h =
      if_cases (λ (c : Call ApprovalSignalPayload). sent c ≡ []) signal.approved
        {x = go_on env.workflow_audit inp signal st} {y = refuse env.workflow_audit inp signal st}
        (λ said_yes.
          execute-holds (λ q. q ≡ []) _ _ (reply signal) _ [] refl h refl (λ done st' found h'. h'))
        (λ said_no.
          execute-holds (λ q. q ≡ []) _ _ (reply signal) _ [] refl h refl (λ done st' found h'. h'))

  pub await-sent :
      (spend : String) (st : WorkflowState)
      → requests st.executed ≡ []
      → sent (await_pending_approval env.workflow_audit outside.at_gate outside.now spend inp st)
        ≡ []
  unfolding await_pending_approval
  await-sent spend st h =
      execute-holds (λ q. q ≡ []) _ _
        (λ done st2.
          let st3 = deliver_all outside.at_gate st2 in
          decide env.workflow_audit inp st3.approval_signal st3)
        _ [] refl h refl
        (λ done st' found h'.
          decide-sent (deliver_all outside.at_gate st').approval_signal
            (deliver_all outside.at_gate st')
            (ap requests (deliver_all-executed outside.at_gate st') ∙ h'))
