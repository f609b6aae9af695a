-- ===== src/ControlPlane/Workflow/Outcome.antt =====
-- src/control_plane/scheduler.py: what `AgentTaskWorkflow.run` returns.
use aegis_os.Prelude.{
  String, ◌≡◌, refl, sym, ap, ◌∙◌, true, ◌⊎◌, inl, inr, if_cases, false, Option, none, some,
  contains, string_eq,
}
use aegis_os.Decimal.{Decimal, less}
use aegis_os.ControlPlane.Records.{
  ApprovalSignalPayload, WorkflowInput, PrePiiScrubResult, PolicyEvalResult, JitTokenResult,
  LlmInvokeResult, PostSanitizeResult, WorkflowOutput,
}
use aegis_os.ControlPlane.Approval.{
  Activity, WorkflowState, application_error, hitl_escalation, returned, raised, Call, execute,
  perform, new_workflow, await_pending_approval,
}
use aegis_os.ControlPlane.Inputs.{
  LlmOutcome, Activities, Outside, answered, failed, policy_input, token_input, llm_input,
  post_input, denied_output, approval_threshold, budget_of, fatal_types, merge_types,
}
use aegis_os.ControlPlane.Workflow.{
  finish, sanitize, charge, fail, escalate, invoked, invoke, pre_check, decided, gate, issue,
  evaluate, started, run,
}
use aegis_os.ControlPlane.Approval.Signals.{
  last_decision, answer_of, answer_of-approved, await_pending_approval-returned,
  deliver_all-new_workflow,
}
use aegis_os.ControlPlane.Workflow.Dispatch.{Cleared}

-- What holds of the value that a call returns; of an error nothing is said.
abbrev pub Returns : {A : Type 0} → (A → Type 0) → Call A → Type 0
Returns P (st, returned a) = P a
Returns P (st, raised err) = Unit {0}

pub Returns-map :
    {A : Type 0} {P Q : A → Type 0}
    → ((a : A) → P a → Q a)
    → (c : Call A) → Returns P c
    → Returns Q c
Returns-map f (st, returned a) h = f a h
Returns-map f (st, raised err) h = tt

execute-Returns :
    {A R : Type 0} (P : A → Type 0) (a : Activity) (o : Option R) (k : R → WorkflowState → Call A)
    (st : WorkflowState)
    → ((r : R) → o ≡ some r → Returns P (k r (perform a st)))
    → Returns P (execute a o k st)
unfolding execute
execute-Returns P a none k st h = tt
execute-Returns P a (some r) k st h = h r refl

module _ (env : Activities) (outside : Outside) (inp : WorkflowInput) where
  -- What the gate answers: the decision of the last signal at it, or of the timeout if there is none.
  abbrev pub answer : ApprovalSignalPayload
  answer = answer_of (last_decision none outside.at_gate)

  -- The spend is over the threshold, and the gate's answer does not approve; the output names it and has no
  -- content and no tokens.
  pub record Refused (out : WorkflowOutput) : Type 0 where
    pub over : less approval_threshold inp.projected_spend_usd ≡ true
    pub not_approved : answer.approved ≡ false
    pub content : out.content ≡ ""
    pub tokens_used : out.tokens_used ≡ 0
    pub approver_id : out.approver_id ≡ some answer.approver_id
    pub reason : out.reason ≡ some answer.reason

  -- The stages have succeeded, one after the other, and the output is made from their results: the content
  -- is the sanitized answer, and the kinds of personal data are those of the prompt, the policy and the answer.
  pub record Completed (out : WorkflowOutput) : Type 0 where
    pub cleared : Cleared env outside inp
    pub scrub_result : PrePiiScrubResult
    pub policy_result : PolicyEvalResult
    pub token_result : JitTokenResult
    pub llm_result : LlmInvokeResult
    pub post_result : PostSanitizeResult
    pub scrubbed : env.pre_pii_scrub inp ≡ some scrub_result
    pub allowed : env.policy_eval (policy_input inp scrub_result) ≡ some policy_result
    pub issued : env.jit_token_issue (token_input inp) ≡ some token_result
    pub invoked_with :
        env.llm_invoke (llm_input inp policy_result token_result) ≡ answered llm_result
    pub sanitized : env.post_sanitize (post_input inp llm_result) ≡ some post_result
    pub content : out.content ≡ post_result.sanitized_content
    pub prompt : out.sanitized_prompt ≡ policy_result.sanitized_prompt
    pub pii_types :
        out.pii_types
        ≡ merge_types
            (merge_types scrub_result.pii_types policy_result.extra_pii_types)
            post_result.pii_types
    pub status : out.workflow_status ≡ "completed"

  abbrev pub Ends : WorkflowOutput → Type 0
  Ends out = Refused out ⊎ Completed out

  module _ (s : PrePiiScrubResult) (p : PolicyEvalResult) (t : JitTokenResult)
      (scrubbed : env.pre_pii_scrub inp ≡ some s)
      (allowed : env.policy_eval (policy_input inp s) ≡ some p)
      (issued : env.jit_token_issue (token_input inp) ≡ some t) where
    escalate-Ends :
        (retry_state : String) (st : WorkflowState)
        → Returns Ends (escalate env outside inp retry_state st)
    unfolding escalate
    escalate-Ends retry_state st =
        execute-Returns Ends _ _ (λ done st2. (st2, raised hitl_escalation)) _ λ done audited. tt

    fail-Ends :
        (error_type message : String) (st : WorkflowState)
        → Returns Ends (fail env outside inp error_type message st)
    unfolding fail
    fail-Ends error_type message st =
        execute-Returns Ends _ _ (λ done st2. (st2, raised (application_error error_type message)))
          _ λ done audited. tt

    module _ (cleared : Cleared env outside inp) where
      module _ (l : LlmInvokeResult)
          (invoked_with : env.llm_invoke (llm_input inp p t) ≡ answered l) where
        sanitize-Ends :
            (spent : Option Decimal) (st : WorkflowState)
            → Returns Ends (sanitize env outside inp s p l spent st)
        unfolding sanitize finish
        sanitize-Ends spent st =
            execute-Returns Ends _ _ (finish env outside inp s p l spent) st λ post sanitized.
              inr (record {
                cleared = cleared;
                scrub_result = s;
                policy_result = p;
                token_result = t;
                llm_result = l;
                post_result = post;
                scrubbed = scrubbed;
                allowed = allowed;
                issued = issued;
                invoked_with = invoked_with;
                sanitized = sanitized;
                content = refl;
                prompt = refl;
                pii_types = refl;
                status = refl;
              })

        charge-Ends :
            (spent : Option Decimal) (budget : Option (String × Decimal)) (st : WorkflowState)
            → Returns Ends (charge env outside inp s p l spent budget st)
        unfolding charge
        charge-Ends spent none st = sanitize-Ends spent st
        charge-Ends spent (some (id, limit)) st =
            execute-Returns Ends _ _ (λ cost. sanitize env outside inp s p l (some cost)) st
              λ cost charged. sanitize-Ends (some cost) _

      invoked-Ends :
          (spent : Option Decimal) (o : LlmOutcome) (st : WorkflowState)
          → env.llm_invoke (llm_input inp p t) ≡ o
          → Returns Ends (invoked env outside inp s p spent o st)
      unfolding invoked
      invoked-Ends spent (answered l) st h =
          charge-Ends l h spent (budget_of inp.budget_session_id inp.budget_limit_usd) st
      invoked-Ends spent (failed none retry_state) st h = escalate-Ends retry_state st
      invoked-Ends spent (failed (some (error_type, message)) retry_state) st h =
          if_cases (λ (c : Call WorkflowOutput). Returns Ends c) (contains fatal_types error_type)
            {x = fail env outside inp error_type message st}
            {y = escalate env outside inp retry_state st} (λ fatal. fail-Ends error_type message st)
            (λ passing. escalate-Ends retry_state st)

      pre_check-Ends :
          (budget : Option (String × Decimal)) (st : WorkflowState)
          → Returns Ends (pre_check env outside inp s p t budget st)
      unfolding pre_check invoke
      pre_check-Ends none st = invoked-Ends none _ _ refl
      pre_check-Ends (some (id, limit)) st =
          execute-Returns Ends _ _ (λ cost. invoke env outside inp s p t (some cost)) st
            λ cost checked. invoked-Ends (some cost) _ _ refl

    decided-Ends :
        (c : Call ApprovalSignalPayload)
        → less approval_threshold inp.projected_spend_usd ≡ true
        → ((d : ApprovalSignalPayload) → c.1 ≡ returned d → answer ≡ d)
        → Returns Ends (decided env outside inp s p t c)
    unfolding decided
    decided-Ends (st, raised err) over is = tt
    decided-Ends (st, returned d) over is =
        let same = is d refl in
        if_cases (λ (c : Call WorkflowOutput). Returns Ends c) d.approved
          {x = pre_check env outside inp s p t
            (budget_of inp.budget_session_id inp.budget_limit_usd) st}
          {y = (st, returned (denied_output inp s p d st))}
          (λ said_yes.
            pre_check-Ends (inr (d, answer_of-approved _ same said_yes, said_yes))
              (budget_of inp.budget_session_id inp.budget_limit_usd) st)
          (λ said_no. inl (record {
            over = over;
            not_approved = ap (λ (q : ApprovalSignalPayload). q.approved) same ∙ said_no;
            content = refl;
            tokens_used = refl;
            approver_id = ap (λ (q : ApprovalSignalPayload). some q.approver_id) (sym same);
            reason = ap (λ (q : ApprovalSignalPayload). some q.reason) (sym same);
          }))

    gate-Ends :
        (st : WorkflowState)
        → st.approval_signal ≡ none
        → Returns Ends (gate env outside inp s p t st)
    unfolding gate
    gate-Ends st clean =
        if_cases (λ (c : Call WorkflowOutput). Returns Ends c)
          (less approval_threshold inp.projected_spend_usd)
          {x = decided env outside inp s p t (
            await_pending_approval env.workflow_audit outside.at_gate outside.now
              (outside.text_of inp.projected_spend_usd) inp st)}
          {y = pre_check env outside inp s p t
            (budget_of inp.budget_session_id inp.budget_limit_usd) st}
          (λ over. decided-Ends _ over λ d went.
            ap (λ o. answer_of (last_decision o outside.at_gate)) (sym clean)
            ∙ await_pending_approval-returned env.workflow_audit inp outside.at_gate outside.now
                (outside.text_of inp.projected_spend_usd) st went)
          (λ within.
            pre_check-Ends (inl within) (budget_of inp.budget_session_id inp.budget_limit_usd) st)

  -- What a run returns.
  pub run-Ends : Returns Ends (run env outside inp)
  unfolding run evaluate issue
  run-Ends = rw (deliver_all-new_workflow outside.early) (
      execute-Returns Ends _ _ (evaluate env outside inp) (started env outside inp new_workflow)
        λ s scrubbed. execute-Returns Ends _ _ (issue env outside inp s) _ λ p allowed.
          execute-Returns Ends _ _ (gate env outside inp s p) _
            λ t issued. gate-Ends s p t scrubbed allowed issued _ refl)
