-- ===== src/ControlPlane/Workflow/Dispatch.antt =====
-- src/control_plane/scheduler.py: when `AgentTaskWorkflow.run` executes "LLMInvoke", and with what input.
use aegis_os.Prelude.{
  String, ◌≡◌, refl, sym, ap, ◌∙◌, ◌⊎◌, inl, inr, if_cases, true, false, Option, none, some, List,
  [], ◌∷◌, string_eq,
}
use aegis_os.Decimal.{Decimal, less}
use aegis_os.ControlPlane.Records.{
  ApprovalSignalPayload, WorkflowInput, PrePiiScrubResult, PolicyEvalInput, PolicyEvalResult,
  JitTokenInput, JitTokenResult, LlmInvokeInput, WorkflowOutput,
}
use aegis_os.ControlPlane.Approval.{
  Activity, WorkflowState, returned, raised, Call, perform, execute, await_pending_approval,
  new_workflow,
}
use aegis_os.ControlPlane.Approval.Signals.{
  last_decision, deliver_all-new_workflow, await_pending_approval-approved,
}
use aegis_os.ControlPlane.Inputs.{
  Activities, Outside, policy_input, token_input, llm_input, denied_output, approval_threshold,
  budget_of,
}
use aegis_os.ControlPlane.Workflow.{invoke, pre_check, decided, gate, issue, evaluate, started, run}
use aegis_os.ControlPlane.Workflow.Requests.{
  requests, requests_of, requests-quiet, sent, execute-holds, invoke-sent, await-sent,
}

module _ (env : Activities) (outside : Outside) (inp : WorkflowInput) where
  -- No request, or the one that the results of the stages make.
  abbrev AtMostOne : LlmInvokeInput → List LlmInvokeInput → Type 0
  AtMostOne i r = (r ≡ []) ⊎ (r ≡ i ∷ [])

  -- The spend is under the threshold, or the last signal at the gate approves.
  abbrev pub Cleared : Type 0
  Cleared =
      (less approval_threshold inp.projected_spend_usd ≡ false)
      ⊎ ((d : ApprovalSignalPayload) × (last_decision none outside.at_gate ≡ some d)
          × (d.approved ≡ true))

  module _ (s : PrePiiScrubResult) (p : PolicyEvalResult) (t : JitTokenResult) where
    pre_check-sent :
        (budget : Option (String × Decimal)) (st : WorkflowState)
        → requests st.executed ≡ []
        → AtMostOne (llm_input inp p t) (sent (pre_check env outside inp s p t budget st))
    unfolding pre_check
    pre_check-sent none st h =
        inr (invoke-sent env outside inp s p (llm_input inp p t ∷ []) t none st h refl)
    pre_check-sent (some (id, limit)) st h =
        execute-holds (AtMostOne (llm_input inp p t)) _ _
          (λ cost. invoke env outside inp s p t (some cost)) st [] refl h (inl refl)
          (λ cost st' found h'.
            inr
              (invoke-sent env outside inp s p (llm_input inp p t ∷ []) t (some cost) st' h' refl))

    -- Nothing is sent, or the gate is cleared and one request.
    abbrev AtMostCleared : List LlmInvokeInput → Type 0
    AtMostCleared r = (r ≡ []) ⊎ (Cleared × (r ≡ llm_input inp p t ∷ []))

    clear : {r : List LlmInvokeInput} → Cleared → AtMostOne (llm_input inp p t) r → AtMostCleared r
    clear c (inl nothing) = inl nothing
    clear c (inr one) = inr (c, one)

    decided-sent :
        (c : Call ApprovalSignalPayload)
        → sent c ≡ []
        → ((d : ApprovalSignalPayload)
            → c.1 ≡ returned d
            → d.approved ≡ true
            → last_decision none outside.at_gate ≡ some d)
        → AtMostCleared (sent (decided env outside inp s p t c))
    unfolding decided
    decided-sent (st, raised err) h last = inl h
    decided-sent (st, returned d) h last =
        if_cases (λ (c : Call WorkflowOutput). AtMostCleared (sent c)) d.approved
          {x = pre_check env outside inp s p t
            (budget_of inp.budget_session_id inp.budget_limit_usd) st}
          {y = (st, returned (denied_output inp s p d st))}
          (λ said_yes.
            clear (inr (d, last d refl said_yes, said_yes))
              (pre_check-sent (budget_of inp.budget_session_id inp.budget_limit_usd) st h))
          (λ said_no. inl h)

    gate-sent :
        (st : WorkflowState)
        → st.approval_signal ≡ none
        → requests st.executed ≡ []
        → AtMostCleared (sent (gate env outside inp s p t st))
    unfolding gate
    gate-sent st clean h =
        let spend = outside.text_of inp.projected_spend_usd in
        let waited =
          await_pending_approval env.workflow_audit outside.at_gate outside.now spend inp st in
        if_cases (λ (c : Call WorkflowOutput). AtMostCleared (sent c))
          (less approval_threshold inp.projected_spend_usd)
          {x = decided env outside inp s p t waited}
          {y = pre_check env outside inp s p t
            (budget_of inp.budget_session_id inp.budget_limit_usd) st}
          (λ over. decided-sent waited (await-sent env outside inp spend st h) (λ d answer approval.
            ap (λ o. last_decision o outside.at_gate) (sym clean)
            ∙ await_pending_approval-approved env.workflow_audit inp approval outside.at_gate
                outside.now spend st answer))
          (λ within.
            clear (inl within)
              (pre_check-sent (budget_of inp.budget_session_id inp.budget_limit_usd) st h))

  -- "LLMInvoke" is not executed, or the stages have succeeded, the gate is cleared and it is executed once:
  -- for the policy's prompt, which was evaluated on the scrubbed one, with the issued token.
  abbrev pub Dispatched : List LlmInvokeInput → Type 0
  Dispatched r =
      (r ≡ [])
      ⊎ (Cleared
          × ((s : PrePiiScrubResult) × (p : PolicyEvalResult) × (t : JitTokenResult)
              × (env.pre_pii_scrub inp ≡ some s)
              × (env.policy_eval (policy_input inp s) ≡ some p)
              × (env.jit_token_issue (token_input inp) ≡ some t)
              × (r ≡ llm_input inp p t ∷ [])))

  -- Of an activity that is no request, in a state in which none has been sent.
  execute-Dispatched :
      {R : Type 0} (a : Activity) (o : Option R) (k : R → WorkflowState → Call WorkflowOutput)
      (st : WorkflowState)
      → requests_of a [] ≡ []
      → st.approval_signal ≡ none
      → requests st.executed ≡ []
      → ((r : R) (st' : WorkflowState)
          → o ≡ some r
          → st'.approval_signal ≡ none
          → requests st'.executed ≡ []
          → Dispatched (sent (k r st')))
      → Dispatched (sent (execute a o k st))
  unfolding execute
  execute-Dispatched a none k st quiet clean h next = inl (requests-quiet st.executed a quiet ∙ h)
  execute-Dispatched a (some r) k st quiet clean h next =
      next r (perform a st) refl clean (requests-quiet st.executed a quiet ∙ h)

  found-Dispatched :
      (s : PrePiiScrubResult) (p : PolicyEvalResult) (t : JitTokenResult) {r : List LlmInvokeInput}
      → env.pre_pii_scrub inp ≡ some s
      → env.policy_eval (policy_input inp s) ≡ some p
      → env.jit_token_issue (token_input inp) ≡ some t
      → AtMostCleared s p t r
      → Dispatched r
  found-Dispatched s p t scrubbed allowed issued (inl nothing) = inl nothing
  found-Dispatched s p t scrubbed allowed issued (inr (cleared, one)) =
      inr (cleared, (s, p, t, scrubbed, allowed, issued, one))

  pub run-Dispatched : Dispatched (requests (run env outside inp).0.executed)
  unfolding run evaluate issue requests
  run-Dispatched = rw (deliver_all-new_workflow outside.early) (
      execute-Dispatched _ _ (evaluate env outside inp) (started env outside inp new_workflow) refl
        refl refl
        (λ s st1 scrubbed clean1 h1.
          execute-Dispatched _ _ (issue env outside inp s) st1 refl clean1 h1
            (λ p st2 allowed clean2 h2.
              execute-Dispatched _ _ (gate env outside inp s p) st2 refl clean2 h2
                (λ t st3 issued clean3 h3.
                  found-Dispatched s p t scrubbed allowed issued (gate-sent s p t st3 clean3 h3)))))

  -- The results of the stages before the call, what they were asked, and what the call has of them.
  pub record Asks (i : LlmInvokeInput) : Type 0 where
    pub scrub_result : PrePiiScrubResult
    pub scrubbed : env.pre_pii_scrub inp ≡ some scrub_result
    pub asked_policy : PolicyEvalInput
    pub policy_result : PolicyEvalResult
    pub evaluated : env.policy_eval asked_policy ≡ some policy_result
    pub policy_prompt : asked_policy.sanitized_prompt ≡ scrub_result.sanitized_prompt
    pub policy_agent : asked_policy.agent_type ≡ inp.agent_type
    pub policy_requester : asked_policy.requester_id ≡ inp.requester_id
    pub policy_model : asked_policy.model ≡ inp.model
    pub asked_token : JitTokenInput
    pub token_result : JitTokenResult
    pub issued : env.jit_token_issue asked_token ≡ some token_result
    pub token_agent : asked_token.agent_type ≡ inp.agent_type
    pub token_requester : asked_token.requester_id ≡ inp.requester_id
    pub token_task : asked_token.task_id ≡ inp.task_id
    pub token_session : asked_token.session_id ≡ inp.session_id
    pub token_scope : asked_token.allowed_actions ≡ "llm:complete" ∷ []
    pub token_protection : asked_token.protect_outbound_request ≡ inp.protect_outbound_request
    pub prompt : i.sanitized_prompt ≡ policy_result.sanitized_prompt
    pub token : i.token ≡ token_result.token
    pub scope : i.allowed_actions ≡ "llm:complete" ∷ []
    pub protection : i.protect_outbound_request ≡ inp.protect_outbound_request
    pub private_key : i.protected_private_key_pem ≡ token_result.protected_private_key_pem
    pub public_jwk : i.protected_public_jwk ≡ token_result.protected_public_jwk
    pub rotation : i.rotation_key ≡ asked_token.rotation_key
    pub agent : i.agent_type ≡ inp.agent_type
    pub requester : i.requester_id ≡ inp.requester_id
    pub task : i.task_id ≡ inp.task_id
    pub session : i.session_id ≡ inp.session_id
    pub model : i.model ≡ inp.model
    pub max_tokens : i.max_tokens ≡ inp.max_tokens
    pub temperature : i.temperature ≡ inp.temperature
    pub system_prompt : i.system_prompt ≡ inp.system_prompt

  abbrev pub Dispatches : List LlmInvokeInput → Type 0
  Dispatches r = (r ≡ []) ⊎ (Cleared × (i : LlmInvokeInput) × (r ≡ i ∷ []) × Asks i)

  Dispatched-Dispatches : {r : List LlmInvokeInput} → Dispatched r → Dispatches r
  Dispatched-Dispatches (inl nothing) = inl nothing
  Dispatched-Dispatches (inr (cleared, (s, p, t, scrubbed, evaluated, issued, one))) = inr (
    cleared,
    llm_input inp p t,
    one,
    record {
      scrub_result = s;
      scrubbed = scrubbed;
      asked_policy = policy_input inp s;
      policy_result = p;
      evaluated = evaluated;
      asked_token = token_input inp;
      token_result = t;
      issued = issued;
      policy_prompt = refl;
      policy_agent = refl;
      policy_requester = refl;
      policy_model = refl;
      token_agent = refl;
      token_requester = refl;
      token_task = refl;
      token_session = refl;
      token_scope = refl;
      token_protection = refl;
      prompt = refl;
      token = refl;
      scope = refl;
      protection = refl;
      private_key = refl;
      public_jwk = refl;
      rotation = refl;
      agent = refl;
      requester = refl;
      task = refl;
      session = refl;
      model = refl;
      max_tokens = refl;
      temperature = refl;
      system_prompt = refl;
    },
  )

  -- A run executes the activity LLMInvoke at most once; its retries are not counted here. It executes it only
  -- if the scrubbing, the policy and the token have succeeded, and either the projected spend is at most the
  -- threshold or the last signal at the gate approves. The policy was asked about the scrubbed prompt, for the
  -- agent, requester and model of the task; the token was asked for "llm:complete", for the agent, requester,
  -- task, session and protection of the task. The input of LLMInvoke has the prompt that the policy returned, the
  -- token and the keys that were issued with the scope and the rotation key that they were asked with, and the
  -- agent, requester, task, session, model, protection, system prompt, temperature and token limit of the task.
  pub run-Dispatches : Dispatches (requests (run env outside inp).0.executed)
  run-Dispatches = Dispatched-Dispatches run-Dispatched
