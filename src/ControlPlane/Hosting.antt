-- ===== src/ControlPlane/Hosting.antt =====
-- src/control_plane/scheduler.py: `AgentTaskWorkflow` on a worker that runs `AegisActivities`. Temporal
-- gives the workflow the result of an attempt of an activity.
use aegis_os.Prelude.{
  String, string_eq, ◌≡◌, sym, ap, subst, ◌⊎◌, inl, inr, some, List, [], ◌∷◌, ◌++◌, ◌∙◌,
}
use aegis_os.Governance.Guardrails.{MaskResult, mask_pii}
use aegis_os.Governance.Session.{SessionManager, TokenClaims}
use aegis_os.ControlPlane.Records.{
  WorkflowInput, PrePiiScrubResult, PolicyEvalInput, PolicyEvalResult, JitTokenInput,
  JitTokenResult, LlmInvokeInput, LlmInvokeResult, PostSanitizeInput, PostSanitizeResult,
  WorkflowOutput,
}
use aegis_os.ControlPlane.Steps.{Result, returned, raised, Ensures-returned}
use aegis_os.ControlPlane.Orchestrator.{LlmRequest, LlmResponse, completed}
use aegis_os.ControlPlane.Activities.{Env, Error, Info, Worker}
use aegis_os.ControlPlane.Activities.Screening.{pre_pii_scrub, policy_eval, post_sanitize}
use aegis_os.ControlPlane.Activities.Screening.Screened.{
  Scrubbed, Allowed, Ensures-pre_pii_scrub, Ensures-policy_eval, Ensures-post_sanitize,
}
use aegis_os.ControlPlane.Activities.Invocation.{jit_token_issue, llm_invoke}
use aegis_os.ControlPlane.Activities.Invocation.Sending.{
  Prepared, Sent, Answered, llm_invoke-Sent, Ensures-jit_token_issue,
}
use aegis_os.ControlPlane.Activities.Rules.{Accepted}
use aegis_os.ControlPlane.Inputs.{
  Activities, Outside, answered, policy_input, token_input, llm_input,
}
use aegis_os.ControlPlane.Workflow.{run}
use aegis_os.ControlPlane.Workflow.Outcome.{Refused, Completed, Returns, Returns-map, run-Ends}
use aegis_os.ControlPlane.Workflow.Dispatch.{Cleared, Dispatched, run-Dispatched}
use aegis_os.ControlPlane.Workflow.Requests.{requests}

-- A result that the workflow gets is what the activity returned on the worker, in some state of it.
pub record Hosted (env : Env) (activities : Activities) : Type 0 where
  pub scrubs :
      (inp : WorkflowInput) (s : PrePiiScrubResult)
      → activities.pre_pii_scrub inp ≡ some s
      → (st st' : Worker) × (pre_pii_scrub env inp st ≡ (st', returned s))
  pub evaluates :
      (inp : PolicyEvalInput) (p : PolicyEvalResult)
      → activities.policy_eval inp ≡ some p
      → (st st' : Worker) × (policy_eval env inp st ≡ (st', returned p))
  pub issues :
      (inp : JitTokenInput) (t : JitTokenResult)
      → activities.jit_token_issue inp ≡ some t
      → (st st' : Worker) × (jit_token_issue env inp st ≡ (st', returned t))
  pub invokes :
      (inp : LlmInvokeInput) (l : LlmInvokeResult)
      → activities.llm_invoke inp ≡ answered l
      → (info : Info) × (st st' : Worker) × (llm_invoke env info inp st ≡ (st', returned l))
  pub sanitizes :
      (inp : PostSanitizeInput) (r : PostSanitizeResult)
      → activities.post_sanitize inp ≡ some r
      → (st st' : Worker) × (post_sanitize env inp st ≡ (st', returned r))

module _ (env : Env) (activities : Activities) (outside : Outside) (inp : WorkflowInput) where
  -- What is known of a request to the provider: the prompt has no injection, the policy allows its
  -- request, and the text is its masked one, as the policy has it masked; its token is accepted.
  pub record Shielded (q : LlmRequest String) : Type 0 where
    pub scrub_result : PrePiiScrubResult
    pub policy_result : PolicyEvalResult
    pub scrubbed : Scrubbed env inp scrub_result
    pub allowed : Allowed env (policy_input inp scrub_result) policy_result
    pub text : q.prompt ≡ policy_result.sanitized_prompt
    pub claims : TokenClaims
    pub accepted : Accepted env q.aegis_token claims

  -- No request was added, or one that is shielded.
  abbrev pub AtMostOne : List (LlmRequest String) → List (LlmRequest String) → Type 0
  AtMostOne before after =
      (after ≡ before) ⊎ ((q : LlmRequest String) × (after ≡ before ++ q ∷ []) × Shielded q)

  module _ (s : PrePiiScrubResult) (p : PolicyEvalResult) (t : JitTokenResult) where
    shielded :
        (q : LlmRequest String) (claims : TokenClaims)
        → Scrubbed env inp s
        → Allowed env (policy_input inp s) p
        → q.prompt ≡ p.sanitized_prompt
        → Accepted env q.aegis_token claims
        → Shielded q
    shielded q claims scrubbed allowed text accepted = record {
      scrub_result = s;
      policy_result = p;
      scrubbed = scrubbed;
      allowed = allowed;
      text = text;
      claims = claims;
      accepted = accepted;
    }

    prompt_of : (q k : LlmRequest String) → q ≡ k → q.prompt ≡ k.prompt
    prompt_of q k same = ap (λ (r : LlmRequest String). r.prompt) same

    Prepared-Shielded :
        (info : Info) (q : LlmRequest String)
        → Scrubbed env inp s
        → Allowed env (policy_input inp s) p
        → (c : TokenClaims) × Accepted env t.token c
        → Prepared env info (llm_input inp p t) q
        → Shielded q
    Prepared-Shielded info q scrubbed allowed issued
          (inl (on, (d, accepted), (proof, is, proved))) =
        shielded q d scrubbed allowed (prompt_of q _ is) accepted
    Prepared-Shielded info q scrubbed allowed (c, issued) (inr (off, inl (first, same), is)) =
        shielded q c scrubbed allowed (prompt_of q _ is)
          (subst (λ token. Accepted env token c) (sym same) issued)
    Prepared-Shielded info q scrubbed allowed issued (inr (off, inr (d, accepted), is)) =
        shielded q d scrubbed allowed (prompt_of q _ is) accepted

    Sent-AtMostOne :
        (info : Info) (before : List (LlmRequest String))
        (c : Worker × Result Error LlmInvokeResult)
        → ((q : LlmRequest String) → Prepared env info (llm_input inp p t) q → Shielded q)
        → Sent env info (llm_input inp p t) before c
        → AtMostOne before c.0.sent
    unfolding Sent
    Sent-AtMostOne info before (st, returned r) f (q, there, ok, reply) = inr (q, there, f q ok)
    Sent-AtMostOne info before (st, raised err) f (inl same) = inl same
    Sent-AtMostOne info before (st, raised err) f (inr (q, there, ok)) = inr (q, there, f q ok)

  -- The run asks for no request, or for one; and an attempt at it adds at most one that is shielded.
  abbrev pub RunShielded : List LlmInvokeInput → Type 0
  RunShielded asked =
      (asked ≡ [])
      ⊎ (Cleared activities outside inp
          × (i : LlmInvokeInput) × (asked ≡ i ∷ [])
          × ((info : Info) (st : Worker) → AtMostOne st.sent (llm_invoke env info i st).0.sent))

  Dispatched-RunShielded :
      Hosted env activities
      → (asked : List LlmInvokeInput) → Dispatched activities outside inp asked
      → RunShielded asked
  Dispatched-RunShielded hosted asked (inl nothing) = inl nothing
  Dispatched-RunShielded hosted asked (inr (cleared, (s, p, t, scrubs, evaluates, issues, one))) =
      let a = hosted.scrubs inp s scrubs in
      let b = hosted.evaluates (policy_input inp s) p evaluates in
      let c = hosted.issues (token_input inp) t issues in
      inr (
        cleared,
        llm_input inp p t,
        one,
        λ info st.
            Sent-AtMostOne s p t info st.sent (llm_invoke env info (llm_input inp p t) st)
              (λ q.
                Prepared-Shielded s p t info q
                  (Ensures-returned (Ensures-pre_pii_scrub env inp) a.0 a.2).1
                  (Ensures-returned (Ensures-policy_eval env (policy_input inp s)) b.0 b.2)
                  (Ensures-returned (Ensures-jit_token_issue env (token_input inp)) c.0 c.2))
              (llm_invoke-Sent env info (llm_input inp p t) st),
      )

  -- Of a workflow whose results come from the activities of a worker: it asks for at most one request to
  -- the provider, and any attempt at that, a retry included, sends at most one. Each request that is sent
  -- is shielded: the prompt of the task has no injection, the policy engine allowed the task and did not
  -- reject it, what is sent is the prompt with its personal data masked and then masked as the policy
  -- says, the projected spend is at most the threshold or an approver agreed, and the session manager has
  -- accepted its token.
  pub run-RunShielded :
      Hosted env activities → RunShielded (requests (run activities outside inp).0.executed)
  run-RunShielded hosted =
      Dispatched-RunShielded hosted (requests (run activities outside inp).0.executed)
        (run-Dispatched activities outside inp)

  -- The output is the answer of the provider to a shielded request, with its personal data masked, and the
  -- prompt that it names is the one that was sent.
  pub record Delivered (out : WorkflowOutput) : Type 0 where
    pub cleared : Cleared activities outside inp
    pub request : LlmRequest String
    pub response : LlmResponse
    pub shield : Shielded request
    pub given : (m m' : SessionManager) × (env.complete request m ≡ (m', completed response))
    pub content : out.content ≡ MaskResult.text (mask_pii env.tools response.content)
    pub prompt : out.sanitized_prompt ≡ request.prompt

  Prepared-prompt :
      (info : Info) (p : PolicyEvalResult) (t : JitTokenResult) (q : LlmRequest String)
      → Prepared env info (llm_input inp p t) q
      → q.prompt ≡ p.sanitized_prompt
  Prepared-prompt info p t q (inl (on, accepted, (proof, is, proved))) =
      ap (λ (r : LlmRequest String). r.prompt) is
  Prepared-prompt info p t q (inr (off, token, is)) = ap (λ (r : LlmRequest String). r.prompt) is

  Sent-Answered :
      (info : Info) (i : LlmInvokeInput) (l : LlmInvokeResult) (st st' : Worker)
      → llm_invoke env info i st ≡ (st', returned l)
      → (q : LlmRequest String) × Prepared env info i q × Answered env info i q l
  unfolding Sent
  Sent-Answered info i l st st' went =
      let sent = subst (Sent env info i st.sent) went (llm_invoke-Sent env info i st) in
      (sent.0, sent.2, sent.3)

  Answered-Delivered :
      (out : WorkflowOutput) (info : Info) (q : LlmRequest String)
      → (d : Completed activities outside inp out) → Shielded q
      → Prepared env info (llm_input inp d.policy_result d.token_result) q
      → Answered env info (llm_input inp d.policy_result d.token_result) q d.llm_result
      → out.content ≡ MaskResult.text (mask_pii env.tools (d.llm_result.content))
      → Delivered out
  Answered-Delivered out info q d shield prepared (response, m, m', given, same) content = record {
    cleared = d.cleared;
    request = q;
    response = response;
    shield = shield;
    given = (m, m', given);
    content =
        content ∙ ap (λ (l : LlmInvokeResult). MaskResult.text (mask_pii env.tools l.content)) same;
    prompt = d.prompt ∙ sym (Prepared-prompt info d.policy_result d.token_result q prepared);
  }

  Completed-Delivered :
      (out : WorkflowOutput)
      → Hosted env activities
      → Completed activities outside inp out
      → Delivered out
  Completed-Delivered out hosted d =
      let a = hosted.scrubs inp d.scrub_result d.scrubbed in
      let b = hosted.evaluates (policy_input inp d.scrub_result) d.policy_result d.allowed in
      let c = hosted.issues (token_input inp) d.token_result d.issued in
      let e = hosted.invokes _ d.llm_result d.invoked_with in
      let f = hosted.sanitizes _ d.post_result d.sanitized in
      let sent = Sent-Answered e.0 _ d.llm_result e.1 e.2 e.3 in
      let shield =
        Prepared-Shielded d.scrub_result d.policy_result d.token_result e.0 sent.0
          (Ensures-returned (Ensures-pre_pii_scrub env inp) a.0 a.2).1
          (Ensures-returned (Ensures-policy_eval env _) b.0 b.2)
          (Ensures-returned (Ensures-jit_token_issue env _) c.0 c.2) sent.1 in
      Answered-Delivered out e.0 sent.0 d shield sent.1 sent.2
        (d.content ∙ Ensures-returned (Ensures-post_sanitize env _) f.0 f.2)

  -- Of a workflow whose results come from the activities of a worker, the output that a run returns is one
  -- of two things. Either the projected spend is over the threshold and the gate's answer, which is the
  -- decision of the last signal at it or else that of the timeout, does not approve; then the output has its
  -- approver and reason, no content and no tokens. Or the spend is at most the threshold or the last signal
  -- approves; then the content is what the provider answered to a shielded request, with its personal data
  -- masked, and the prompt is the one of that request.
  pub run-Delivered :
      Hosted env activities
      → Returns
          (λ out. Refused activities outside inp out ⊎ Delivered out)
          (run activities outside inp)
  run-Delivered hosted =
      Returns-map refused_or_delivered (run activities outside inp)
        (run-Ends activities outside inp)
    where
      refused_or_delivered :
          (out : WorkflowOutput)
          → Refused activities outside inp out ⊎ Completed activities outside inp out
          → Refused activities outside inp out ⊎ Delivered out
      refused_or_delivered out (inl refused) = inl refused
      refused_or_delivered out (inr d) = inr (Completed-Delivered out hosted d)
