-- ===== src/ControlPlane/Orchestrator/Stages/Dispatch.antt =====
-- src/control_plane/orchestrator.py: which requests a run sends to the provider, and what it makes of
-- the answer.
use aegis_os.Prelude.{
  ◌==◌, string_eq, arith, String, subst, ◌⊎◌, string_eq, ◌≡◌, refl, sym, ap, ◌∙◌, inl, inr, true,
  false, Option, none, some, List, [], ◌∷◌, ◌++◌,
}
use aegis_os.Governance.Guardrails.{MaskResult, mask_pii, check_prompt_injection}
use aegis_os.Governance.Policy
use aegis_os.Governance.Policy.{PolicyResult, evaluate}
use aegis_os.Governance.Session.{SessionManager, TokenClaims}
use aegis_os.ControlPlane.Orchestrator.{
  OrchestratorRequest, LlmRequest, LlmResponse, Completion, failed, completed, OrchestratorResult,
  State, Env, ◌>>=◌, ◌>>◌,
}
use aegis_os.ControlPlane.Orchestrator.Stages.{Tokens, opa_input, is_denied, llm_request}
use aegis_os.ControlPlane.Orchestrator.Stages.Run.{
  answer, complete, invoke, post_sanitize, conclude, run_task, run_with, run,
}
use aegis_os.ControlPlane.Orchestrator.Stages.Keeps.{Keeps-sent_of, steps}
use aegis_os.ControlPlane.Orchestrator.Stages.Ensures.{
  Ensures-Unit, Ensures, Ensures-pure, Ensures->>=, Ensures->>, Ensures-stage,
}
use aegis_os.ControlPlane.Orchestrator.Stages.Returns.{
  Ensures-pre_sanitize, Ensures-evaluate_policy, Ensures-apply_mask, Ensures-issue_tokens,
  policy_masked, Accepted, Authorized, Protected,
}
use aegis_os.ControlPlane.Orchestrator.Stages.Sends.{
  Sent, Sends, Sends-after, Sends-before, Sends-stage, Keeps-pre_sanitize, Keeps-evaluate_policy,
  Keeps-apply_mask, Keeps-issue_tokens, Keeps-watch_before, Keeps-conclude,
}

module _ {Token : Type 0} (env : Env Token) (r : OrchestratorRequest Token) where
  -- The prompt has no injection, the policy allows the request, and what is sent is the prompt as the
  -- policy has it masked, under tokens that the session manager accepts.
  abbrev pub Sanctioned : LlmRequest Token → Type 0
  Sanctioned q =
      (check_prompt_injection env.tools r.prompt ≡ none)
      × ((p : PolicyResult) × (evaluate (env.opa (opa_input r)) ≡ Policy.returned p)
          × (p.allowed ≡ true)
          × ((p.action == "reject") ≡ false)
          × (q.prompt ≡ MaskResult.text (policy_masked env p (mask_pii env.tools r.prompt))))
      × ((c : TokenClaims) × Accepted env q.aegis_token c)
      × ((given : Token)
          → r.session_token ≡ some given
          → (c : TokenClaims) × Accepted env given c × (c.agent_type ≡ r.agent_type))
      × (((r.protect_outbound_request ≡ true)
            × ((proof : String) × (q.aegis_dpop_proof ≡ some proof)))
          ⊎ ((r.protect_outbound_request ≡ false) × (q.aegis_dpop_proof ≡ none)))

  -- The provider answered the request.
  abbrev pub Answered : LlmResponse → LlmRequest Token → Type 0
  Answered response q = (m m' : SessionManager) × (env.complete q m ≡ (m', completed response))

  -- The result is the provider's answer with its personal data masked.
  abbrev pub Reported : OrchestratorResult Token → LlmRequest Token → Type 0
  Reported result q =
      (answered : LlmResponse) × Answered answered q
      × (result.response
          ≡ record answered { content = MaskResult.text (mask_pii env.tools answered.content) })
      × (result.pii_found_in_response
          ≡ MaskResult.found_types (mask_pii env.tools answered.content))
      × (result.sanitized_prompt ≡ q.prompt)

  module _ (task_id : String) where
    Sent-answer :
        (Q : LlmRequest Token → Type 0) (q : LlmRequest Token) (sent : List (LlmRequest Token))
        (st : State Token) (m : SessionManager) (c : SessionManager × Completion)
        → env.complete q m ≡ c
        → st.sent ≡ sent ++ q ∷ []
        → Q q
        → Sent Q (λ a k. (k ≡ q) × Answered a k) sent (answer env task_id r st c)
    unfolding Sent answer
    Sent-answer Q q sent st m (m', failed kind) h there ok = inr (q, there, ok)
    Sent-answer Q q sent st m (m', completed response) h there ok =
        (q, there, ok, (refl, (m, m', h)))

    Sends-complete :
        {Q : LlmRequest Token → Type 0} (q : LlmRequest Token)
        → Q q
        → Sends Q (λ a k. (k ≡ q) × Answered a k) (complete env task_id r q)
    unfolding complete
    Sends-complete {Q} q ok = record {
      at = λ st.
          Sent-answer Q q st.sent (record st { sent = st.sent ++ q ∷ [] }) st.sessions
            (env.complete q st.sessions) refl refl ok;
    }

    Sends-invoke :
        {Q : LlmRequest Token → Type 0} (m : MaskResult) (tokens : Tokens Token)
        → Q (llm_request env task_id r m.text tokens.adapter_token tokens.dpop_proof)
        → Sends Q
            (λ a k.
              (k ≡ llm_request env task_id r m.text tokens.adapter_token tokens.dpop_proof)
              × Answered a k)
            (invoke env task_id r m tokens)
    unfolding invoke
    Sends-invoke m tokens ok = Sends-stage env task_id r _ _ (
        Sends-before (Sends-complete _ ok) (λ response. Keeps-sent_of (search steps))
          (λ response q answered. Ensures->> _ (Ensures-pure answered)))

    Ensures-post_sanitize :
        (response : LlmResponse)
        → Ensures
            (λ m. m ≡ mask_pii env.tools response.content)
            (post_sanitize env task_id r response)
    unfolding post_sanitize
    Ensures-post_sanitize response =
        Ensures-stage env task_id r _ _ (Ensures->> _ (Ensures-pure refl))

    Ensures-conclude :
        (m : MaskResult) (tokens : Tokens Token) (response : LlmResponse) (q : LlmRequest Token)
        → (q ≡ llm_request env task_id r m.text tokens.adapter_token tokens.dpop_proof)
          × Answered response q
        → Ensures (λ result. Reported result q) (conclude env task_id r m tokens response)
    unfolding conclude
    Ensures-conclude m tokens response q (same, answered) = Ensures->> _ (
        Ensures->> _ (
          Ensures->>= (Ensures-post_sanitize response) λ post h. Ensures-pure (
            response,
            answered,
            ap (λ (p : MaskResult). record response { content = p.text }) h,
            ap (λ (p : MaskResult). p.found_types) h,
            ap (λ (k : LlmRequest Token). k.prompt) (sym same),
          )))

    adapter_token-Accepted :
        (tokens : Tokens Token)
        → Authorized env task_id r tokens.token
        → Protected env task_id r tokens
        → (c : TokenClaims) × Accepted env tokens.adapter_token c
    adapter_token-Accepted tokens known (inl (h, (accepted, proof))) = accepted
    adapter_token-Accepted tokens (c, accepted, given) (inr (h, (same, none_there))) =
        (c, subst (λ t. Accepted env t c) (sym same) accepted)

    dpop_proof-Protected :
        (tokens : Tokens Token)
        → Protected env task_id r tokens
        → ((r.protect_outbound_request ≡ true)
            × ((proof : String) × (tokens.dpop_proof ≡ some proof)))
          ⊎ ((r.protect_outbound_request ≡ false) × (tokens.dpop_proof ≡ none))
    dpop_proof-Protected tokens (inl (h, (accepted, proof))) = inl (h, proof)
    dpop_proof-Protected tokens (inr (h, (same, none_there))) = inr (h, none_there)

    given-Accepted :
        (token : Token)
        → Authorized env task_id r token
        → (given : Token) → r.session_token ≡ some given
        → (c : TokenClaims) × Accepted env given c × (c.agent_type ≡ r.agent_type)
    given-Accepted token (c, accepted, known) given h =
        (c, subst (λ t. Accepted env t c) (known given h).0 accepted, (known given h).1)

    is_denied-false :
        (p : PolicyResult)
        → is_denied p ≡ false
        → (p.allowed ≡ true) × ((p.action == "reject") ≡ false)
    is_denied-false p h = ground (arith, h)

    sanctioned :
        (m masked : MaskResult) (p : PolicyResult) (tokens : Tokens Token)
        → (check_prompt_injection env.tools r.prompt ≡ none) × (m ≡ mask_pii env.tools r.prompt)
        → (evaluate (env.opa (opa_input r)) ≡ Policy.returned p) × (is_denied p ≡ false)
        → masked ≡ policy_masked env p m
        → Authorized env task_id r tokens.token × Protected env task_id r tokens
        → Sanctioned (llm_request env task_id r masked.text tokens.adapter_token tokens.dpop_proof)
    sanctioned m masked p tokens (clean, m_is) (allowed, accepted) masked_is (known, protected) = (
      clean,
      (
        p,
        allowed,
        (is_denied-false p accepted).0,
        (is_denied-false p accepted).1,
        ap (λ (k : MaskResult). k.text) (masked_is ∙ ap (policy_masked env p) m_is),
      ),
      adapter_token-Accepted tokens known protected,
      given-Accepted tokens.token known,
      dpop_proof-Protected tokens protected,
    )

    Sends-run_task : Sends Sanctioned Reported (run_task env task_id r)
    unfolding run_task ◌>>◌ ◌>>=◌
    Sends-run_task =
        Sends-after (Keeps-pre_sanitize env task_id r) (Ensures-pre_sanitize env task_id r)
          λ m m_is.
            Sends-after (Keeps-evaluate_policy env task_id r)
              (Ensures-evaluate_policy env task_id r)
              λ p allowed.
                Sends-after (Keeps-apply_mask env task_id r p m)
                  (Ensures-apply_mask env task_id r p m)
                  λ masked masked_is.
                    Sends-after (Keeps-issue_tokens env task_id r masked)
                      (Ensures-issue_tokens env task_id r masked)
                      λ tokens known.
                        Sends-after (Keeps-watch_before env task_id r) (Ensures-Unit _)
                          λ done nothing.
                            Sends-before
                              (Sends-invoke masked tokens
                                (sanctioned m masked p tokens m_is allowed masked_is known))
                              (λ response. Keeps-conclude env task_id r masked tokens response)
                              (λ response q answered.
                                Ensures-conclude masked tokens response q answered)

  Sends-run_with : (id : Option String) → Sends Sanctioned Reported (run_with env id r)
  unfolding run_with Sent
  Sends-run_with none = record { at = λ st. inl refl }
  Sends-run_with (some task_id) = Sends-run_task task_id

-- A run sends at most one request to the provider. What it sends is sanctioned: the prompt has no
-- injection, the policy engine allowed the request and did not reject it, the text is the prompt as
-- masked, its token was accepted by the session manager, a token that was supplied was accepted too and
-- is of the request's agent type, and there is a proof exactly if the request is to be protected. A run
-- that returns has sent one, and reports its answer with the personal data masked. A run that raises has
-- sent none, or one that is sanctioned.
pub run-Sent :
    {Token : Type 0} (env : Env Token) (r : OrchestratorRequest Token) (st : State Token)
    → Sent (Sanctioned env r) (Reported env r) st.sent (run env r st)
unfolding run
run-Sent env r st = (Sends-run_with env r r.task_id).at st
