-- ===== src/ControlPlane/Activities/Invocation.antt =====
-- src/control_plane/scheduler.py: the activities "JITTokenIssue" and "LLMInvoke".
pub mod Sending
use Prim.Native.String.{◌++◌ as str_append}
use aegis_os.Prelude.{
  ℕ, zero, suc, ◌+◌, String, Bool, Option, none, some, List, [], ◌∷◌, ◌++◌, if◌then◌else◌,
}
use aegis_os.Dict.{Dict}
use aegis_os.Audit.{Outcome, LifecycleEvent, lifecycle_text, text, num}
use aegis_os.Governance.Session.{
  SessionManager, TokenClaims, TokenRequest, issue_token, issue_sender_constrained_token,
}
use aegis_os.Governance.Dpop.{Jwk, public_jwk_thumbprint, issue_dpop_proof}
use aegis_os.ControlPlane.Records.{
  WorkflowStatus, status_value, JitTokenInput, JitTokenResult, LlmInvokeInput, LlmInvokeResult,
}
use aegis_os.ControlPlane.Steps.{Result, returned, raised, ◌>>=◌, ◌>>◌, pure, raise}
use aegis_os.ControlPlane.Orchestrator.{LlmRequest, LlmResponse, Completion, failed, completed}
use aegis_os.ControlPlane.Activities.{
  Env, Info, Worker, M, Call, Error, no_key_material, no_binding, provider_error, require_task_id,
  log, log_lifecycle, reading, in_sessions, session_result, validated,
}

module _ (env : Env) where
  -- `issue_token` and `validate_token`
  pub fresh_token : TokenRequest → M String
  fresh_token q = do
    n ← reading
    revoked ← reading
    id ← reading
    in_sessions
        (issue_token env.jose env.settings q (env.uuid4 id) (env.clock n) (env.clock revoked))

  abbrev pub token_request : JitTokenInput → TokenRequest
  token_request inp = record {
    agent_type = inp.agent_type;
    requester_id = inp.requester_id;
    metadata = none;
    session_id = inp.session_id;
    allowed_actions = some inp.allowed_actions;
    role = inp.role;
    expires_in_seconds = none;
    rotation_key = inp.rotation_key;
    task_id = none;
    confirmation_jkt = none;
  }

  abbrev pub jit_call : JitTokenInput → Call
  jit_call inp = record {
    task_id = inp.task_id;
    agent_type = inp.agent_type;
    span = "jit-token-issue";
    traceparent = inp.traceparent;
  }

  -- The key pair, where the request is to be protected.
  pub key_material : Bool → M (Option (String × Jwk))
  key_material protect =
      if protect then (do n ← reading; pure (some (env.key_pair n))) else pure none

  abbrev pub pem_of : Option (String × Jwk) → Option String
  pem_of none = none
  pem_of (some (pem, jwk)) = some pem

  abbrev pub jwk_of : Option (String × Jwk) → Option Jwk
  jwk_of none = none
  jwk_of (some (pem, jwk)) = some jwk

  -- `jit_token_issue`
  unfoldable pub jit_token_issue : JitTokenInput → M JitTokenResult
  jit_token_issue inp = do
    require_task_id env inp.task_id "jit-token-issue" inp.agent_type
    keys ← key_material inp.protect_outbound_request
    token ← fresh_token (token_request inp)
    claims ← validated env token
    log env (jit_call inp) Outcome.allow "token.issued" "jit-token-issue"
        (("jti", text claims.jti) ∷ [])
    pure (record {
      token = token;
      jti = claims.jti;
      protected_private_key_pem = pem_of keys;
      protected_public_jwk = jwk_of keys;
    })

  abbrev pub llm_call : LlmInvokeInput → Call
  llm_call inp = record {
    task_id = inp.task_id;
    agent_type = inp.agent_type;
    span = "llm-invoke";
    traceparent = inp.traceparent;
  }

  -- The request for a token in the place of the one that came with the input.
  abbrev pub retry_request : LlmInvokeInput → TokenRequest
  retry_request inp = record {
    agent_type = inp.agent_type;
    requester_id = inp.requester_id;
    metadata = none;
    session_id = inp.session_id;
    allowed_actions = some inp.allowed_actions;
    role = inp.role;
    expires_in_seconds = none;
    rotation_key = inp.rotation_key;
    task_id = none;
    confirmation_jkt = none;
  }

  -- `if info.attempt > 1`, by the number of retries
  pub current_token : ℕ → LlmInvokeInput → M String
  current_token zero inp = pure inp.token
  current_token (suc n) inp = do
    token ← fresh_token (retry_request inp)
    claims ← validated env token
    log env (llm_call inp) Outcome.allow "token.reissued" "jit-token-issue"
        (("attempt", num (n + 2)) ∷ ("jti", text claims.jti) ∷ [])
    log env (llm_call inp) Outcome.retried "llm.retried" "llm-invoke"
        (("attempt", num (n + 2)) ∷ [])
    log_lifecycle env (llm_call inp) "llm.retried" (lifecycle_text LifecycleEvent.retried)
        inp.session_id (status_value WorkflowStatus.running) "llm-invoke"
        (("retry_count", num (n + 1)) ∷ [])
    pure token

  abbrev pub llm_request : LlmInvokeInput → String → Option String → LlmRequest String
  llm_request inp token dpop_proof = record {
    prompt = inp.sanitized_prompt;
    model = inp.model;
    max_tokens = inp.max_tokens;
    temperature = inp.temperature;
    system_prompt = inp.system_prompt;
    aegis_token = token;
    aegis_dpop_proof = dpop_proof;
  }

  -- Both halves of the key pair, if they are there.
  pub keys_or_raise : Option String → Option Jwk → M (String × Jwk)
  keys_or_raise none jwk = raise no_key_material
  keys_or_raise (some pem) none = raise no_key_material
  keys_or_raise (some pem) (some jwk) = pure (pem, jwk)

  pub binding_or_raise : Option (String × String) → M (String × String)
  binding_or_raise none = raise no_binding
  binding_or_raise (some binding) = pure binding

  abbrev pub constrained_request : LlmInvokeInput → TokenRequest
  constrained_request inp = record {
    agent_type = inp.agent_type;
    requester_id = inp.requester_id;
    metadata = none;
    session_id = inp.session_id;
    allowed_actions = some ("llm.invoke" ∷ []);
    role = inp.role;
    expires_in_seconds = none;
    rotation_key = some (str_append "scheduler-adapter:" inp.task_id);
    task_id = some inp.task_id;
    confirmation_jkt = none;
  }

  -- The thumbprint is computed first; the source computes it once the rotated token has been revoked, so a key
  -- without one leaves that token revoked there.
  pub bind_token : LlmInvokeInput → String × Jwk → String × String → M (LlmRequest String)
  bind_token inp (private_key_pem, public_jwk) (http_method, http_url) = do
    n ← reading
    revoked ← reading
    id ← reading
    jkt ← session_result (public_jwk_thumbprint env.proofs public_jwk)
    adapter_token ← in_sessions (
        issue_sender_constrained_token env.jose env.settings (constrained_request inp) jkt
          (env.uuid4 id) (env.clock n) (env.clock revoked))
    proof_id ← reading
    proved ← reading
    let proof =
        issue_dpop_proof env.proofs private_key_pem public_jwk
          (record {
            http_method = http_method;
            http_url = http_url;
            access_token = some adapter_token;
            nonce = none;
            issued_at = none;
            proof_jti = none;
          })
          (env.uuid4 proof_id) (env.clock proved)
    claims ← validated env adapter_token
    log env (llm_call inp) Outcome.allow "token.sender_constrained_issued" "jit-token-issue"
        (("jti", text claims.jti) ∷ [])
    pure (llm_request inp adapter_token (some proof))

  -- The request that is sent, with a token of its own where it is to be protected.
  pub protect : LlmInvokeInput → String → M (LlmRequest String)
  protect inp token =
      if inp.protect_outbound_request
      then (do
        keys ← keys_or_raise inp.protected_private_key_pem inp.protected_public_jwk
        binding ← binding_or_raise (env.outbound_request_binding (llm_request inp token none))
        bind_token inp keys binding)
      else pure (llm_request inp token none)

  pub answer : Worker → SessionManager × Completion → Worker × Result Error LlmResponse
  answer st (sessions, failed kind) =
      (record st { sessions = sessions }, raised (provider_error kind))
  answer st (sessions, completed response) = (record st { sessions = sessions }, returned response)

  -- `await self._adapter.complete(llm_request)`
  pub complete : LlmRequest String → M LlmResponse
  complete q st = answer (record st { sent = st.sent ++ q ∷ [] }) (env.complete q st.sessions)

  -- What follows the answer.
  pub report : Info → LlmInvokeInput → LlmResponse → M LlmInvokeResult
  report info inp response = do
    log env (llm_call inp) Outcome.allow "llm.completed" "llm-invoke"
        (("model", text response.model) ∷ ("tokens_used", num response.tokens_used) ∷ [])
    pure (record {
      content = response.content;
      tokens_used = response.tokens_used;
      model = response.model;
      provider = response.provider;
      retry_count = info.retries;
    })

  -- What precedes the request.
  pub prepare : Info → LlmInvokeInput → M (LlmRequest String)
  prepare info inp = do
    require_task_id env inp.task_id "llm-invoke" inp.agent_type
    token ← current_token info.retries inp
    protect inp token

  -- `llm_invoke`
  unfoldable pub llm_invoke : Info → LlmInvokeInput → M LlmInvokeResult
  llm_invoke info inp = do q ← prepare info inp; response ← complete q; report info inp response
