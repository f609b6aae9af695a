-- ===== src/ControlPlane/Orchestrator/Stages.antt =====
-- src/control_plane/orchestrator.py: the stages of `Orchestrator.run`, in their order.
pub mod Run
pub mod Keeps
pub mod Counting
pub mod Ensures
pub mod Returns
pub mod Sends
pub mod Dispatch
use Prim.Native.String.{◌++◌ as str_append}
use aegis_os.Prelude.{
  ℕ, ◌+◌, String, Bool, true, false, not, ◌||◌, Option, none, some, List, [], ◌∷◌, ◌++◌,
  if◌then◌else◌, ◌==◌, string_eq,
}
use aegis_os.Dict.{Dict}
use aegis_os.Decimal.{Decimal, mul, of_ℕ}
use aegis_os.Audit.{Outcome, Kwargs, text, texts, uuid, num}
use aegis_os.Governance.Guardrails.{MaskResult, Pattern, mask_pii, scrub, check_prompt_injection}
use aegis_os.Governance.Policy
use aegis_os.Governance.Policy.{PolicyInput, PolicyResult, evaluate}
use aegis_os.Governance.Session
use aegis_os.Governance.Session.{
  SessionManager, TokenClaims, TokenRequest, issue_token, issue_sender_constrained_token,
}
use aegis_os.Governance.Session.Validation.{validate_token, is_expired}
use aegis_os.Governance.Dpop.{Jwk, public_jwk_thumbprint, issue_dpop_proof}
use aegis_os.Watchdog.Budget
use aegis_os.Watchdog.Budget.{BudgetEnforcer, BudgetSession, check_budget, record_spend}
use aegis_os.Watchdog.Loop
use aegis_os.Watchdog.Loop.{LoopDetector, record_step}
use aegis_os.ControlPlane.Inputs.{merge_types}
use aegis_os.ControlPlane.Orchestrator.{
  OrchestratorRequest, LlmRequest, LlmResponse, OrchestratorResult, Error, missing_task_id,
  prompt_injection, policy_denied, policy_error, session_error, token_scope, permission_error,
  no_binding, budget_limit, budget_error, loop_halt, loop_velocity, loop_approval, loop_error,
  provider_error, State, Result, returned, raised, Env, M, ◌>>=◌, ◌>>◌, pure, raise, handle,
  reading, audited, stage,
}

-- A call of a part leaves it as the part's own state says, and raises its errors.
module _ {Token A : Type 0} where
  pub from_session : State Token → Session.Call A → State Token × Result A
  from_session st (m, Session.returned a) = (record st { sessions = m }, returned a)
  from_session st (m, Session.raised err) = (record st { sessions = m }, raised (session_error err))

  pub in_sessions : (SessionManager → Session.Call A) → M Token A
  in_sessions f st = from_session st (f st.sessions)

  pub from_budget : State Token → Budget.Call A → State Token × Result A
  from_budget st (e, Budget.returned a) = (record st { budget = some e }, returned a)
  from_budget st (e, Budget.raised err) = (record st { budget = some e }, raised (budget_error err))

  pub in_budget : Budget.Call A → M Token A
  in_budget call st = from_budget st call

  pub from_loop : State Token → Loop.Call A → State Token × Result A
  from_loop st (d, Loop.returned a) = (record st { loop = some d }, returned a)
  from_loop st (d, Loop.raised err) = (record st { loop = some d }, raised (loop_error err))

  pub in_loop : Loop.Call A → M Token A
  in_loop call st = from_loop st call

  pub session_result : Session.Result A → M Token A
  session_result (Session.returned a) = pure a
  session_result (Session.raised err) = raise (session_error err)

abbrev pub found_outcome : List String → Outcome
found_outcome [] = Outcome.allow
found_outcome (t ∷ ts) = Outcome.redact

-- The loop over the fields that the policy names.
pub mask_fields : {Token : Type 0} → Env Token → List String → MaskResult → MaskResult
mask_fields env [] m = m
mask_fields env (field ∷ fields) m =
    let again = scrub env.tools m.text in
    mask_fields env fields (
      if field == "prompt"
      then record { text = again.text; found_types = merge_types m.found_types again.found_types }
      else m)

abbrev pub opa_input : {Token : Type 0} → OrchestratorRequest Token → PolicyInput
opa_input r = record {
  agent_type = r.agent_type;
  requester_id = r.requester_id;
  action = "llm.complete";
  resource = str_append "model:" r.model;
  metadata = r.metadata;
  principal_role = none;
  token_expired = false;
}

abbrev pub is_denied : PolicyResult → Bool
is_denied p = not p.allowed || (p.action == "reject")

-- The token of the session, that for the adapter, and its proof.
pub record Tokens (Token : Type 0) : Type 0 where
  pub token : Token
  pub adapter_token : Token
  pub dpop_proof : Option String

module _ {Token : Type 0} (env : Env Token) (task_id : String) (r : OrchestratorRequest Token) where
  abbrev pub log : Outcome → String → String → Kwargs → M Token (Unit {0})
  log = audited env task_id r

  abbrev pub by_requester : Kwargs
  by_requester = ("requester_id", text r.requester_id) ∷ []

  pub refuse_injection : Option Pattern → M Token (Unit {0})
  refuse_injection none = pure tt
  refuse_injection (some pattern) = raise (prompt_injection pattern)

  -- Stage 1
  pub pre_sanitize : M Token MaskResult
  pre_sanitize = stage env task_id r "pre-pii-scrub" "pre_pii_scrub" (do
    refuse_injection (check_prompt_injection env.tools r.prompt)
    let m = mask_pii env.tools r.prompt
    log (found_outcome m.found_types) "guardrails.pre_sanitize" "pre-pii-scrub"
        (("pii_types", texts m.found_types) ∷ [])
    pure m)

  pub evaluated : Policy.Result PolicyResult → M Token PolicyResult
  evaluated (Policy.returned p) = pure p
  evaluated (Policy.raised err) = raise (policy_error err)

  -- `except OpaUnavailableError`
  pub deny_unavailable : Error → M Token PolicyResult
  deny_unavailable (policy_error Policy.opa_unavailable) = do
    log Outcome.failure "policy.opa_unavailable" "policy-eval" (
        by_requester
        ++ ("error_message", text (env.message (policy_error Policy.opa_unavailable))) ∷ [])
    raise policy_denied
  deny_unavailable err = raise err

  pub judge : PolicyResult → M Token PolicyResult
  judge p =
      if is_denied p
      then (do
        log Outcome.deny "policy.denied" "policy-eval"
            (by_requester ++ ("reasons", texts p.reasons) ∷ [])
        raise policy_denied)
      else (do log Outcome.allow "policy.allowed" "policy-eval" []; pure p)

  -- Stage 2
  pub evaluate_policy : M Token PolicyResult
  evaluate_policy =
      stage env task_id r "policy-eval" "policy_eval"
        (do p ← handle (evaluated (evaluate (env.opa (opa_input r)))) deny_unavailable; judge p)

  -- Stage 2b
  pub apply_mask : PolicyResult → MaskResult → M Token MaskResult
  apply_mask p m =
      if p.action == "mask"
      then stage env task_id r "policy-mask" "policy_mask" (do
        let masked = mask_fields env p.fields m
        log Outcome.redact "policy.mask_applied" "policy-eval" (("fields", texts p.fields) ∷ [])
        pure masked)
      else pure m

  pub validated : Token → M Token TokenClaims
  validated token = do
    t ← reading
    purged ← reading
    checked ← reading
    in_sessions (
        validate_token env.jose env.settings token (env.clock t) (env.clock purged)
          (env.clock checked))

  -- `except TokenExpiredError` and `except TokenRevokedError`
  pub deny_token : Error → M Token TokenClaims
  deny_token (session_error Session.token_expired) = do
    log Outcome.deny "token.expired" "jit-token-issue" by_requester
    raise (session_error Session.token_expired)
  deny_token (session_error (Session.token_revoked jti)) = do
    log Outcome.deny "token.revoked" "jit-token-issue" by_requester
    raise permission_error
  deny_token err = raise err

  -- The checks of the claims that were validated.
  pub check_claims : TokenClaims → ℕ → M Token (Unit {0})
  check_claims claims now =
      if is_expired claims now
      then (do
        log Outcome.deny "token.expired" "jit-token-issue" by_requester
        raise (session_error Session.token_expired))
      else if not (claims.agent_type == r.agent_type)
      then (do
        log Outcome.deny "token.scope_violation" "jit-token-issue" by_requester
        raise token_scope)
      else pure tt

  pub use_token : Token → M Token Token
  use_token token = do
    claims ← handle (validated token) deny_token
    n ← reading
    check_claims claims (env.clock n)
    log Outcome.allow "token.validated" "jit-token-issue" []
    pure token

  abbrev pub token_request : Option (List String) → Option String → TokenRequest
  token_request actions rotation_key = record {
    agent_type = r.agent_type;
    requester_id = r.requester_id;
    metadata = some r.metadata;
    session_id = none;
    allowed_actions = actions;
    role = none;
    expires_in_seconds = none;
    rotation_key = rotation_key;
    task_id = some task_id;
    confirmation_jkt = none;
  }

  abbrev pub log_issued : String → TokenClaims → M Token (Unit {0})
  log_issued event claims =
      log Outcome.allow event "jit-token-issue" (("jti", text claims.jti) ∷ by_requester)

  pub fresh_token : M Token Token
  fresh_token = do
    n ← reading
    revoked ← reading
    id ← reading
    token ← in_sessions (
        issue_token env.jose env.settings (token_request none none) (env.uuid4 id) (env.clock n)
          (env.clock revoked))
    claims ← validated token
    log_issued "token.issued" claims
    pure token

  pub session_token : Option Token → M Token Token
  session_token none = fresh_token
  session_token (some token) = use_token token

  abbrev pub llm_request : String → Token → Option String → LlmRequest Token
  llm_request prompt token dpop_proof = record {
    prompt = prompt;
    model = r.model;
    max_tokens = r.max_tokens;
    temperature = r.temperature;
    system_prompt = r.system_prompt;
    aegis_token = token;
    aegis_dpop_proof = dpop_proof;
  }

  pub binding_or_raise : Option (String × String) → M Token (String × String)
  binding_or_raise none = raise no_binding
  binding_or_raise (some binding) = pure binding

  pub bind_token : Token → String × String → String × Jwk → M Token (Tokens Token)
  bind_token token (http_method, http_url) (private_key_pem, public_jwk) = do
    n ← reading
    revoked ← reading
    id ← reading
    jkt ← session_result (public_jwk_thumbprint env.proofs public_jwk)
    adapter_token ← in_sessions (
        issue_sender_constrained_token env.jose env.settings
          (token_request (some ("llm.invoke" ∷ [])) (some (str_append "adapter:" task_id))) jkt
          (env.uuid4 id) (env.clock n) (env.clock revoked))
    proof_id ← reading
    proved ← reading
    let proof =
        issue_dpop_proof env.proofs private_key_pem public_jwk
          (record {
            http_method = http_method;
            http_url = http_url;
            access_token = some adapter_token;
            nonce = none;
            issued_at = none;
            proof_jti = none;
          })
          (env.uuid4 proof_id) (env.clock proved)
    claims ← validated adapter_token
    log_issued "token.sender_constrained_issued" claims
    pure (record { token = token; adapter_token = adapter_token; dpop_proof = some proof })

  pub protect : MaskResult → Token → M Token (Tokens Token)
  protect m token =
      if r.protect_outbound_request
      then (do
        binding ← binding_or_raise (env.outbound_request_binding (llm_request m.text token none))
        n ← reading
        bind_token token binding (env.key_pair n))
      else pure (record { token = token; adapter_token = token; dpop_proof = none })

  -- Stage 3
  pub issue_tokens : MaskResult → M Token (Tokens Token)
  issue_tokens m =
      stage env task_id r "jit-token-issue" "jit_token_issue"
        (do token ← session_token r.session_token; protect m token)
