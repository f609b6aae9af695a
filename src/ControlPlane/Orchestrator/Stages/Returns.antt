-- ===== src/ControlPlane/Orchestrator/Stages/Returns.antt =====
-- src/control_plane/orchestrator.py: what holds of the values that the stages return.
use mathlib.Core.Option.{some-injective}
use aegis_os.Prelude.{
  ℕ, String, subst, ◌⊎◌, string_eq, ◌==◌, ◌≡◌, refl, sym, ap, ◌∙◌, inl, inr, true, false, not,
  Option, none, some, if◌then◌else◌, eq_iff, arith,
}
use aegis_os.Governance.Guardrails.{MaskResult, Pattern, mask_pii, check_prompt_injection}
use aegis_os.Governance.Policy
use aegis_os.Governance.Policy.{PolicyResult, evaluate}
use aegis_os.Governance.Session
use aegis_os.Governance.Session.{SessionManager, TokenClaims}
use aegis_os.Governance.Session.Validation.{validate_token, is_expired}
use aegis_os.Governance.Dpop.{Jwk}
use aegis_os.ControlPlane.Orchestrator.{
  OrchestratorRequest, Error, State, Env, reading, session_error, policy_error, prompt_injection,
  policy_denied, token_scope, permission_error,
}
use aegis_os.ControlPlane.Orchestrator.Stages.{
  Tokens, from_session, in_sessions, refuse_injection, pre_sanitize, opa_input, is_denied,
  evaluated, deny_unavailable, judge, evaluate_policy, mask_fields, apply_mask, validated,
  deny_token, check_claims, use_token, fresh_token, session_token, bind_token, protect,
  issue_tokens,
}
use aegis_os.ControlPlane.Orchestrator.Stages.Ensures.{
  Returned, Ensures, Ensures-pure, Ensures-raise, Ensures->>=, Ensures-then, Ensures->>,
  Ensures-after, Ensures-map, Ensures-handle, Ensures-if, Ensures-stage,
}

module _ {Token : Type 0} (env : Env Token) where
  -- The prompt as the policy has it masked.
  abbrev pub policy_masked : PolicyResult → MaskResult → MaskResult
  policy_masked p m = if p.action == "mask" then mask_fields env p.fields m else m

  -- A call of `validate_token` gave the token these claims.
  abbrev pub Accepted : Token → TokenClaims → Type 0
  Accepted token c =
      (decoded_at purged_at checked_at : ℕ) × (m m' : SessionManager) × (validate_token env.jose
          env.settings token decoded_at purged_at checked_at m
        ≡ (m', Session.returned c))

module _ {Token : Type 0} (env : Env Token) (task_id : String) (r : OrchestratorRequest Token) where
  Ensures-refuse_injection :
      (o : Option Pattern) → Ensures (λ done. o ≡ none) (refuse_injection env task_id r o)
  unfolding refuse_injection
  Ensures-refuse_injection none = Ensures-pure refl
  Ensures-refuse_injection (some p) = Ensures-raise (prompt_injection p)

  pub Ensures-pre_sanitize :
      Ensures
        (λ m.
          (check_prompt_injection env.tools r.prompt ≡ none) × (m ≡ mask_pii env.tools r.prompt))
        (pre_sanitize env task_id r)
  unfolding pre_sanitize
  Ensures-pre_sanitize =
      Ensures-stage env task_id r _ _
        (Ensures-after (Ensures-refuse_injection _) λ h. Ensures->> _ (Ensures-pure (h, refl)))

  Ensures-evaluated :
      (c : Policy.Result PolicyResult)
      → Ensures (λ p. c ≡ Policy.returned p) (evaluated env task_id r c)
  unfolding evaluated
  Ensures-evaluated (Policy.returned p) = Ensures-pure refl
  Ensures-evaluated (Policy.raised err) = Ensures-raise (policy_error err)

  Ensures-deny_unavailable :
      {P : PolicyResult → Type 0} (err : Error) → Ensures P (deny_unavailable env task_id r err)
  unfolding deny_unavailable
  Ensures-deny_unavailable (policy_error Policy.opa_unavailable) =
      Ensures->> _ (Ensures-raise policy_denied)
  Ensures-deny_unavailable err = Ensures-raise err

  Ensures-judge :
      (p : PolicyResult) → Ensures (λ q. (q ≡ p) × (is_denied p ≡ false)) (judge env task_id r p)
  unfolding judge
  Ensures-judge p =
      Ensures-if (is_denied p) (λ h. Ensures->> _ (Ensures-raise policy_denied))
        (λ h. Ensures->> _ (Ensures-pure (refl, h)))

  pub Ensures-evaluate_policy :
      Ensures
        (λ p. (evaluate (env.opa (opa_input r)) ≡ Policy.returned p) × (is_denied p ≡ false))
        (evaluate_policy env task_id r)
  unfolding evaluate_policy
  Ensures-evaluate_policy = Ensures-stage env task_id r _ _ (
      Ensures->>= (Ensures-handle (Ensures-evaluated _) Ensures-deny_unavailable) λ p h.
        Ensures-map (Ensures-judge p)
          (λ q j. (h ∙ ap (λ x. Policy.returned x) (sym j.0), ap is_denied j.0 ∙ j.1)))

  pub Ensures-apply_mask :
      (p : PolicyResult) (m : MaskResult)
      → Ensures (λ masked. masked ≡ policy_masked env p m) (apply_mask env task_id r p m)
  unfolding apply_mask
  Ensures-apply_mask p m =
      Ensures-if (p.action == "mask")
        (λ h. Ensures-stage env task_id r _ _ (Ensures->> _ (Ensures-pure (rw (h) refl))))
        (λ h. Ensures-pure (rw (h) refl))

  Returned-from_session :
      {A : Type 0} (st : State Token) (f : SessionManager → Session.Call A) (m : SessionManager)
      (c : Session.Call A)
      → f m ≡ c
      → Returned
          (λ a. (m m' : SessionManager) × (f m ≡ (m', Session.returned a)))
          (from_session st c)
  unfolding from_session
  Returned-from_session st f m (m', Session.returned a) h = (m, m', h)
  Returned-from_session st f m (m', Session.raised err) h = tt

  Ensures-in_sessions :
      {A : Type 0} (f : SessionManager → Session.Call A)
      → Ensures
          (λ a. (m m' : SessionManager) × (f m ≡ (m', Session.returned a)))
          (in_sessions {Token = Token} f)
  unfolding in_sessions
  Ensures-in_sessions f = record {
    at = λ st. Returned-from_session st f st.sessions (f st.sessions) refl;
  }

  pub Ensures-validated :
      (token : Token) → Ensures (λ c. Accepted env token c) (validated env task_id r token)
  unfolding validated
  Ensures-validated token = Ensures-then reading λ t. Ensures-then reading λ purged.
      Ensures-then reading λ checked.
        Ensures-map (Ensures-in_sessions _)
          λ c h. (env.clock t, env.clock purged, env.clock checked, h.0, h.1, h.2)

  Ensures-deny_token :
      {P : TokenClaims → Type 0} (err : Error) → Ensures P (deny_token env task_id r err)
  unfolding deny_token
  Ensures-deny_token (session_error Session.token_expired) =
      Ensures->> _ (Ensures-raise (session_error Session.token_expired))
  Ensures-deny_token (session_error (Session.token_revoked jti)) =
      Ensures->> _ (Ensures-raise permission_error)
  Ensures-deny_token err = Ensures-raise err

  Ensures-check_claims :
      (c : TokenClaims) (now : ℕ)
      → Ensures
          (λ done. (is_expired c now ≡ false) × (c.agent_type ≡ r.agent_type))
          (check_claims env task_id r c now)
  unfolding check_claims
  Ensures-check_claims c now =
      Ensures-if (is_expired c now)
        (λ h. Ensures->> _ (Ensures-raise (session_error Session.token_expired)))
        (λ h.
          Ensures-if (not (c.agent_type == r.agent_type))
            (λ other. Ensures->> _ (Ensures-raise token_scope))
            (λ same. Ensures-pure (h, (eq_iff c.agent_type r.agent_type).0 (ground (arith, same)))))

  -- What is known of a token of the session.
  abbrev pub Authorized : Token → Type 0
  Authorized token =
      (c : TokenClaims) × Accepted env token c
      × ((given : Token)
          → r.session_token ≡ some given
          → (token ≡ given) × (c.agent_type ≡ r.agent_type))

  Ensures-fresh_token :
      Ensures (λ token. (c : TokenClaims) × Accepted env token c) (fresh_token env task_id r)
  unfolding fresh_token
  Ensures-fresh_token = Ensures-then reading λ n. Ensures-then reading λ revoked.
      Ensures-then reading λ id.
        Ensures-then _
          λ token. Ensures->>= (Ensures-validated token) λ c h. Ensures->> _ (Ensures-pure (c, h))

  Ensures-use_token :
      (token : Token)
      → Ensures
          (λ same.
            (same ≡ token)
            × ((c : TokenClaims) × Accepted env token c × (c.agent_type ≡ r.agent_type)))
          (use_token env task_id r token)
  unfolding use_token
  Ensures-use_token token =
      Ensures->>= (Ensures-handle (Ensures-validated token) Ensures-deny_token) λ c accepted.
        Ensures-then reading λ n.
          Ensures-after (Ensures-check_claims c (env.clock n))
            λ checked. Ensures->> _ (Ensures-pure (refl, (c, accepted, checked.1)))

  Ensures-session_token :
      (o : Option Token) → r.session_token ≡ o → Ensures Authorized (session_token env task_id r o)
  unfolding session_token
  Ensures-session_token none absent =
      Ensures-map Ensures-fresh_token λ token h. (h.0, h.1, λ given there. cc (absent, there))
  Ensures-session_token (some token) there = Ensures-map (Ensures-use_token token) λ same h. (
    h.1.0,
    subst (λ t. Accepted env t h.1.0) (sym h.0) h.1.1,
    λ given again. (h.0 ∙ some-injective _ _ (sym there ∙ again), h.1.2),
  )

  -- What the adapter gets beside the token of the session: a token of its own with a proof, or that token alone.
  abbrev pub Bound : Tokens Token → Type 0
  Bound t =
      ((c : TokenClaims) × Accepted env t.adapter_token c)
      × ((proof : String) × (t.dpop_proof ≡ some proof))

  abbrev pub Plain : Tokens Token → Type 0
  Plain t = (t.adapter_token ≡ t.token) × (t.dpop_proof ≡ none)

  abbrev pub Protected : Tokens Token → Type 0
  Protected t =
      ((r.protect_outbound_request ≡ true) × Bound t)
      ⊎ ((r.protect_outbound_request ≡ false) × Plain t)

  Ensures-bind_token :
      (token : Token) (b : String × String) (k : String × Jwk)
      → Ensures (λ t. (t.token ≡ token) × Bound t) (bind_token env task_id r token b k)
  unfolding bind_token
  Ensures-bind_token token (http_method, http_url) (private_key_pem, public_jwk) =
      Ensures-then reading λ n. Ensures-then reading λ revoked. Ensures-then reading λ id.
        Ensures-then _ λ jkt. Ensures-then _ λ adapter_token. Ensures-then reading λ proof_id.
          Ensures-then reading λ proved.
            Ensures->>= (Ensures-validated adapter_token)
              λ c h. Ensures->> _ (Ensures-pure (refl, ((c, h), (_, refl))))

  Ensures-protect :
      (m : MaskResult) (token : Token)
      → Ensures (λ t. (t.token ≡ token) × Protected t) (protect env task_id r m token)
  unfolding protect
  Ensures-protect m token =
      Ensures-if r.protect_outbound_request
        (λ h. Ensures-then _ λ b. Ensures-then reading λ n.
          Ensures-map (Ensures-bind_token token b (env.key_pair n))
            (λ t bound. (bound.0, inl (h, bound.1))))
        (λ h. Ensures-pure (refl, inr (h, (refl, refl))))

  pub Ensures-issue_tokens :
      (m : MaskResult)
      → Ensures (λ t. Authorized t.token × Protected t) (issue_tokens env task_id r m)
  unfolding issue_tokens
  Ensures-issue_tokens m = Ensures-stage env task_id r _ _ (
      Ensures->>= (Ensures-session_token r.session_token refl) λ token known.
        Ensures-map (Ensures-protect m token) λ t h. (subst Authorized (sym h.0) known, h.1))
