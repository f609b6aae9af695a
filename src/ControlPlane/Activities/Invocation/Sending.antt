-- ===== src/ControlPlane/Activities/Invocation/Sending.antt =====
-- src/control_plane/scheduler.py: the token that "JITTokenIssue" returns, and the request that an
-- attempt of "LLMInvoke" sends to the provider.
use aegis_os.Prelude.{
  ℕ, zero, suc, String, ◌≡◌, refl, ap, ◌∙◌, ◌⊎◌, inl, inr, true, false, Option, none, some, List,
  [], ◌∷◌, ◌++◌,
}
use aegis_os.Governance.Session.{SessionManager, TokenClaims}
use aegis_os.Governance.Dpop.{Jwk, issue_dpop_proof}
use aegis_os.ControlPlane.Records.{JitTokenInput, JitTokenResult, LlmInvokeInput, LlmInvokeResult}
use aegis_os.ControlPlane.Orchestrator.{LlmRequest, LlmResponse, Completion, failed, completed}
use aegis_os.ControlPlane.Steps.{
  Result, returned, raised, Returned, continue, ◌>>=◌, Keeps, Keeps-pure, Keeps-raise, Ensures,
  Ensures-pure, Ensures-raise, Ensures-then, Ensures->>, Ensures->>=, Ensures-if,
}
use aegis_os.ControlPlane.Activities.{
  Env, Error, Info, Worker, reading, no_key_material, no_binding,
}
use aegis_os.ControlPlane.Activities.Invocation.{
  fresh_token, jit_token_issue, current_token, llm_request, keys_or_raise, binding_or_raise,
  bind_token, protect, answer, complete, report, prepare, llm_invoke,
}
use aegis_os.ControlPlane.Activities.Rules.{
  sent_of, keeping, Keeps-require_task_id, Keeps-log, Keeps-log_lifecycle, Keeps-validated,
  Accepted, Ensures-validated,
}

module _ (env : Env) where
  pub Ensures-jit_token_issue :
      (inp : JitTokenInput)
      → Ensures
          (λ (r : JitTokenResult). (c : TokenClaims) × Accepted env r.token c)
          (jit_token_issue env inp)
  unfolding jit_token_issue
  Ensures-jit_token_issue inp = Ensures->> _ (
      Ensures-then _ λ keys. Ensures-then _ λ token.
        Ensures->>= (Ensures-validated env token) λ c h. Ensures->> _ (Ensures-pure (c, h)))

  module _ (info : Info) (inp : LlmInvokeInput) where
    -- The token of the input at the first attempt, and one that is issued and accepted at a retry.
    abbrev pub Current : String → Type 0
    Current token =
        ((info.retries ≡ 0) × (token ≡ inp.token)) ⊎ ((c : TokenClaims) × Accepted env token c)

    Ensures-current_token : (n : ℕ) → info.retries ≡ n → Ensures Current (current_token env n inp)
    unfolding current_token
    Ensures-current_token zero h = Ensures-pure (inl (h, refl))
    Ensures-current_token (suc n) h = Ensures-then _ λ token.
        Ensures->>= (Ensures-validated env token) λ c accepted.
          Ensures->> _ (Ensures->> _ (Ensures->> _ (Ensures-pure (inr (c, accepted)))))

    -- The proof is made with the key material of the input, for the method and the URL that the adapter
    -- names, and for the token of the request.
    abbrev pub Proved : LlmRequest String → String → Type 0
    Proved q proof =
        (pem : String) × (jwk : Jwk) × (method url : String) × (token id : String) × (at : ℕ)
        × (inp.protected_private_key_pem ≡ some pem)
        × (inp.protected_public_jwk ≡ some jwk)
        × (env.outbound_request_binding (llm_request env inp token none) ≡ some (method, url))
        × (proof
            ≡ issue_dpop_proof env.proofs pem jwk
                (record {
                  http_method = method;
                  http_url = url;
                  access_token = some q.aegis_token;
                  nonce = none;
                  issued_at = none;
                  proof_jti = none;
                })
                id at)

    -- What is sent: the prompt of the input, under an accepted token with a proof for it, or under the
    -- current token.
    abbrev pub Prepared : LlmRequest String → Type 0
    Prepared q =
        ((inp.protect_outbound_request ≡ true)
          × ((c : TokenClaims) × Accepted env q.aegis_token c)
          × ((proof : String) × (q ≡ llm_request env inp q.aegis_token (some proof))
              × Proved q proof))
        ⊎ ((inp.protect_outbound_request ≡ false)
            × Current q.aegis_token
            × (q ≡ llm_request env inp q.aegis_token none))

    Ensures-keys_or_raise :
        (pem : Option String) (jwk : Option Jwk)
        → Ensures (λ k. (pem ≡ some k.0) × (jwk ≡ some k.1)) (keys_or_raise env pem jwk)
    unfolding keys_or_raise
    Ensures-keys_or_raise none jwk = Ensures-raise no_key_material
    Ensures-keys_or_raise (some pem) none = Ensures-raise no_key_material
    Ensures-keys_or_raise (some pem) (some jwk) = Ensures-pure (refl, refl)

    Ensures-binding_or_raise :
        (o : Option (String × String)) → Ensures (λ b. o ≡ some b) (binding_or_raise env o)
    unfolding binding_or_raise
    Ensures-binding_or_raise none = Ensures-raise no_binding
    Ensures-binding_or_raise (some b) = Ensures-pure refl

    Ensures-bind_token :
        (token : String) (keys : String × Jwk) (binding : String × String)
        → inp.protect_outbound_request ≡ true
        → (inp.protected_private_key_pem ≡ some keys.0) × (inp.protected_public_jwk ≡ some keys.1)
        → env.outbound_request_binding (llm_request env inp token none) ≡ some binding
        → Ensures Prepared (bind_token env inp keys binding)
    unfolding bind_token
    Ensures-bind_token token (pem, jwk) (method, url) protected (has_pem, has_jwk) bound =
        Ensures-then reading λ n. Ensures-then reading λ revoked. Ensures-then reading λ id.
          Ensures-then _ λ jkt. Ensures-then _ λ adapter_token. Ensures-then reading λ proof_id.
            Ensures-then reading λ proved.
              Ensures->>= (Ensures-validated env adapter_token) λ c accepted. Ensures->> _ (
                Ensures-pure (
                  inl (
                    protected,
                    (c, accepted),
                    (
                      _,
                      refl,
                      (
                        pem,
                        jwk,
                        method,
                        url,
                        token,
                        env.uuid4 proof_id,
                        env.clock proved,
                        has_pem,
                        has_jwk,
                        bound,
                        refl,
                      ),
                    ),
                  )))

    Ensures-protect : (token : String) → Current token → Ensures Prepared (protect env inp token)
    unfolding protect
    Ensures-protect token current =
        Ensures-if inp.protect_outbound_request
          (λ protected. Ensures->>= (Ensures-keys_or_raise _ _) λ keys has_keys.
            Ensures->>= (Ensures-binding_or_raise _)
              λ binding bound. Ensures-bind_token token keys binding protected has_keys bound)
          (λ plain. Ensures-pure (inr (plain, current, refl)))

    Ensures-prepare : Ensures Prepared (prepare env info inp)
    unfolding prepare
    Ensures-prepare = Ensures->> _ (
        Ensures->>= (Ensures-current_token info.retries refl)
          λ token current. Ensures-protect token current)

    Keeps-current_token : (n : ℕ) → Keeps sent_of (current_token env n inp)
    unfolding current_token fresh_token
    Keeps-current_token zero = Keeps-pure inp.token
    Keeps-current_token (suc n) =
        search (keeping, Keeps-log, Keeps-log_lifecycle, Keeps-validated) depth 14

    Keeps-keys_or_raise :
        (pem : Option String) (jwk : Option Jwk) → Keeps sent_of (keys_or_raise env pem jwk)
    unfolding keys_or_raise
    Keeps-keys_or_raise none jwk = Keeps-raise no_key_material
    Keeps-keys_or_raise (some pem) none = Keeps-raise no_key_material
    Keeps-keys_or_raise (some pem) (some jwk) = Keeps-pure (pem, jwk)

    Keeps-binding_or_raise : (o : Option (String × String)) → Keeps sent_of (binding_or_raise env o)
    unfolding binding_or_raise
    Keeps-binding_or_raise none = Keeps-raise no_binding
    Keeps-binding_or_raise (some b) = Keeps-pure b

    Keeps-bind_token :
        (keys : String × Jwk) (binding : String × String)
        → Keeps sent_of (bind_token env inp keys binding)
    unfolding bind_token
    Keeps-bind_token (pem, jwk) (method, url) =
        search (keeping, Keeps-log, Keeps-validated) depth 16

    Keeps-prepare : Keeps sent_of (prepare env info inp)
    unfolding prepare protect
    Keeps-prepare =
        search
          (
            keeping, Keeps-require_task_id, Keeps-current_token, Keeps-keys_or_raise,
            Keeps-binding_or_raise, Keeps-bind_token,
          )
          depth 10

    Keeps-report : (response : LlmResponse) → Keeps sent_of (report env info inp response)
    unfolding report
    Keeps-report response = search (keeping, Keeps-log)

    -- The result is the answer that the provider gave to the request, after so many retries.
    abbrev pub Answered : LlmRequest String → LlmInvokeResult → Type 0
    Answered q r =
        (response : LlmResponse) × (m m' : SessionManager) × (env.complete q m
          ≡ (m', completed response))
        × (r ≡ record {
          content = response.content;
          tokens_used = response.tokens_used;
          model = response.model;
          provider = response.provider;
          retry_count = info.retries;
        })

    -- One prepared request more, and a result only if the provider answered it; or none, and an error.
    unfoldable pub Sent : List (LlmRequest String) → Worker × Result Error LlmInvokeResult → Type 0
    Sent sent (st, returned r) =
        (q : LlmRequest String) × (st.sent ≡ sent ++ q ∷ []) × Prepared q × Answered q r
    Sent sent (st, raised err) =
        (st.sent ≡ sent) ⊎ ((q : LlmRequest String) × (st.sent ≡ sent ++ q ∷ []) × Prepared q)

    Sent-report :
        (sent : List (LlmRequest String)) (q : LlmRequest String) (response : LlmResponse)
        (st : Worker) (c : Worker × Result Error LlmInvokeResult)
        → c.0.sent ≡ st.sent
        → st.sent ≡ sent ++ q ∷ []
        → Prepared q
        → Returned (λ r. Answered q r) c
        → Sent sent c
    unfolding Sent
    Sent-report sent q response st (st', returned r) same there ok answered =
        (q, same ∙ there, ok, answered)
    Sent-report sent q response st (st', raised err) same there ok answered =
        inr (q, same ∙ there, ok)

    Ensures-report :
        (q : LlmRequest String) (response : LlmResponse) (m m' : SessionManager)
        → env.complete q m ≡ (m', completed response)
        → Ensures (Answered q) (report env info inp response)
    unfolding report
    Ensures-report q response m m' h = Ensures->> _ (Ensures-pure (response, m, m', h, refl))

    Sent-answer :
        (q : LlmRequest String) (sent : List (LlmRequest String)) (st : Worker) (m : SessionManager)
        (c : SessionManager × Completion)
        → env.complete q m ≡ c
        → st.sent ≡ sent ++ q ∷ []
        → Prepared q
        → Sent sent (continue (report env info inp) (answer env st c))
    unfolding Sent answer continue
    Sent-answer q sent st m (m', failed kind) h there ok = inr (q, there, ok)
    Sent-answer q sent st m (m', completed response) h there ok =
        let st' : Worker = record st { sessions = m' } in
        Sent-report sent q response st' (report env info inp response st')
          ((Keeps-report response).kept st') there ok ((Ensures-report q response m m' h).at st')

    Sent-prepared :
        (sent : List (LlmRequest String)) (c : Worker × Result Error (LlmRequest String))
        → c.0.sent ≡ sent
        → Returned (λ q. Prepared q) c
        → Sent sent (continue (λ q. complete env q >>= λ response. report env info inp response) c)
    unfolding Sent continue complete ◌>>=◌
    Sent-prepared sent (st, returned q) same ok =
        Sent-answer q sent (record st { sent = st.sent ++ q ∷ [] }) st.sessions
          (env.complete q st.sessions) refl (ap (λ s. s ++ q ∷ []) same) ok
    Sent-prepared sent (st, raised err) same ok = inl same

    pub llm_invoke-Sent : (st : Worker) → Sent st.sent (llm_invoke env info inp st)
    unfolding llm_invoke ◌>>=◌
    llm_invoke-Sent st =
        Sent-prepared st.sent (prepare env info inp st) (Keeps-prepare.kept st)
          (Ensures-prepare.at st)
