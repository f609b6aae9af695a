-- ===== src/ControlPlane/Orchestrator/Stages/Keeps.antt =====
-- src/control_plane/orchestrator.py: what the steps of a stage leave alone, a lemma for each step.
use aegis_os.Prelude.{◌++◌, ℕ, String, ◌≡◌, refl, ap, Option, none, some, List, [], ◌∷◌}
use aegis_os.Audit.{AuditLogger, Outcome, Kwargs}
use aegis_os.Governance.Guardrails.{MaskResult, Pattern}
use aegis_os.Governance.Policy
use aegis_os.Governance.Policy.{PolicyResult}
use aegis_os.Governance.Session
use aegis_os.Governance.Session.{SessionManager, TokenClaims}
use aegis_os.Governance.Dpop.{Jwk}
use aegis_os.Watchdog.Budget
use aegis_os.Watchdog.Budget.{BudgetEnforcer}
use aegis_os.Watchdog.Loop
use aegis_os.Watchdog.Loop.{LoopDetector}
pub use aegis_os.ControlPlane.Steps.{
  Keeps, Keeps-pure, Keeps-raise, Keeps->>=, Keeps->>, Keeps-handle, Keeps-if,
}
use aegis_os.ControlPlane.Orchestrator.{
  OrchestratorRequest, LlmRequest, Completion, failed, completed, Error, prompt_injection, State,
  Env, M, reading, after_audit, audit_at, audited, session_error, policy_error, no_binding,
  budget_error, loop_error,
}
use aegis_os.ControlPlane.Orchestrator.Stages.Run.{
  deny_exhausted, deny_spend, deny_loop, deny_step, answer, complete,
}
use aegis_os.ControlPlane.Orchestrator.Stages.{
  from_session, in_sessions, from_budget, in_budget, from_loop, in_loop, session_result,
  refuse_injection, evaluated, deny_unavailable, judge, validated, deny_token, check_claims,
  use_token, fresh_token, session_token, binding_or_raise, bind_token, protect,
}

-- What a run leaves behind outside its parts.
abbrev pub outside :
    {Token : Type 0} → State Token → List (String × String) × List (LlmRequest Token)
outside st = (st.errors, st.sent)

abbrev pub errors_of : {Token : Type 0} → State Token → List (String × String)
errors_of st = st.errors

abbrev pub sent_of : {Token : Type 0} → State Token → List (LlmRequest Token)
sent_of st = st.sent

module _ {Token A : Type 0} {m : M Token A} where
  pub Keeps-errors_of : Keeps outside m → Keeps errors_of m
  Keeps-errors_of h = record { kept = λ st. ap (λ o. o.0) (h.kept st) }

  pub Keeps-sent_of : Keeps outside m → Keeps sent_of m
  Keeps-sent_of h = record { kept = λ st. ap (λ o. o.1) (h.kept st) }

module _ {Token : Type 0} where
  pub Keeps-reading : Keeps {S = State Token} outside reading
  unfolding reading
  Keeps-reading = record { kept = λ st. refl }

  module _ (env : Env Token) (task_id : String) (r : OrchestratorRequest Token) where
    after_audit-outside :
        (st : State Token) (o : Option AuditLogger) → outside (after_audit st o).0 ≡ outside st
    unfolding after_audit
    after_audit-outside st none = refl
    after_audit-outside st (some a) = refl

    Keeps-audit_at :
        (outcome : Outcome) (event stage : String) (kwargs : Kwargs) (n : ℕ)
        → Keeps outside (audit_at env task_id r outcome event stage kwargs n)
    unfolding audit_at
    Keeps-audit_at outcome event stage kwargs n = record { kept = λ st. after_audit-outside st _ }

    pub Keeps-audited :
        (outcome : Outcome) (event stage : String) (kwargs : Kwargs)
        → Keeps outside (audited env task_id r outcome event stage kwargs)
    unfolding audited
    Keeps-audited outcome event stage kwargs =
        Keeps->>= Keeps-reading (Keeps-audit_at outcome event stage kwargs)

  module _ {A : Type 0} where
    from_session-outside :
        (st : State Token) (c : Session.Call A) → outside (from_session st c).0 ≡ outside st
    unfolding from_session
    from_session-outside st (m, Session.returned a) = refl
    from_session-outside st (m, Session.raised err) = refl

    pub Keeps-in_sessions :
        (f : SessionManager → Session.Call A) → Keeps {S = State Token} outside (in_sessions f)
    unfolding in_sessions
    Keeps-in_sessions f = record { kept = λ st. from_session-outside st (f st.sessions) }

    from_budget-outside :
        (st : State Token) (c : Budget.Call A) → outside (from_budget st c).0 ≡ outside st
    unfolding from_budget
    from_budget-outside st (e, Budget.returned a) = refl
    from_budget-outside st (e, Budget.raised err) = refl

    pub Keeps-in_budget : (c : Budget.Call A) → Keeps {S = State Token} outside (in_budget c)
    unfolding in_budget
    Keeps-in_budget c = record { kept = λ st. from_budget-outside st c }

    from_loop-outside :
        (st : State Token) (c : Loop.Call A) → outside (from_loop st c).0 ≡ outside st
    unfolding from_loop
    from_loop-outside st (d, Loop.returned a) = refl
    from_loop-outside st (d, Loop.raised err) = refl

    pub Keeps-in_loop : (c : Loop.Call A) → Keeps {S = State Token} outside (in_loop c)
    unfolding in_loop
    Keeps-in_loop c = record { kept = λ st. from_loop-outside st c }

    pub Keeps-session_result :
        (c : Session.Result A) → Keeps {S = State Token} outside (session_result c)
    unfolding session_result
    Keeps-session_result (Session.returned a) = Keeps-pure a
    Keeps-session_result (Session.raised err) = Keeps-raise (session_error err)

pub ruleset keeping = (
  Keeps-pure, Keeps-raise, Keeps->>=, Keeps->>, Keeps-handle, Keeps-if, Keeps-reading,
  Keeps-audited, Keeps-in_sessions, Keeps-in_budget, Keeps-in_loop, Keeps-session_result,
)

module _ {Token : Type 0} (env : Env Token) (task_id : String) (r : OrchestratorRequest Token) where
  pub Keeps-refuse_injection :
      (o : Option Pattern) → Keeps outside (refuse_injection env task_id r o)
  unfolding refuse_injection
  Keeps-refuse_injection none = Keeps-pure tt
  Keeps-refuse_injection (some p) = Keeps-raise (prompt_injection p)

  pub Keeps-evaluated : (c : Policy.Result PolicyResult) → Keeps outside (evaluated env task_id r c)
  unfolding evaluated
  Keeps-evaluated (Policy.returned p) = Keeps-pure p
  Keeps-evaluated (Policy.raised err) = Keeps-raise (policy_error err)

  pub Keeps-deny_unavailable : (err : Error) → Keeps outside (deny_unavailable env task_id r err)
  unfolding deny_unavailable
  Keeps-deny_unavailable (policy_error Policy.opa_unavailable) = search keeping
  Keeps-deny_unavailable err = Keeps-raise err

  pub Keeps-judge : (p : PolicyResult) → Keeps outside (judge env task_id r p)
  unfolding judge
  Keeps-judge p = search keeping

  pub Keeps-validated : (token : Token) → Keeps outside (validated env task_id r token)
  unfolding validated
  Keeps-validated token = search keeping

  Keeps-deny_token : (err : Error) → Keeps outside (deny_token env task_id r err)
  unfolding deny_token
  Keeps-deny_token (session_error Session.token_expired) = search keeping
  Keeps-deny_token (session_error (Session.token_revoked jti)) = search keeping
  Keeps-deny_token err = Keeps-raise err

  Keeps-check_claims :
      (claims : TokenClaims) (now : ℕ) → Keeps outside (check_claims env task_id r claims now)
  unfolding check_claims
  Keeps-check_claims claims now = search keeping

  pub Keeps-session_token :
      (token : Option Token) → Keeps outside (session_token env task_id r token)
  unfolding session_token use_token fresh_token
  Keeps-session_token none = search (keeping, Keeps-validated) depth 12
  Keeps-session_token (some token) =
      search (keeping, Keeps-validated, Keeps-deny_token, Keeps-check_claims)

  Keeps-binding_or_raise :
      (o : Option (String × String)) → Keeps outside (binding_or_raise env task_id r o)
  unfolding binding_or_raise
  Keeps-binding_or_raise none = Keeps-raise no_binding
  Keeps-binding_or_raise (some b) = Keeps-pure b

  Keeps-bind_token :
      (token : Token) (b : String × String) (k : String × Jwk)
      → Keeps outside (bind_token env task_id r token b k)
  unfolding bind_token
  Keeps-bind_token token (http_method, http_url) (private_key_pem, public_jwk) =
      search (keeping, Keeps-validated) depth 16

  pub Keeps-protect :
      (m : MaskResult) (token : Token) → Keeps outside (protect env task_id r m token)
  unfolding protect
  Keeps-protect m token = search (keeping, Keeps-binding_or_raise, Keeps-bind_token)

  pub Keeps-deny_exhausted :
      (session_id : ℕ) (err : Error) → Keeps outside (deny_exhausted env task_id r session_id err)
  unfolding deny_exhausted
  Keeps-deny_exhausted session_id (budget_error (Budget.exceeded alert)) = search keeping
  Keeps-deny_exhausted session_id err = Keeps-raise err

  pub Keeps-deny_spend : (err : Error) → Keeps outside (deny_spend env task_id r err)
  unfolding deny_spend
  Keeps-deny_spend (budget_error (Budget.exceeded alert)) = search keeping
  Keeps-deny_spend err = Keeps-raise err

  pub Keeps-deny_loop : (err : Error) → Keeps outside (deny_loop env task_id r err)
  unfolding deny_loop deny_step
  Keeps-deny_loop (loop_error (Loop.loop_detected streak max)) = search keeping
  Keeps-deny_loop (loop_error (Loop.token_velocity step delta max)) = search keeping
  Keeps-deny_loop (loop_error (Loop.pending_approval step)) = search keeping
  Keeps-deny_loop err = Keeps-raise err

  answer-errors :
      (st : State Token) (c : SessionManager × Completion)
      → (answer env task_id r st c).0.errors ≡ st.errors
  unfolding answer
  answer-errors st (sessions, failed kind) = refl
  answer-errors st (sessions, completed response) = refl

  pub Keeps-complete : (q : LlmRequest Token) → Keeps errors_of (complete env task_id r q)
  unfolding complete
  Keeps-complete q = record {
    kept =
        λ st. answer-errors (record st { sent = st.sent ++ q ∷ [] }) (env.complete q st.sessions);
  }

pub ruleset steps = (
  keeping, Keeps-refuse_injection, Keeps-evaluated, Keeps-deny_unavailable, Keeps-judge,
  Keeps-session_token, Keeps-protect, Keeps-deny_exhausted, Keeps-deny_spend, Keeps-deny_loop,
)
