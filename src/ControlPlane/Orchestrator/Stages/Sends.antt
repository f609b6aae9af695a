-- ===== src/ControlPlane/Orchestrator/Stages/Sends.antt =====
-- src/control_plane/orchestrator.py: which steps of a run send a request to the provider.
use aegis_os.Prelude.{
  ℕ, String, subst, ◌⊎◌, string_eq, ◌==◌, ◌≡◌, refl, ◌∙◌, inl, inr, Option, none, some, List, [],
  ◌∷◌, ◌++◌,
}
use aegis_os.Governance.Guardrails.{MaskResult}
use aegis_os.Governance.Policy.{PolicyResult}
use aegis_os.Watchdog.Budget.{BudgetEnforcer}
use aegis_os.Watchdog.Loop.{LoopDetector}
use aegis_os.ControlPlane.Orchestrator.{
  recover, handle, OrchestratorRequest, LlmRequest, LlmResponse, Error, is_controlled, State,
  Result, returned, raised, Env, M, continue, ◌>>=◌, count_error, report, on_error, stage,
}
use aegis_os.ControlPlane.Orchestrator.Stages.{
  Tokens, pre_sanitize, evaluate_policy, apply_mask, issue_tokens,
}
use aegis_os.ControlPlane.Orchestrator.Stages.Run.{
  with_budget, with_loop, guard_budget, watch_before, debit, watch_spend, count_step, watch_step,
  post_sanitize, conclude,
}
use aegis_os.ControlPlane.Orchestrator.Stages.Keeps.{
  Keeps, Keeps-pure, Keeps-raise, Keeps->>=, Keeps->>, Keeps-handle, Keeps-if, Keeps-audited,
  sent_of, outside, Keeps-sent_of, steps,
}
use aegis_os.ControlPlane.Orchestrator.Stages.Ensures.{Ensures-on_error, Returned, Ensures}

-- At most one request was added, which is as `Q` says; it was, and what is returned is as `R` says of it,
-- if something is returned.
unfoldable pub Sent :
    {Token A : Type 0}
    → (LlmRequest Token → Type 0)
    → (A → LlmRequest Token → Type 0)
    → List (LlmRequest Token)
    → State Token × Result A
    → Type 0
Sent {Token} Q R sent (st, returned a) =
    (q : LlmRequest Token) × (st.sent ≡ sent ++ q ∷ []) × Q q × R a q
Sent {Token} Q R sent (st, raised err) =
    (st.sent ≡ sent) ⊎ ((q : LlmRequest Token) × (st.sent ≡ sent ++ q ∷ []) × Q q)

-- The same of a step.
pub record Sends {Token A : Type 0} (Q : LlmRequest Token → Type 0)
    (R : A → LlmRequest Token → Type 0) (m : M Token A) : Type 0 where
  pub at : (st : State Token) → Sent Q R st.sent (m st)

module _ {Token : Type 0} where
  module _ {A B : Type 0} (Q : LlmRequest Token → Type 0) (R : B → LlmRequest Token → Type 0) where
    Sent-after :
        {P : A → Type 0} (sent : List (LlmRequest Token)) (f : A → M Token B)
        (c : State Token × Result A)
        → c.0.sent ≡ sent
        → Returned P c
        → ((a : A) → P a → Sends Q R (f a))
        → Sent Q R sent (continue f c)
    unfolding continue Sent
    Sent-after sent f (st, returned a) same h k =
        subst (λ s. Sent Q R s (f a st)) same ((k a h).at st)
    Sent-after sent f (st, raised err) same h k = inl same

    Sent-before :
        (S : A → LlmRequest Token → Type 0) (sent : List (LlmRequest Token)) (a : A)
        (st : State Token) (c : State Token × Result B)
        → c.0.sent ≡ st.sent
        → ((q : LlmRequest Token) → S a q → Returned (λ b. R b q) c)
        → Sent Q S sent (st, returned a)
        → Sent Q R sent c
    unfolding Sent
    Sent-before S sent a st (st', returned b) same h (q, there, ok, answered) =
        (q, same ∙ there, ok, h q answered)
    Sent-before S sent a st (st', raised err) same h (q, there, ok, answered) =
        inr (q, same ∙ there, ok)

    Sent-continue :
        (S : A → LlmRequest Token → Type 0) (sent : List (LlmRequest Token)) (f : A → M Token B)
        (c : State Token × Result A)
        → ((a : A) → Keeps sent_of (f a))
        → ((a : A) (q : LlmRequest Token) → S a q → Ensures (λ b. R b q) (f a))
        → Sent Q S sent c
        → Sent Q R sent (continue f c)
    unfolding continue Sent
    Sent-continue S sent f (st, returned a) same h sends =
        Sent-before S sent a st (f a st) ((same a).kept st) (λ q s. (h a q s).at st) sends
    Sent-continue S sent f (st, raised err) same h sends = sends

  module _ {A B : Type 0} {Q : LlmRequest Token → Type 0} {R : B → LlmRequest Token → Type 0} where
    pub Sends-after :
        {P : A → Type 0} {m : M Token A} {f : A → M Token B}
        → Keeps sent_of m
        → Ensures P m
        → ((a : A) → P a → Sends Q R (f a))
        → Sends Q R (m >>= f)
    unfolding ◌>>=◌
    Sends-after {m} {f} same h k = record {
      at = λ st. Sent-after Q R st.sent f (m st) (same.kept st) (h.at st) k;
    }

    pub Sends-before :
        {S : A → LlmRequest Token → Type 0} {m : M Token A} {f : A → M Token B}
        → Sends Q S m
        → ((a : A) → Keeps sent_of (f a))
        → ((a : A) (q : LlmRequest Token) → S a q → Ensures (λ b. R b q) (f a))
        → Sends Q R (m >>= f)
    unfolding ◌>>=◌
    Sends-before {S} {m} {f} sends same h = record {
      at = λ st. Sent-continue Q R S st.sent f (m st) same h (sends.at st);
    }

  module _ (env : Env Token) (task_id : String) (r : OrchestratorRequest Token) where
    Keeps-count_error : (key : String) → Keeps sent_of (count_error env task_id r key)
    unfolding count_error
    Keeps-count_error key = record { kept = λ st. refl }

    Keeps-on_error :
        {A : Type 0} (span key : String) (err : Error)
        → Keeps {A = A} sent_of (on_error env task_id r span key err)
    unfolding on_error report
    Keeps-on_error span key err = Keeps->> (Keeps-count_error key) (
        Keeps-if (is_controlled err) (Keeps-raise err)
          (Keeps->> (Keeps-sent_of (Keeps-audited env task_id r _ _ _ _)) (Keeps-raise err)))

    Keeps-stage :
        {A : Type 0} (span key : String) {m : M Token A}
        → Keeps outside m
        → Keeps sent_of (stage env task_id r span key m)
    unfolding stage
    Keeps-stage span key h = Keeps-handle (Keeps-sent_of h) (Keeps-on_error span key)

    Sent-raised :
        {A : Type 0} (Q : LlmRequest Token → Type 0) (R : A → LlmRequest Token → Type 0)
        (sent : List (LlmRequest Token)) (err : Error) (st : State Token)
        (c : State Token × Result A)
        → c.0.sent ≡ st.sent
        → Returned (λ a. ⊥) c
        → Sent {A = A} Q R sent (st, raised err)
        → Sent Q R sent c
    unfolding Sent
    Sent-raised Q R sent err st (st', returned a) same never h = absurd never
    Sent-raised Q R sent err st (st', raised err') same never (inl h) = inl (same ∙ h)
    Sent-raised Q R sent err st (st', raised err') same never (inr (q, h, ok)) =
        inr (q, same ∙ h, ok)

    Sent-recover :
        {A : Type 0} (Q : LlmRequest Token → Type 0) (R : A → LlmRequest Token → Type 0)
        (span key : String) (sent : List (LlmRequest Token)) (c : State Token × Result A)
        → Sent Q R sent c
        → Sent Q R sent (recover (on_error env task_id r span key) c)
    unfolding recover
    Sent-recover Q R span key sent (st, returned a) h = h
    Sent-recover Q R span key sent (st, raised err) h =
        Sent-raised Q R sent err st (on_error env task_id r span key err st)
          ((Keeps-on_error span key err).kept st)
          ((Ensures-on_error env task_id r span key err).at st) h

    pub Sends-stage :
        {A : Type 0} {Q : LlmRequest Token → Type 0} {R : A → LlmRequest Token → Type 0}
        (span key : String) {m : M Token A}
        → Sends Q R m
        → Sends Q R (stage env task_id r span key m)
    unfolding stage handle
    Sends-stage {Q} {R} span key {m} h = record {
      at = λ st. Sent-recover Q R span key st.sent (m st) (h.at st);
    }

    pub Keeps-pre_sanitize : Keeps sent_of (pre_sanitize env task_id r)
    unfolding pre_sanitize
    Keeps-pre_sanitize = Keeps-stage _ _ (search steps)

    pub Keeps-evaluate_policy : Keeps sent_of (evaluate_policy env task_id r)
    unfolding evaluate_policy
    Keeps-evaluate_policy = Keeps-stage _ _ (search steps)

    pub Keeps-apply_mask :
        (p : PolicyResult) (m : MaskResult) → Keeps sent_of (apply_mask env task_id r p m)
    unfolding apply_mask
    Keeps-apply_mask p m =
        Keeps-if (p.action == "mask") (Keeps-stage _ _ (search steps)) (Keeps-pure m)

    pub Keeps-issue_tokens : (m : MaskResult) → Keeps sent_of (issue_tokens env task_id r m)
    unfolding issue_tokens
    Keeps-issue_tokens m = Keeps-stage _ _ (search steps)

    Keeps-with_budget :
        (f : BudgetEnforcer → ℕ → M Token (Unit {0})) (e : Option BudgetEnforcer)
        (session_id : Option ℕ)
        → ((e : BudgetEnforcer) (session_id : ℕ) → Keeps sent_of (f e session_id))
        → Keeps sent_of (with_budget env task_id r f e session_id)
    unfolding with_budget
    Keeps-with_budget f none s h = Keeps-pure tt
    Keeps-with_budget f (some e) none h = Keeps-pure tt
    Keeps-with_budget f (some e) (some s) h = h e s

    Keeps-with_loop :
        (f : LoopDetector → ℕ → M Token (Unit {0})) (d : Option LoopDetector)
        (session_id : Option ℕ)
        → ((d : LoopDetector) (session_id : ℕ) → Keeps sent_of (f d session_id))
        → Keeps sent_of (with_loop env task_id r f d session_id)
    unfolding with_loop
    Keeps-with_loop f none s h = Keeps-pure tt
    Keeps-with_loop f (some d) none h = Keeps-pure tt
    Keeps-with_loop f (some d) (some s) h = h d s

    pub Keeps-watch_before : Keeps sent_of (watch_before env task_id r)
    unfolding watch_before guard_budget
    Keeps-watch_before = record {
      kept = λ st.
          (Keeps-with_budget (guard_budget env task_id r) st.budget r.budget_session_id
              (λ e s. Keeps-stage _ _ (search steps))).kept
            st;
    }

    pub Keeps-conclude :
        (m : MaskResult) (tokens : Tokens Token) (response : LlmResponse)
        → Keeps sent_of (conclude env task_id r m tokens response)
    unfolding conclude watch_spend debit watch_step count_step post_sanitize
    Keeps-conclude m tokens response =
        Keeps->>
          (record {
            kept = λ st.
                (Keeps-with_budget _ st.budget r.budget_session_id
                    (λ e s. Keeps-stage _ _ (search steps))).kept
                  st;
          })
          (Keeps->>
            (record {
              kept = λ st.
                  (Keeps-with_loop _ st.loop r.loop_session_id
                      (λ e s. Keeps-stage _ _ (search steps))).kept
                    st;
            })
            (Keeps->>= (Keeps-stage _ _ (search steps)) (λ post. Keeps-pure _)))
