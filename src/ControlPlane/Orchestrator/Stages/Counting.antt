-- ===== src/ControlPlane/Orchestrator/Stages/Counting.antt =====
-- src/control_plane/orchestrator.py: what a run does to the counter of errors.
use mathlib.Core.Option.{some-injective}
use aegis_os.Prelude.{
  if◌then◌else◌, string_eq, ℕ, String, subst, ◌≡◌, refl, sym, ◌==◌, Bool, true, false, Bool-cases,
  inl, inr, Option, none, some, List, ◌∷◌,
}
use aegis_os.Governance.Guardrails.{MaskResult}
use aegis_os.Governance.Policy.{PolicyResult}
use aegis_os.Watchdog.Budget.{BudgetEnforcer}
use aegis_os.Watchdog.Loop.{LoopDetector}
use aegis_os.ControlPlane.Orchestrator.{
  OrchestratorRequest, LlmResponse, Error, is_controlled, State, Result, returned, raised, Env, M,
  continue, recover, ◌>>=◌, ◌>>◌, pure, raise, handle, count_error, report, on_error, stage,
}
use aegis_os.ControlPlane.Orchestrator.Stages.{
  Tokens, evaluate_policy, apply_mask, issue_tokens, pre_sanitize,
}
use aegis_os.ControlPlane.Orchestrator.Stages.Run.{
  with_budget, with_loop, guard_budget, watch_before, invoke, debit, watch_spend, count_step,
  watch_step, post_sanitize, conclude, run_task, run_with, run,
}
use aegis_os.ControlPlane.Orchestrator.Stages.Keeps.{
  Keeps, steps, errors_of, Keeps-errors_of, Keeps-audited, Keeps->>=, Keeps-complete,
}

-- One entry with the agent type of the request, if and only if the step raises.
unfoldable pub Tally :
    {Token A : Type 0} → String → List (String × String) → State Token × Result A → Type 0
Tally agent_type errors (st, returned a) = st.errors ≡ errors
Tally agent_type errors (st, raised err) = (key : String) × (st.errors ≡ (key, agent_type) ∷ errors)

record Counted {Token A : Type 0} (agent_type : String) (m : M Token A) : Type 0 where
  at : (st : State Token) → Tally agent_type st.errors (m st)

module _ {Token : Type 0} where
  module _ {agent_type : String} where
    Counted-pure : {A : Type 0} (a : A) → Counted {Token = Token} agent_type (pure a)
    unfolding Tally
    Counted-pure a = record { at = λ st. refl }

    Tally-continue :
        {A B : Type 0} (errors : List (String × String)) (f : A → M Token B)
        (c : State Token × Result A)
        → Tally agent_type errors c
        → ((a : A) → Counted agent_type (f a))
        → Tally agent_type errors (continue f c)
    unfolding Tally continue
    Tally-continue errors f (st, returned a) h k =
        subst (λ e. Tally agent_type e (f a st)) h ((k a).at st)
    Tally-continue errors f (st, raised err) h k = h

    Counted->>= :
        {A B : Type 0} {m : M Token A} {f : A → M Token B}
        → Counted agent_type m
        → ((a : A) → Counted agent_type (f a))
        → Counted agent_type (m >>= f)
    unfolding ◌>>=◌
    Counted->>= {m} {f} h k = record { at = λ st. Tally-continue st.errors f (m st) (h.at st) k }

    Counted->> :
        {A : Type 0} {m : M Token (Unit {0})} {k : M Token A}
        → Counted agent_type m
        → Counted agent_type k
        → Counted agent_type (m >> k)
    unfolding ◌>>◌
    Counted->> h l = Counted->>= h (λ done. l)

    Counted-if :
        {A : Type 0} (test : Bool) {m k : M Token A}
        → Counted agent_type m
        → Counted agent_type k
        → Counted agent_type (if test then m else k)
    Counted-if true h l = h
    Counted-if false h l = l

  module _ (env : Env Token) (task_id : String) (r : OrchestratorRequest Token) where
    Tally-fails :
        (A : Type 0) {errors : List (String × String)} {key : String} (err : Error)
        (c : State Token × Result (Unit {0}))
        → c.0.errors ≡ (key, r.agent_type) ∷ errors
        → Tally {A = A} r.agent_type errors (continue (λ done. raise err) c)
    unfolding Tally continue
    Tally-fails A {key} err (st, returned done) h = (key, h)
    Tally-fails A {key} err (st, raised again) h = (key, h)

    on_error-Tally :
        (A : Type 0) (span key : String) (err : Error) (st : State Token)
        → Tally {A = A} r.agent_type st.errors (on_error env task_id r span key err st)
    unfolding Tally on_error report count_error continue ◌>>=◌ ◌>>◌
    on_error-Tally A span key err st = elim (Bool-cases (is_controlled err)) [
      | inl h ↦ rw (h) (key, refl)
      | inr h ↦
          rw (h)
            (Tally-fails A err _ ((Keeps-errors_of (Keeps-audited env task_id r _ _ _ _)).kept _))
    ]

    Tally-recover :
        {A : Type 0} (errors : List (String × String)) (span key : String)
        (c : State Token × Result A)
        → c.0.errors ≡ errors
        → Tally r.agent_type errors (recover (on_error env task_id r span key) c)
    unfolding Tally recover
    Tally-recover {A} errors span key (st, returned a) h = h
    Tally-recover {A} errors span key (st, raised err) h =
        subst (λ e. Tally {A = A} r.agent_type e (on_error env task_id r span key err st)) h
          (on_error-Tally _ span key err st)

    Counted-stage :
        {A : Type 0} (span key : String) {m : M Token A}
        → Keeps errors_of m
        → Counted r.agent_type (stage env task_id r span key m)
    unfolding stage handle
    Counted-stage span key {m} h = record {
      at = λ st. Tally-recover st.errors span key (m st) (h.kept st);
    }

    Counted-pre_sanitize : Counted r.agent_type (pre_sanitize env task_id r)
    unfolding pre_sanitize
    Counted-pre_sanitize = Counted-stage _ _ (Keeps-errors_of (search steps))

    Counted-evaluate_policy : Counted r.agent_type (evaluate_policy env task_id r)
    unfolding evaluate_policy
    Counted-evaluate_policy = Counted-stage _ _ (Keeps-errors_of (search steps))

    Counted-apply_mask :
        (p : PolicyResult) (m : MaskResult) → Counted r.agent_type (apply_mask env task_id r p m)
    unfolding apply_mask
    Counted-apply_mask p m =
        Counted-if (p.action == "mask") (Counted-stage _ _ (Keeps-errors_of (search steps)))
          (Counted-pure m)

    Counted-issue_tokens : (m : MaskResult) → Counted r.agent_type (issue_tokens env task_id r m)
    unfolding issue_tokens
    Counted-issue_tokens m = Counted-stage _ _ (Keeps-errors_of (search steps))

    Counted-guard_budget :
        (e : BudgetEnforcer) (session_id : ℕ)
        → Counted r.agent_type (guard_budget env task_id r e session_id)
    unfolding guard_budget
    Counted-guard_budget e session_id = Counted-stage _ _ (Keeps-errors_of (search steps))

    Counted-with_budget :
        (f : BudgetEnforcer → ℕ → M Token (Unit {0})) (e : Option BudgetEnforcer)
        (session_id : Option ℕ)
        → ((e : BudgetEnforcer) (session_id : ℕ) → Counted r.agent_type (f e session_id))
        → Counted r.agent_type (with_budget env task_id r f e session_id)
    unfolding with_budget
    Counted-with_budget f none s h = Counted-pure tt
    Counted-with_budget f (some e) none h = Counted-pure tt
    Counted-with_budget f (some e) (some s) h = h e s

    Counted-with_loop :
        (f : LoopDetector → ℕ → M Token (Unit {0})) (d : Option LoopDetector)
        (session_id : Option ℕ)
        → ((d : LoopDetector) (session_id : ℕ) → Counted r.agent_type (f d session_id))
        → Counted r.agent_type (with_loop env task_id r f d session_id)
    unfolding with_loop
    Counted-with_loop f none s h = Counted-pure tt
    Counted-with_loop f (some d) none h = Counted-pure tt
    Counted-with_loop f (some d) (some s) h = h d s

    Counted-watch_before : Counted r.agent_type (watch_before env task_id r)
    unfolding watch_before
    Counted-watch_before = record {
      at = λ st. (Counted-with_budget _ st.budget r.budget_session_id Counted-guard_budget).at st;
    }

    Counted-invoke :
        (m : MaskResult) (tokens : Tokens Token)
        → Counted r.agent_type (invoke env task_id r m tokens)
    unfolding invoke
    Counted-invoke m tokens =
        Counted-stage _ _
          (Keeps->>= (Keeps-complete env task_id r _) (λ response. Keeps-errors_of (search steps)))

    Counted-debit :
        (response : LlmResponse) (e : BudgetEnforcer) (session_id : ℕ)
        → Counted r.agent_type (debit env task_id r response e session_id)
    unfolding debit
    Counted-debit response e session_id = Counted-stage _ _ (Keeps-errors_of (search steps))

    Counted-watch_spend :
        (response : LlmResponse) → Counted r.agent_type (watch_spend env task_id r response)
    unfolding watch_spend
    Counted-watch_spend response = record {
      at = λ st.
          (Counted-with_budget _ st.budget r.budget_session_id (Counted-debit response)).at st;
    }

    Counted-count_step :
        (response : LlmResponse) (d : LoopDetector) (session_id : ℕ)
        → Counted r.agent_type (count_step env task_id r response d session_id)
    unfolding count_step
    Counted-count_step response d session_id = Counted-stage _ _ (Keeps-errors_of (search steps))

    Counted-watch_step :
        (response : LlmResponse) → Counted r.agent_type (watch_step env task_id r response)
    unfolding watch_step
    Counted-watch_step response = record {
      at =
          λ st. (Counted-with_loop _ st.loop r.loop_session_id (Counted-count_step response)).at st;
    }

    Counted-post_sanitize :
        (response : LlmResponse) → Counted r.agent_type (post_sanitize env task_id r response)
    unfolding post_sanitize
    Counted-post_sanitize response = Counted-stage _ _ (Keeps-errors_of (search steps))

    Counted-run_task : Counted r.agent_type (run_task env task_id r)
    unfolding run_task conclude
    Counted-run_task =
        search
          (
            Counted-pure, Counted->>=, Counted->>, Counted-pre_sanitize, Counted-evaluate_policy,
            Counted-apply_mask, Counted-issue_tokens, Counted-watch_before, Counted-invoke,
            Counted-watch_spend, Counted-watch_step, Counted-post_sanitize,
          )
          depth 14

    run_with-Tally :
        (id : Option String) (st : State Token)
        → id ≡ some task_id
        → Tally r.agent_type st.errors (run_with env id r st)
    unfolding run_with
    run_with-Tally none st h = cc (h)
    run_with-Tally (some id) st h =
        subst (λ t. Tally r.agent_type st.errors (run_task env t r st)) (sym (some-injective _ _ h))
          (Counted-run_task.at st)

-- A run of a request that has a task id increases the counter of errors, with the request's agent type,
-- exactly once if it raises, whichever stage that was in, and leaves the counter alone if it returns.
pub run-Tally :
    {Token : Type 0} (env : Env Token) (r : OrchestratorRequest Token) (st : State Token)
    {task_id : String}
    → r.task_id ≡ some task_id
    → Tally r.agent_type st.errors (run env r st)
unfolding run
run-Tally env r st {task_id} h = run_with-Tally env task_id r r.task_id st h
