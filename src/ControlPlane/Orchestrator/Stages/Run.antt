-- ===== src/ControlPlane/Orchestrator/Stages/Run.antt =====
-- src/control_plane/orchestrator.py: the watchdog's stages, the call of the provider, and
-- `Orchestrator.run`.
use aegis_os.Prelude.{ℕ, String, Option, none, some, [], ◌∷◌, ◌++◌}
use aegis_os.Decimal.{mul, of_ℕ}
use aegis_os.Audit.{Outcome, text, texts, uuid, num}
use aegis_os.Governance.Guardrails.{MaskResult, mask_pii}
use aegis_os.Governance.Session.{SessionManager}
use aegis_os.Watchdog.Budget
use aegis_os.Watchdog.Budget.{BudgetEnforcer, check_budget, record_spend}
use aegis_os.Watchdog.Loop
use aegis_os.Watchdog.Loop.{LoopDetector, record_step}
use aegis_os.ControlPlane.Orchestrator.{
  OrchestratorRequest, LlmRequest, LlmResponse, Completion, failed, completed, OrchestratorResult,
  Error, missing_task_id, budget_limit, budget_error, loop_halt, loop_velocity, loop_approval,
  loop_error, provider_error, State, Result, returned, raised, Env, M, ◌>>=◌, ◌>>◌, pure, raise,
  handle, stage,
}
use aegis_os.ControlPlane.Orchestrator.Stages.{
  Tokens, in_budget, in_loop, log, llm_request, pre_sanitize, evaluate_policy, apply_mask,
  issue_tokens, found_outcome,
}

module _ {Token : Type 0} (env : Env Token) (task_id : String) (r : OrchestratorRequest Token) where
  -- A part and its session, where both are there.
  unfoldable pub with_budget :
      (BudgetEnforcer → ℕ → M Token (Unit {0}))
      → Option BudgetEnforcer
      → Option ℕ
      → M Token (Unit {0})
  with_budget f none session_id = pure tt
  with_budget f (some e) none = pure tt
  with_budget f (some e) (some session_id) = f e session_id

  unfoldable pub with_loop :
      (LoopDetector → ℕ → M Token (Unit {0})) → Option LoopDetector → Option ℕ → M Token (Unit {0})
  with_loop f none session_id = pure tt
  with_loop f (some d) none = pure tt
  with_loop f (some d) (some session_id) = f d session_id

  -- `except BudgetExceededError` before the call of the provider
  unfoldable pub deny_exhausted : ℕ → Error → M Token (Unit {0})
  deny_exhausted session_id (budget_error (Budget.exceeded alert)) = do
    log env task_id r Outcome.deny "budget.exceeded" "watchdog.pre-llm" (
        ("budget_session_id", uuid session_id)
        ∷ ("error_message", text (env.message (budget_error (Budget.exceeded alert))))
        ∷ [])
    raise (budget_limit alert)
  deny_exhausted session_id err = raise err

  unfoldable pub guard_budget : BudgetEnforcer → ℕ → M Token (Unit {0})
  guard_budget e session_id = stage env task_id r "watchdog.pre-llm" "watchdog_pre" (do
    handle (in_budget (check_budget session_id e)) (deny_exhausted session_id)
    log env task_id r Outcome.allow "budget.pre_check" "watchdog.pre-llm"
        (("budget_session_id", uuid session_id) ∷ []))

  -- Stage 3.5
  unfoldable pub watch_before : M Token (Unit {0})
  watch_before st = with_budget guard_budget st.budget r.budget_session_id st

  unfoldable pub answer :
      State Token → SessionManager × Completion → State Token × Result LlmResponse
  answer st (sessions, failed kind) =
      (record st { sessions = sessions }, raised (provider_error kind))
  answer st (sessions, completed response) = (record st { sessions = sessions }, returned response)

  -- `await self._adapter.complete(llm_req)`
  unfoldable pub complete : LlmRequest Token → M Token LlmResponse
  complete q st = answer (record st { sent = st.sent ++ q ∷ [] }) (env.complete q st.sessions)

  -- Stage 4
  unfoldable pub invoke : MaskResult → Tokens Token → M Token LlmResponse
  invoke m tokens = stage env task_id r "llm-invoke" "llm_invoke" (do
    response ← complete (llm_request env task_id r m.text tokens.adapter_token tokens.dpop_proof)
    log env task_id r Outcome.allow "llm.completed" "llm-invoke"
        (("model", text r.model) ∷ ("tokens_used", num response.tokens_used) ∷ [])
    pure response)

  -- `except BudgetExceededError` after it
  unfoldable pub deny_spend : Error → M Token (Unit {0})
  deny_spend (budget_error (Budget.exceeded alert)) = do
    log env task_id r Outcome.deny "budget.exceeded_on_record" "watchdog.record-spend"
        (("error_message", text (env.message (budget_error (Budget.exceeded alert)))) ∷ [])
    raise (budget_limit alert)
  deny_spend err = raise err

  unfoldable pub debit : LlmResponse → BudgetEnforcer → ℕ → M Token (Unit {0})
  debit response e session_id = stage env task_id r "watchdog.record-spend" "watchdog_record" (do
    handle
        (in_budget
            (record_spend session_id (mul (of_ℕ response.tokens_used) r.cost_per_token) none e)
          >>= λ s. pure tt)
        deny_spend
    log env task_id r Outcome.allow "budget.spend_recorded" "watchdog.record-spend" [])

  -- Stage 4.5
  unfoldable pub watch_spend : LlmResponse → M Token (Unit {0})
  watch_spend response st = with_budget (debit response) st.budget r.budget_session_id st

  unfoldable pub deny_step : String → Error → Error → M Token (Unit {0})
  deny_step event cause err = do
    log env task_id r Outcome.deny event "watchdog.loop-detect"
        (("error_message", text (env.message cause)) ∷ [])
    raise err

  -- `except LoopDetectedError`, `TokenVelocityError` and `PendingApprovalError`
  unfoldable pub deny_loop : Error → M Token (Unit {0})
  deny_loop (loop_error (Loop.loop_detected streak max)) =
      deny_step "loop.halted" (loop_error (Loop.loop_detected streak max))
        (loop_halt (Loop.loop_detected streak max))
  deny_loop (loop_error (Loop.token_velocity step delta max)) =
      deny_step "loop.velocity_exceeded" (loop_error (Loop.token_velocity step delta max))
        (loop_velocity (Loop.token_velocity step delta max))
  deny_loop (loop_error (Loop.pending_approval step)) =
      deny_step "loop.pending_approval" (loop_error (Loop.pending_approval step))
        (loop_approval (Loop.pending_approval step))
  deny_loop err = raise err

  abbrev delta_or : ℕ → Option ℕ → ℕ
  delta_or tokens_used none = tokens_used
  delta_or tokens_used (some delta) = delta

  unfoldable pub count_step : LlmResponse → LoopDetector → ℕ → M Token (Unit {0})
  count_step response d session_id = stage env task_id r "watchdog.loop-detect" "watchdog_loop" (do
    handle
        (in_loop (
            record_step session_id (delta_or response.tokens_used r.loop_token_delta) r.loop_signal
              "" d)
          >>= λ ctx. pure tt)
        deny_loop
    log env task_id r Outcome.allow "loop.step_recorded" "watchdog.loop-detect" [])

  -- Stage 4.6
  unfoldable pub watch_step : LlmResponse → M Token (Unit {0})
  watch_step response st = with_loop (count_step response) st.loop r.loop_session_id st

  -- Stage 5
  unfoldable pub post_sanitize : LlmResponse → M Token MaskResult
  post_sanitize response = stage env task_id r "post-sanitize" "post_sanitize" (do
    let m = mask_pii env.tools response.content
    log env task_id r (found_outcome m.found_types) "guardrails.post_sanitize" "post-sanitize"
        (("pii_types", texts m.found_types) ∷ [])
    pure m)

  abbrev pub result_of :
      MaskResult → Tokens Token → LlmResponse → MaskResult → OrchestratorResult Token
  result_of m tokens response post = record {
    task_id = task_id;
    response = record response { content = post.text };
    session_token = tokens.token;
    sanitized_prompt = m.text;
    pii_found_in_prompt = m.found_types;
    pii_found_in_response = post.found_types;
  }

  -- The stages after the call.
  unfoldable pub conclude :
      MaskResult → Tokens Token → LlmResponse → M Token (OrchestratorResult Token)
  conclude m tokens response = do
    watch_spend response
    watch_step response
    post ← post_sanitize response
    pure (result_of m tokens response post)

  unfoldable pub run_task : M Token (OrchestratorResult Token)
  run_task = do
    m ← pre_sanitize env task_id r
    p ← evaluate_policy env task_id r
    masked ← apply_mask env task_id r p m
    tokens ← issue_tokens env task_id r masked
    watch_before
    response ← invoke masked tokens
    conclude masked tokens response

unfoldable pub run_with :
    {Token : Type 0}
    → Env Token
    → Option String
    → OrchestratorRequest Token
    → M Token (OrchestratorResult Token)
run_with env none r = raise missing_task_id
run_with env (some task_id) r = run_task env task_id r

-- `run`
unfoldable pub run :
    {Token : Type 0} → Env Token → OrchestratorRequest Token → M Token (OrchestratorResult Token)
run env r = run_with env r.task_id r
