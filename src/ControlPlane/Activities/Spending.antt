-- ===== src/ControlPlane/Activities/Spending.antt =====
-- src/control_plane/scheduler.py: the activities "BudgetPreCheck" and "BudgetRecordSpend".
pub mod History
use Prim.Native.String.{◌++◌ as str_append}
use aegis_os.Prelude.{
  ℕ, String, Bool, Option, none, some, List, [], ◌∷◌, ◌++◌, contains, string_eq, if◌then◌else◌,
}
use aegis_os.Decimal.{Decimal, mul, of_ℕ}
use aegis_os.Audit.{Outcome, text, money}
use aegis_os.Watchdog.Budget
use aegis_os.Watchdog.Budget.{
  Alert, BudgetSession, HistoryEntry, restore_from_history, check_budget, record_tokens,
}
use aegis_os.ControlPlane.Records.{
  BudgetPreCheckInput, BudgetPreCheckResult, BudgetRecordInput, BudgetRecordResult,
}
use aegis_os.ControlPlane.Steps.{Result, returned, raised, ◌>>=◌, ◌>>◌, pure, raise, handle}
use aegis_os.ControlPlane.Activities.{
  Env, Info, M, Call, Error, application_error, budget_error, exhausted, require_task_id, log,
  in_budget, uuid_or_raise,
}

-- The id of the operation is that of the activity in its workflow: "workflow:activity".
abbrev pub operation_id : Info → String
operation_id info = elim info.workflow_id [
  | none ↦ info.activity_id
  | some workflow_id ↦ str_append workflow_id (str_append ":" info.activity_id)
]

-- The entry of the history for the operation.
abbrev pub entry_of : Info → BudgetRecordInput → HistoryEntry
entry_of info inp = record {
  operation_id = operation_id info;
  amount_usd = mul inp.cost_per_token_usd (of_ℕ inp.tokens_used);
  tokens_used = inp.tokens_used;
}

-- `if operation_id not in existing_operations: history.append(...)`
abbrev pub extend : BudgetSession → HistoryEntry → List HistoryEntry → List HistoryEntry
extend restored entry history =
    if contains restored.applied_operation_ids entry.operation_id
    then history
    else history ++ entry ∷ []

module _ (env : Env) where
  -- `except BudgetExceededError`
  unfoldable pub stop : {A : Type 0} → Call → String → String → Error → M A
  stop c event budget_session_id (budget_error (Budget.exceeded alert)) = do
    log env c Outcome.deny event c.span (
        ("budget_session_id", text budget_session_id)
        ∷ ("error_message", text (env.message (budget_error (Budget.exceeded alert))))
        ∷ [])
    raise (application_error "BudgetExceededError" (exhausted alert))
  stop c event budget_session_id err = raise err

  abbrev pub log_spent : Call → String → String → Decimal → M (Unit {0})
  log_spent c event budget_session_id spent =
      log env c Outcome.allow event c.span
        (("budget_session_id", text budget_session_id) ∷ ("spent_usd", money spent) ∷ [])

  abbrev pub pre_call : BudgetPreCheckInput → Call
  pre_call inp = record {
    task_id = inp.task_id;
    agent_type = inp.agent_type;
    span = "watchdog.pre-llm";
    traceparent = inp.traceparent;
  }

  pub check_restored : BudgetPreCheckInput → ℕ → M BudgetPreCheckResult
  check_restored inp id = do
    restored ← in_budget (restore_from_history id inp.agent_type inp.budget_limit_usd inp.history)
    in_budget (check_budget id)
    log_spent (pre_call inp) "budget.pre_check" inp.budget_session_id restored.cost_usd
    pure (record { snapshot = restored })

  -- `budget_pre_check`
  unfoldable pub budget_pre_check : BudgetPreCheckInput → M BudgetPreCheckResult
  budget_pre_check inp = do
    require_task_id env inp.task_id "watchdog.pre-llm" inp.agent_type
    handle (uuid_or_raise (env.uuid inp.budget_session_id) >>= check_restored inp)
        (stop (pre_call inp) "budget.exceeded" inp.budget_session_id)

  abbrev pub spend_call : BudgetRecordInput → Call
  spend_call inp = record {
    task_id = inp.task_id;
    agent_type = inp.agent_type;
    span = "watchdog.record-spend";
    traceparent = inp.traceparent;
  }

  unfoldable pub spend_recorded :
      Info → BudgetRecordInput → BudgetSession → BudgetSession → M BudgetRecordResult
  spend_recorded info inp restored session = do
    log_spent (spend_call inp) "budget.spend_recorded" inp.budget_session_id session.cost_usd
    pure (record { snapshot = session; history = extend restored (entry_of info inp) inp.history })

  unfoldable pub spend_charged : Info → BudgetRecordInput → ℕ → BudgetSession → M BudgetRecordResult
  spend_charged info inp id restored =
      in_budget (record_tokens id inp.tokens_used inp.cost_per_token_usd (some (operation_id info)))
      >>= spend_recorded info inp restored

  unfoldable pub spend_restored : Info → BudgetRecordInput → ℕ → M BudgetRecordResult
  spend_restored info inp id =
      in_budget (restore_from_history id inp.agent_type inp.budget_limit_usd inp.history)
      >>= spend_charged info inp id

  -- `budget_record_spend`
  unfoldable pub budget_record_spend : Info → BudgetRecordInput → M BudgetRecordResult
  budget_record_spend info inp = do
    require_task_id env inp.task_id "watchdog.record-spend" inp.agent_type
    handle (uuid_or_raise (env.uuid inp.budget_session_id) >>= spend_restored info inp)
        (stop (spend_call inp) "budget.exceeded_on_record" inp.budget_session_id)
