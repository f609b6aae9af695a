-- ===== src/Watchdog/Budget/Tests.antt =====
-- Runs of src/watchdog/budget_enforcer.py at small inputs.
use aegis_os.Prelude.{
  ℕ, ◌+◌, ◌≡◌, ◌↔◌, ltb, arith, string_eq, refl, true, false, ◌==◌, nat_eq, some, [], ◌∷◌, contains,
  if◌then◌else◌,
}
use aegis_os.Prelude.Int.{pos}
use aegis_os.Dict.{get, put}
use aegis_os.Decimal.{Decimal, less, add, sub, mul, div_ℕ, max}
use aegis_os.Decimal.Exact.{units}
use aegis_os.Audit.{new_logger}
use aegis_os.Watchdog.Budget.{
  BudgetSession, BudgetEnforcer, HistoryEntry, Alert, returned, raised, exceeded, record_spend,
  check_budget, debited, remaining, new_session, store, alert_of, restore_from_history,
  record_tokens, resolve_cost_per_token, spend_in, settle, is_duplicate_operation,
}
use aegis_os.Watchdog.Budget.Spend.{
  record_spend_effects, record_spend_idempotent, check_budget_effects, session_after, with_alert,
}
use aegis_os.Watchdog.Budget.Replay.{ids}
use aegis_os.Watchdog.Budget.Ledger.{restore_from_history-Accounts, Accounts, firsts}
use aegis_os.Watchdog.Budget.Boundary.{record_spend_exact}

-- Cents
abbrev cents : ℕ → Decimal
cents n = units 2 n

abbrev sid : ℕ
sid = 1

abbrev session : BudgetSession
session = new_session 1 "finance" (cents 100)

abbrev empty : BudgetEnforcer
empty = record { sessions = []; budget_remaining = []; tokens_consumed = []; audit = new_logger }

abbrev enforcer : BudgetEnforcer
enforcer = store 1 session empty

known : get enforcer.sessions 1 ≡ some session
unfolding get put
known = refl

fresh : is_duplicate_operation session (some "op-1") ≡ false
unfolding contains
fresh = refl

record_spend_effects_example :
    let (e', r) = record_spend 1 (cents 150) (some "op-1") enforcer in
    let s' = debited (cents 150) (some "op-1") session in
    (get e'.sessions 1 ≡ (if sid == sid then some (with_alert 1 s') else get enforcer.sessions 1))
    × (get e'.budget_remaining 1
        ≡ (if sid == sid then some (remaining s') else get enforcer.budget_remaining 1))
    × (e'.tokens_consumed ≡ enforcer.tokens_consumed)
    × (r ≡ (
        if less session.budget_limit_usd (add session.cost_usd (cents 150))
        then raised (exceeded (alert_of 1 s'))
        else returned s'))
record_spend_effects_example =
    record_spend_effects 1 1 (cents 150) (some "op-1") enforcer known fresh

record_spend_idempotent_example :
    let e' = (record_spend 1 (cents 150) (some "op-1") enforcer).0 in
    record_spend 1 (cents 7) (some "op-1") e'
    ≡ (e', returned (session_after 1 (cents 150) (some "op-1") session))
record_spend_idempotent_example =
    record_spend_idempotent 1 (cents 150) (cents 7) "op-1" enforcer known

check_budget_effects_example :
    let (e', r) = check_budget 1 enforcer in
    ((r ≡ returned tt) ↔ (less session.cost_usd session.budget_limit_usd ≡ true))
    × (e'.sessions ≡ enforcer.sessions)
    × (e'.budget_remaining ≡ enforcer.budget_remaining)
    × (e'.tokens_consumed ≡ enforcer.tokens_consumed)
check_budget_effects_example = check_budget_effects 1 enforcer known

abbrev alert : Alert
alert = alert_of 1 (debited (cents 150) (some "op-1") session)

over : (record_spend 1 (cents 150) (some "op-1") enforcer).1 ≡ raised (exceeded alert)
unfolding less add
over = record_spend_effects_example.3

abbrev spent : BudgetSession
spent = record session { cost_usd = cents 20 }

spent_known : get (store 1 spent empty).sessions 1 ≡ some spent
unfolding get put
spent_known = refl

record_spend_exact_example :
    let s' = debited (units 2 30) (some "op-1") spent in
    (s'.cost_usd ≡ units 2 (20 + 30))
    × ((record_spend 1 (units 2 30) (some "op-1") (store 1 spent empty)).1
        ≡ (if ltb 100 (20 + 30) then raised (exceeded (alert_of 1 s')) else returned s'))
record_spend_exact_example =
    record_spend_exact 1 2 20 30 100 (some "op-1") (store 1 spent empty) spent_known fresh refl refl
      (ground arith)

abbrev op_1 : HistoryEntry
op_1 = record { operation_id = "op-1"; amount_usd = cents 10; tokens_used = 100 }

abbrev op_2 : HistoryEntry
op_2 = record { operation_id = "op-2"; amount_usd = cents 20; tokens_used = 50 }

listed : contains (ids (op_1 ∷ op_2 ∷ [])) "op-1" ≡ true
unfolding contains
listed = refl

abbrev restored : BudgetSession
restored = record session {
  tokens_used = 150;
  cost_usd = record { coefficient = pos 3000000000000000000000000000; scale = 28 };
  applied_operation_ids = "op-1" ∷ "op-2" ∷ [];
}

restored_is :
    (restore_from_history 1 "finance" (cents 100) (op_1 ∷ op_1 ∷ op_2 ∷ []) empty).1
    ≡ returned restored
unfolding restore_from_history record_tokens spend_in settle get put contains add sub mul div_ℕ less
    max resolve_cost_per_token
restored_is = refl

restore_from_history-Accounts_example :
    Accounts session restored (firsts [] (op_1 ∷ op_1 ∷ op_2 ∷ []))
    × (get
          (restore_from_history 1 "finance" (cents 100) (op_1 ∷ op_1 ∷ op_2 ∷ []) empty).0.sessions
          1
        ≡ some restored)
restore_from_history-Accounts_example =
    restore_from_history-Accounts 1 "finance" (cents 100) (op_1 ∷ op_1 ∷ op_2 ∷ []) empty
      restored_is
