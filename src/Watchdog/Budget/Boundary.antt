-- ===== src/Watchdog/Budget/Boundary.antt =====
-- The limit is enforced exactly: no rounding moves the boundary.
use aegis_os.Prelude.{
  ℕ, ◌+◌, ◌^◌, ◌<◌, ◌≡◌, ap, ◌∙◌, false, Option, some, ltb, if◌then◌else◌, nat_eq, string_eq,
  String,
}
use aegis_os.Dict.{get}
use aegis_os.Decimal.{precision, add, less}
use aegis_os.Decimal.Exact.{units, add-units, less-units}
use aegis_os.Watchdog.Budget.{
  BudgetSession, BudgetEnforcer, returned, raised, exceeded, is_duplicate_operation, debited,
  alert_of, record_spend,
}
use aegis_os.Watchdog.Budget.Spend.{record_spend_effects}

-- Amounts that are whole numbers of one unit, such as a millionth of a dollar: as long as the sum
-- has at most 28 digits, the new cost is the exact sum, and the debit raises exactly if the sum of
-- the numbers is greater than the limit's.
pub record_spend_exact :
    (k p c a l : ℕ) (o : Option String) (e : BudgetEnforcer) {s : BudgetSession}
    → get e.sessions k ≡ some s
    → is_duplicate_operation s o ≡ false
    → s.cost_usd ≡ units p c
    → s.budget_limit_usd ≡ units p l
    → c + a < 10 ^ precision
    → let s' = debited (units p a) o s in
      (s'.cost_usd ≡ units p (c + a))
      × ((record_spend k (units p a) o e).1
          ≡ (if ltb l (c + a) then raised (exceeded (alert_of k s')) else returned s'))
record_spend_exact k p c a l o e {s} found new cost limit small =
    let sum : add s.cost_usd (units p a) ≡ units p (c + a) = rw cost (add-units p c a small) in
    let test : less s.budget_limit_usd (add s.cost_usd (units p a)) ≡ ltb l (c + a) =
      rw (limit, sum) (less-units p l (c + a)) in
    let s' = debited (units p a) o s in
    (
      sum,
      (record_spend_effects k k (units p a) o e found new).3
          ∙ ap (λ b. if b then raised (exceeded (alert_of k s')) else returned s') test,
    )
