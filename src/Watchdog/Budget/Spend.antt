-- ===== src/Watchdog/Budget/Spend.antt =====
-- `record_spend`, `record_tokens` and `check_budget` on every path: idempotence, what a debit
-- changes and what it leaves alone, and when it raises.
use aegis_os.Prelude.{
  ℕ, String, ◌≡◌, refl, ◌↔◌, ◌∙◌, ap, Bool-cases, if_cases, inl, inr, true, false, Option, none,
  some, List, [], ◌∷◌, ◌++◌, ◌==◌, arith, contains, ==_refl, nat_eq, string_eq, if◌then◌else◌,
}
use aegis_os.Dict.{get, get-put, get_known}
use aegis_os.Decimal.{Decimal, less, add}
use aegis_os.Decimal.Order.{less_eq-not-less, less-less_eq}
use aegis_os.Watchdog.Budget.{
  BudgetSession, BudgetEnforcer, Call, returned, raised, exceeded, not_found,
  is_duplicate_operation, mark_operation, debited, remaining, Alert, check_in, alert_of, settle,
  spend_in, record_spend, check_budget,
}

pub contains-append : (xs : List String) (x : String) → contains (xs ++ x ∷ []) x ≡ true
unfolding contains
contains-append [] x = rw ==_refl
contains-append (y ∷ ys) x = ground (arith, contains-append ys x)

-- An operation that has been marked is a duplicate.
pub mark-is_duplicate :
    (s : BudgetSession) (o : String)
    → is_duplicate_operation (mark_operation (some o) s) (some o) ≡ true
mark-is_duplicate s o = ground (arith, contains-append s.applied_operation_ids o)

-- The session that a call of `record_spend` leaves in the registry.
abbrev pub with_alert : ℕ → BudgetSession → BudgetSession
with_alert k s =
    if less s.budget_limit_usd s.cost_usd
    then record s { alerts = s.alerts ++ alert_of k s ∷ [] }
    else s

abbrev pub session_after : ℕ → Decimal → Option String → BudgetSession → BudgetSession
session_after k amount o s =
    if is_duplicate_operation s o then s else with_alert k (debited amount o s)

get-settle :
    (k j : ℕ) (s : BudgetSession) (e : BudgetEnforcer)
    → get (settle k s e).0.sessions j ≡ (if k == j then some (with_alert k s) else get e.sessions j)
unfolding settle
get-settle k j s e = elim (Bool-cases (less s.budget_limit_usd s.cost_usd)) [
  | inl over ↦ rw over (simp get-put (ground arith))
  | inr within ↦ rw within (simp get-put (ground arith))
]

module _ (k : ℕ) (amount : Decimal) (o : Option String) (e : BudgetEnforcer) where
  -- A duplicate changes nothing.
  pub record_spend-duplicate :
      {s : BudgetSession}
      → get e.sessions k ≡ some s
      → is_duplicate_operation s o ≡ true
      → record_spend k amount o e ≡ (e, returned s)
  unfolding record_spend
  record_spend-duplicate h dup = rw (h, spend_in, dup)

  pub record_spend-settle :
      {s : BudgetSession}
      → get e.sessions k ≡ some s
      → is_duplicate_operation s o ≡ false
      → record_spend k amount o e ≡ settle k (debited amount o s) e
  unfolding record_spend
  record_spend-settle h new = rw (h, spend_in, new)

  pub get-record_spend :
      {s : BudgetSession} (j : ℕ)
      → get e.sessions k ≡ some s
      → get (record_spend k amount o e).0.sessions j
        ≡ (if k == j then some (session_after k amount o s) else get e.sessions j)
  get-record_spend {s} j h = elim (Bool-cases (is_duplicate_operation s o)) [
    | inl dup ↦ rw (record_spend-duplicate h dup, dup) (get_known e.sessions k j h)
    | inr new ↦ rw (record_spend-settle h new, new) (get-settle k j (debited amount o s) e)
  ]

pub with_alert-duplicate :
    (k : ℕ) (s : BudgetSession) (o : Option String)
    → is_duplicate_operation (with_alert k s) o ≡ is_duplicate_operation s o
with_alert-duplicate k s none = refl
with_alert-duplicate k s (some o) = ground arith

pub session_after-duplicate :
    (k : ℕ) (amount : Decimal) (o : String) (s : BudgetSession)
    → is_duplicate_operation (session_after k amount (some o) s) (some o) ≡ true
session_after-duplicate k amount o s =
    if_cases (λ t. is_duplicate_operation t (some o) ≡ true) (is_duplicate_operation s (some o))
      (λ dup. dup)
      (λ new.
        with_alert-duplicate k (debited amount (some o) s) (some o)
        ∙ mark-is_duplicate (record s { cost_usd = add s.cost_usd amount }) o)

-- Once an operation has been recorded, whether it went through or passed the limit, a redelivery
-- under the same id returns the stored session, changes nothing and does not raise, whatever
-- amount it carries.
pub record_spend_idempotent :
    (k : ℕ) (amount again : Decimal) (o : String) (e : BudgetEnforcer) {s : BudgetSession}
    → get e.sessions k ≡ some s
    → let e' = (record_spend k amount (some o) e).0 in
      record_spend k again (some o) e' ≡ (e', returned (session_after k amount (some o) s))
record_spend_idempotent k amount again o e {s} h =
    record_spend-duplicate k again (some o) (record_spend k amount (some o) e).0
      (rw (get-record_spend k amount (some o) e k h, ==_refl k))
      (session_after-duplicate k amount o s)

pub settle_effects :
    (k j : ℕ) (s : BudgetSession) (e : BudgetEnforcer)
    → let (e', r) = settle k s e in
      (get e'.sessions j ≡ (if k == j then some (with_alert k s) else get e.sessions j))
      × (get e'.budget_remaining j
          ≡ (if k == j then some (remaining s) else get e.budget_remaining j))
      × (e'.tokens_consumed ≡ e.tokens_consumed)
      × (r ≡ (
          if less s.budget_limit_usd s.cost_usd
          then raised (exceeded (alert_of k s))
          else returned s))
settle_effects k j s e = (
  get-settle k j s e,
  unfold settle in ground (arith, get-put e.budget_remaining k j (remaining s)),
  unfold settle in ground arith,
  unfold settle in ground arith,
)

-- A debit that is no duplicate, on both paths: the registry holds the session with the sum as its
-- cost, whose id is marked, and with one more alert if the sum passes the limit; no other session
-- changes; the gauge shows what remains, at least 0, and no other gauge changes; the token counter
-- does not change; and the call raises exactly if the sum is greater than the limit.
pub record_spend_effects :
    (k j : ℕ) (amount : Decimal) (o : Option String) (e : BudgetEnforcer) {s : BudgetSession}
    → get e.sessions k ≡ some s
    → is_duplicate_operation s o ≡ false
    → let (e', r) = record_spend k amount o e in
      let s' = debited amount o s in
      (get e'.sessions j ≡ (if k == j then some (with_alert k s') else get e.sessions j))
      × (get e'.budget_remaining j
          ≡ (if k == j then some (remaining s') else get e.budget_remaining j))
      × (e'.tokens_consumed ≡ e.tokens_consumed)
      × (r ≡ (
          if less s.budget_limit_usd (add s.cost_usd amount)
          then raised (exceeded (alert_of k s'))
          else returned s'))
record_spend_effects k j amount o e {s} h new =
    rw (record_spend-settle k amount o e h new) (settle_effects k j (debited amount o s) e)

-- The guard before a provider call raises exactly when the cost has reached the limit; it changes
-- no session, gauge or counter.
pub check_budget_effects :
    (k : ℕ) (e : BudgetEnforcer) {s : BudgetSession}
    → get e.sessions k ≡ some s
    → let (e', r) = check_budget k e in
      ((r ≡ returned tt) ↔ (less s.cost_usd s.budget_limit_usd ≡ true))
      × (e'.sessions ≡ e.sessions)
      × (e'.budget_remaining ≡ e.budget_remaining)
      × (e'.tokens_consumed ≡ e.tokens_consumed)
unfolding check_budget
check_budget_effects k e {s} h =
    rw (h, check_in) (ground (arith, less_eq-not-less s.budget_limit_usd s.cost_usd))

-- A session whose cost has passed its limit is refused by the guard.
check_in-over :
    (k : ℕ) (e : BudgetEnforcer) (s : BudgetSession)
    → less s.budget_limit_usd s.cost_usd ≡ true
    → get e.sessions k ≡ some (with_alert k s)
    → (check_budget k e).1 ≡ raised (exceeded (alert_of k s))
unfolding check_budget
check_in-over k e s over h = rw (h, over, check_in, less-less_eq s.budget_limit_usd s.cost_usd over)

record_spend-missing :
    (k : ℕ) (amount : Decimal) (o : Option String) (e : BudgetEnforcer)
    → get e.sessions k ≡ none
    → record_spend k amount o e ≡ (e, raised (not_found k))
unfolding record_spend
record_spend-missing k amount o e h = rw (h, spend_in)

pub over_raises :
    (k : ℕ) (s : BudgetSession) (e : BudgetEnforcer)
    → less s.budget_limit_usd s.cost_usd ≡ true
    → (settle k s e).1 ≡ raised (exceeded (alert_of k s))
over_raises k s e over = (settle_effects k k s e).3 ∙ rw over

pub within_returns :
    (k : ℕ) (s : BudgetSession) (e : BudgetEnforcer)
    → less s.budget_limit_usd s.cost_usd ≡ false
    → (settle k s e).1 ≡ returned s
within_returns k s e within = (settle_effects k k s e).3 ∙ rw within

settle-check :
    (k : ℕ) (s : BudgetSession) (e : BudgetEnforcer) {alert : Alert}
    → (settle k s e).1 ≡ raised (exceeded alert)
    → (check_budget k (settle k s e).0).1 ≡ raised (exceeded alert)
settle-check k s e {alert} h = elim (Bool-cases (less s.budget_limit_usd s.cost_usd)) [
  | inl over ↦
      let same : alert_of k s ≡ alert = cc (h, over_raises k s e over) in
      check_in-over k (settle k s e).0 s over (rw (get-settle k k s e) (rw (==_refl k)))
      ∙ ap (λ a. raised (exceeded a)) same
  | inr within ↦ cc (h, within_returns k s e within)
]

spend_guard :
    (k : ℕ) (amount : Decimal) (o : Option String) (e : BudgetEnforcer) {alert : Alert}
    (found : Option BudgetSession)
    → get e.sessions k ≡ found
    → (record_spend k amount o e).1 ≡ raised (exceeded alert)
    → (check_budget k (record_spend k amount o e).0).1 ≡ raised (exceeded alert)
spend_guard k amount o e none missing h =
    cc (ap (λ (c : Call BudgetSession). c.1) (record_spend-missing k amount o e missing))
spend_guard k amount o e (some s) found h = elim (Bool-cases (is_duplicate_operation s o)) [
  | inl dup ↦
      cc (ap (λ (c : Call BudgetSession). c.1) (record_spend-duplicate k amount o e found dup))
  | inr new ↦
      let step = record_spend-settle k amount o e found new in
      rw step (settle-check k (debited amount o s) e (rw step at h))
]

-- After a debit that raised `BudgetExceededError`, whatever the session held before, the guard
-- raises too, with the same cost and limit.
pub check_budget-record_spend :
    (k : ℕ) (amount : Decimal) (o : Option String) (e : BudgetEnforcer) {alert : Alert}
    → (record_spend k amount o e).1 ≡ raised (exceeded alert)
    → (check_budget k (record_spend k amount o e).0).1 ≡ raised (exceeded alert)
check_budget-record_spend k amount o e h = spend_guard k amount o e (get e.sessions k) refl h
