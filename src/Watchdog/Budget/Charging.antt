-- ===== src/Watchdog/Budget/Charging.antt =====
-- src/watchdog/budget_enforcer.py: what a call of `record_tokens` that returns has charged.
use aegis_os.Prelude.{
  ℕ, String, ◌≡◌, sym, ap, ◌∙◌, subst, some, false, nat_eq, string_eq, if_true, if_false,
  Bool-cases, inl, inr, if◌then◌else◌,
}
use aegis_os.Dict.{get}
use aegis_os.Decimal.{Decimal, mul, of_ℕ, less}
use aegis_os.Watchdog.Budget.{
  BudgetSession, BudgetEnforcer, Call, returned, is_duplicate_operation, debited, settle,
  record_tokens,
}
use aegis_os.Watchdog.Budget.Spend.{over_raises, within_returns, record_spend-settle}
use aegis_os.Watchdog.Budget.Replay.{
  with_tokens, counted, counted-found, record_tokens-duplicate, record_tokens-new,
}

-- The session after a call of `record_tokens` that returns.
abbrev pub charged : ℕ → Decimal → String → BudgetSession → BudgetSession
charged n c o s =
    if is_duplicate_operation s (some o)
    then s
    else debited (mul (of_ℕ n) c) (some o) (with_tokens n s)

pub settle-returned_within :
    (k : ℕ) (s : BudgetSession) (e : BudgetEnforcer) {t : BudgetSession}
    → (settle k s e).1 ≡ returned t
    → (s ≡ t) × (less s.budget_limit_usd s.cost_usd ≡ false)
settle-returned_within k s e {t} went = elim (Bool-cases (less s.budget_limit_usd s.cost_usd)) [
  | inl over ↦ cc (went, over_raises k s e over)
  | inr within ↦ (cc (went, within_returns k s e within), within)
]

-- A call that returns gives the charged session, and one that has charged it is within the limit.
pub record_tokens-charged :
    (k n : ℕ) (c : Decimal) (o : String) (e : BudgetEnforcer) {s t : BudgetSession}
    → get e.sessions k ≡ some s
    → (record_tokens k n c (some o) e).1 ≡ returned t
    → (charged n c o s ≡ t)
      × (is_duplicate_operation s (some o) ≡ false → less t.budget_limit_usd t.cost_usd ≡ false)
record_tokens-charged k n c o e {s} {t} found went =
    let d = debited (mul (of_ℕ n) c) (some o) (with_tokens n s) in
    elim (Bool-cases (is_duplicate_operation s (some o))) [
      | inl dup ↦ (
        if_true s d dup ∙ cc (went, record_tokens-duplicate k n c (some o) e found dup),
        λ new. cc (dup, new),
      )
      | inr new ↦
          let between = counted k n c (some o) e found in
          let settled : record_tokens k n c (some o) e ≡ settle k d between =
            record_tokens-new k n c (some o) e found new
            ∙ record_spend-settle k (mul (of_ℕ n) c) (some o) between
                (counted-found k n c (some o) e found) new in
          let at =
            settle-returned_within k d between
              (sym (ap (λ (r : Call BudgetSession). r.1) settled) ∙ went) in
          (
            if_false s d new ∙ at.0,
            λ same. subst (λ u. less u.budget_limit_usd u.cost_usd ≡ false) at.0 at.1,
          )
    ]
