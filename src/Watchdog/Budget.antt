-- ===== src/Watchdog/Budget.antt =====
-- src/watchdog/budget_enforcer.py: the sessions, the gauge and the counter of
-- src/watchdog/metrics.py that it writes, and its audit log. A UUID is its number. A message or a
-- text of a decimal is the data that it is made from.
pub mod Spend
pub mod Replay
pub mod Ledger
pub mod Charging
pub mod Boundary
mod Tests
use aegis_os.Prelude.{
  ℕ, ◌+◌, String, Bool, true, false, Option, none, some, List, [], ◌∷◌, ◌++◌, contains,
  if◌then◌else◌, nat_eq, string_eq, nat_beq,
}
use aegis_os.Dict.{Dict, get, put}
use aegis_os.Decimal
use aegis_os.Decimal.{Decimal, zero_usd, add, sub, mul, of_ℕ, div_ℕ, less, less_eq}
use aegis_os.Audit.{AuditLogger, Kwargs, Level, text, uuid, money, plain}

-- "exceeded budget (cost > limit)"
pub record Alert : Type 0 where
  pub session_id : ℕ
  pub cost : Decimal
  pub limit : Decimal

pub record BudgetSession : Type 0 where
  pub session_id : ℕ
  pub agent_type : String
  pub budget_limit_usd : Decimal
  pub tokens_used : ℕ
  pub cost_usd : Decimal
  pub alerts : List Alert
  pub applied_operation_ids : List String

pub record HistoryEntry : Type 0 where
  pub operation_id : String
  pub amount_usd : Decimal
  pub tokens_used : ℕ

-- `KeyError` and `BudgetExceededError`
pub data Error : Type 0 where
  not_found : ℕ → Error
  exceeded : Alert → Error

pub data Result (A : Type 0) : Type 0 where
  returned : A → Result A
  raised : Error → Result A

-- The gauge `budget_remaining` is keyed by session, the counter `tokens_consumed` by agent type.
pub record BudgetEnforcer : Type 0 where
  pub sessions : Dict ℕ BudgetSession
  pub budget_remaining : Dict ℕ Decimal
  pub tokens_consumed : Dict String ℕ
  pub audit : AuditLogger

-- A method returns the enforcer as it leaves it, also where it raises.
abbrev pub Call : Type 0 → Type 0
Call A = BudgetEnforcer × Result A

-- `self._sessions[session_id] = session`, and any change of the session that stands there.
abbrev pub store : ℕ → BudgetSession → BudgetEnforcer → BudgetEnforcer
store session_id s e = record e { sessions = put e.sessions session_id s }

-- The gauge has the amount itself, of which the source stores the nearest float.
abbrev pub set_gauge : ℕ → Decimal → BudgetEnforcer → BudgetEnforcer
set_gauge session_id v e = record e { budget_remaining = put e.budget_remaining session_id v }

abbrev pub with_audit : Level → String → Kwargs → BudgetEnforcer → BudgetEnforcer
with_audit level event kwargs e = record e { audit = plain level event kwargs e.audit }

abbrev pub new_session : ℕ → String → Decimal → BudgetSession
new_session session_id agent_type limit = record {
  session_id = session_id;
  agent_type = agent_type;
  budget_limit_usd = limit;
  tokens_used = 0;
  cost_usd = zero_usd;
  alerts = [];
  applied_operation_ids = [];
}

abbrev limit_or : Decimal → Option Decimal → Decimal
limit_or default none = default
limit_or default (some limit) = limit

-- `create_session`, with `settings.budget_limit_usd` as the default.
unfoldable pub create_session :
    Decimal → ℕ → String → Option Decimal → BudgetEnforcer → Call BudgetSession
create_session default session_id agent_type budget_limit_usd e =
    let limit = limit_or default budget_limit_usd in
    let s = new_session session_id agent_type limit in
    (
      with_audit Level.info "budget.session_created"
          (("session_id", uuid session_id)
            ∷ ("agent_type", text agent_type)
            ∷ ("budget_limit_usd", money limit)
            ∷ [])
          (set_gauge session_id limit (store session_id s e)),
      returned s,
    )

-- `_is_duplicate_operation`
abbrev pub is_duplicate_operation : BudgetSession → Option String → Bool
is_duplicate_operation s none = false
is_duplicate_operation s (some operation_id) = contains s.applied_operation_ids operation_id

-- `set.add`
abbrev pub add_to_set : String → List String → List String
add_to_set x xs = if contains xs x then xs else xs ++ x ∷ []

abbrev marked : Option String → List String → List String
marked none ids = ids
marked (some operation_id) ids = add_to_set operation_id ids

-- `_mark_operation`
abbrev pub mark_operation : Option String → BudgetSession → BudgetSession
mark_operation operation_id s = record s {
  applied_operation_ids = marked operation_id s.applied_operation_ids;
}

abbrev pub remaining : BudgetSession → Decimal
remaining s = Decimal.max (sub s.budget_limit_usd s.cost_usd) zero_usd

abbrev pub alert_of : ℕ → BudgetSession → Alert
alert_of session_id s = record {
  session_id = session_id;
  cost = s.cost_usd;
  limit = s.budget_limit_usd;
}

abbrev audit_exceeded : ℕ → BudgetSession → BudgetEnforcer → BudgetEnforcer
audit_exceeded session_id s = with_audit Level.warning "budget.exceeded" (
    ("session_id", uuid session_id)
    ∷ ("agent_type", text s.agent_type)
    ∷ ("spent_usd", money s.cost_usd)
    ∷ ("limit_usd", money s.budget_limit_usd)
    ∷ [])

-- The session after the debit.
abbrev pub debited : Decimal → Option String → BudgetSession → BudgetSession
debited amount operation_id s =
    mark_operation operation_id (record s { cost_usd = add s.cost_usd amount })

-- The gauge, and the raise if the limit is passed. `s` is the debited session.
unfoldable pub settle : ℕ → BudgetSession → BudgetEnforcer → Call BudgetSession
settle session_id s e =
    let e' = set_gauge session_id (remaining s) (store session_id s e) in
    let alert = alert_of session_id s in
    if less s.budget_limit_usd s.cost_usd
    then (
      audit_exceeded session_id s
          (store session_id (record s { alerts = s.alerts ++ alert ∷ [] }) e'),
      raised (exceeded alert),
    )
    else (e', returned s)

spend_in : Option BudgetSession → ℕ → Decimal → Option String → BudgetEnforcer → Call BudgetSession
unfolding settle
spend_in none session_id amount operation_id e = (e, raised (not_found session_id))
spend_in (some s) session_id amount operation_id e =
    if is_duplicate_operation s operation_id
    then (e, returned s)
    else settle session_id (debited amount operation_id s) e

unfoldable pub record_spend : ℕ → Decimal → Option String → BudgetEnforcer → Call BudgetSession
unfolding spend_in
record_spend session_id amount operation_id e =
    spend_in (get e.sessions session_id) session_id amount operation_id e

check_in : Option BudgetSession → ℕ → BudgetEnforcer → Call (Unit {0})
check_in none session_id e = (e, raised (not_found session_id))
check_in (some s) session_id e =
    if less_eq s.budget_limit_usd s.cost_usd
    then (audit_exceeded session_id s e, raised (exceeded (alert_of session_id s)))
    else (e, returned tt)

-- The guard before a call of the provider.
unfoldable pub check_budget : ℕ → BudgetEnforcer → Call (Unit {0})
unfolding check_in
check_budget session_id e = check_in (get e.sessions session_id) session_id e

-- `Counter.inc`
abbrev pub increase : Dict String ℕ → String → ℕ → Dict String ℕ
increase d k n = put d k (elim (get d k) [ none ↦ n | some m ↦ m + n ])

tokens_in :
    Option BudgetSession → ℕ → ℕ → Decimal → Option String → BudgetEnforcer → Call BudgetSession
unfolding record_spend
tokens_in none session_id tokens cost_per_token operation_id e = (e, raised (not_found session_id))
tokens_in (some s) session_id tokens cost_per_token operation_id e =
    if is_duplicate_operation s operation_id
    then (e, returned s)
    else record_spend session_id (mul (of_ℕ tokens) cost_per_token) operation_id (
        store session_id (record s { tokens_used = s.tokens_used + tokens })
          (record e { tokens_consumed = increase e.tokens_consumed s.agent_type tokens }))

unfoldable pub record_tokens : ℕ → ℕ → Decimal → Option String → BudgetEnforcer → Call BudgetSession
unfolding tokens_in
record_tokens session_id tokens cost_per_token operation_id e =
    tokens_in (get e.sessions session_id) session_id tokens cost_per_token operation_id e

-- `restore_session`; the snapshot is the session that it describes.
unfoldable pub restore_session : BudgetSession → BudgetEnforcer → Call BudgetSession
restore_session s e = (set_gauge s.session_id (remaining s) (store s.session_id s e), returned s)

-- `_resolve_cost_per_token`
unfoldable pub resolve_cost_per_token : HistoryEntry → Decimal
resolve_cost_per_token h =
    if nat_beq h.tokens_used 0 then zero_usd else div_ℕ h.amount_usd h.tokens_used

-- One entry of the history, after what came before has returned.
pub replay_entry : ℕ → HistoryEntry → BudgetEnforcer → Call BudgetSession
unfolding record_tokens
replay_entry session_id h =
    record_tokens session_id h.tokens_used (resolve_cost_per_token h) (some h.operation_id)

abbrev pub and_then : {A B : Type 0} → Call A → (BudgetEnforcer → Call B) → Call B
and_then (e, returned a) f = f e
and_then (e, raised err) f = (e, raised err)

-- The loop over the history: it stops at the first entry that raises.
pub replay : ℕ → List HistoryEntry → BudgetEnforcer → Call (Unit {0})
unfolding replay_entry
replay session_id [] e = (e, returned tt)
replay session_id (h ∷ hs) e = and_then (replay_entry session_id h e) (replay session_id hs)

-- The session that is returned is the one in the registry, which the loop has changed in place.
abbrev pub session_or_raise : Option BudgetSession → ℕ → BudgetEnforcer → Call BudgetSession
session_or_raise none session_id e = (e, raised (not_found session_id))
session_or_raise (some s) session_id e = (e, returned s)

abbrev pub stored : ℕ → BudgetEnforcer → Call BudgetSession
stored session_id e = session_or_raise (get e.sessions session_id) session_id e

unfoldable pub restore_from_history :
    ℕ → String → Decimal → List HistoryEntry → BudgetEnforcer → Call BudgetSession
unfolding replay
restore_from_history session_id agent_type limit history e =
    and_then
      (replay session_id history
        (set_gauge session_id limit (store session_id (new_session session_id agent_type limit) e)))
      (stored session_id)

-- `get_session`
unfoldable pub get_session : ℕ → BudgetEnforcer → Option BudgetSession
get_session session_id e = get e.sessions session_id
