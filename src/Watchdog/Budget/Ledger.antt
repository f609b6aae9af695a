-- ===== src/Watchdog/Budget/Ledger.antt =====
-- What a replayed history adds up to.
use aegis_os.Prelude.{
  ℕ, zero, suc, nat_beq, ◌+◌, String, ◌≡◌, refl, sym, ap, ◌∙◌, subst, Option, none, some, List, [],
  ◌∷◌, ◌++◌, arith, contains, ==_refl, nat_eq, string_eq, if◌then◌else◌, if_true, if_false,
  Bool-cases, inl, inr,
}
use mathlib.Core.List.{map, append-nil, append_assoc}
use native.Mathlib.Nat.{add_assoc}
use aegis_os.Dict.{get, get-put}
use aegis_os.Decimal.{Decimal, zero_usd, add, mul, div_ℕ, of_ℕ, less}
use aegis_os.Watchdog.Budget.{
  BudgetSession, BudgetEnforcer, Call, returned, raised, HistoryEntry, is_duplicate_operation,
  debited, settle, record_tokens, resolve_cost_per_token, replay_entry, and_then, replay,
  restore_from_history, new_session, session_or_raise, stored, set_gauge, store,
}
use aegis_os.Watchdog.Budget.Spend.{with_alert, over_raises, record_spend-settle}
use aegis_os.Watchdog.Budget.Replay.{
  with_tokens, counted, counted-found, entry_after, record_tokens-new, get-record_tokens,
}

-- So many tokens at the price that the amount has for each of them; without tokens there is no price.
abbrev pub share : ℕ → Decimal → Decimal
share zero amount = mul (of_ℕ 0) zero_usd
share (suc n) amount = mul (of_ℕ (suc n)) (div_ℕ amount (suc n))

-- The amount that an entry is replayed with.
abbrev pub amount_of : HistoryEntry → Decimal
amount_of h = share h.tokens_used h.amount_usd

-- The amount that an entry is charged with, at the price that the code finds.
abbrev pub charge_of : HistoryEntry → Decimal
charge_of h = mul (of_ℕ h.tokens_used) (resolve_cost_per_token h)

charge_of-amount_of : (h : HistoryEntry) → charge_of h ≡ amount_of h
unfolding resolve_cost_per_token
charge_of-amount_of h = by_tokens h.tokens_used h.amount_usd
  where
    by_tokens :
        (n : ℕ) (amount : Decimal)
        → mul (of_ℕ n) (if nat_beq n 0 then zero_usd else div_ℕ amount n) ≡ share n amount
    by_tokens zero amount = refl
    by_tokens (suc n) amount =
        ap (mul (of_ℕ (suc n)))
          (if_false {b = nat_beq (suc n) 0} zero_usd (div_ℕ amount (suc n)) (ground arith))

abbrev pub accounted : HistoryEntry → BudgetSession → BudgetSession
accounted h s =
    if is_duplicate_operation s (some h.operation_id)
    then s
    else debited (charge_of h) (some h.operation_id) (with_tokens h.tokens_used s)

settle-returned :
    (k : ℕ) (s : BudgetSession) (e : BudgetEnforcer) {t : BudgetSession}
    → (settle k s e).1 ≡ returned t
    → with_alert k s ≡ s
settle-returned k s e {t} h = elim (Bool-cases (less s.budget_limit_usd s.cost_usd)) [
  | inl over ↦ cc (h, over_raises k s e over)
  | inr within ↦ if_false _ s within
]

-- An entry that returns has accounted for its amount and its tokens, once.
entry-accounted :
    (k : ℕ) (h : HistoryEntry) (e : BudgetEnforcer) {s t : BudgetSession}
    → get e.sessions k ≡ some s
    → (replay_entry k h e).1 ≡ returned t
    → get (replay_entry k h e).0.sessions k ≡ some (accounted h s)
unfolding replay_entry
entry-accounted k h e {s} {t} found went =
    let o = some h.operation_id in
    let c = resolve_cost_per_token h in
    let n = h.tokens_used in
    let stands =
      get-record_tokens k n c o e found k
      ∙ if_true (some (entry_after k h s)) (get e.sessions k) (==_refl k) in
    elim (Bool-cases (is_duplicate_operation s o)) [
      | inl dup ↦ stands ∙ ap some (if_true s _ dup ∙ sym (if_true s _ dup))
      | inr new ↦
          let d = debited (charge_of h) o (with_tokens n s) in
          let between = counted k n c o e found in
          let steps : record_tokens k n c o e ≡ settle k d between =
            record_tokens-new k n c o e found new
            ∙ record_spend-settle k (charge_of h) o between (counted-found k n c o e found) new in
          stands
          ∙ ap some (
              if_false s _ new
              ∙ if_false (with_tokens n s) _ new
              ∙ settle-returned k d between
                  (sym (ap (λ (r : Call BudgetSession). r.1) steps) ∙ went)
              ∙ sym (if_false s d new))
    ]

-- The session at the end of a history, entry by entry.
abbrev pub account : List HistoryEntry → BudgetSession → BudgetSession
account [] s = s
account (h ∷ hs) s = account hs (accounted h s)

module _ (k : ℕ) where
  replay-account :
      (hs : List HistoryEntry) (e : BudgetEnforcer) {s : BudgetSession}
      → get e.sessions k ≡ some s
      → (replay k hs e).1 ≡ returned tt
      → get (replay k hs e).0.sessions k ≡ some (account hs s)
  unfolding replay
  replay-account [] e found went = found
  replay-account (h ∷ hs) e {s} found went =
      go (replay_entry k h e) (λ t. entry-accounted k h e {t = t} found)
        (replay-account hs (replay_entry k h e).0 {s = accounted h s}) went
    where
      go :
          (r : Call BudgetSession)
          → ((t : BudgetSession) → r.1 ≡ returned t → get r.0.sessions k ≡ some (accounted h s))
          → (get r.0.sessions k ≡ some (accounted h s)
              → (replay k hs r.0).1 ≡ returned tt
              → get (replay k hs r.0).0.sessions k ≡ some (account hs (accounted h s)))
          → (and_then r (replay k hs)).1 ≡ returned tt
          → get (and_then r (replay k hs)).0.sessions k ≡ some (account hs (accounted h s))
      go (e', returned t) step more w = more (step t refl) w
      go (e', raised err) step more w = cc

-- The first delivery of each operation, given the ids that were seen before.
abbrev pub firsts : List String → List HistoryEntry → List HistoryEntry
firsts seen [] = []
firsts seen (h ∷ hs) =
    let again = firsts seen hs in
    let new = h ∷ firsts (seen ++ h.operation_id ∷ []) hs in
    if contains seen h.operation_id then again else new

abbrev pub total_tokens : List HistoryEntry → ℕ
total_tokens [] = 0
total_tokens (h ∷ hs) = h.tokens_used + total_tokens hs

abbrev pub total_cost : Decimal → List HistoryEntry → Decimal
total_cost cost [] = cost
total_cost cost (h ∷ hs) = total_cost (add cost (amount_of h)) hs

-- The fields of a session that has accounted for the first deliveries of a history.
pub record Accounts (start end : BudgetSession) (hs : List HistoryEntry) : Type 0 where
  pub tokens : end.tokens_used ≡ start.tokens_used + total_tokens hs
  pub cost : end.cost_usd ≡ total_cost start.cost_usd hs
  pub limit : end.budget_limit_usd ≡ start.budget_limit_usd
  pub agent : end.agent_type ≡ start.agent_type
  pub alerts : end.alerts ≡ start.alerts
  pub applied :
      end.applied_operation_ids ≡ start.applied_operation_ids ++ map HistoryEntry.operation_id hs

first_delivery : HistoryEntry → BudgetSession → BudgetSession
first_delivery h s = record s {
  tokens_used = s.tokens_used + h.tokens_used;
  cost_usd = add s.cost_usd (charge_of h);
  applied_operation_ids = s.applied_operation_ids ++ h.operation_id ∷ [];
}

one_more :
    (h : HistoryEntry) (s end : BudgetSession) (hs : List HistoryEntry)
    → Accounts (first_delivery h s) end hs
    → Accounts s end (h ∷ hs)
unfolding first_delivery
one_more h s end hs a = record {
  tokens = a.tokens ∙ add_assoc s.tokens_used h.tokens_used (total_tokens hs);
  cost = a.cost ∙ ap (λ amount. total_cost (add s.cost_usd amount) hs) (charge_of-amount_of h);
  limit = a.limit;
  agent = a.agent;
  alerts = a.alerts;
  applied =
      a.applied
      ∙ append_assoc s.applied_operation_ids (h.operation_id ∷ [])
          (map HistoryEntry.operation_id hs);
}

account-Accounts :
    (hs : List HistoryEntry) (s : BudgetSession)
    → Accounts s (account hs s) (firsts s.applied_operation_ids hs)
unfolding first_delivery
account-Accounts [] s = record {
  tokens = omega arith;
  cost = refl;
  limit = refl;
  agent = refl;
  alerts = refl;
  applied = sym (append-nil s.applied_operation_ids);
}
account-Accounts (h ∷ hs) s = elim (Bool-cases (contains s.applied_operation_ids h.operation_id)) [
  | inl dup ↦ rw dup (account-Accounts hs s)
  | inr new ↦ rw new (
      one_more h s (account hs (first_delivery h s))
        (firsts (s.applied_operation_ids ++ h.operation_id ∷ []) hs)
        (account-Accounts hs (first_delivery h s)))
]

stored-returned :
    (k : ℕ) (e : BudgetEnforcer) (o : Option BudgetSession) {s t : BudgetSession}
    → get e.sessions k ≡ o
    → o ≡ some t
    → (session_or_raise o k e).1 ≡ returned s
    → (t ≡ s) × (get (session_or_raise o k e).0.sessions k ≡ some s)
stored-returned k e none found h went = cc
stored-returned k e (some u) found h went = (cc, cc)

restored :
    (k : ℕ) (r : Call (Unit {0})) {s t : BudgetSession}
    → (r.1 ≡ returned tt → get r.0.sessions k ≡ some t)
    → (and_then r (stored k)).1 ≡ returned s
    → (t ≡ s) × (get (and_then r (stored k)).0.sessions k ≡ some s)
restored k (e, returned tt) h went = stored-returned k e (get e.sessions k) refl (h refl) went
restored k (e, raised err) h went = cc

-- One entry more is a first delivery unless its id was delivered before.
pub firsts-append :
    (seen : List String) (hs : List HistoryEntry) (h : HistoryEntry)
    → firsts seen (hs ++ h ∷ [])
      ≡ firsts seen hs ++ firsts (seen ++ map HistoryEntry.operation_id (firsts seen hs)) (h ∷ [])
firsts-append seen [] h = ap (λ ids. firsts ids (h ∷ [])) (sym (append-nil seen))
firsts-append seen (g ∷ hs) h = elim (Bool-cases (contains seen g.operation_id)) [
  | inl dup ↦ rw dup (firsts-append seen hs h)
  | inr new ↦ rw new (
      ap (λ l. g ∷ l)
        (firsts-append (seen ++ g.operation_id ∷ []) hs h
          ∙ ap (λ ids. firsts (seen ++ g.operation_id ∷ []) hs ++ firsts ids (h ∷ []))
              (append_assoc seen (g.operation_id ∷ []) _)))
]

pub total_tokens-append :
    (hs : List HistoryEntry) (h : HistoryEntry)
    → total_tokens (hs ++ h ∷ []) ≡ total_tokens hs + h.tokens_used
total_tokens-append [] h = omega arith
total_tokens-append (g ∷ hs) h = omega (arith, total_tokens-append hs h)

-- If restoring from a history returns a session, it is the one in the registry and it stands for
-- the first delivery of each operation: its tokens are their sum, its operations are theirs in the order of
-- the history, the limit and the agent type are those that were given, and there is no alert. Its cost is the
-- sum, in that order, of one amount for each of them: the tokens of the entry times the quotient of its
-- recorded amount by them, each rounded to the 28 digits of a decimal, or zero if it has no tokens.
pub restore_from_history-Accounts :
    (k : ℕ) (agent_type : String) (limit : Decimal) (hs : List HistoryEntry) (e : BudgetEnforcer)
    {s : BudgetSession}
    → (restore_from_history k agent_type limit hs e).1 ≡ returned s
    → Accounts (new_session k agent_type limit) s (firsts [] hs)
      × (get (restore_from_history k agent_type limit hs e).0.sessions k ≡ some s)
unfolding restore_from_history
restore_from_history-Accounts k agent_type limit hs e {s} went =
    let start = new_session k agent_type limit in
    let e0 = set_gauge k limit (store k start e) in
    let found : get e0.sessions k ≡ some start =
      get-put e.sessions k k start ∙ if_true (some start) (get e.sessions k) (==_refl k) in
    let at = restored k (replay k hs e0) (replay-account k hs e0 found) went in
    (subst (λ t. Accounts start t (firsts [] hs)) at.0 (account-Accounts hs start), at.1)
