-- ===== src/Watchdog/Budget/Replay.antt =====
-- `restore_from_history`: replaying a ledger that was delivered more than once.
use aegis_os.Prelude.{
  ℕ, ◌+◌, String, ◌≡◌, refl, sym, ap, ◌∙◌, true, false, Option, some, List, [], ◌∷◌, ◌++◌, ◌==◌,
  arith, contains, eq_iff, ==_refl, nat_eq, string_eq, if◌then◌else◌, if_true, if_false, if_cases,
  Bool-cases, inl, inr, ◌⊎◌, subst,
}
use aegis_os.Dict.{get, get-put, get_known}
use aegis_os.Decimal.{Decimal, mul, of_ℕ}
use aegis_os.Watchdog.Budget.{
  BudgetSession, BudgetEnforcer, Call, returned, raised, HistoryEntry, is_duplicate_operation,
  debited, store, increase, tokens_in, record_spend, record_tokens, resolve_cost_per_token,
  replay_entry, and_then, replay, restore_from_history, new_session, stored,
}
use aegis_os.Watchdog.Budget.Spend.{
  session_after, session_after-duplicate, with_alert-duplicate, get-record_spend,
}

-- The session that a call of `record_tokens` leaves in the registry.
abbrev pub with_tokens : ℕ → BudgetSession → BudgetSession
with_tokens n s = record s { tokens_used = s.tokens_used + n }

abbrev pub tokens_after : ℕ → ℕ → Decimal → Option String → BudgetSession → BudgetSession
tokens_after k n c o s =
    if is_duplicate_operation s o then s else session_after k (mul (of_ℕ n) c) o (with_tokens n s)

module _ (k n : ℕ) (c : Decimal) (o : Option String) (e : BudgetEnforcer) {s : BudgetSession}
    (found : get e.sessions k ≡ some s) where
  pub record_tokens-duplicate :
      is_duplicate_operation s o ≡ true → record_tokens k n c o e ≡ (e, returned s)
  unfolding record_tokens
  record_tokens-duplicate dup = rw (found, tokens_in, dup)

  -- The enforcer between the two updates.
  abbrev pub counted : BudgetEnforcer
  counted =
      store k (with_tokens n s)
        (record e { tokens_consumed = increase e.tokens_consumed s.agent_type n })

  pub counted-found : get counted.sessions k ≡ some (with_tokens n s)
  counted-found =
      get-put e.sessions k k (with_tokens n s)
      ∙ if_true (some (with_tokens n s)) (get e.sessions k) (==_refl k)

  pub record_tokens-new :
      is_duplicate_operation s o ≡ false
      → record_tokens k n c o e ≡ record_spend k (mul (of_ℕ n) c) o counted
  unfolding record_tokens
  record_tokens-new new = rw (found, tokens_in, new)

  pub get-record_tokens :
      (j : ℕ)
      → get (record_tokens k n c o e).0.sessions j
        ≡ (if k == j then some (tokens_after k n c o s) else get e.sessions j)
  get-record_tokens j =
      let at : BudgetSession → Option BudgetSession =
        λ t. if k == j then some t else get e.sessions j in
      let spent = session_after k (mul (of_ℕ n) c) o (with_tokens n s) in
      elim (Bool-cases (is_duplicate_operation s o)) [
        | inl dup ↦
            ap (λ (r : Call BudgetSession). get r.0.sessions j) (record_tokens-duplicate dup)
            ∙ get_known e.sessions k j found
            ∙ ap at (sym (if_true s spent dup))
        | inr new ↦
            ap (λ (r : Call BudgetSession). get r.0.sessions j) (record_tokens-new new)
            ∙ get-record_spend k (mul (of_ℕ n) c) o counted j counted-found
            ∙ (rw get-put (ground arith))
            ∙ ap at (sym (if_false s spent new))
      ]

contains-append_left :
    (xs ys : List String) (x : String) → contains xs x ≡ true → contains (xs ++ ys) x ≡ true
unfolding contains
contains-append_left [] ys x h = cc
contains-append_left (y ∷ xs) ys x h = ground (arith, contains-append_left xs ys x)

-- An operation that was applied stays applied, and an entry's own id is applied after it.
duplicate-tokens_after :
    (k n : ℕ) (c : Decimal) (o x : String) (s : BudgetSession)
    → is_duplicate_operation s (some x) ≡ true
    → is_duplicate_operation (tokens_after k n c (some o) s) (some x) ≡ true
duplicate-tokens_after k n c o x s h =
    let P : BudgetSession → Type 0 = λ t. is_duplicate_operation t (some x) ≡ true in
    let t = with_tokens n s in
    if_cases P (is_duplicate_operation s (some o)) (λ _. h)
      (λ new.
        if_cases P (is_duplicate_operation t (some o)) (λ _. h)
          (λ _.
            with_alert-duplicate k (debited (mul (of_ℕ n) c) (some o) t) (some x)
            ∙ if_cases (λ ids. contains ids x ≡ true) (contains s.applied_operation_ids o) (λ _. h)
                (λ _. contains-append_left s.applied_operation_ids (o ∷ []) x h)))

duplicate-tokens_after_self :
    (k n : ℕ) (c : Decimal) (o : String) (s : BudgetSession)
    → is_duplicate_operation (tokens_after k n c (some o) s) (some o) ≡ true
duplicate-tokens_after_self k n c o s =
    if_cases (λ t. is_duplicate_operation t (some o) ≡ true) (is_duplicate_operation s (some o))
      (λ dup. dup) (λ _. session_after-duplicate k (mul (of_ℕ n) c) o (with_tokens n s))

-- Is an operation applied to the session, or is it one of the entries?
abbrev pub ids : List HistoryEntry → List String
ids [] = []
ids (h ∷ hs) = h.operation_id ∷ ids hs

abbrev Known : BudgetSession → List HistoryEntry → String → Type 0
Known s hs o = (is_duplicate_operation s (some o) ≡ true) ⊎ (contains (ids hs) o ≡ true)

abbrev pub entry_after : ℕ → HistoryEntry → BudgetSession → BudgetSession
entry_after k h = tokens_after k h.tokens_used (resolve_cost_per_token h) (some h.operation_id)

Known-entry_after :
    (k : ℕ) (h : HistoryEntry) (hs : List HistoryEntry) (s : BudgetSession) (o : String)
    → Known s (h ∷ hs) o
    → Known (entry_after k h s) hs o
unfolding contains
Known-entry_after k h hs s o (inl applied) =
    inl
      (duplicate-tokens_after k h.tokens_used (resolve_cost_per_token h) h.operation_id o s applied)
Known-entry_after k h hs s o (inr listed) = elim (Bool-cases (h.operation_id == o)) [
  | inl same ↦ inl (
      subst (λ x. is_duplicate_operation (entry_after k h s) (some x) ≡ true)
        ((eq_iff h.operation_id o).0 same)
        (duplicate-tokens_after_self k h.tokens_used (resolve_cost_per_token h) h.operation_id s))
  | inr other ↦ inr (sym (if_false true (contains (ids hs) o) other) ∙ listed)
]

and_then-eq :
    {A B : Type 0} (r : Call A) (f g : BudgetEnforcer → Call B)
    → f r.0 ≡ g r.0
    → and_then r f ≡ and_then r g
and_then-eq (e, returned a) f g h = h
and_then-eq (e, raised err) f g h = refl

module _ (k : ℕ) (again : HistoryEntry) (rest : List HistoryEntry) where
  pub replay-again :
      (hs : List HistoryEntry) (e : BudgetEnforcer) {s : BudgetSession}
      → get e.sessions k ≡ some s
      → Known s hs again.operation_id
      → replay k (hs ++ again ∷ rest) e ≡ replay k (hs ++ rest) e
  unfolding replay contains
  replay-again [] e found (inl applied) =
      ap (λ r. and_then r (replay k rest))
        (record_tokens-duplicate k again.tokens_used (resolve_cost_per_token again)
          (some again.operation_id) e found applied)
  replay-again [] e found (inr listed) = cc
  replay-again (h ∷ hs) e {s} found known =
      and_then-eq (replay_entry k h e) (replay k (hs ++ again ∷ rest)) (replay k (hs ++ rest)) (
        replay-again hs (replay_entry k h e).0 {s = entry_after k h s}
          (get-record_tokens k h.tokens_used (resolve_cost_per_token h) (some h.operation_id) e
              found k
            ∙ if_true (some (entry_after k h s)) (get e.sessions k) (==_refl k))
          (Known-entry_after k h hs s again.operation_id known))

-- Restoring from a history in which an operation is delivered again, at any later place and with
-- any amount, gives the same result, the same enforcer and the same error as restoring from the
-- history without the redelivery.
pub restore_from_history-again :
    (k : ℕ) (agent_type : String) (limit : Decimal) (hs rest : List HistoryEntry)
    (again : HistoryEntry) (e : BudgetEnforcer)
    → contains (ids hs) again.operation_id ≡ true
    → restore_from_history k agent_type limit (hs ++ again ∷ rest) e
      ≡ restore_from_history k agent_type limit (hs ++ rest) e
unfolding restore_from_history
restore_from_history-again k agent_type limit hs rest again e listed =
    ap (λ r. and_then r (stored k))
      (replay-again k again rest hs _ {s = new_session k agent_type limit}
        (get-put e.sessions k k _ ∙ if_true _ _ (==_refl k)) (inr listed))
