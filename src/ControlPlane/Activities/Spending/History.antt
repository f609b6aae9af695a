-- ===== src/ControlPlane/Activities/Spending/History.antt =====
-- src/control_plane/scheduler.py: the history that "BudgetRecordSpend" returns, and the snapshot beside it.
use mathlib.Core.List.{map, map-append}
use native.Mathlib.Nat.{zero-add}
use aegis_os.Prelude.{
  ℕ, ◌+◌, String, ◌≡◌, refl, sym, ap, ◌∙◌, true, false, Option, none, some, List, [], ◌∷◌, ◌++◌,
  contains, string_eq, nat_eq, if_true, if_false, Bool-cases, inl, inr,
}
use aegis_os.Dict.{get}
use aegis_os.Decimal.{less}
use aegis_os.Watchdog.Budget
use aegis_os.Watchdog.Budget.{
  BudgetSession, BudgetEnforcer, HistoryEntry, is_duplicate_operation, new_session,
  restore_from_history, record_tokens,
}
use aegis_os.Watchdog.Budget.Ledger.{
  Accounts, firsts, total_tokens, restore_from_history-Accounts, firsts-append, total_tokens-append,
}
use aegis_os.Watchdog.Budget.Charging.{charged, record_tokens-charged}
use aegis_os.Watchdog.Budget.Spend.{contains-append}
use aegis_os.ControlPlane.Records.{BudgetRecordInput, BudgetRecordResult}
use aegis_os.ControlPlane.Steps.{
  returned, Returned, continue, ◌>>=◌, Ensures, Ensures-pure, Ensures-raise, Ensures-handle,
  Ensures->>=, Ensures->>, Ensures-returned,
}
use aegis_os.ControlPlane.Activities.{
  Env, Info, Worker, Call, Error, budget_error, application_error, exhausted, from_budget,
  in_budget, uuid_or_raise, bad_uuid,
}
use aegis_os.ControlPlane.Activities.Spending.{
  operation_id, entry_of, extend, stop, spend_restored, spend_charged, spend_recorded,
  budget_record_spend,
}

abbrev pub ids_of : List HistoryEntry → List String
ids_of hs = map HistoryEntry.operation_id hs

module _ (env : Env) (info : Info) (inp : BudgetRecordInput) where
  -- The session as the history that was given accounts for it, the one after the charge, and the history
  -- with the entry for that.
  pub record Recorded (r : BudgetRecordResult) : Type 0 where
    pub id : ℕ
    pub restored : BudgetSession
    pub known : env.uuid inp.budget_session_id ≡ some id
    pub accounts :
        Accounts
          (new_session id inp.agent_type inp.budget_limit_usd)
          restored
          (firsts [] inp.history)
    pub snapshot :
        r.snapshot ≡ charged inp.tokens_used inp.cost_per_token_usd (operation_id info) restored
    pub history : r.history ≡ extend restored (entry_of info inp) inp.history
    pub within :
        is_duplicate_operation restored (some (operation_id info)) ≡ false
        → less r.snapshot.budget_limit_usd r.snapshot.cost_usd ≡ false

  Ensures-uuid_or_raise : (o : Option ℕ) → Ensures (λ id. o ≡ some id) (uuid_or_raise o)
  unfolding uuid_or_raise
  Ensures-uuid_or_raise none = Ensures-raise bad_uuid
  Ensures-uuid_or_raise (some id) = Ensures-pure refl

  Ensures-stop :
      {A : Type 0} {P : A → Type 0} (c : Call) (event id : String) (err : Error)
      → Ensures P (stop env c event id err)
  unfolding stop
  Ensures-stop c event id (budget_error (Budget.exceeded alert)) =
      Ensures->> _ (Ensures-raise (application_error "BudgetExceededError" (exhausted alert)))
  Ensures-stop c event id err = Ensures-raise err

  module _ (k : ℕ) (known : env.uuid inp.budget_session_id ≡ some k) where
    abbrev start : BudgetSession
    start = new_session k inp.agent_type inp.budget_limit_usd

    charged-Recorded :
        (st : Worker) (s : BudgetSession) (c : Budget.Call BudgetSession)
        → Accounts start s (firsts [] inp.history)
        → ((t : BudgetSession)
            → c.1 ≡ Budget.returned t
            → (charged inp.tokens_used inp.cost_per_token_usd (operation_id info) s ≡ t)
              × (is_duplicate_operation s (some (operation_id info)) ≡ false
                  → less t.budget_limit_usd t.cost_usd ≡ false))
        → Returned (λ r. Recorded r) (continue (spend_recorded env info inp s) (from_budget st c))
    unfolding continue from_budget spend_recorded
    charged-Recorded st s (e, Budget.raised err) accounts h = tt
    charged-Recorded st s (e, Budget.returned t) accounts h =
        (Ensures->> _ (
            Ensures-pure (record {
              id = k;
              restored = s;
              known = known;
              accounts = accounts;
              snapshot = sym (h t refl).0;
              history = refl;
              within = (h t refl).1;
            }))).at
          (record st { budget = e })

    restored-Recorded :
        (st : Worker) (c : Budget.Call BudgetSession)
        → ((s : BudgetSession)
            → c.1 ≡ Budget.returned s
            → Accounts start s (firsts [] inp.history) × (get c.0.sessions k ≡ some s))
        → Returned (λ r. Recorded r) (continue (spend_charged env info inp k) (from_budget st c))
    unfolding continue from_budget spend_charged in_budget ◌>>=◌
    restored-Recorded st (e, Budget.raised err) h = tt
    restored-Recorded st (e, Budget.returned s) h =
        charged-Recorded (record st { budget = e }) s
          (record_tokens k inp.tokens_used inp.cost_per_token_usd (some (operation_id info)) e)
          (h s refl).0
          (λ t.
            record_tokens-charged k inp.tokens_used inp.cost_per_token_usd (operation_id info) e
              {t = t} (h s refl).1)

    Ensures-spend_restored : Ensures Recorded (spend_restored env info inp k)
    unfolding spend_restored in_budget ◌>>=◌
    Ensures-spend_restored = record {
      at = λ st.
          restored-Recorded st
            (restore_from_history k inp.agent_type inp.budget_limit_usd inp.history st.budget)
            (λ s.
              restore_from_history-Accounts k inp.agent_type inp.budget_limit_usd inp.history
                st.budget {s = s});
    }

  pub Ensures-budget_record_spend : Ensures Recorded (budget_record_spend env info inp)
  unfolding budget_record_spend
  Ensures-budget_record_spend = Ensures->> _ (
      Ensures-handle
        (Ensures->>= (Ensures-uuid_or_raise _) λ id known. Ensures-spend_restored id known)
        (Ensures-stop _ _ _))

  -- The operations that are applied are those of the history.
  applied_ids :
      {r : BudgetRecordResult} (d : Recorded r)
      → d.restored.applied_operation_ids ≡ ids_of (firsts [] inp.history)
  applied_ids d = d.accounts.applied

  firsts-extend :
      (s : BudgetSession)
      → s.applied_operation_ids ≡ ids_of (firsts [] inp.history)
      → contains s.applied_operation_ids (operation_id info) ≡ false
      → firsts [] (inp.history ++ entry_of info inp ∷ [])
        ≡ firsts [] inp.history ++ entry_of info inp ∷ []
  firsts-extend s applied new =
      firsts-append [] inp.history (entry_of info inp)
      ∙ ap (λ l. firsts [] inp.history ++ l)
          (if_false [] (entry_of info inp ∷ [])
            (ap (λ ids. contains ids (operation_id info)) (sym applied) ∙ new))

  -- The tokens of the snapshot are those of the history beside it, and the operation is in that.
  Recorded-tokens :
      {r : BudgetRecordResult}
      → Recorded r
      → (r.snapshot.tokens_used ≡ total_tokens (firsts [] r.history))
        × (contains (ids_of (firsts [] r.history)) (operation_id info) ≡ true)
  Recorded-tokens {r} d =
      let s = d.restored in
      let h = entry_of info inp in
      let before : s.tokens_used ≡ total_tokens (firsts [] inp.history) =
        d.accounts.tokens ∙ zero-add (total_tokens (firsts [] inp.history)) in
      elim (Bool-cases (contains s.applied_operation_ids (operation_id info))) [
        | inl dup ↦
            let same : r.history ≡ inp.history = d.history ∙ if_true _ _ dup in
            (
              ap (λ (t : BudgetSession). t.tokens_used) (d.snapshot ∙ if_true _ _ dup)
                  ∙ before
                  ∙ ap (λ l. total_tokens (firsts [] l)) (sym same),
              ap (λ l. contains (ids_of (firsts [] l)) (operation_id info)) same
                  ∙ ap (λ ids. contains ids (operation_id info)) (sym (applied_ids d))
                  ∙ dup,
            )
        | inr new ↦
            let longer : firsts [] r.history ≡ firsts [] inp.history ++ h ∷ [] =
              ap (firsts []) (d.history ∙ if_false _ _ new) ∙ firsts-extend s (applied_ids d) new in
            (
              ap (λ (t : BudgetSession). t.tokens_used) (d.snapshot ∙ if_false _ _ new)
                  ∙ ap (λ n. n + inp.tokens_used) before
                  ∙ sym (total_tokens-append (firsts [] inp.history) h)
                  ∙ ap total_tokens (sym longer),
              ap (λ l. contains (ids_of l) (operation_id info)) longer
                  ∙ ap (λ ids. contains ids (operation_id info))
                      (map-append HistoryEntry.operation_id (firsts [] inp.history) (h ∷ []))
                  ∙ contains-append (ids_of (firsts [] inp.history)) (operation_id info),
            )
      ]

-- When "BudgetRecordSpend" returns, whatever other sessions the worker holds: the snapshot is the session
-- that the given history accounts for, charged once with the tokens and the price of the input, or as it
-- was if the operation is in that history; a charge is within the limit; the history that is returned has
-- one entry more exactly if there was a charge; and the tokens of the snapshot are the sum of that
-- history, each operation counted once, in which the operation stands.
pub budget_record_spend-Recorded :
    (env : Env) (info : Info) (inp : BudgetRecordInput) (st st' : Worker) {r : BudgetRecordResult}
    → budget_record_spend env info inp st ≡ (st', returned r)
    → Recorded env info inp r
      × (r.snapshot.tokens_used ≡ total_tokens (firsts [] r.history))
      × (contains (ids_of (firsts [] r.history)) (operation_id info) ≡ true)
budget_record_spend-Recorded env info inp st st' went =
    let d = Ensures-returned (Ensures-budget_record_spend env info inp) st went in
    let tokens = Recorded-tokens env info inp d in (d, tokens.0, tokens.1)

-- An attempt of the same activity with the history that an earlier attempt returned, on any worker:
-- if it returns too, it adds no entry to the history and no token to the session.
pub budget_record_spend-again :
    (env : Env) (info : Info) (inp : BudgetRecordInput) (st st' st2 st2' : Worker)
    {r again : BudgetRecordResult}
    → budget_record_spend env info inp st ≡ (st', returned r)
    → budget_record_spend env info (record inp { history = r.history }) st2 ≡ (st2', returned again)
    → (again.history ≡ r.history) × (again.snapshot.tokens_used ≡ r.snapshot.tokens_used)
budget_record_spend-again env info inp st st' st2 st2' {r} {again} went went2 =
    let (first, tokens, there) = budget_record_spend-Recorded env info inp st st' went in
    let next = record inp { history = r.history } in
    let (second, tokens2, there2) = budget_record_spend-Recorded env info next st2 st2' went2 in
    let same : again.history ≡ r.history =
      second.history
      ∙ if_true _ _ (
          ap (λ ids. contains ids (operation_id info)) (applied_ids env info next second)
          ∙ there) in
    (same, tokens2 ∙ ap (λ l. total_tokens (firsts [] l)) same ∙ sym tokens)
