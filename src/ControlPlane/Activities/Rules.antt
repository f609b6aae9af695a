-- ===== src/ControlPlane/Activities/Rules.antt =====
-- src/control_plane/scheduler.py: what the common steps of the activities send, and what they return.
use aegis_os.Prelude.{ℕ, String, ◌==◌, string_eq, ◌≡◌, refl, ◌≢◌, eq_iff, Option, none, some, List}
use aegis_os.Audit.{AuditLogger, Outcome, Kwargs}
use aegis_os.Governance.Session
use aegis_os.Governance.Session.{SessionManager, TokenClaims}
use aegis_os.Governance.Session.Validation.{validate_token}
use aegis_os.Watchdog.Budget
use aegis_os.Watchdog.Budget.{BudgetEnforcer}
use aegis_os.ControlPlane.Orchestrator.{LlmRequest}
use aegis_os.ControlPlane.Steps.{
  Result, returned, raised, Returned, Keeps, Keeps-pure, Keeps-raise, Keeps->>=, Keeps->>,
  Keeps-handle, Keeps-if, Ensures, Ensures-pure, Ensures-raise, Ensures->>, Ensures-if,
  Ensures-then, Ensures-map,
}
use aegis_os.ControlPlane.Activities.{
  Env, Worker, Call, reading, from_session, in_sessions, session_result, from_budget, in_budget,
  uuid_or_raise, after_audit, in_audit, require_task_id, log, log_lifecycle, validated,
  missing_task_id, session_error, bad_uuid,
}

abbrev pub sent_of : Worker → List (LlmRequest String)
sent_of st = st.sent

pub Keeps-reading : Keeps sent_of reading
unfolding reading
Keeps-reading = record { kept = λ st. refl }

after_audit-sent : (st : Worker) (o : Option AuditLogger) → (after_audit st o).0.sent ≡ st.sent
unfolding after_audit
after_audit-sent st none = refl
after_audit-sent st (some a) = refl

pub Keeps-in_audit : (f : AuditLogger → Option AuditLogger) → Keeps sent_of (in_audit f)
unfolding in_audit
Keeps-in_audit f = record { kept = λ st. after_audit-sent st (f st.audit) }

module _ {A : Type 0} where
  from_session-sent : (st : Worker) (c : Session.Call A) → (from_session st c).0.sent ≡ st.sent
  unfolding from_session
  from_session-sent st (m, Session.returned a) = refl
  from_session-sent st (m, Session.raised err) = refl

  pub Keeps-in_sessions : (f : SessionManager → Session.Call A) → Keeps sent_of (in_sessions f)
  unfolding in_sessions
  Keeps-in_sessions f = record { kept = λ st. from_session-sent st (f st.sessions) }

  pub Keeps-session_result : (c : Session.Result A) → Keeps sent_of (session_result c)
  unfolding session_result
  Keeps-session_result (Session.returned a) = Keeps-pure a
  Keeps-session_result (Session.raised err) = Keeps-raise (session_error err)

  from_budget-sent : (st : Worker) (c : Budget.Call A) → (from_budget st c).0.sent ≡ st.sent
  unfolding from_budget
  from_budget-sent st (e, Budget.returned a) = refl
  from_budget-sent st (e, Budget.raised err) = refl

  pub Keeps-in_budget : (f : BudgetEnforcer → Budget.Call A) → Keeps sent_of (in_budget f)
  unfolding in_budget
  Keeps-in_budget f = record { kept = λ st. from_budget-sent st (f st.budget) }

pub Keeps-uuid_or_raise : (o : Option ℕ) → Keeps sent_of (uuid_or_raise o)
unfolding uuid_or_raise
Keeps-uuid_or_raise none = Keeps-raise bad_uuid
Keeps-uuid_or_raise (some id) = Keeps-pure id

pub ruleset keeping = (
  Keeps-pure, Keeps-raise, Keeps->>=, Keeps->>, Keeps-handle, Keeps-if, Keeps-reading,
  Keeps-in_audit, Keeps-in_sessions, Keeps-in_budget, Keeps-session_result, Keeps-uuid_or_raise,
)

module _ (env : Env) where
  pub Keeps-require_task_id :
      (task_id stage agent_type : String)
      → Keeps sent_of (require_task_id env task_id stage agent_type)
  unfolding require_task_id
  Keeps-require_task_id task_id stage agent_type = search keeping

  pub Keeps-log :
      (c : Call) (outcome : Outcome) (event stage : String) (kwargs : Kwargs)
      → Keeps sent_of (log env c outcome event stage kwargs)
  unfolding log
  Keeps-log c outcome event stage kwargs = search keeping

  pub Keeps-log_lifecycle :
      (c : Call) (event event_type : String) (session_id : Option String) (status stage : String)
      (kwargs : Kwargs)
      → Keeps sent_of (log_lifecycle env c event event_type session_id status stage kwargs)
  unfolding log_lifecycle
  Keeps-log_lifecycle c event event_type session_id status stage kwargs = search keeping

  pub Keeps-validated : (token : String) → Keeps sent_of (validated env token)
  unfolding validated
  Keeps-validated token = search keeping depth 12

  -- The task has an id, if the activity goes on.
  pub Ensures-require_task_id :
      (task_id stage agent_type : String)
      → Ensures (λ done. task_id ≢ "") (require_task_id env task_id stage agent_type)
  unfolding require_task_id
  Ensures-require_task_id task_id stage agent_type =
      Ensures-if (task_id == "") (λ h. Ensures->> _ (Ensures-raise (missing_task_id stage)))
        (λ h. Ensures-pure (λ empty. cc (h, (eq_iff task_id "").1 empty)))

  -- The session manager returned these claims for the token, at some time.
  abbrev pub Accepted : String → TokenClaims → Type 0
  Accepted token c =
      (t purged checked : ℕ) × (m m' : SessionManager) × (validate_token env.jose env.settings token
          t purged checked m
        ≡ (m', Session.returned c))

  Returned-from_session :
      {A : Type 0} (st : Worker) (f : SessionManager → Session.Call A) (m : SessionManager)
      (c : Session.Call A)
      → f m ≡ c
      → Returned
          (λ a. (m m' : SessionManager) × (f m ≡ (m', Session.returned a)))
          (from_session st c)
  unfolding from_session
  Returned-from_session st f m (m', Session.returned a) h = (m, m', h)
  Returned-from_session st f m (m', Session.raised err) h = tt

  Ensures-in_sessions :
      {A : Type 0} (f : SessionManager → Session.Call A)
      → Ensures (λ a. (m m' : SessionManager) × (f m ≡ (m', Session.returned a))) (in_sessions f)
  unfolding in_sessions
  Ensures-in_sessions f = record {
    at = λ st. Returned-from_session st f st.sessions (f st.sessions) refl;
  }

  pub Ensures-validated : (token : String) → Ensures (λ c. Accepted token c) (validated env token)
  unfolding validated
  Ensures-validated token = Ensures-then reading λ t. Ensures-then reading λ purged.
      Ensures-then reading λ checked.
        Ensures-map (Ensures-in_sessions _)
          λ c h. (env.clock t, env.clock purged, env.clock checked, h.0, h.1, h.2)
