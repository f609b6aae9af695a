-- ===== src/Audit/Compliance.antt =====
-- src/audit_vault/compliance.py: the store of audit events and the reports on it. A summary is the numbers
-- that it is made from.
use aegis_os.Prelude.{
  ℕ, ◌≤◌, ◌+◌, eq_iff, String, ◌==◌, string_eq, ◌≡◌, ◌↔◌, refl, ap, ◌∙◌, sym, subst, ◌⊎◌, if_true,
  if_false, Bool, true, false, ◌&&◌, Bool-cases, inl, inr, List, [], ◌∷◌, ◌++◌, length, leb, arith,
  if◌then◌else◌,
}
use aegis_os.Dict.{Dict}

pub data ComplianceFramework : Type 0 where
  soc2 gdpr : ComplianceFramework

-- Times are microseconds. Whether the resource has "pii" in lower case is read of its text.
pub record AuditEvent : Type 0 where
  pub event_id : String
  pub timestamp : ℕ
  pub agent_id : String
  pub action : String
  pub resource : String
  pub outcome : String
  pub metadata : Dict String String

-- "… total events, … failures recorded." and "… total events, … PII-related access events."
pub data Summary : Type 0 where
  soc2_summary gdpr_summary : (total marked : ℕ) → Summary

pub record ComplianceReport : Type 0 where
  pub report_id : String
  pub framework : ComplianceFramework
  pub generated_at : ℕ
  pub period_start : ℕ
  pub period_end : ℕ
  pub total_events : ℕ
  pub events : List AuditEvent
  pub summary : Summary

-- `ComplianceReporter`: its events, in the order in which they were recorded.
abbrev pub ComplianceReporter : Type 0
ComplianceReporter = List AuditEvent

unfoldable pub record_event : AuditEvent → ComplianceReporter → ComplianceReporter
record_event e events = events ++ e ∷ []

abbrev pub in_period : ℕ → ℕ → AuditEvent → Bool
in_period start end e = leb start e.timestamp && leb e.timestamp end

-- `[e for e in events if p(e)]`
pub select : (AuditEvent → Bool) → List AuditEvent → List AuditEvent
select p [] = []
select p (e ∷ es) = let rest = select p es in if p e then e ∷ rest else rest

abbrev pub is_failure : AuditEvent → Bool
is_failure e = e.outcome == "failure"

-- `_soc2_summary`
unfoldable pub soc2_of : List AuditEvent → Summary
unfolding select
soc2_of events = soc2_summary (length events) (length (select is_failure events))

-- `_gdpr_summary`
unfoldable pub gdpr_of : (String → Bool) → List AuditEvent → Summary
unfolding select
gdpr_of mentions_pii events =
    gdpr_summary (length events) (length (select (λ e. mentions_pii e.resource) events))

abbrev pub summary_for : (String → Bool) → ComplianceFramework → List AuditEvent → Summary
summary_for mentions_pii ComplianceFramework.soc2 events = soc2_of events
summary_for mentions_pii ComplianceFramework.gdpr events = gdpr_of mentions_pii events

-- `generate_report`, with the id and the time that the model gives it.
unfoldable pub generate_report :
    (String → Bool)
    → ComplianceFramework
    → ℕ
    → ℕ
    → String
    → ℕ
    → ComplianceReporter
    → ComplianceReport
unfolding select soc2_of gdpr_of
generate_report mentions_pii framework period_start period_end report_id generated_at events =
    let in_scope = select (in_period period_start period_end) events in
    record {
      report_id = report_id;
      framework = framework;
      generated_at = generated_at;
      period_start = period_start;
      period_end = period_end;
      total_events = length in_scope;
      events = in_scope;
      summary = summary_for mentions_pii framework in_scope;
    }

not_true : (b : Bool) → ¬ (b ≡ true) → b ≡ false
not_true true h = absurd (h refl)
not_true false h = refl

abbrev pub Listed : AuditEvent → List AuditEvent → Type 0
Listed e [] = ⊥
Listed e (d ∷ es) = (e ≡ d) ⊎ Listed e es

module _ (p : AuditEvent → Bool) where
  select-append :
      (es : List AuditEvent) (e : AuditEvent)
      → select p (es ++ e ∷ []) ≡ (if p e then select p es ++ e ∷ [] else select p es)
  unfolding select
  select-append [] e = refl
  select-append (d ∷ es) e = ground (arith, select-append es e)

  length-select-append :
      (es : List AuditEvent) (e : AuditEvent)
      → length (select p (es ++ e ∷ []))
        ≡ (if p e then length (select p es) + 1 else length (select p es))
  unfolding select
  length-select-append [] e = ground (arith)
  length-select-append (d ∷ es) e = ground (arith, length-select-append es e)

  -- An event is selected exactly if it is there and passes.
  Listed-select :
      (e : AuditEvent) (es : List AuditEvent)
      → Listed e (select p es) ↔ (Listed e es × (p e ≡ true))
  unfolding select
  Listed-select e [] = (λ h. absurd h, λ h. absurd h.0)
  Listed-select e (d ∷ es) =
      let again = Listed-select e es in
      elim (Bool-cases (p d)) [
        | inl kept ↦ rw kept (
          λ h. elim h [
            | inl same ↦ (inl same, subst (λ x. p x ≡ true) (sym same) kept)
            | inr more ↦ (inr (again.0 more).0, (again.0 more).1)
          ],
          λ h. elim h.0 [ inl same ↦ inl same | inr more ↦ inr (again.1 (more, h.1)) ],
        )
        | inr dropped ↦ rw dropped (
          λ h. (inr (again.0 h).0, (again.0 h).1),
          λ h. elim h.0 [ inl same ↦ cc (h.1, dropped, same) | inr more ↦ again.1 (more, h.1) ],
        )
      ]

abbrev pub total_of : Summary → ℕ
total_of (soc2_summary total marked) = total
total_of (gdpr_summary total marked) = total

abbrev pub marked_of : Summary → ℕ
marked_of (soc2_summary total marked) = marked
marked_of (gdpr_summary total marked) = marked

module _ (mentions_pii : String → Bool) (framework : ComplianceFramework)
    (period_start period_end : ℕ) (report_id : String) (generated_at : ℕ) where
  abbrev pub report : ComplianceReporter → ComplianceReport
  report = generate_report mentions_pii framework period_start period_end report_id generated_at

  -- What the summary counts: for SOC 2 a recorded failure, for GDPR an access to personal data.
  abbrev pub IsMarked : ComplianceFramework → AuditEvent → Type 0
  IsMarked ComplianceFramework.soc2 e = e.outcome ≡ "failure"
  IsMarked ComplianceFramework.gdpr e = mentions_pii e.resource ≡ true

  abbrev pub IsWithin : AuditEvent → Type 0
  IsWithin e = (period_start ≤ e.timestamp) × (e.timestamp ≤ period_end)

  in_period-IsWithin : (e : AuditEvent) → (in_period period_start period_end e ≡ true) ↔ IsWithin e
  in_period-IsWithin e = (λ h. ground (arith, h), λ h. ground (arith, h))

  summary-total :
      (f : ComplianceFramework) (events : List AuditEvent)
      → total_of (summary_for mentions_pii f events) ≡ length events
  unfolding soc2_of gdpr_of
  summary-total ComplianceFramework.soc2 events = refl
  summary-total ComplianceFramework.gdpr events = refl

  summary-marked :
      (f : ComplianceFramework) (events : List AuditEvent) (e : AuditEvent)
      → IsMarked f e
      → marked_of (summary_for mentions_pii f (events ++ e ∷ []))
        ≡ marked_of (summary_for mentions_pii f events) + 1
  unfolding soc2_of gdpr_of
  summary-marked ComplianceFramework.soc2 events e failed =
      length-select-append is_failure events e ∙ if_true _ _ ((eq_iff e.outcome "failure").1 failed)
  summary-marked ComplianceFramework.gdpr events e personal =
      length-select-append (λ d. mentions_pii d.resource) events e ∙ if_true _ _ personal

  summary-unmarked :
      (f : ComplianceFramework) (events : List AuditEvent) (e : AuditEvent)
      → ¬ IsMarked f e
      → marked_of (summary_for mentions_pii f (events ++ e ∷ []))
        ≡ marked_of (summary_for mentions_pii f events)
  unfolding soc2_of gdpr_of
  summary-unmarked ComplianceFramework.soc2 events e other =
      length-select-append is_failure events e
      ∙ if_false _ _ (not_true _ (λ h. other ((eq_iff e.outcome "failure").0 h)))
  summary-unmarked ComplianceFramework.gdpr events e other =
      length-select-append (λ d. mentions_pii d.resource) events e ∙ if_false _ _ (not_true _ other)

  summary-nil : (f : ComplianceFramework) → marked_of (summary_for mentions_pii f []) ≡ 0
  unfolding soc2_of gdpr_of select
  summary-nil ComplianceFramework.soc2 = refl
  summary-nil ComplianceFramework.gdpr = refl

  of_scope : List AuditEvent → ComplianceReport
  of_scope in_scope = record {
    report_id = report_id;
    framework = framework;
    generated_at = generated_at;
    period_start = period_start;
    period_end = period_end;
    total_events = length in_scope;
    events = in_scope;
    summary = summary_for mentions_pii framework in_scope;
  }

  -- The report with one event more, which is in the period, and the one with an event that is not.
  report-inside :
      (e : AuditEvent) (events : ComplianceReporter)
      → IsWithin e
      → report (record_event e events)
        ≡ of_scope (select (in_period period_start period_end) events ++ e ∷ [])
  unfolding generate_report record_event of_scope
  report-inside e events inside = ap of_scope (
      select-append (in_period period_start period_end) events e
      ∙ if_true _ _ ((in_period-IsWithin e).1 inside))

  report-outside :
      (e : AuditEvent) (events : ComplianceReporter)
      → ¬ IsWithin e
      → report (record_event e events) ≡ report events
  unfolding generate_report record_event of_scope
  report-outside e events outside = ap of_scope (
      select-append (in_period period_start period_end) events e
      ∙ if_false _ _ (not_true _ (λ h. outside ((in_period-IsWithin e).0 h))))

  -- A report holds exactly the recorded events of its period, both of its ends included, and its totals are
  -- the number of them; a report on no events counts none. Recording one event more adds it at the end of the
  -- report if it is in the period: then the summary counts one more failure (SOC 2) or one more access to
  -- personal data (GDPR) if the event is one, and as many as before if it is not. An event that is not in the
  -- period changes nothing of the report.
  pub generate_report-record_event :
      (e : AuditEvent) (events : ComplianceReporter)
      → let r = report events in
        let r' = report (record_event e events) in
        ((d : AuditEvent) → Listed d r.events ↔ (Listed d events × IsWithin d))
        × (r.total_events ≡ length r.events)
        × (total_of r.summary ≡ length r.events)
        × (marked_of (report []).summary ≡ 0)
        × (IsWithin e → r'.events ≡ r.events ++ e ∷ [])
        × (IsWithin e → IsMarked framework e → marked_of r'.summary ≡ marked_of r.summary + 1)
        × (IsWithin e → ¬ IsMarked framework e → marked_of r'.summary ≡ marked_of r.summary)
        × (¬ IsWithin e → r' ≡ r)
  unfolding generate_report of_scope select
  generate_report-record_event e events =
      let in_scope = select (in_period period_start period_end) events in
      (
        λ d.
            let listed = Listed-select (in_period period_start period_end) d events in
            let within = in_period-IsWithin d in
            (λ h. ((listed.0 h).0, within.0 (listed.0 h).1), λ h. listed.1 (h.0, within.1 h.1)),
        refl,
        summary-total framework in_scope,
        summary-nil framework,
        λ inside. ap (λ (r : ComplianceReport). r.events) (report-inside e events inside),
        λ inside marked.
            ap (λ (r : ComplianceReport). marked_of r.summary) (report-inside e events inside)
            ∙ summary-marked framework in_scope e marked,
        λ inside unmarked.
            ap (λ (r : ComplianceReport). marked_of r.summary) (report-inside e events inside)
            ∙ summary-unmarked framework in_scope e unmarked,
        report-outside e events,
      )
