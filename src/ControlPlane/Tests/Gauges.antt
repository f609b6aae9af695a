-- ===== src/ControlPlane/Tests/Gauges.antt =====
-- Runs of src/main.py and of src/audit_vault/compliance.py.
use aegis_os.Prelude.{
  ◌+◌, String, ◌==◌, string_eq, ◌≡◌, ◌↔◌, true, Bool, length, arith, contains, some, none, List, [],
  ◌∷◌, ◌++◌,
}
use aegis_os.Dict.{get}
use aegis_os.Audit.{new_logger}
use aegis_os.Audit.Compliance.{
  AuditEvent, ComplianceReport, ComplianceFramework, Listed, IsWithin, total_of, marked_of, report,
  record_event, generate_report-record_event,
}
use aegis_os.Samples.{waiting}
use aegis_os.ControlPlane.ApprovalService.{ApprovalStatusSnapshot, approval_status}
use aegis_os.ControlPlane.Metrics.{
  Metrics, listing, shown, IsTracked, refresh_pending_approval_metrics,
  refresh_pending_approval_metrics-IsTracked,
}

-- A gauge with a workflow that is pending no more.
abbrev metrics : Metrics
metrics = record {
  workflow_pending_approval_seconds = ("task-0", 5) ∷ [];
  tracked = "task-0" ∷ [];
  audit = new_logger;
}

abbrev snapshots : List ApprovalStatusSnapshot
snapshots = record (approval_status waiting) { pending_since_epoch_seconds = some 3 } ∷ []

metrics-IsTracked : IsTracked metrics
unfolding contains get
metrics-IsTracked id = ground arith

refresh_pending_approval_metrics-IsTracked_example :
    IsTracked (refresh_pending_approval_metrics 10 (listing snapshots) metrics)
    × ((id : String)
        → get
            (refresh_pending_approval_metrics 10
              (listing snapshots)
              metrics).workflow_pending_approval_seconds
            id
          ≡ shown 10 snapshots id none)
refresh_pending_approval_metrics-IsTracked_example =
    refresh_pending_approval_metrics-IsTracked 10 (listing snapshots) metrics metrics-IsTracked

abbrev event : AuditEvent
event = record {
  event_id = "e-1";
  timestamp = 15;
  agent_id = "finance";
  action = "read";
  resource = "pii";
  outcome = "failure";
  metadata = [];
}

abbrev recorded : List AuditEvent
recorded = record event { timestamp = 5 } ∷ record event { timestamp = 20 } ∷ []

abbrev mentions_pii : String → Bool
mentions_pii resource = resource == "pii"

-- A report on the period from 10 to 20.
abbrev on : List AuditEvent → ComplianceReport
on events = report mentions_pii ComplianceFramework.gdpr 10 20 "r-1" 30 events

abbrev Within : AuditEvent → Type 0
Within = IsWithin mentions_pii ComplianceFramework.gdpr 10 20 "r-1" 30

generate_report-record_event_example :
    ((d : AuditEvent) → Listed d (on recorded).events ↔ (Listed d recorded × Within d))
    × ((on recorded).total_events ≡ length (on recorded).events)
    × (total_of (on recorded).summary ≡ length (on recorded).events)
    × (marked_of (on []).summary ≡ 0)
    × (Within event
        → (on (record_event event recorded)).events ≡ (on recorded).events ++ event ∷ [])
    × (Within event
        → mentions_pii event.resource ≡ true
        → marked_of (on (record_event event recorded)).summary
          ≡ marked_of (on recorded).summary + 1)
    × (Within event
        → ¬ (mentions_pii event.resource ≡ true)
        → marked_of (on (record_event event recorded)).summary ≡ marked_of (on recorded).summary)
    × (¬ Within event → on (record_event event recorded) ≡ on recorded)
generate_report-record_event_example =
    generate_report-record_event mentions_pii ComplianceFramework.gdpr 10 20 "r-1" 30 event recorded
