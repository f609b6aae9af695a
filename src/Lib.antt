-- ===== src/Lib.antt =====
-- The governance core of Aegis-OS: what it lets an agent spend, repeat, present and send.
--
-- The parts and where they are modelled:
--
-- * src/watchdog/budget_enforcer.py (`BudgetEnforcer`, with the gauge and the counter of
--   src/watchdog/metrics.py): Watchdog/Budget.antt. The enforcer is a record that each method takes
--   and returns, also where it raises. A `Decimal` is a coefficient and a scale (Decimal.antt),
--   with the default context of 28 digits and rounding half to even; comparisons are exact.
-- * src/watchdog/loop_detector.py (`LoopDetector`): Watchdog/Loop.antt.
-- * src/audit_vault/logger.py (`AuditLogger`): Audit.antt. The log holds the newest entry first.
--   The two emitters of task events share `emit_task_event`. The budget enforcer and the loop
--   detector write to this log.
-- * src/governance/replay_store.py (`InMemoryDPoPReplayStore`): Governance/ReplayStore.antt.
-- * src/governance/session_mgr.py (`SessionManager`): its tokens, rotation and revocation in
--   Governance/Session.antt and Governance/Session/Validation.antt, its proofs of possession in
--   Governance/Dpop.antt, which register a proof in the replay store.
-- * src/governance/guardrails.py (`Guardrails`): Governance/Guardrails.antt.
-- * src/governance/policy_engine/opa_client.py (`PolicyEngine`): Governance/Policy.antt.
-- * src/control_plane/scheduler.py (`AgentTaskWorkflow`): its messages in
--   ControlPlane/Records.antt, its state, signals and approval gate in ControlPlane/Approval.antt,
--   and `run`, one function for what follows each activity, in ControlPlane/Workflow.antt, with
--   what the activities are given in ControlPlane/Inputs.antt. Below Workflow, Requests.antt has
--   the executions of "LLMInvoke" in a run, Dispatch.antt what they are given, and Outcome.antt
--   what a run returns. `AgentScheduler`, with a store for its shared handles:
--   ControlPlane/Scheduler.antt.
-- * src/control_plane/scheduler.py (`AegisActivities` and `WorkflowAuditActivities`): the worker in
--   ControlPlane/Activities.antt, and below it Screening.antt ("PrePIIScrub", "PolicyEval",
--   "PostSanitize" and "WorkflowAudit"), Invocation.antt ("JITTokenIssue" and "LLMInvoke"),
--   Spending.antt ("BudgetPreCheck" and "BudgetRecordSpend") and Looping.antt ("LoopRecordStep").
--   ControlPlane/Hosting.antt puts the workflow on such a worker: a result that it gets is what an
--   attempt of the activity has returned in some state of the worker.
-- * src/control_plane/orchestrator.py (`Orchestrator`): ControlPlane/Orchestrator.antt has the
--   state that the parts share, the errors and the guard around a stage, Orchestrator/Stages.antt
--   the stages up to the tokens, and Orchestrator/Stages/Run.antt the others and `run`. A step
--   takes the state and gives it back also where it raises; it calls the guardrails, the policy
--   engine, the session manager, the budget enforcer, the loop detector and the audit logger of the
--   files above.
-- * src/control_plane/approval_service.py (`TaskApprovalService`):
--   ControlPlane/ApprovalService.antt, which signals the workflows of ControlPlane/Approval.antt.
-- * src/control_plane/router.py (its handlers): the routes of tasks in ControlPlane/Router.antt,
--   those of decisions in ControlPlane/Router/Hitl.antt.
-- * src/control_plane/data_converter.py (`EncryptedPayloadCodec`): ControlPlane/DataConverter.antt.
-- * src/adapters/base.py (`LLMRequest`, `require_sender_constrained_request`): the requests in
--   ControlPlane/Orchestrator.antt, the check before one is sent in Adapters.antt.
-- * src/adapters/openai_adapter.py, src/adapters/anthropic_adapter.py and
--   src/adapters/local_llama.py (`complete`): the text that the three share in
--   Adapters/Providers.antt, over a record of what they differ in, which
--   Adapters/Providers/Vendors.antt fills for each.
-- * src/audit_vault/compliance.py (`ComplianceReporter`): Audit/Compliance.antt.
-- * src/main.py (`refresh_pending_approval_metrics`): ControlPlane/Metrics.antt.
--
-- ControlPlane/Steps.antt has the steps that return or raise with the rules for them, which the
-- orchestrator, the activities and the adapters use. Prelude.antt holds the shared names, Dict.antt
-- Python's `dict` as a list of its entries, Samples.antt data for runs.
--
-- Numbers, times and texts: a UUID is a number, a time is a number of microseconds, and a message
-- is the data that it is made from. Every loop is over a list, so no fuel is needed.
--
-- Code that is not part of the repository is a parameter: the signing library `jose` (the record
-- `Jose`, with the laws that what it has signed decodes until the second of its expiry has passed,
-- and that claims are read back), the hashes and keys of `cryptography` (the record `Proofs`),
-- Temporal, which runs an activity and its retries (the record `Activities`: what comes of each)
-- and delivers signals (the record `Temporal`, with the law that a delivered signal is handled),
-- regular expressions and Unicode (the record `TextTools`), the answers of OPA (`Posted`), Fernet
-- (the record `Fernet`, with the law that it decrypts what it encrypted), and the provider's
-- adapter, the clock, `uuid4` and the key generator (the record `Env` of the orchestrator and that
-- of the activities), and the HTTP client of an adapter (`Answer`). A lock makes a method atomic,
-- so calls are a sequence.
--
-- Not modelled: the rest of the entry points, which wires the process, the validation of bodies by
-- FastAPI, the spans of the tracer, the Redis store, which calls one command of its server, the
-- texts of snapshots, and the making of keys.
pub mod Prelude
pub mod Dict
pub mod Decimal
pub mod Samples
pub mod Adapters
pub mod Audit
pub mod Watchdog
pub mod Governance
pub mod ControlPlane
