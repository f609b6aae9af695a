-- ===== src/ControlPlane.antt =====
-- src/control_plane/: the durable workflow of an agent task and its approval gate.
pub mod Records
pub mod Steps
pub mod Approval
pub mod Inputs
pub mod Workflow
pub mod Orchestrator
pub mod Activities
pub mod Hosting
pub mod Metrics
pub mod ApprovalService
pub mod Scheduler
pub mod DataConverter
pub mod Router
mod Tests
