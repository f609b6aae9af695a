-- ===== src/Governance.antt =====
-- src/governance/: tokens, proofs of possession and their replay store.
pub mod Guardrails
pub mod Policy
pub mod ReplayStore
pub mod Session
pub mod Dpop
