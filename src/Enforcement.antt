-- ===== src/Enforcement.antt =====
-- packages/core/src/belief_ledger_core/enforcement.py: bound approvals and single-use permits.
pub mod Tables
pub mod Store
pub mod Replay
pub mod Approvals
pub mod Premises
pub mod Rules
pub mod ApprovalsKeep
pub mod ActionsKeep
pub mod Operations
pub mod Invariants
pub mod Refusals
pub mod Consumption
pub mod SingleUse
pub mod Audit
pub mod Bindings
mod Tests
pub mod Actions
