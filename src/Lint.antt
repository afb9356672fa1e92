-- ===== src/Lint.antt =====
-- packages/core/src/belief_ledger_core/lint: the policy on a response that is not grounded.
pub mod Enforce
pub mod Delivered
mod Tests
