-- ===== src/Gate.antt =====
-- packages/core/src/belief_ledger_core/gate: the decision on a tool call.
pub mod Preconditions
pub mod Decision
pub mod Checks
pub mod Met
pub mod Allow
mod Tests
