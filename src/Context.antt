-- ===== src/Context.antt =====
-- packages/core/src/belief_ledger_core/context: what of the ledger is shown to the model.
pub mod Budget
pub mod Select
pub mod Bounded
pub mod Chosen
mod Tests
