-- ===== src/Engine.antt =====
-- packages/core/src/belief_ledger_core/engine: admission, priority, defeat and the graph of
-- justifications.
pub mod Floats
pub mod Trust
pub mod Admission
pub mod Priority
pub mod Order
pub mod Defeat
pub mod Acyclic
pub mod Samples
mod Tests
