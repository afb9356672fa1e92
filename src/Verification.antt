-- ===== src/Verification.antt =====
-- packages/core/src/belief_ledger_core/verification: the tasks that verify a belief, and the anchors of
-- the hash chain.
pub mod Scheduler
pub mod Completed
mod Anchors
mod Anchored
mod Published
mod Tests
