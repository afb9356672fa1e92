-- ===== src/Delivery.antt =====
-- packages/core/src/belief_ledger_core/buffering.py: the buffered delivery of a response.
pub mod Gate
pub mod Chunks
pub mod Accepted
pub mod Calls
mod Tests
