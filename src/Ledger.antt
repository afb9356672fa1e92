-- ===== src/Ledger.antt =====
-- packages/core/src/belief_ledger_core/store.py, events.py and projections.py: the append-only event
-- store and the projection tables that are derived from the events.
pub mod Results
pub mod Events
pub mod Tables
pub mod Inserts
pub mod Updates
pub mod Projections
pub mod Chunks
pub mod Chain
pub mod Store
pub mod Scan
pub mod Valid
pub mod Stored
pub mod Batches
pub mod Appends
pub mod Retry
pub mod Budget
pub mod Reserved
pub mod Runs
pub mod Heights
pub mod Headed
pub mod Kept
pub mod Replay
pub mod Keys
pub mod Keyed
pub mod Replayed
pub mod Completion
pub mod Purge
pub mod Samples
mod Tests
