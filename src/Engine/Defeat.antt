-- ===== src/Engine/Defeat.antt =====
-- packages/core/src/belief_ledger_core/engine/defeat.py: the relabelling of a finite belief graph.
pub mod Support
pub mod Round
pub mod Relabel
mod Demotion
mod FixedPoint
pub mod Labels
pub mod Unbeaten
pub mod Returns
mod Tests
