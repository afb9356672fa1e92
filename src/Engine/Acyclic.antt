-- ===== src/Engine/Acyclic.antt =====
-- packages/core/src/belief_ledger_core/engine/graph.py: the graph of justifications and its cycles.
pub mod Search
pub mod Ends
pub mod Unreachable
pub mod Reached
pub mod Descendants
pub mod Closure
mod Tests
