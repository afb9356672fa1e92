-- ===== src/Engine/Acyclic/Reached.antt =====
-- packages/core/src/belief_ledger_core/engine/graph.py: the path that `cycle_path` finds.
use belief_ledger_pramana.Prelude.{ℕ, List, [], ◌∷◌}
use belief_ledger_pramana.Engine.Acyclic.Search.{Adjacency, Search}
use belief_ledger_pramana.Engine.Acyclic.Unreachable.{Reaches}

module _ (graph : Adjacency) (goal start : ℕ) where
  -- A way from any node on the stack gives one from the start.
  abbrev AllLead : List (ℕ × List ℕ) → Type 0
  AllLead [] = Unit
  AllLead ((node, _) ∷ rest) = (Reaches graph goal node → Reaches graph goal start) × AllLead rest
