-- ===== src/Engine/Acyclic/Closure.antt =====
-- packages/core/src/belief_ledger_core/engine/graph.py: what `descendants` lists.
use belief_ledger_pramana.Prelude.{ℕ, ◌⊎◌, List, In}
use belief_ledger_pramana.Engine.Acyclic.Search.{Adjacency, children_of}
use belief_ledger_pramana.Engine.Acyclic.Unreachable.{Reaches}

-- A node below the root: it is reached from a child of the root.
abbrev pub IsBelow : Adjacency → ℕ → ℕ → Type 0
IsBelow graph root n = (c : ℕ) × In c (children_of graph root) × Reaches graph n c

module _ (graph : Adjacency) where
  -- Every edge from a seen node leads to one that is seen or in the queue.
  abbrev IsSpread : List ℕ → List ℕ → Type 0
  IsSpread queue seen = (m c : ℕ) → In m seen → In c (children_of graph m) → In c seen ⊎ In c queue
