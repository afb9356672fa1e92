-- ===== src/Engine/Acyclic/Unreachable.antt =====
-- packages/core/src/belief_ledger_core/engine/graph.py: ways along the graph, and what it means
-- that `cycle_path` finds nothing.
use belief_ledger_pramana.Prelude.{ℕ, ◌⊎◌, List, [], ◌∷◌, In}
use belief_ledger_pramana.Engine.Acyclic.Search.{Adjacency, children_of, Search}

-- A way along the edges of a graph.
pub data Reaches (graph : Adjacency) (goal : ℕ) : ℕ → Type 0 where
  here : Reaches graph goal goal
  along :
      (node child : ℕ)
      → In child (children_of graph node)
      → Reaches graph goal child
      → Reaches graph goal node

-- The nodes on a stack.
abbrev nodes_of : List (ℕ × List ℕ) → List ℕ
nodes_of [] = []
nodes_of ((node, _) ∷ rest) = node ∷ nodes_of rest

module _ (graph : Adjacency) (goal : ℕ) where
  -- Every edge from a visited node leads to a node that is visited or on the stack, and the goal is
  -- not visited.
  record IsExplored (stack : List (ℕ × List ℕ)) (visited : List ℕ) : Type 0 where
    pub closed :
        (node child : ℕ)
        → In node visited
        → In child (children_of graph node)
        → In child visited ⊎ In child (nodes_of stack)
    pub unmet : In goal visited → ⊥
