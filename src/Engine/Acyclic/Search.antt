-- ===== src/Engine/Acyclic/Search.antt =====
-- packages/core/src/belief_ledger_core/engine/graph.py: `adjacency`, `_find_path` and `cycle_path`.
use belief_ledger_pramana.Prelude.{
  ℕ, zero, suc, ◌+◌, true, false, List, [], ◌∷◌, ◌++◌, map, length, ltb, contains, ◌==◌,
  if◌then◌else◌,
}
use belief_ledger_pramana.Models.{Justification}

-- `dict[str, set[str]]`, each set as the sorted list that the code walks.
abbrev pub Adjacency : Type 0
Adjacency = List (ℕ × List ℕ)

-- `set.add`
abbrev pub add_child : ℕ → List ℕ → List ℕ
add_child child [] = child ∷ []
add_child child (c ∷ rest) =
    if child == c
    then c ∷ rest
    else if ltb child c
    then child ∷ c ∷ rest
    else c ∷ add_child child rest

-- `graph[premise].add(belief_id)`
abbrev pub add_edge : ℕ → ℕ → Adjacency → Adjacency
add_edge premise child [] = (premise, child ∷ []) ∷ []
add_edge premise child ((node, children) ∷ rest) =
    if node == premise
    then (node, add_child child children) ∷ rest
    else (node, children) ∷ add_edge premise child rest

abbrev pub add_premises : List ℕ → ℕ → Adjacency → Adjacency
add_premises [] child graph = graph
add_premises (p ∷ rest) child graph = add_premises rest child (add_edge p child graph)

abbrev pub adjacency_from : List Justification → Adjacency → Adjacency
adjacency_from [] graph = graph
adjacency_from (j ∷ rest) graph = adjacency_from rest (add_premises j.premises j.belief_id graph)

-- `adjacency`
unfoldable pub adjacency : List Justification → Adjacency
adjacency justifications = adjacency_from justifications []

-- `graph.get(node, ())`
abbrev pub children_of : Adjacency → ℕ → List ℕ
children_of [] node = []
children_of ((n, children) ∷ rest) node = if n == node then children else children_of rest node

-- The outcome of a search: `out_of_fuel` is no outcome of the code.
pub data Search : Type 0 where
  found : List ℕ → Search
  not_found out_of_fuel : Search

-- The entries that a visited node leaves on the stack, the smallest child on top.
abbrev pub pushed : List ℕ → List ℕ → List (ℕ × List ℕ)
pushed path children = map (λ c. (c, path ++ c ∷ [])) children

module _ (graph : Adjacency) (goal : ℕ) where
  -- The loop of `_find_path`, on the stack with its top first.
  unfoldable pub walk : ℕ → List (ℕ × List ℕ) → List ℕ → Search
  walk fuel [] visited = not_found
  walk zero (x ∷ stack) visited = out_of_fuel
  walk (suc left) ((node, path) ∷ stack) visited = elim (node == goal) [
    | true ↦ found path
    | false ↦ elim (contains node visited) [
      | true ↦ walk left stack visited
      | false ↦ walk left (pushed path (children_of graph node) ++ stack) (node ∷ visited)
    ]
  ]

-- The entries that are still to be pushed.
abbrev pub pending : List ℕ → Adjacency → ℕ
pending visited [] = 0
pending visited ((node, children) ∷ rest) =
    (if contains node visited then 0 else length children) + pending visited rest

-- `_find_path`, with fuel for the start and for every edge.
unfoldable pub find_path : Adjacency → ℕ → ℕ → Search
find_path graph start goal = walk graph goal (suc (pending [] graph)) ((start, start ∷ []) ∷ []) []

-- The loop of `cycle_path` over the premises.
unfoldable pub cycle_from : Adjacency → ℕ → List ℕ → Search
cycle_from graph conclusion [] = Search.not_found
cycle_from graph conclusion (premise ∷ rest) =
    let later = cycle_from graph conclusion rest in
    if premise == conclusion
    then Search.found (conclusion ∷ conclusion ∷ [])
    else elim (find_path graph conclusion premise) [
      | Search.found path ↦ Search.found (path ++ conclusion ∷ [])
      | Search.not_found ↦ later
      | Search.out_of_fuel ↦ Search.out_of_fuel
    ]

-- `cycle_path`
unfoldable pub cycle_path : List Justification → ℕ → List ℕ → Search
cycle_path justifications conclusion premises =
    cycle_from (adjacency justifications) conclusion premises
