-- ===== src/Engine/Acyclic/Tests.antt =====
-- packages/core/src/belief_ledger_core/engine/graph.py: the search on a small graph, and the theorems
-- at it.
use belief_ledger_pramana.Prelude.{ℕ, ◌≡◌, ◌≢◌, refl, List, [], ◌∷◌, none, some}
use belief_ledger_pramana.Models.{Justification}
use belief_ledger_pramana.Engine.Acyclic.Search.{
  adjacency, found, out_of_fuel, walk, find_path, cycle_from, cycle_path,
}
use belief_ledger_pramana.Engine.Acyclic.Ends.{cycle_path-ends}
use belief_ledger_pramana.Engine.Acyclic.Descendants.{flood, descendants, descendants-ends}

-- All that a search computes with.
abbrev running : Unit {0}
unfolding adjacency walk find_path cycle_from cycle_path flood descendants
running = tt

abbrev justification : ℕ → ℕ → List ℕ → Justification
justification id belief_id premises = record {
  id = id;
  belief_id = belief_id;
  premises = premises;
  warrant = "";
  audit = none;
  alternatives = [];
}

-- Belief 3 rests on 1 and 2, and 4 on 3.
abbrev chain : List Justification
chain = justification 51 3 (1 ∷ 2 ∷ []) ∷ justification 52 4 (3 ∷ []) ∷ []

cycle_path-chain : cycle_path chain 1 (4 ∷ []) ≡ found (1 ∷ 3 ∷ 4 ∷ 1 ∷ [])
unfolding running
cycle_path-chain = refl

cycle_path-ends_example : cycle_path chain 1 (4 ∷ []) ≢ out_of_fuel
cycle_path-ends_example = cycle_path-ends chain 1 (4 ∷ [])

descendants-chain : descendants chain 1 ≡ some (3 ∷ 4 ∷ [])
unfolding running
descendants-chain = refl

descendants-ends_example : descendants chain 1 ≢ none
descendants-ends_example = descendants-ends chain 1
