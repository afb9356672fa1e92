-- ===== src/Engine/Acyclic/Descendants.antt =====
-- packages/core/src/belief_ledger_core/engine/graph.py and retractions.py: `descendants`, and the
-- beliefs that a retraction affects.
use belief_ledger_pramana.Prelude.{
  ℕ, zero, suc, ◌+◌, ◌≤◌, ◌≡◌, ◌≢◌, refl, Bool, true, false, Option, none, some, List, [], ◌∷◌,
  ◌++◌, length, length-append, In, arith, contains, on_option, if◌then◌else◌,
}
use belief_ledger_pramana.Models.{Justification}
use belief_ledger_pramana.Engine.Acyclic.Search.{
  Adjacency, add_child, adjacency, children_of, pending,
}
use belief_ledger_pramana.Engine.Acyclic.Ends.{pending_visit}

module _ (graph : Adjacency) where
  -- The loop of `descendants`; `none` is out of fuel, which is no outcome of the code.
  unfoldable pub flood : ℕ → List ℕ → List ℕ → Option (List ℕ)
  flood fuel [] seen = some seen
  flood zero (x ∷ queue) seen = none
  flood (suc left) (x ∷ queue) seen = elim (contains x seen) [
    | true ↦ flood left queue seen
    | false ↦ flood left (queue ++ children_of graph x) (x ∷ seen)
  ]

-- `sorted(seen)`, on a list without repetition.
abbrev pub sorted : List ℕ → List ℕ
sorted [] = []
sorted (x ∷ rest) = add_child x (sorted rest)

-- `descendants` and `affected_subgraph`, with fuel for every edge, and once more for those of the root.
unfoldable pub descendants : List Justification → ℕ → Option (List ℕ)
descendants justifications root =
    let graph = adjacency justifications in
    let queue = children_of graph root in
    on_option (flood graph (length queue + pending [] graph) queue []) none
      (λ seen. some (sorted seen))

if-In : (n : ℕ) (t : Bool) (xs ys : List ℕ) → In n xs → In n ys → In n (if t then xs else ys)
if-In n true xs ys h k = h
if-In n false xs ys h k = k

module _ (graph : Adjacency) where
  flood-ends :
      (fuel : ℕ) (queue seen : List ℕ)
      → length queue + pending seen graph ≤ fuel
      → flood graph fuel queue seen ≢ none
  unfolding flood
  flood-ends fuel [] seen h = λ e. absurd (ground (arith, e))
  flood-ends zero (x ∷ queue) seen h = absurd (omega (arith, h))
  flood-ends (suc left) (x ∷ queue) seen h =
      split (contains x seen) refl (flood-ends left queue seen (omega (arith, h))) (λ fresh.
        flood-ends left (queue ++ children_of graph x) (x ∷ seen) (
          omega (
            arith,
            h,
            length-append queue (children_of graph x),
            pending_visit graph x seen fresh,
          )))
    where
      split :
          (u : Bool)
          → contains x seen ≡ u
          → flood graph left queue seen ≢ none
          → (contains x seen ≡ false
              → flood graph left (queue ++ children_of graph x) (x ∷ seen) ≢ none)
          → (elim u as (λ _. Option (List ℕ)) [
            | true ↦ flood graph left queue seen
            | false ↦ flood graph left (queue ++ children_of graph x) (x ∷ seen)
          ])
            ≢ none
      split true e k l = k
      split false e k l = l e

-- `descendants` ends, whatever the justifications: its fuel is enough.
pub descendants-ends :
    (justifications : List Justification) (root : ℕ) → descendants justifications root ≢ none
unfolding descendants
descendants-ends justifications root =
    split (flood graph (length queue + pending [] graph) queue [])
      (flood-ends graph (length queue + pending [] graph) queue [] (omega arith))
  where
    graph : Adjacency
    graph = adjacency justifications

    queue : List ℕ
    queue = children_of graph root

    split : (o : Option (List ℕ)) → o ≢ none → on_option o none (λ seen. some (sorted seen)) ≢ none
    split none h = h
    split (some seen) h = λ e. absurd (ground (arith, e))
