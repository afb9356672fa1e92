-- ===== src/Engine/Acyclic/Ends.antt =====
-- packages/core/src/belief_ledger_core/engine/graph.py: the fuel of `_find_path` and
-- `cycle_path`.
use belief_ledger_pramana.Prelude.{
  ℕ, zero, suc, ◌+◌, ◌≤◌, ◌≡◌, ◌≢◌, refl, sym, ap, subst, ◌↔◌, ◌⊎◌, inl, inr, Bool, true, false,
  ◌||◌, List, [], ◌∷◌, ◌++◌, length, length-append, In, arith, contains, ◌==◌, ==_iff,
  if◌then◌else◌,
}
use belief_ledger_pramana.Models.{Justification}
use belief_ledger_pramana.Engine.Acyclic.Search.{
  Adjacency, adjacency, children_of, Search, found, not_found, out_of_fuel, pushed, walk, pending,
  find_path, cycle_from, cycle_path,
}

pub contains_sound : (a : ℕ) (xs : List ℕ) → contains a xs ≡ true → In a xs
contains_sound a [] h = absurd (ground (arith, h))
contains_sound a (x ∷ xs) h = split (a == x) (==_iff a x) h (contains_sound a xs)
  where
    split :
        (t : Bool)
        → ((t ≡ true) ↔ (a ≡ x))
        → (t || contains a xs) ≡ true
        → (contains a xs ≡ true → In a xs)
        → (a ≡ x) ⊎ In a xs
    split true i k later = inl (i.0 refl)
    split false i k later = inr (later k)

pending_fewer :
    (graph : Adjacency) (node : ℕ) (visited : List ℕ)
    → pending (node ∷ visited) graph ≤ pending visited graph
pending_fewer [] node visited = omega arith
pending_fewer ((n, children) ∷ rest) node visited =
    split (n == node) (contains n visited) (pending_fewer rest node visited)
  where
    split :
        (t u : Bool)
        → pending (node ∷ visited) rest ≤ pending visited rest
        → (if t || u then 0 else length children) + pending (node ∷ visited) rest
          ≤ (if u then 0 else length children) + pending visited rest
    split true u k = omega (arith, k)
    split false true k = omega (arith, k)
    split false false k = omega (arith, k)

-- A visit drops the node's children from what is pending.
pub pending_visit :
    (graph : Adjacency) (node : ℕ) (visited : List ℕ)
    → contains node visited ≡ false
    → pending (node ∷ visited) graph + length (children_of graph node) ≤ pending visited graph
pending_visit [] node visited h = omega arith
pending_visit ((n, children) ∷ rest) node visited h =
    split (n == node) (==_iff n node) (contains n visited)
      (λ same. subst (λ m. contains m visited ≡ false) (sym same) h)
      (pending_fewer rest node visited) (pending_visit rest node visited h)
  where
    split :
        (t : Bool)
        → ((t ≡ true) ↔ (n ≡ node))
        → (u : Bool) → (n ≡ node → u ≡ false)
        → pending (node ∷ visited) rest ≤ pending visited rest
        → pending (node ∷ visited) rest + length (children_of rest node) ≤ pending visited rest
        → (if t || u then 0 else length children)
            + pending (node ∷ visited) rest
            + length (if t then children else children_of rest node)
          ≤ (if u then 0 else length children) + pending visited rest
    split true i true fresh fewer later = absurd (ground (arith, fresh (i.0 refl)))
    split true i false fresh fewer later = omega (arith, fewer)
    split false i true fresh fewer later = omega (arith, later)
    split false i false fresh fewer later = omega (arith, later)

length-map : (path children : List ℕ) → length (pushed path children) ≡ length children
length-map path [] = refl
length-map path (c ∷ cs) = ap suc (length-map path cs)

-- With fuel for the stack and for what is pending, the search does not run out.
walk-ends :
    (graph : Adjacency) (goal fuel : ℕ) (stack : List (ℕ × List ℕ)) (visited : List ℕ)
    → length stack + pending visited graph ≤ fuel
    → walk graph goal fuel stack visited ≢ out_of_fuel
unfolding walk
walk-ends graph goal fuel [] visited h = λ e. absurd (ground (arith, e))
walk-ends graph goal zero (x ∷ stack) visited h = absurd (omega (arith, h))
walk-ends graph goal (suc left) ((node, path) ∷ stack) visited h =
    at_goal (node == goal) (contains node visited) refl
      (walk-ends graph goal left stack visited (omega (arith, h)))
      (λ fresh.
        walk-ends graph goal left (pushed path children ++ stack) (node ∷ visited)
          (omega (arith, h, fits fresh)))
  where
    children : List ℕ
    children = children_of graph node

    fits :
        contains node visited ≡ false
        → length (pushed path children ++ stack) + pending (node ∷ visited) graph
          ≤ length stack + pending visited graph
    fits fresh = omega (
      arith,
      length-append (pushed path children) stack,
      length-map path children,
      pending_visit graph node visited fresh,
    )

    at_goal :
        (t u : Bool)
        → contains node visited ≡ u
        → walk graph goal left stack visited ≢ out_of_fuel
        → (contains node visited ≡ false
            → walk graph goal left (pushed path children ++ stack) (node ∷ visited) ≢ out_of_fuel)
        → (elim t as (λ _. Search) [
          | true ↦ found path
          | false ↦ elim u as (λ _. Search) [
            | true ↦ walk graph goal left stack visited
            | false ↦ walk graph goal left (pushed path children ++ stack) (node ∷ visited)
          ]
        ])
          ≢ out_of_fuel
    at_goal true u e k l = λ q. absurd (ground (arith, q))
    at_goal false true e k l = k
    at_goal false false e k l = l e

-- `_find_path` ends within the fuel that it is given.
find_path-ends : (graph : Adjacency) (start goal : ℕ) → find_path graph start goal ≢ out_of_fuel
unfolding find_path
find_path-ends graph start goal = walk-ends graph goal _ ((start, start ∷ []) ∷ []) [] (omega arith)

cycle_from-ends :
    (graph : Adjacency) (conclusion : ℕ) (premises : List ℕ)
    → cycle_from graph conclusion premises ≢ out_of_fuel
unfolding cycle_from
cycle_from-ends graph conclusion [] = λ e. absurd (ground (arith, e))
cycle_from-ends graph conclusion (p ∷ rest) =
    split (p == conclusion) (find_path graph conclusion p) (find_path-ends graph conclusion p)
      (cycle_from-ends graph conclusion rest)
  where
    split :
        (t : Bool) (s : Search)
        → s ≢ out_of_fuel
        → cycle_from graph conclusion rest ≢ out_of_fuel
        → (if t then found (conclusion ∷ conclusion ∷ []) else elim s as (λ _. Search) [
          | found path ↦ found (path ++ conclusion ∷ [])
          | not_found ↦ cycle_from graph conclusion rest
          | out_of_fuel ↦ out_of_fuel
        ])
          ≢ out_of_fuel
    split true s h k = λ e. absurd (ground (arith, e))
    split false (found path) h k = λ e. absurd (ground (arith, e))
    split false not_found h k = k
    split false out_of_fuel h k = h

-- `cycle_path` ends, whatever the justifications and the premises: the fuel of its searches is enough.
pub cycle_path-ends :
    (justifications : List Justification) (conclusion : ℕ) (premises : List ℕ)
    → cycle_path justifications conclusion premises ≢ out_of_fuel
unfolding cycle_path
cycle_path-ends justifications conclusion premises =
    cycle_from-ends (adjacency justifications) conclusion premises
