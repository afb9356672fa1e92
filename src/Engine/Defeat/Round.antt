-- ===== src/Engine/Defeat/Round.antt =====
-- packages/core/src/belief_ledger_core/engine/defeat.py: one iteration of the loop of `relabel`.
use belief_ledger_pramana.Prelude.{
  ℕ, Bool, true, false, ◌&&◌, ◌||◌, not, Option, none, some, List, [], ◌∷◌, any, leb, ltb,
  on_option, ◌==◌, if◌then◌else◌,
}
use belief_ledger_pramana.Models.{Belief, DefeatEdge, Perishability, Status, is_excluded}
use belief_ledger_pramana.Engine.Priority.{PriorityComparison, Verdict, attacker_wins, tied, Field}
use belief_ledger_pramana.Engine.Defeat.Support.{
  Statuses, set_status, is_in_at, Graph, belief_of, is_supported,
}

-- The texts of `causes`.
pub data Cause : Type 0 where
  stale : Perishability → Cause
  samsaya : ℕ → Cause
  rebut_by : ℕ → Field → Cause
  undercut_by : ℕ → ℕ → Cause
  premise_out : List ℕ → Cause
  invalid_or_missing_support no_live_justification reinstated defeat_cycle ceiling_reached : Cause

-- What an iteration writes: the next statuses, the open conflicts without repetition in order, and
-- the causes, the latest first.
pub record Progress : Type 0 where
  pub statuses : Statuses
  pub conflicts : List (ℕ × ℕ)
  pub causes : List (ℕ × Cause)

abbrev pub same_pair : ℕ × ℕ → ℕ × ℕ → Bool
same_pair x y = (x.0 == y.0) && (x.1 == y.1)

abbrev pub before : ℕ × ℕ → ℕ × ℕ → Bool
before x y = ltb x.0 y.0 || ((x.0 == y.0) && ltb x.1 y.1)

-- `conflict_pairs.add(pair)`, on the sorted list of the set.
abbrev pub add_pair : ℕ × ℕ → List (ℕ × ℕ) → List (ℕ × ℕ)
add_pair x [] = x ∷ []
add_pair x (y ∷ rest) =
    if same_pair x y then y ∷ rest else if before x y then x ∷ y ∷ rest else y ∷ add_pair x rest

abbrev pub has_pair : ℕ × ℕ → List (ℕ × ℕ) → Bool
has_pair x pairs = any (same_pair x) pairs

-- `(a, b) if a <= b else (b, a)`
abbrev pub ordered : ℕ → ℕ → ℕ × ℕ
ordered a b = if leb a b then (a, b) else (b, a)

-- `rebut_comparisons.get(edge.id)`
abbrev pub Comparisons : Type 0
Comparisons = List (ℕ × PriorityComparison)

abbrev pub comparison_of : ℕ → Comparisons → Option PriorityComparison
comparison_of id [] = none
comparison_of id ((k, c) ∷ rest) = if k == id then some c else comparison_of id rest

abbrev pub is_tie : Verdict → Bool
is_tie tied = true
is_tie _ = false

abbrev pub is_win : Verdict → Bool
is_win attacker_wins = true
is_win _ = false

-- The test of a comparison on an edge; a missing one fails it.
abbrev pub decided : (Verdict → Bool) → Comparisons → DefeatEdge → Bool
decided test comparisons e = on_option (comparison_of e.id comparisons) false (λ c. test c.result)

-- The two ends of an edge, where both are beliefs of the graph.
abbrev pub ends : Graph → DefeatEdge → Option (Belief × Belief)
ends g e =
    on_option (belief_of g e.attacker) none
      (λ a. on_option (belief_of g e.target) none (λ t. some (a, t)))

module _ (g : Graph) (comparisons : Comparisons) (current : Statuses) where
  -- The condition of the first loop over `rebuts`.
  abbrev pub clashes : DefeatEdge → Belief → Belief → Bool
  clashes e a t =
      decided is_tie comparisons e
      && is_supported g current a
      && is_supported g current t
      && not (is_excluded a.admission_status)
      && not (is_excluded t.admission_status)

  -- The first loop: a tie between supported beliefs leaves both PENDING.
  abbrev pub open_conflict : DefeatEdge → Belief → Belief → Progress → Progress
  open_conflict e a t p =
      if clashes e a t
      then record {
        statuses = set_status t.id Status.pending (set_status a.id Status.pending p.statuses);
        conflicts = add_pair (ordered a.id t.id) p.conflicts;
        causes = (t.id, samsaya a.id) ∷ (a.id, samsaya t.id) ∷ p.causes;
      }
      else p

  unfoldable pub open_conflicts : List DefeatEdge → Progress → Progress
  open_conflicts [] p = p
  open_conflicts (e ∷ rest) p =
      open_conflicts rest (on_option (ends g e) p (λ x. open_conflict e x.0 x.1 p))

  -- The condition of the second loop.
  abbrev pub defeats : List (ℕ × ℕ) → DefeatEdge → Belief → Belief → Bool
  defeats conflicts e a t =
      not (has_pair (a.id, t.id) conflicts)
      && not (has_pair (ordered a.id t.id) conflicts)
      && decided is_win comparisons e
      && is_in_at a.id current
      && is_supported g current t

  abbrev pub field_of : DefeatEdge → Field
  field_of e = on_option (comparison_of e.id comparisons) Field.equal (λ c. c.decisive_field)

  -- The second loop: a winning rebut from an attacker that is IN puts its target OUT.
  abbrev pub defeat_target : DefeatEdge → Belief → Belief → Progress → Progress
  defeat_target e a t p =
      if defeats p.conflicts e a t
      then record p {
        statuses = set_status t.id Status.out p.statuses;
        causes = (t.id, rebut_by a.id (field_of e)) ∷ p.causes;
      }
      else p

  unfoldable pub defeat_targets : List DefeatEdge → Progress → Progress
  defeat_targets [] p = p
  defeat_targets (e ∷ rest) p =
      defeat_targets rest (on_option (ends g e) p (λ x. defeat_target e x.0 x.1 p))
