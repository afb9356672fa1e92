-- ===== src/Engine/Defeat/Tests.antt =====
-- packages/core/src/belief_ledger_core/engine/defeat.py: runs of `relabel`, and the theorems at them.
use belief_ledger_pramana.Prelude.{
  ◌≢◌, All, ℕ, ◌≡◌, refl, inl, true, false, Option, none, some, List, [], ◌∷◌, arith, on_option,
}
use belief_ledger_pramana.Models.{
  Belief, DefeatEdge, DefeatKind, IngestionSupport, Perishability, Pramana, Status, max_stakes,
}
use belief_ledger_pramana.Engine.Trust.{
  trust_profile, effective_stakes, determine_admission, bounded, effective_competence,
}
use belief_ledger_pramana.Engine.Priority.{
  recency_micros, fixed_rule_of, compare_values, compare_traces, type_key, priority_trace,
  compare_priority, source_of,
}
use belief_ledger_pramana.Engine.Defeat.Support.{
  is_in_at, Graph, belief_of, rebuts, has_active_undercut, is_supported, candidate_status, Ttl,
  is_stale,
}
use belief_ledger_pramana.Engine.Defeat.Round.{Comparisons, open_conflicts, defeat_targets}
use belief_ledger_pramana.Engine.Defeat.Relabel.{
  RelabelResult, support_loss_cause, active_edges, base, iterate, ceiling, finish, loop, first,
  relabel, comparisons_from,
}
use belief_ledger_pramana.Engine.Defeat.Labels.{
  relabel-in_admitted, relabel-conflicts_apart, relabel-in_supported,
}
use belief_ledger_pramana.Engine.Defeat.Unbeaten.{relabel_unbeaten}
use belief_ledger_pramana.Engine.Defeat.Returns.{relabel-some}
use belief_ledger_pramana.Engine.Samples.{whole, config, sources, belief}

abbrev support : ℕ → ℕ → IngestionSupport
support id belief_id = record {
  id = id;
  episode_id = 1;
  belief_id = belief_id;
  evidence_id = 1;
  validity = [];
  active = true;
}

abbrev edge : ℕ → ℕ → ℕ → DefeatKind → DefeatEdge
edge id attacker target kind = record {
  id = id;
  episode_id = 1;
  attacker = attacker;
  target = target;
  kind = kind;
  basis = "";
  active = false;
}

abbrev lasting : Perishability → Ttl
lasting p = Ttl.seconds 60

-- Belief 11, from the trusted source, rebuts belief 12; beliefs 13 and 14 tie.
abbrev disputed : Graph
disputed = record {
  beliefs =
      belief 11 Pramana.pratyaksha 1
      ∷ belief 12 Pramana.pratyaksha 2
      ∷ belief 13 Pramana.pratyaksha 1
      ∷ belief 14 Pramana.pratyaksha 1
      ∷ [];
  justifications = [];
  supports = support 31 11 ∷ support 32 12 ∷ support 33 13 ∷ support 34 14 ∷ [];
  defeats = edge 41 11 12 DefeatKind.rebut ∷ edge 42 14 13 DefeatKind.rebut ∷ [];
}

-- All that a run computes with.
abbrev running : Unit {0}
unfolding max_stakes trust_profile effective_stakes determine_admission bounded effective_competence
    recency_micros fixed_rule_of compare_values compare_traces type_key priority_trace
    compare_priority has_active_undercut is_supported candidate_status is_stale open_conflicts
    defeat_targets support_loss_cause active_edges base iterate ceiling finish loop relabel
running = tt

abbrev settled : Option RelabelResult
settled = relabel whole disputed [] sources config lasting (some 2_000) 256

abbrev statuses : Option RelabelResult → List (ℕ × Status)
statuses r = on_option r [] (λ x. x.statuses)

relabel_disputed :
    statuses settled
    ≡ (11, Status.in_) ∷ (12, Status.out) ∷ (13, Status.pending) ∷ (14, Status.pending) ∷ []
unfolding running
relabel_disputed = refl

-- Beliefs 21 and 22 rest on supports that the other one undercuts, and 23 on belief 21: the loop
-- oscillates, and its last exit leaves 23 IN on a premise that the same result puts OUT.
abbrev unstable : Graph
unstable = record {
  beliefs =
      belief 21 Pramana.pratyaksha 1
      ∷ belief 22 Pramana.pratyaksha 1
      ∷ record (belief 23 Pramana.anumana 1) { status = Status.in_ }
      ∷ [];
  justifications =
      record {
        id = 51;
        belief_id = 23;
        premises = 21 ∷ [];
        warrant = "";
        audit = none;
        alternatives = [];
      }
      ∷ [];
  supports = support 31 21 ∷ support 32 22 ∷ [];
  defeats = edge 41 21 32 DefeatKind.undercut ∷ edge 42 22 31 DefeatKind.undercut ∷ [];
}

relabel-unstable :
    statuses (relabel whole unstable (21 ∷ 22 ∷ []) sources config lasting none 256)
    ≡ (21, Status.out) ∷ (22, Status.out) ∷ (23, Status.in_) ∷ []
unfolding running
relabel-unstable = refl

abbrev comparisons : Comparisons
comparisons =
    on_option (comparisons_from whole disputed sources config (rebuts disputed)) [] (λ x. x)

abbrev outcome : RelabelResult
outcome = loop disputed comparisons lasting (some 2_000) [] 256 256 [] (first disputed)

relabel-in_admitted_example :
    (b : Belief) × (belief_of disputed 11 ≡ some b)
    × (b.admission_status ≡ Status.in_)
    × (on_option (some 2_000) false (is_stale b lasting) ≡ false)
unfolding running
relabel-in_admitted_example =
    relabel-in_admitted whole disputed [] sources config lasting (some 2_000) 255 outcome refl 11
      refl

relabel-conflicts_apart_example :
    (is_in_at 13 outcome.statuses ≡ false) × (is_in_at 14 outcome.statuses ≡ false)
unfolding running
relabel-conflicts_apart_example =
    relabel-conflicts_apart whole disputed [] sources config lasting (some 2_000) 255 outcome refl
      (13, 14) (inl refl)

relabel-in_supported_example :
    (b : Belief) × (belief_of disputed 11 ≡ some b)
    × (is_supported disputed outcome.statuses b ≡ true)
unfolding running
relabel-in_supported_example =
    relabel-in_supported whole disputed [] sources config lasting (some 2_000) 255 outcome refl refl
      11 refl

relabel_unbeaten_example : is_in_at 12 outcome.statuses ≡ false
unfolding running
relabel_unbeaten_example =
    relabel_unbeaten whole disputed [] sources config lasting (some 2_000) 255 outcome comparisons
      (edge 41 11 12 DefeatKind.rebut) (belief 11 Pramana.pratyaksha 1)
      (belief 12 Pramana.pratyaksha 2) refl refl refl (inl refl) refl refl refl

every_source : All (λ b. source_of whole sources b ≢ none) disputed.beliefs
every_source = (
  λ e. absurd (ground (arith, e)),
  (
    λ e. absurd (ground (arith, e)),
    (λ e. absurd (ground (arith, e)), (λ e. absurd (ground (arith, e)), _)),
  ),
)

relabel-some_example : relabel whole disputed [] sources config lasting (some 2_000) 256 ≢ none
relabel-some_example =
    relabel-some whole disputed [] sources config lasting (some 2_000) 256 every_source
