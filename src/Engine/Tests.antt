-- ===== src/Engine/Tests.antt =====
-- packages/core/src/belief_ledger_core/engine/trust.py and priority.py: the theorems at small inputs.
use belief_ledger_pramana.Prelude.{ℕ, ◌≡◌, refl, ◌↔◌, ◌⊎◌, false, ◌&&◌, none, pos}
use belief_ledger_pramana.Models.{
  Integrity, Perishability, Pramana, SourceKind, Stakes, Status, max_stakes,
}
use belief_ledger_pramana.Engine.Trust.{
  Mode, trust_profile, effective_stakes, determine_admission, bounded, effective_competence,
  is_ledger, is_live,
}
use belief_ledger_pramana.Engine.Admission.{mode_for, determine_admission-in_iff}
use belief_ledger_pramana.Engine.Priority.{
  PriorityTrace, TypeKey, attacker_wins, recency_micros, fixed_rule_of, compare_values,
  compare_traces, type_key, priority_trace, compare_priority,
}
use belief_ledger_pramana.Engine.Order.{flip, compare_traces-flip, compare_traces_trans}
use belief_ledger_pramana.Engine.Defeat.Support.{
  has_active_undercut, is_supported, candidate_status, is_stale,
}
use belief_ledger_pramana.Engine.Defeat.Round.{open_conflicts, defeat_targets}
use belief_ledger_pramana.Engine.Defeat.Relabel.{
  support_loss_cause, active_edges, base, iterate, ceiling, finish, loop, relabel,
}
use belief_ledger_pramana.Engine.Samples.{trust, source, belief}

-- All that a run computes with.
abbrev running : Unit {0}
unfolding max_stakes trust_profile effective_stakes determine_admission bounded effective_competence
    recency_micros fixed_rule_of compare_values compare_traces type_key priority_trace
    compare_priority has_active_undercut is_supported candidate_status is_stale open_conflicts
    defeat_targets support_loss_cause active_edges base iterate ceiling finish loop relabel
running = tt

determine_admission-in_iff_example :
    ((determine_admission
        (belief 11 Pramana.pratyaksha 1)
        (source 1 Integrity.trusted)
        trust
        Stakes.low
        none).status
      ≡ Status.in_)
    ↔ (((is_ledger SourceKind.tool && is_live Perishability.slow) ≡ false)
        × ((mode_for
                (belief 11 Pramana.pratyaksha 1)
                (source 1 Integrity.trusted)
                trust
                Stakes.low
                none
              ≡ Mode.svatah)
            ⊎ (mode_for
                  (belief 11 Pramana.pratyaksha 1)
                  (source 1 Integrity.trusted)
                  trust
                  Stakes.low
                  none
                ≡ Mode.yogyata)))
determine_admission-in_iff_example =
    determine_admission-in_iff (belief 11 Pramana.pratyaksha 1) (source 1 Integrity.trusted) trust
      Stakes.low none

abbrev trace : ℕ → ℕ → PriorityTrace
trace id rank = record {
  belief_id = id;
  integrity_rank = pos rank;
  type_rank = pos 0;
  reliability_rank = pos 5;
  specificity_rank = pos 0;
  recency_rank = pos 7;
  type_key = TypeKey.plain Pramana.pratyaksha;
  reliability = 5;
}

compare_traces-flip_example :
    ((compare_traces Pramana.anumana Pramana.shabda (trace 2 1) (trace 1 3)).result
      ≡ flip (compare_traces Pramana.shabda Pramana.anumana (trace 1 3) (trace 2 1)).result)
    × ((compare_traces Pramana.anumana Pramana.shabda (trace 2 1) (trace 1 3)).decisive_field
        ≡ (compare_traces Pramana.shabda Pramana.anumana (trace 1 3) (trace 2 1)).decisive_field)
compare_traces-flip_example =
    compare_traces-flip Pramana.shabda Pramana.anumana (trace 1 3) (trace 2 1)

compare_traces_trans_example :
    (compare_traces Pramana.shabda Pramana.anupalabdhi (trace 1 3) (trace 3 4)).result
    ≡ attacker_wins
unfolding running
compare_traces_trans_example =
    compare_traces_trans Pramana.shabda Pramana.anumana Pramana.anupalabdhi (trace 1 3) (trace 2 1)
      (trace 3 4) refl refl
