-- ===== src/Gate/Tests.antt =====
-- packages/core/src/belief_ledger_core/gate: decisions on small inputs, and the theorems at them.
use Prim.Native.String.{String}
use belief_ledger_pramana.Prelude.{refl, ◌≢◌, true, none, some, List, [], ◌∷◌}
use belief_ledger_pramana.Models.{
  GateOutcome, Integrity, Perishability, Pramana, SourceKind, Stakes, Status, Value, max_stakes,
}
use belief_ledger_pramana.Engine.Trust.{
  TrustConfig, Mode, trust_profile, effective_stakes, determine_admission,
}
use belief_ledger_pramana.Gate.Preconditions.{
  Name, Texts, proposition, contains_negation, entails, entailing_belief, conflict_affects_target,
  resolve_name,
}
use belief_ledger_pramana.Gate.Decision.{
  ActionClassification, GateConfig, LedgerView, gate_stakes, names_for, elevate, decide, checks_for,
  evaluate,
}
use belief_ledger_pramana.Gate.Allow.{evaluate-critical}

-- All that a decision computes with.
abbrev running : Unit {0}
unfolding max_stakes trust_profile effective_stakes determine_admission proposition
    contains_negation entails entailing_belief conflict_affects_target resolve_name gate_stakes
    names_for elevate decide checks_for evaluate
running = tt

abbrev texts : Texts
texts = record {
  normalize = λ s. s;
  split = λ s. s ∷ [];
  unquoted = λ s. s;
  parent_of = λ s. s;
  shown = λ v. elim v [ Value.text s ↦ s | _ ↦ "" ];
}

abbrev trust : TrustConfig
trust = record {
  matrix = λ p s. record { mode = Mode.svatah; k = 0; method = none };
  minimum_samples = 3;
  alpha_prior = 1;
  beta_prior = 1;
  floor = 2;
  ceiling = 9;
}

abbrev config : GateConfig
config = record {
  enforce = true;
  enabled = true;
  allow_human_approval = true;
  critical_human_confirmation = true;
  trust = trust;
}

abbrev target : String
target = "Target /tmp/a exists"

abbrev view : LedgerView
view = record {
  default_stakes = Stakes.low;
  beliefs =
      record {
        id = 1;
        episode_id = 1;
        content = target;
        normalized_content = target;
        pramana = Pramana.pratyaksha;
        source_id = 2;
        evidence = [];
        justifications = [];
        qualifiers = [];
        perishability = Perishability.slow;
        observed_at = 1_000;
        stakes = Stakes.low;
        status = Status.in_;
        admission_status = Status.in_;
        domain = "general";
        confidence = none;
        corroboration = 1;
        validity = [];
      }
      ∷ [];
  sources =
      record {
        id = 2;
        episode_id = 1;
        kind = SourceKind.tool;
        integrity = Integrity.trusted;
        name = "stat";
        root = "stat";
        competence = [];
        stats = record { confirmed = 0; defeated = 0; samples = 0 };
      }
      ∷ [];
  conflicts = [];
}

abbrev action : List Name → ActionClassification
action names = record {
  policy = record {
    id = "delete";
    base_stakes = Stakes.med;
    effectful = true;
    minimum_priority = "trusted";
    allow_human_approval = true;
    target_fields = "path" ∷ [];
    preconditions = names;
  };
  known = true;
  reason = "exact rule";
}

abbrev args : List (String × Value)
args = ("path", Value.text "/tmp/a") ∷ []

abbrev checked : ActionClassification
checked = action (Name.target_exists ∷ Name.no_open_conflict ∷ [])

abbrev confirmed : ActionClassification
confirmed = action (Name.target_exists ∷ Name.explicit_user_confirmation ∷ [])

evaluate-critical_example :
    (evaluate texts config (some view) "delete" args checked (some Stakes.critical)).0.outcome
    ≢ GateOutcome.allow
unfolding running
evaluate-critical_example =
    evaluate-critical texts config view "delete" args checked (some Stakes.critical) refl refl refl
      refl
