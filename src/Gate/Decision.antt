-- ===== src/Gate/Decision.antt =====
-- packages/core/src/belief_ledger_core/gate/decision.py: `ActionGate.evaluate`.
use Prim.Native.String.{String, ◌++◌ as join}
use belief_ledger_pramana.Prelude.{
  Bool, true, false, ◌&&◌, not, Option, none, some, List, [], ◌∷◌, ◌++◌, map, any, select,
  on_option, if◌then◌else◌,
}
use belief_ledger_pramana.Models.{
  Belief, Conflict, GateDecision, GateOutcome, Source, Stakes, Value, is_critical, is_in,
  max_stakes,
}
use belief_ledger_pramana.Engine.Trust.{TrustConfig, TrustDecision, determine_admission}
use belief_ledger_pramana.Gate.Preconditions.{
  Name, Texts, CheckReason, PreconditionResult, is_confirmation, source_at, belief_at, target_of,
  resolve_preconditions,
}

-- What the gate reads of an `ActionPolicy` and an `ActionClassification`.
pub record ActionPolicy : Type 0 where
  pub id : String
  pub base_stakes : Stakes
  pub effectful : Bool
  pub minimum_priority : String
  pub allow_human_approval : Bool
  pub target_fields : List String
  pub preconditions : List Name

pub record ActionClassification : Type 0 where
  pub policy : ActionPolicy
  pub known : Bool
  pub reason : String

-- What the gate reads of the configuration.
pub record GateConfig : Type 0 where
  pub enforce : Bool
  pub enabled : Bool
  pub allow_human_approval : Bool
  pub critical_human_confirmation : Bool
  pub trust : TrustConfig

-- The answers of the reader for the episode of the call; the beliefs in the order of their
-- identifiers, the conflicts those that are open.
pub record LedgerView : Type 0 where
  pub default_stakes : Stakes
  pub beliefs : List Belief
  pub sources : List Source
  pub conflicts : List Conflict

-- `stakes` of `evaluate`.
unfoldable pub gate_stakes : LedgerView → ActionPolicy → Option Stakes → Stakes
gate_stakes view policy action_stakes =
    max_stakes
      (view.default_stakes ∷ policy.base_stakes ∷ on_option action_stakes Stakes.low (λ s. s) ∷ [])

-- The names to resolve: critical actions also want a confirmation, where it is configured.
unfoldable pub names_for : GateConfig → ActionPolicy → Stakes → List Name
names_for config policy stakes =
    if is_critical stakes
      && config.critical_human_confirmation
      && not (any is_confirmation policy.preconditions)
    then policy.preconditions ++ Name.explicit_user_confirmation ∷ []
    else policy.preconditions

abbrev pub unsatisfied : CheckReason → String → PreconditionResult → PreconditionResult
unsatisfied reason suggestion check = record check {
  satisfied = false;
  reason = reason;
  suggestion = suggestion;
}

-- The body of the loop over the checks: a check that a belief satisfies is confirmed at the stakes of
-- the action.
unfoldable pub elevate : GateConfig → LedgerView → Stakes → PreconditionResult → PreconditionResult
elevate config view stakes check =
    if check.satisfied
    then on_option check.belief_id check (λ id.
      on_option (belief_at view.beliefs id)
        (unsatisfied CheckReason.unavailable "Re-observe this precondition before retrying" check)
        (λ b.
          on_option (source_at view.sources b.source_id)
            (unsatisfied CheckReason.unavailable "Re-observe this precondition before retrying"
              check)
            (λ s.
              let admission : TrustDecision =
                determine_admission b s config.trust view.default_stakes (some stakes) in
              if is_in admission.status
              then check
              else unsatisfied (CheckReason.requires admission.mode)
                  "Verify this precondition at the action's effective stakes" check)))
    else check

abbrev pub missing_of : List PreconditionResult → List PreconditionResult
missing_of checks = select (λ c. not c.satisfied) checks

abbrev pub allowed : String → String → Stakes → GateDecision
allowed code message stakes = record {
  outcome = GateOutcome.allow;
  reason_code = code;
  message = message;
  stakes = stakes;
  missing = [];
  suggested_observation = none;
  rule_key = none;
}

abbrev pub blocked : String → String → Stakes → List String → String → GateDecision
blocked code message stakes missing suggestion = record {
  outcome = GateOutcome.block;
  reason_code = code;
  message = message;
  stakes = stakes;
  missing = missing;
  suggested_observation = some suggestion;
  rule_key = none;
}

abbrev pub approval_wanted : ActionPolicy → Stakes → String → GateDecision
approval_wanted policy stakes text = record {
  outcome = GateOutcome.approve;
  reason_code = "HUMAN_CONFIRMATION_REQUIRED";
  message = join "Human confirmation required: " text;
  stakes = stakes;
  missing = text ∷ [];
  suggested_observation = some "Confirm or deny through the host approval surface";
  rule_key = some (join "belief-ledger:" policy.id);
}

-- The decision on the unsatisfied checks.
unfoldable pub decide : GateConfig → ActionPolicy → Stakes → List PreconditionResult → GateDecision
decide config policy stakes [] =
    allowed "PRECONDITIONS_SATISFIED" "All action preconditions are IN" stakes
decide config policy stakes (check ∷ []) =
    if policy.allow_human_approval && config.allow_human_approval && is_confirmation check.name
    then approval_wanted policy stakes check.proposition
    else blocked "MISSING_PRECONDITION" (join "BLOCKED [MISSING_PRECONDITION]: " check.proposition)
        stakes (check.proposition ∷ []) check.suggestion
decide config policy stakes (check ∷ other ∷ rest) =
    blocked "MISSING_PRECONDITION" (join "BLOCKED [MISSING_PRECONDITION]: " check.proposition)
      stakes (map (λ c. c.proposition) (check ∷ other ∷ rest)) check.suggestion

module _ (texts : Texts) (config : GateConfig) where
  -- The checks after the loop over them.
  unfoldable pub checks_for :
      LedgerView → ActionPolicy → List (String × Value) → Stakes → List PreconditionResult
  checks_for view policy args stakes = map (elevate config view stakes) (
      resolve_preconditions texts (names_for config policy stakes)
        (target_of texts args policy.target_fields) view.beliefs view.sources view.conflicts
        policy.minimum_priority)

  -- `evaluate`, from the classification on, with whether the decision is recorded: it is, unless
  -- there is no episode.
  unfoldable pub evaluate :
      Option LedgerView
      → String
      → List (String × Value)
      → ActionClassification
      → Option Stakes
      → GateDecision × Bool
  evaluate episode tool_name args classification action_stakes = elim episode [
    | none ↦ (
      blocked "EPISODE_UNAVAILABLE" "BLOCKED [EPISODE_UNAVAILABLE]: no ledger episode is available"
          Stakes.high ("ledger episode" ∷ []) "Retry after session initialization",
      false,
    )
    | some view ↦
        let policy = classification.policy in
        let stakes = gate_stakes view policy action_stakes in
        if not config.enabled
        then (allowed "GATE_DISABLED" "Gate disabled by operator" stakes, true)
        else if not classification.known && policy.effectful && config.enforce
        then (
          blocked "UNKNOWN_EFFECTFUL_TOOL"
              (join "BLOCKED [UNKNOWN_EFFECTFUL_TOOL]: operator action-policy rule is missing for "
                tool_name)
              stakes ("operator action-policy rule" ∷ [])
              "Add an exact or anchored action-policy rule, then retry",
          true,
        )
        else if not policy.effectful
        then (allowed "READ_ONLY" "Known read-only action" stakes, true)
        else (decide config policy stakes (missing_of (checks_for view policy args stakes)), true)
  ]
