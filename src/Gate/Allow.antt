-- ===== src/Gate/Allow.antt =====
-- packages/core/src/belief_ledger_core/gate/decision.py: when the gate allows an action, and when it
-- asks for an approval.
use belief_ledger_pramana.Prelude.{
  All, All-In, In-All, ◌≡◌, refl, sym, ◌∙◌, ◌≢◌, ◌⊎◌, inl, inr, Bool, true, false, not, Option,
  some, List, arith, if◌then◌else◌,
}
use Prim.Native.String.{String}
use belief_ledger_pramana.Models.{GateDecision, GateOutcome, Stakes, Value}
use belief_ledger_pramana.Gate.Preconditions.{Name, Texts}
use belief_ledger_pramana.Gate.Decision.{
  ActionClassification, GateConfig, LedgerView, gate_stakes, names_for, missing_of, checks_for,
  evaluate,
}
use belief_ledger_pramana.Gate.Checks.{decide-allow}
use belief_ledger_pramana.Gate.Met.{IsMet, IsMet-plain, checks_for-IsMet, names_for-confirmation}

-- The three ways through the tests of `evaluate` to a decision that a block is not.
routes :
    (enabled unknown effectful : Bool) (off block read rest : GateDecision × Bool)
    → block.0.outcome ≡ GateOutcome.block
    → (wanted : GateOutcome) → wanted ≢ GateOutcome.block
    → (if not enabled
        then off
        else if unknown
        then block
        else if not effectful
        then read
        else rest).0.outcome
      ≡ wanted
    → ((enabled ≡ false) × (off.0.outcome ≡ wanted))
      ⊎ (((effectful ≡ false) × (read.0.outcome ≡ wanted)) ⊎ (rest.0.outcome ≡ wanted))
routes false unknown effectful off block read rest b w k h = inl (refl, h)
routes true true effectful off block read rest b w k h = absurd (k (sym h ∙ b))
routes true false false off block read rest b w k h = inr (inl (refl, h))
routes true false true off block read rest b w k h = inr (inr h)

module _ (texts : Texts) (config : GateConfig) (view : LedgerView) (tool_name : String)
    (args : List (String × Value)) (classification : ActionClassification)
    (action_stakes : Option Stakes) where
  pub evaluate-allow :
      (evaluate texts config (some view) tool_name args classification action_stakes).0.outcome
        ≡ GateOutcome.allow
      → (config.enabled ≡ false)
        ⊎ ((classification.policy.effectful ≡ false)
            ⊎ All
                (IsMet texts config view classification.policy args
                  (gate_stakes view classification.policy action_stakes))
                (names_for config classification.policy
                  (gate_stakes view classification.policy action_stakes)))
  unfolding evaluate
  evaluate-allow h =
      let stakes = gate_stakes view classification.policy action_stakes in
      elim (routes config.enabled _ classification.policy.effectful _ _ _ _ refl GateOutcome.allow
        (λ e. ground (arith, e)) h) [
          | inl (off, _) ↦ inl off
          | inr (inl (read_only, _)) ↦ inr (inl read_only)
          | inr (inr decided) ↦ inr (
              inr (
                In-All _ _ (
                  checks_for-IsMet texts config view classification.policy args stakes (
                    decide-allow config classification.policy stakes
                      (missing_of (checks_for texts config view classification.policy args stakes))
                      decided))))
        ]

  -- While the gate is enabled and critical actions want a confirmation, an effectful action at
  -- critical stakes is never allowed outright.
  pub evaluate-critical :
      config.enabled ≡ true
      → classification.policy.effectful ≡ true
      → config.critical_human_confirmation ≡ true
      → gate_stakes view classification.policy action_stakes ≡ Stakes.critical
      → (evaluate texts config (some view) tool_name args classification action_stakes).0.outcome
        ≢ GateOutcome.allow
  evaluate-critical on effectful wanted is_top h = elim (evaluate-allow h) [
    | inl off ↦ absurd (ground (arith, on, off))
    | inr (inl read_only) ↦ absurd (ground (arith, effectful, read_only))
    | inr (inr met) ↦ absurd (
        ground (
          arith,
          IsMet-plain texts config view classification.policy args _ Name.explicit_user_confirmation
              (All-In _ Name.explicit_user_confirmation _ met
                (names_for-confirmation config classification.policy _ wanted is_top)),
        ))
  ]
