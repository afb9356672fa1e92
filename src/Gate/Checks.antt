-- ===== src/Gate/Checks.antt =====
-- packages/core/src/belief_ledger_core/gate/decision.py: the loop over the checks and the decision on
-- those that are missing.
use belief_ledger_pramana.Prelude.{
  ℕ, ◌≡◌, refl, ap, ◌∙◌, subst, inl, inr, Bool, true, false, ◌&&◌, not, Option, none, some, List,
  [], ◌∷◌, In, arith, on_option, if◌then◌else◌,
}
use Prim.Native.String.{String}
use belief_ledger_pramana.Models.{Belief, GateOutcome, Source, Stakes, Status, is_in}
use belief_ledger_pramana.Engine.Trust.{TrustDecision, determine_admission}
use belief_ledger_pramana.Gate.Preconditions.{
  CheckReason, PreconditionResult, is_confirmation, source_at, belief_at,
}
use belief_ledger_pramana.Gate.Decision.{
  ActionPolicy, GateConfig, LedgerView, unsatisfied, elevate, missing_of, decide,
}

-- The belief that satisfied a check is there with its source, and is admitted as IN at the stakes.
pub record IsAdmitted (config : GateConfig) (view : LedgerView) (stakes : Stakes) (id : ℕ)
    : Type 0 where
  pub belief : Belief
  pub source : Source
  pub found : belief_at view.beliefs id ≡ some belief
  pub has_source : source_at view.sources belief.source_id ≡ some source
  pub admitted :
      (determine_admission belief source config.trust view.default_stakes (some stakes)).status
      ≡ Status.in_

status-in : (s : Status) → is_in s ≡ true → s ≡ Status.in_
status-in s h = ground arith

module _ (config : GateConfig) (view : LedgerView) (stakes : Stakes)
    (check : PreconditionResult) where
  -- A check that survives the admission of its belief.
  kept-IsAdmitted :
      (id : ℕ) (b : Belief) (s : Source) (t : Bool) (reason : CheckReason) (suggestion : String)
      → belief_at view.beliefs id ≡ some b
      → source_at view.sources b.source_id ≡ some s
      → is_in (determine_admission b s config.trust view.default_stakes (some stakes)).status ≡ t
      → (if t then check else unsatisfied reason suggestion check).satisfied ≡ true
      → IsAdmitted config view stakes id
  kept-IsAdmitted id b s true reason suggestion found has e h = record {
    belief = b;
    source = s;
    found = found;
    has_source = has;
    admitted = status-in _ e;
  }
  kept-IsAdmitted id b s false reason suggestion found has e h = absurd (ground (arith, h))

  -- A check that stays satisfied was satisfied, and its belief is admitted.
  pub elevate-satisfied :
      (elevate config view stakes check).satisfied ≡ true
      → (check.satisfied ≡ true)
        × ((id : ℕ) → check.belief_id ≡ some id → IsAdmitted config view stakes id)
  unfolding elevate
  elevate-satisfied h = split check.satisfied refl h
    where
      missing : PreconditionResult
      missing =
          unsatisfied CheckReason.unavailable "Re-observe this precondition before retrying" check

      judge : Belief → Source → PreconditionResult
      judge b s =
          let admission : TrustDecision =
            determine_admission b s config.trust view.default_stakes (some stakes) in
          if is_in admission.status
          then check
          else unsatisfied (CheckReason.requires admission.mode)
              "Verify this precondition at the action's effective stakes" check

      with_source : Belief → Option Source → PreconditionResult
      with_source b o = on_option o missing (judge b)

      with_belief : Option Belief → PreconditionResult
      with_belief o = on_option o missing (λ b. with_source b (source_at view.sources b.source_id))

      with_id : Option ℕ → PreconditionResult
      with_id o = on_option o check (λ id. with_belief (belief_at view.beliefs id))

      by_source :
          (id : ℕ) (b : Belief) (o : Option Source)
          → belief_at view.beliefs id ≡ some b
          → source_at view.sources b.source_id ≡ o
          → (with_source b o).satisfied ≡ true
          → IsAdmitted config view stakes id
      by_source id b none found e k = absurd (ground (arith, k))
      by_source id b (some s) found e k = kept-IsAdmitted id b s _ _ _ found e refl k

      by_belief :
          (id : ℕ) (o : Option Belief)
          → belief_at view.beliefs id ≡ o
          → (with_belief o).satisfied ≡ true
          → IsAdmitted config view stakes id
      by_belief id none e k = absurd (ground (arith, k))
      by_belief id (some b) e k = by_source id b (source_at view.sources b.source_id) e refl k

      split :
          (t : Bool)
          → check.satisfied ≡ t
          → (if t then with_id check.belief_id else check).satisfied ≡ true
          → (check.satisfied ≡ true)
            × ((id : ℕ) → check.belief_id ≡ some id → IsAdmitted config view stakes id)
      split true e k = (
        e,
        λ id at_id.
            by_belief id (belief_at view.beliefs id) refl
              (subst (λ o. (with_id o).satisfied ≡ true) at_id k),
      )
      split false e k = absurd (ground (arith, e, k))

-- No check is missing only if all are satisfied.
pub missing_of-none :
    (checks : List PreconditionResult) (c : PreconditionResult)
    → missing_of checks ≡ []
    → In c checks
    → c.satisfied ≡ true
missing_of-none [] c h k = absurd k
missing_of-none (x ∷ rest) c h k = split x.satisfied refl h (missing_of-none rest c)
  where
    split :
        (t : Bool)
        → x.satisfied ≡ t
        → (if not t then x ∷ missing_of rest else missing_of rest) ≡ []
        → (missing_of rest ≡ [] → In c rest → c.satisfied ≡ true)
        → c.satisfied ≡ true
    split true e m later = elim k [
      | inl same ↦ ap (λ (y : PreconditionResult). y.satisfied) same ∙ e
      | inr member ↦ later m member
    ]
    split false e m later = absurd (ground (arith, m))

pub decide-allow :
    (config : GateConfig) (policy : ActionPolicy) (stakes : Stakes)
    (missing : List PreconditionResult)
    → (decide config policy stakes missing).outcome ≡ GateOutcome.allow
    → missing ≡ []
unfolding decide
decide-allow config policy stakes [] h = refl
decide-allow config policy stakes (c ∷ []) h = absurd (ground (arith, h))
decide-allow config policy stakes (c ∷ d ∷ rest) h = absurd (ground (arith, h))

pub decide-approve :
    (config : GateConfig) (policy : ActionPolicy) (stakes : Stakes)
    (missing : List PreconditionResult)
    → (decide config policy stakes missing).outcome ≡ GateOutcome.approve
    → (policy.allow_human_approval ≡ true)
      × (config.allow_human_approval ≡ true)
      × ((c : PreconditionResult) × (missing ≡ c ∷ []) × (is_confirmation c.name ≡ true))
unfolding decide
decide-approve config policy stakes [] h = absurd (ground (arith, h))
decide-approve config policy stakes (c ∷ []) h =
    let all_three : (policy.allow_human_approval
          && config.allow_human_approval
          && is_confirmation c.name)
        ≡ true =
      ground (arith, h) in
    (ground (arith, all_three), ground (arith, all_three), (c, refl, ground (arith, all_three)))
decide-approve config policy stakes (c ∷ d ∷ rest) h = absurd (ground (arith, h))
