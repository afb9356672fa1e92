-- ===== src/Enforcement/Premises.antt =====
-- packages/core/src/belief_ledger_core/enforcement.py: what is validated again when a permit is
-- consumed: its binding field by field, and the ledger's projections where the database has them.
use belief_ledger_pramana.Prelude.{
  ℕ, Bool, true, false, ◌&&◌, Option, none, some, List, [], ◌∷◌, any, find, length, select,
  contains, option_eq, ◌==◌, if◌then◌else◌,
}
use belief_ledger_pramana.Enforcement.Tables.{ActionBinding, Reason}

abbrev pub same_ids : List ℕ → List ℕ → Bool
same_ids [] [] = true
same_ids (a ∷ xs) (b ∷ ys) = (a == b) && same_ids xs ys
same_ids _ _ = false

-- The first of these tests that fails gives the reason.
abbrev pub first_failure : List (Bool × Reason) → Option Reason
first_failure [] = none
first_failure ((test, reason) ∷ rest) = if test then first_failure rest else some reason

-- The table `checks` of `_binding_mismatch`.
abbrev pub checks : ActionBinding → ActionBinding → List (Bool × Reason)
checks x y =
    ((x.episode_id == y.episode_id, Reason.episode_mismatch)
      ∷ (x.turn_id == y.turn_id, Reason.turn_mismatch)
      ∷ (x.namespace == y.namespace, Reason.tool_namespace_mismatch)
      ∷ (x.tool_name == y.tool_name, Reason.tool_name_mismatch)
      ∷ (x.arguments_hash == y.arguments_hash, Reason.arguments_mismatch)
      ∷ (x.target == y.target, Reason.target_mismatch)
      ∷ (x.policy_id == y.policy_id, Reason.policy_mismatch)
      ∷ (x.policy_revision == y.policy_revision, Reason.policy_revision_mismatch)
      ∷ (x.canonicalization_version == y.canonicalization_version, Reason.canonicalization_mismatch)
      ∷ (x.policy_content_digest == y.policy_content_digest, Reason.policy_content_drift)
      ∷ (x.config_content_digest == y.config_content_digest, Reason.config_content_drift)
      ∷ (x.stakes == y.stakes, Reason.stakes_mismatch)
      ∷ (same_ids x.supporting_belief_ids y.supporting_belief_ids, Reason.support_binding_mismatch)
      ∷ (same_ids x.blocking_conflict_ids y.blocking_conflict_ids, Reason.conflict_binding_mismatch)
      ∷ (
        option_eq x.approval_receipt_digest y.approval_receipt_digest,
        Reason.approval_receipt_mismatch,
      )
      ∷ [])

-- `_binding_mismatch`
unfoldable pub binding_mismatch : ActionBinding → ActionBinding → Option Reason
binding_mismatch x y = first_failure (checks x y)

-- A row of the ledger's `beliefs`, `episodes` or `conflicts`, with its state as a test:
-- `status = 'in'`, `state = 'active'`, `state = 'open'`.
pub record LedgerRow : Type 0 where
  pub id : ℕ
  pub episode_id : ℕ
  pub holds : Bool

-- A projection that is there, that was there when the store was opened and has gone, or that this
-- database never carried.
pub data Projection : Type 0 where
  readable : List LedgerRow → Projection
  dropped absent : Projection

pub record Ledger : Type 0 where
  pub beliefs : Projection
  pub episodes : Projection
  pub conflicts : Projection

-- `_projection_readable`, and then a test of the rows.
abbrev pub if_readable : Projection → (List LedgerRow → Bool) → Option Bool
if_readable (readable rows) test = some (test rows)
if_readable dropped test = some false
if_readable absent test = none

-- `_stored_supports_are_active`
unfoldable pub stored_supports_are_active : Ledger → ActionBinding → Option Bool
stored_supports_are_active l b = elim b.supporting_belief_ids [
  | [] ↦ some true
  | _ ∷ _ ↦ if_readable l.beliefs (λ rows.
      length (
        select
          (λ r. (r.episode_id == b.episode_id) && r.holds && contains r.id b.supporting_belief_ids)
          rows)
      == length b.supporting_belief_ids)
]

-- `_stored_episode_is_active`
unfoldable pub stored_episode_is_active : Ledger → ActionBinding → Option Bool
stored_episode_is_active l b =
    if_readable l.episodes
      (λ rows. elim (find (λ r. r.id == b.episode_id) rows) [ none ↦ false | some r ↦ r.holds ])

-- `_stored_conflicts_are_closed`: episode-wide first, then for the conflicts that are named.
unfoldable pub stored_conflicts_are_closed : Ledger → ActionBinding → Option Bool
stored_conflicts_are_closed l b = if_readable l.conflicts (λ rows.
    if any (λ r. (r.episode_id == b.episode_id) && r.holds) rows
    then false
    else elim b.blocking_conflict_ids [
      | [] ↦ true
      | _ ∷ _ ↦
          length (
            select
              (λ r.
                (r.episode_id == b.episode_id) && contains r.id b.blocking_conflict_ids && r.holds)
              rows)
          == 0
    ])

-- `_resolve`
abbrev pub resolve : Option Bool → Option Bool → Bool
resolve (some false) callback = false
resolve _ (some answer) = answer
resolve _ none = true
