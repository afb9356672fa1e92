-- ===== src/Enforcement/Tables.antt =====
-- packages/core/src/belief_ledger_core/enforcement.py and the DDL of migrations.py: the bindings,
-- the rows of the four authorization tables, the event payloads and the statements run on them.
-- Every table lists its newest row first, so that the row of `ORDER BY rowid DESC LIMIT 1` is the
-- first that fits. A JSON column holds the value that it encodes.
use belief_ledger_pramana.Prelude.{
  ℕ, Bool, true, false, ◌&&◌, Option, none, some, List, [], ◌∷◌, map, any, ◌==◌, if◌then◌else◌,
}

pub data Scope : Type 0 where
  single_use exact_action : Scope
  other_scope : ℕ → Scope

pub record ApprovalBinding : Type 0 where
  pub schema_version : ℕ
  pub episode_id : ℕ
  pub turn_id : ℕ
  pub namespace : ℕ
  pub tool_name : ℕ
  pub arguments_hash : ℕ
  pub target : ℕ
  pub policy_id : ℕ
  pub policy_revision : ℕ
  pub scope : Scope

pub record ActionBinding : Type 0 where
  pub schema_version : ℕ
  pub episode_id : ℕ
  pub turn_id : ℕ
  pub namespace : ℕ
  pub tool_name : ℕ
  pub arguments_hash : ℕ
  pub target : ℕ
  pub policy_id : ℕ
  pub policy_revision : ℕ
  pub canonicalization_version : ℕ
  pub policy_content_digest : ℕ
  pub config_content_digest : ℕ
  pub stakes : ℕ
  pub supporting_belief_ids : List ℕ
  pub blocking_conflict_ids : List ℕ
  pub approval_receipt_digest : Option ℕ

-- The `state` column of both tables.
pub data RowState : Type 0 where
  issued consumed expired revoked : RowState

abbrev pub is_issued : RowState → Bool
is_issued issued = true
is_issued _ = false

pub record ReceiptRow : Type 0 where
  pub digest : ℕ
  pub binding_digest : ℕ
  pub binding : ApprovalBinding
  pub issued_at : ℕ
  pub expires_at : ℕ
  pub state : RowState

pub record DecisionRow : Type 0 where
  pub token_digest : ℕ
  pub binding_digest : ℕ
  pub binding : ActionBinding
  pub issued_at : ℕ
  pub expires_at : ℕ
  pub state : RowState

pub record Tables : Type 0 where
  pub receipts : List ReceiptRow
  pub decisions : List DecisionRow
  pub supports : List (ℕ × ℕ)
  pub episodes : List (ℕ × ℕ)

abbrev pub empty_tables : Tables
empty_tables = record { receipts = []; decisions = []; supports = []; episodes = [] }

-- The reason codes. `f"TOKEN_{state.upper()}"` is `token_in state`.
pub data Reason : Type 0 where
  token_not_found token_race_lost : Reason
  token_in approval_in : RowState → Reason
  approval_not_found approval_binding_mismatch : Reason
  episode_mismatch turn_mismatch tool_namespace_mismatch tool_name_mismatch : Reason
  arguments_mismatch target_mismatch policy_mismatch policy_revision_mismatch : Reason
  canonicalization_mismatch policy_content_drift config_content_drift stakes_mismatch : Reason
  support_binding_mismatch conflict_binding_mismatch approval_receipt_mismatch : Reason
  episode_finalized support_retracted open_conflict consumed_code : Reason
  custom_reason : ℕ → Reason

-- The kind of an event and its payload.
pub data Payload : Type 0 where
  receipt_issued : ReceiptRow → Payload
  receipt_denied : ℕ → ℕ → ApprovalBinding → ℕ → Payload
  receipt_revoked : ℕ → Reason → Payload
  receipt_consumed : ℕ → Payload
  receipt_expired : ℕ → Payload
  decision_issued : DecisionRow → Payload
  decision_refused : ℕ → Reason → ActionBinding → Payload
  decision_rejected : ℕ → Reason → Payload
  decision_expired : ℕ → Reason → Payload
  decision_revoked : ℕ → Reason → Option ℕ → Payload
  decision_consumed : ℕ → ℕ → Payload

-- `UPDATE approval_receipts SET state=? WHERE digest=? AND state='issued'`
abbrev pub settle_receipt : RowState → ℕ → ReceiptRow → ReceiptRow
settle_receipt to digest r =
    if (r.digest == digest) && is_issued r.state then record r { state = to } else r

-- `UPDATE approval_receipts SET state='revoked' WHERE binding_digest=? AND state='issued'`
abbrev pub revoke_bound : ℕ → ReceiptRow → ReceiptRow
revoke_bound digest r =
    if (r.binding_digest == digest) && is_issued r.state then record r { state = revoked } else r

-- `UPDATE action_decisions SET state=? WHERE token_digest=? AND state='issued'`
abbrev pub settle_decision : RowState → ℕ → DecisionRow → DecisionRow
settle_decision to digest d =
    if (d.token_digest == digest) && is_issued d.state then record d { state = to } else d

unfoldable pub settle_receipts : RowState → ℕ → Tables → Tables
settle_receipts to digest t = record t { receipts = map (settle_receipt to digest) t.receipts }

unfoldable pub revoke_bound_receipts : ℕ → Tables → Tables
revoke_bound_receipts digest t = record t { receipts = map (revoke_bound digest) t.receipts }

unfoldable pub settle_decisions : RowState → ℕ → Tables → Tables
settle_decisions to digest t = record t { decisions = map (settle_decision to digest) t.decisions }

-- `INSERT INTO approval_receipts`: `none` is an `IntegrityError` on the primary key.
unfoldable pub insert_receipt : ReceiptRow → Tables → Option Tables
insert_receipt r t =
    if any (λ x. x.digest == r.digest) t.receipts
    then none
    else some (record t { receipts = r ∷ t.receipts })

-- `executemany("INSERT INTO action_decision_supports")`, with its two-column primary key.
unfoldable pub insert_supports : ℕ → List ℕ → List (ℕ × ℕ) → Option (List (ℕ × ℕ))
insert_supports digest [] rows = some rows
insert_supports digest (b ∷ bs) rows =
    let rest = insert_supports digest bs ((digest, b) ∷ rows) in
    if any (λ x. (x.0 == digest) && (x.1 == b)) rows then none else rest

-- The three `INSERT`s of an issued permit.
unfoldable pub insert_decision : DecisionRow → Tables → Option Tables
unfolding insert_supports
insert_decision d t =
    if any (λ x. x.token_digest == d.token_digest) t.decisions
    then none
    else elim (insert_supports d.token_digest d.binding.supporting_belief_ids t.supports) [
      | none ↦ none
      | some supports ↦
          if any (λ x. x.0 == d.token_digest) t.episodes
          then none
          else some (record t {
            decisions = d ∷ t.decisions;
            supports = supports;
            episodes = (d.token_digest, d.binding.episode_id) ∷ t.episodes;
          })
    ]
