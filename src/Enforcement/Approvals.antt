-- ===== src/Enforcement/Approvals.antt =====
-- packages/core/src/belief_ledger_core/enforcement.py: approval receipts. A receipt is issued,
-- revoked or denied, read by `current_approval`, and tested by `_approval_reason` for a permit.
use belief_ledger_pramana.Prelude.{
  ℕ, ◌+◌, Bool, true, false, ◌&&◌, Option, none, some, List, any, find, length, select, ◌==◌, leb,
  on_option, if◌then◌else◌,
}
use belief_ledger_pramana.Enforcement.Tables.{
  ApprovalBinding, ActionBinding, Scope, ReceiptRow, RowState, is_issued, Tables, Reason, Payload,
  settle_receipts, revoke_bound_receipts, insert_receipt,
}
use belief_ledger_pramana.Enforcement.Store.{
  Dependencies, Error, Tx, ◌>>=◌, ◌>>◌, pure, fail, gets, atomically, run_sql, now, new_id,
  append_event,
}

abbrev pub same_scope : Scope → Scope → Bool
same_scope Scope.single_use Scope.single_use = true
same_scope Scope.exact_action Scope.exact_action = true
same_scope (Scope.other_scope a) (Scope.other_scope b) = a == b
same_scope _ _ = false

-- `approval == expected` on the fields of the two bindings.
abbrev pub same_approval : ApprovalBinding → ApprovalBinding → Bool
same_approval a b =
    (a.schema_version == b.schema_version)
    && (a.episode_id == b.episode_id)
    && (a.turn_id == b.turn_id)
    && (a.namespace == b.namespace)
    && (a.tool_name == b.tool_name)
    && (a.arguments_hash == b.arguments_hash)
    && (a.target == b.target)
    && (a.policy_id == b.policy_id)
    && (a.policy_revision == b.policy_revision)
    && same_scope a.scope b.scope

-- The approval that a permit with this binding needs, of the scope that was granted.
abbrev pub expected_approval : ActionBinding → Scope → ApprovalBinding
expected_approval b scope = record {
  schema_version = 1;
  episode_id = b.episode_id;
  turn_id = b.turn_id;
  namespace = b.namespace;
  tool_name = b.tool_name;
  arguments_hash = b.arguments_hash;
  target = b.target;
  policy_id = b.policy_id;
  policy_revision = b.policy_revision;
  scope = scope;
}

abbrev pub revoked_count : ℕ → List ReceiptRow → ℕ
revoked_count digest rows =
    length (select (λ r. (r.binding_digest == digest) && is_issued r.state) rows)

abbrev pub find_receipt : ℕ → Tables → Option ReceiptRow
find_receipt digest t = find (λ r. r.digest == digest) t.receipts

-- `if state == "consumed" and allow_consumed: state = "issued"`
abbrev pub effective_state : Bool → RowState → RowState
effective_state true RowState.consumed = RowState.issued
effective_state _ state = state

module _ (deps : Dependencies) where
  -- The transaction of `issue_approval` for an approval that is granted.
  unfoldable pub grant_approval : ReceiptRow → Tx (Option ReceiptRow)
  grant_approval row = do
    run_sql (insert_receipt row)
    append_event deps (Payload.receipt_issued row)
    pure (some row)

  -- The transaction for one that is denied: it revokes what was granted for the same binding.
  unfoldable pub deny_approval : ReceiptRow → Tx (Option ReceiptRow)
  deny_approval row = do
    n ← gets (λ s. revoked_count row.binding_digest s.tables.receipts)
    run_sql (λ t. some (revoke_bound_receipts row.binding_digest t))
    append_event deps (Payload.receipt_denied row.digest row.binding_digest row.binding n)
    pure none

  abbrev pub new_receipt : ApprovalBinding → ℕ → ℕ → ℕ → ReceiptRow
  new_receipt binding ttl at receipt_id = record {
    digest = deps.receipt_digest receipt_id binding;
    binding_digest = deps.approval_digest binding;
    binding = binding;
    issued_at = at;
    expires_at = at + ttl;
    state = RowState.issued;
  }

  -- `issue_approval`: `none` when the approval is denied.
  unfoldable pub issue_approval : ApprovalBinding → ℕ → Bool → Tx (Option ReceiptRow)
  issue_approval binding ttl approved = if ttl == 0 then fail Error.ttl_not_positive else (do
    at ← now deps
    receipt_id ← new_id deps
    atomically (
        if approved
        then grant_approval (new_receipt binding ttl at receipt_id)
        else deny_approval (new_receipt binding ttl at receipt_id)))

  -- `revoke_approval`: whether an issued receipt was revoked.
  unfoldable pub revoke_approval : ℕ → Reason → Tx Bool
  revoke_approval digest reason = atomically (do
    found ← gets (λ s. any (λ r. (r.digest == digest) && is_issued r.state) s.tables.receipts)
    run_sql (λ t. some (settle_receipts RowState.revoked digest t))
    if found
        then (do append_event deps (Payload.receipt_revoked digest reason); pure true)
        else pure false)

  -- `current_approval`, for the newest row with the binding's digest.
  unfoldable pub current_approval : ApprovalBinding → Tx (Option ReceiptRow)
  current_approval binding = do
    row ← gets (λ s. find (λ r. r.binding_digest == deps.approval_digest binding) s.tables.receipts)
    on_option row (pure none) (λ r.
        if is_issued r.state
        then (do at ← now deps; pure (if leb r.expires_at at then none else some r))
        else pure none)

  -- The expiry branch of `_approval_reason`.
  unfoldable pub expire_receipt : ℕ → Tx (Option Reason)
  expire_receipt digest = do
    run_sql (λ t. some (settle_receipts RowState.expired digest t))
    append_event deps (Payload.receipt_expired digest)
    pure (some (Reason.approval_in RowState.expired))

  -- `_approval_reason` on the row that was found.
  unfoldable pub judge_receipt : ActionBinding → Bool → ReceiptRow → Tx (Option Reason)
  judge_receipt binding allow_consumed r =
      if is_issued (effective_state allow_consumed r.state)
      then (do
        at ← now deps
        if leb r.expires_at at
            then expire_receipt r.digest
            else pure (
                if same_approval r.binding (expected_approval binding r.binding.scope)
                then none
                else some Reason.approval_binding_mismatch))
      else pure (some (Reason.approval_in (effective_state allow_consumed r.state)))

  -- `_approval_reason`: `none` when nothing speaks against the permit.
  unfoldable pub approval_reason : ActionBinding → Bool → Tx (Option Reason)
  approval_reason binding allow_consumed =
      on_option binding.approval_receipt_digest (pure none) (λ digest. do
        row ← gets (λ s. find_receipt digest s.tables)
        on_option row (pure (some Reason.approval_not_found))
            (judge_receipt binding allow_consumed))
