-- ===== src/Enforcement/ApprovalsKeep.antt =====
-- packages/core/src/belief_ledger_core/enforcement.py: the operations on approvals, by the rules
-- for transactions.
use belief_ledger_pramana.Prelude.{
  ℕ, ◌≡◌, refl, Bool, false, ◌&&◌, List, [], ◌∷◌, map, any, arith, ap, sym, leb, ◌==◌,
}
use belief_ledger_pramana.Enforcement.Tables.{
  ApprovalBinding, ActionBinding, Tables, Payload, ReceiptRow, RowState, is_issued, Reason,
  insert_receipt, settle_receipt, settle_receipts,
}
use belief_ledger_pramana.Enforcement.Store.{Event, Dependencies}
use belief_ledger_pramana.Enforcement.Replay.{apply_event}
use belief_ledger_pramana.Enforcement.Rules.{
  IsLogged, Commits, Keeps, Commits-if, Commits-pure, Commits-on_option, Keeps-fail, Keeps-now,
  Keeps-new_id, Commits-gets, Commits-now, Commits-write, Commits-counted, Keeps-pure, Keeps-gets,
  Keeps-on_option, Keeps-atomically, Keeps-if,
}
use belief_ledger_pramana.Enforcement.Approvals.{
  issue_approval, grant_approval, deny_approval, revoke_approval, current_approval, expire_receipt,
  effective_state, judge_receipt, approval_reason,
}

-- A statement that finds no issued row changes nothing.
settle_receipts_absent :
    (to : RowState) (digest : ℕ) (rows : List ReceiptRow)
    → any (λ r. (r.digest == digest) && is_issued r.state) rows ≡ false
    → map (settle_receipt to digest) rows ≡ rows
settle_receipts_absent to digest [] h = refl
settle_receipts_absent to digest (r ∷ rows) h =
    ground (arith, settle_receipts_absent to digest rows)

module _ {deps : Dependencies} (P : Tables → List Event → Type 0) (logged : IsLogged deps P) where
  expire_receipt-Commits : (digest : ℕ) → Commits P (expire_receipt deps digest)
  unfolding expire_receipt apply_event
  expire_receipt-Commits digest =
      Commits-write P logged _ (Payload.receipt_expired digest) _ (λ t. refl)
        (λ u. Commits-pure P _)

  judge_receipt-Commits :
      (b : ActionBinding) (allow : Bool) (r : ReceiptRow) → Commits P (judge_receipt deps b allow r)
  unfolding judge_receipt
  judge_receipt-Commits b allow r =
      Commits-if P (is_issued (effective_state allow r.state)) _ _
        (Commits-now P logged _ (λ at.
          Commits-if P (leb r.expires_at at) _ _ (expire_receipt-Commits r.digest)
            (Commits-pure P _)))
        (Commits-pure P _)

  pub approval_reason-Commits :
      (b : ActionBinding) (allow : Bool) → Commits P (approval_reason deps b allow)
  unfolding approval_reason
  approval_reason-Commits b allow =
      Commits-on_option P b.approval_receipt_digest _ _ (Commits-pure P _) (λ digest.
        Commits-gets P _ _
          (λ row. Commits-on_option P row _ _ (Commits-pure P _) (judge_receipt-Commits b allow)))

  grant_approval-Commits :
      (row : ReceiptRow) → row.state ≡ RowState.issued → Commits P (grant_approval deps row)
  unfolding grant_approval apply_event
  grant_approval-Commits row e =
      Commits-write P logged (insert_receipt row) (Payload.receipt_issued row) _
        (λ t. ap (λ (x : RowState). insert_receipt (record row { state = x }) t) (sym e))
        (λ u. Commits-pure P _)

  deny_approval-Commits : (row : ReceiptRow) → Commits P (deny_approval deps row)
  unfolding deny_approval apply_event
  deny_approval-Commits row = Commits-gets P _ _ (λ n.
      Commits-write P logged _ (Payload.receipt_denied row.digest row.binding_digest row.binding n)
        _ (λ t. refl) (λ u. Commits-pure P _))

  pub issue_approval-Keeps :
      (b : ApprovalBinding) (ttl : ℕ) (approved : Bool)
      → Keeps P (issue_approval deps b ttl approved)
  unfolding issue_approval
  issue_approval-Keeps b ttl approved = Keeps-if P (ttl == 0) _ _ (Keeps-fail P _) (
      Keeps-now P logged _ (λ at. Keeps-new_id P logged _ (λ receipt_id.
        Keeps-atomically P _
          (Commits-if P approved _ _ (grant_approval-Commits _ refl) (deny_approval-Commits _)))))

  pub revoke_approval-Keeps :
      (digest : ℕ) (reason : Reason) → Keeps P (revoke_approval deps digest reason)
  unfolding revoke_approval apply_event settle_receipts
  revoke_approval-Keeps digest reason = Keeps-atomically P _ (
      Commits-counted P logged
        (λ s. any (λ r. (r.digest == digest) && is_issued r.state) s.tables.receipts) (λ b. b) _
        (Payload.receipt_revoked digest reason) _ _ (λ t. refl) (λ u. Commits-pure P _)
        (Commits-pure P _)
        (λ s h absent.
          rw (settle_receipts_absent RowState.revoked digest s.tables.receipts absent)))

  pub current_approval-Keeps : (b : ApprovalBinding) → Keeps P (current_approval deps b)
  unfolding current_approval
  current_approval-Keeps b = Keeps-gets P _ _ (λ row.
      Keeps-on_option P row _ _ (Keeps-pure P _) (λ r.
        Keeps-if P (is_issued r.state) _ _ (Keeps-now P logged _ (λ at. Keeps-pure P _))
          (Keeps-pure P _)))
