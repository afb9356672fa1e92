-- ===== src/Enforcement/ActionsKeep.antt =====
-- packages/core/src/belief_ledger_core/enforcement.py: the operations on permits, by the rules
-- for transactions.
use belief_ledger_pramana.Prelude.{
  ℕ, ◌≡◌, refl, true, false, Option, none, List, [], ◌∷◌, map, length, arith, ap, sym, leb, ◌==◌,
}
use belief_ledger_pramana.Enforcement.Tables.{
  ActionBinding, Tables, Payload, DecisionRow, RowState, is_issued, Reason, settle_decision,
  settle_decisions, insert_decision,
}
use belief_ledger_pramana.Enforcement.Store.{Event, Dependencies}
use belief_ledger_pramana.Enforcement.Replay.{apply_event}
use belief_ledger_pramana.Enforcement.Rules.{
  IsLogged, issued_with, Commits, Keeps, Commits-bind, Commits-if, Commits-pure, Commits-on_option,
  Commits-gets, Commits-now, Commits-write, Commits-note, Commits-counted, Keeps-pure, Keeps-fail,
  Keeps-now, Keeps-new_token, Keeps-on_option, Keeps-atomically, Keeps-bind, Keeps-if,
}
use belief_ledger_pramana.Enforcement.Premises.{
  Ledger, resolve, binding_mismatch, stored_episode_is_active, stored_supports_are_active,
  stored_conflicts_are_closed,
}
use belief_ledger_pramana.Enforcement.ApprovalsKeep.{approval_reason-Commits}
use belief_ledger_pramana.Enforcement.Actions.{
  Callback, ask, is_spent_once, spend_receipt, issue_row, issue_action, reject, revoke_stale,
  expire_decision, spend_decision, consume_valid, consume_row, consume_action, revoke_each,
  revoke_for_support, revoke_for_episode,
}

-- A statement that finds no issued row changes nothing.
settle_decisions_absent :
    (to : RowState) (digest : ℕ) (rows : List DecisionRow)
    → length (issued_with digest rows) ≡ 0
    → map (settle_decision to digest) rows ≡ rows
settle_decisions_absent to digest [] h = refl
settle_decisions_absent to digest (d ∷ rows) h =
    ground (arith, settle_decisions_absent to digest rows)

module _ {deps : Dependencies} (P : Tables → List Event → Type 0) (logged : IsLogged deps P) where
  spend_receipt-Commits : (b : ActionBinding) → Commits P (spend_receipt deps b)
  unfolding spend_receipt apply_event
  spend_receipt-Commits b =
      Commits-on_option P b.approval_receipt_digest _ _ (Commits-pure P _) (λ digest.
        Commits-gets P _ _ (λ row. Commits-on_option P row _ _ (Commits-pure P _) (λ r.
          Commits-if P (is_spent_once r.binding.scope) _ _
            (Commits-write P logged _ (Payload.receipt_consumed digest) _ (λ t. refl)
              (λ u. Commits-pure P _))
            (Commits-pure P _))))

  issue_row-Commits :
      (row : DecisionRow) → row.state ≡ RowState.issued → Commits P (issue_row deps row)
  unfolding issue_row apply_event
  issue_row-Commits row e =
      Commits-bind P _ _ (approval_reason-Commits P logged row.binding false) (λ reason.
        Commits-on_option P reason _ _
          (Commits-write P logged (insert_decision row) (Payload.decision_issued row) _
            (λ t. ap (λ (x : RowState). insert_decision (record row { state = x }) t) (sym e))
            (λ u. Commits-bind P _ _ (spend_receipt-Commits row.binding) (λ v. Commits-pure P _)))
          (λ why.
            Commits-note P logged (Payload.decision_refused row.token_digest why row.binding) _
              (λ t. refl) (λ u. Commits-pure P _)))

  pub issue_action-Keeps : (b : ActionBinding) (ttl : ℕ) → Keeps P (issue_action deps b ttl)
  unfolding issue_action
  issue_action-Keeps b ttl = Keeps-if P (ttl == 0) _ _ (Keeps-fail P _) (
      Keeps-new_token P logged _ (λ raw_token. Keeps-now P logged _ (λ at.
        Keeps-bind P _ _ (Keeps-atomically P _ (issue_row-Commits _ refl))
          (λ reason. Keeps-on_option P reason _ _ (Keeps-pure P _) (λ why. Keeps-fail P _)))))

  reject-Commits : (digest : ℕ) (reason : Reason) → Commits P (reject deps digest reason)
  unfolding reject apply_event
  reject-Commits digest reason =
      Commits-note P logged (Payload.decision_rejected digest reason) _ (λ t. refl)
        (λ u. Commits-pure P _)

  revoke_stale-Commits :
      (digest : ℕ) (reason : Reason) → Commits P (revoke_stale deps digest reason)
  unfolding revoke_stale apply_event
  revoke_stale-Commits digest reason =
      Commits-write P logged _ (Payload.decision_revoked digest reason none) _ (λ t. refl)
        (λ u. Commits-pure P _)

  expire_decision-Commits : (digest : ℕ) → Commits P (expire_decision deps digest)
  unfolding expire_decision apply_event
  expire_decision-Commits digest =
      Commits-write P logged _ (Payload.decision_expired digest (Reason.token_in RowState.expired))
        _ (λ t. refl) (λ u. Commits-pure P _)

  -- One issued row at most, so an update of none is the only one that loses the race.
  spend_decision-Commits : (digest : ℕ) (d : DecisionRow) → Commits P (spend_decision deps digest d)
  unfolding spend_decision apply_event settle_decisions
  spend_decision-Commits digest d =
      Commits-counted P logged (λ s. length (issued_with digest s.tables.decisions)) (λ n. n == 1) _
        (Payload.decision_consumed digest (deps.action_digest d.binding)) _ _ (λ t. refl)
        (λ u. Commits-pure P _) (reject-Commits digest Reason.token_race_lost)
        (λ s h lost. rw (
          settle_decisions_absent RowState.consumed digest s.tables.decisions
            (ground (arith, logged.single s.tables s.events digest h))))

  consume_valid-Commits :
      (digest : ℕ) (d : DecisionRow) (l : Ledger) (support conflicts : Callback)
      → Commits P (consume_valid deps digest d l support conflicts)
  unfolding consume_valid
  consume_valid-Commits digest d l support conflicts =
      Commits-if P (resolve (stored_episode_is_active l d.binding) none) _ _
        (Commits-if P
          (resolve (stored_supports_are_active l d.binding)
            (ask support d.binding.supporting_belief_ids))
          _ _
          (Commits-if P
            (resolve (stored_conflicts_are_closed l d.binding)
              (ask conflicts d.binding.blocking_conflict_ids))
            _ _ (spend_decision-Commits digest d) (revoke_stale-Commits digest _))
          (revoke_stale-Commits digest _))
        (revoke_stale-Commits digest _)

  consume_row-Commits :
      (digest : ℕ) (presented : ActionBinding) (l : Ledger) (support conflicts : Callback)
      (d : DecisionRow)
      → Commits P (consume_row deps digest presented l support conflicts d)
  unfolding consume_row
  consume_row-Commits digest presented l support conflicts d =
      Commits-if P (is_issued d.state) _ _
        (Commits-now P logged _ (λ at.
          Commits-if P (leb d.expires_at at) _ _ (expire_decision-Commits digest) (
            Commits-on_option P (binding_mismatch d.binding presented) _ _
              (Commits-bind P _ _ (approval_reason-Commits P logged d.binding true) (λ reason.
                Commits-on_option P reason _ _ (consume_valid-Commits digest d l support conflicts)
                  (reject-Commits digest)))
              (reject-Commits digest))))
        (reject-Commits digest _)

  pub consume_action-Keeps :
      (raw_token : ℕ) (presented : ActionBinding) (l : Ledger) (support conflicts : Callback)
      → Keeps P (consume_action deps raw_token presented l support conflicts)
  unfolding consume_action
  consume_action-Keeps raw_token presented l support conflicts =
      let digest = deps.token_hash raw_token in
      Keeps-atomically P _ (
        Commits-gets P _ _ (λ row.
          Commits-on_option P row _ _ (reject-Commits digest Reason.token_not_found)
            (consume_row-Commits digest presented l support conflicts)))

  revoke_each-Commits :
      (reason : Reason) (belief : Option ℕ) (digests : List ℕ)
      → Commits P (revoke_each deps reason belief digests)
  unfolding revoke_each apply_event
  revoke_each-Commits reason belief [] = Commits-pure P 0
  revoke_each-Commits reason belief (digest ∷ rest) =
      Commits-write P logged _ (Payload.decision_revoked digest reason belief) _ (λ t. refl)
        (λ u. Commits-bind P _ _ (revoke_each-Commits reason belief rest) (λ n. Commits-pure P _))

  pub revoke_for_support-Keeps : (belief : ℕ) → Keeps P (revoke_for_support deps belief)
  unfolding revoke_for_support
  revoke_for_support-Keeps belief =
      Keeps-atomically P _ (Commits-gets P _ _ (λ rows. revoke_each-Commits _ _ rows))

  pub revoke_for_episode-Keeps : (episode : ℕ) → Keeps P (revoke_for_episode deps episode)
  unfolding revoke_for_episode
  revoke_for_episode-Keeps episode =
      Keeps-atomically P _ (Commits-gets P _ _ (λ rows. revoke_each-Commits _ _ rows))
