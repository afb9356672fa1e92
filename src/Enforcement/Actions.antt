-- ===== src/Enforcement/Actions.antt =====
-- packages/core/src/belief_ledger_core/enforcement.py: action permits. A permit is issued against
-- an approval, consumed once after its binding and its live premises are validated again, and
-- revoked when a support is retracted or its episode ends.
use belief_ledger_pramana.Prelude.{
  ℕ, ◌+◌, Bool, true, false, ◌&&◌, Option, none, some, List, [], ◌∷◌, any, find, select, map,
  length, ◌==◌, leb, on_option, if◌then◌else◌,
}
use belief_ledger_pramana.Enforcement.Tables.{
  ActionBinding, Scope, DecisionRow, RowState, is_issued, Tables, Reason, Payload, settle_receipts,
  settle_decisions, insert_decision,
}
use belief_ledger_pramana.Enforcement.Store.{
  Dependencies, Error, Tx, ◌>>=◌, ◌>>◌, pure, fail, gets, atomically, run_sql, now, new_token,
  append_event,
}
use belief_ledger_pramana.Enforcement.Approvals.{find_receipt, approval_reason}
use belief_ledger_pramana.Enforcement.Premises.{
  Ledger, binding_mismatch, stored_supports_are_active, stored_episode_is_active,
  stored_conflicts_are_closed, resolve,
}

abbrev pub is_spent_once : Scope → Bool
is_spent_once (Scope.other_scope _) = false
is_spent_once _ = true

abbrev pub find_decision : ℕ → Tables → Option DecisionRow
find_decision digest t = find (λ d. d.token_digest == digest) t.decisions

-- The answer of a consumption, with the reason code.
pub record ConsumeResult : Type 0 where
  pub consumed : Bool
  pub reason_code : Reason
  pub token_digest : ℕ

abbrev pub refused : Reason → ℕ → ConsumeResult
refused reason digest = record { consumed = false; reason_code = reason; token_digest = digest }

-- The caller's revalidation, if it gives one.
abbrev pub Callback : Type 0
Callback = Option (List ℕ → Bool)

abbrev pub ask : Callback → List ℕ → Option Bool
ask none ids = none
ask (some f) ids = some (f ids)

-- `SELECT ... JOIN ... WHERE d.state='issued' AND s.belief_id=?`
abbrev pub issued_and : List (ℕ × ℕ) → ℕ → List DecisionRow → List ℕ
issued_and joined key rows =
    map (λ (d : DecisionRow). d.token_digest)
      (select (λ d. is_issued d.state && any (λ x. (x.0 == d.token_digest) && (x.1 == key)) joined)
        rows)

module _ (deps : Dependencies) where
  -- The end of the transaction of `issue_action`: a receipt for one use is consumed.
  unfoldable pub spend_receipt : ActionBinding → Tx (Unit {0})
  spend_receipt binding = on_option binding.approval_receipt_digest (pure tt) (λ digest. do
    row ← gets (λ s. find_receipt digest s.tables)
    on_option row (pure tt) (λ r.
        if is_spent_once r.binding.scope
        then (do
          run_sql (λ t. some (settle_receipts RowState.consumed digest t))
          append_event deps (Payload.receipt_consumed digest)
          pure tt)
        else pure tt))

  -- The transaction of `issue_action`. A refusal commits its event; the caller raises after that.
  unfoldable pub issue_row : DecisionRow → Tx (Option Reason)
  issue_row row = do
    reason ← approval_reason deps row.binding false
    on_option reason
        (do
          run_sql (insert_decision row)
          append_event deps (Payload.decision_issued row)
          spend_receipt row.binding
          pure none)
        (λ why. do
          append_event deps (Payload.decision_refused row.token_digest why row.binding)
          pure (some why))

  abbrev pub new_decision : ActionBinding → ℕ → ℕ → ℕ → DecisionRow
  new_decision binding ttl raw_token at = record {
    token_digest = deps.token_hash raw_token;
    binding_digest = deps.action_digest binding;
    binding = binding;
    issued_at = at;
    expires_at = at + ttl;
    state = RowState.issued;
  }

  -- `issue_action`: the raw token beside the row.
  unfoldable pub issue_action : ActionBinding → ℕ → Tx (ℕ × DecisionRow)
  issue_action binding ttl = if ttl == 0 then fail Error.ttl_not_positive else (do
    raw_token ← new_token deps
    at ← now deps
    reason ← atomically (issue_row (new_decision binding ttl raw_token at))
    on_option reason (pure (raw_token, new_decision binding ttl raw_token at))
        (λ why. fail (Error.rejected why)))

  -- `_reject`
  unfoldable pub reject : ℕ → Reason → Tx ConsumeResult
  reject digest reason = do
    append_event deps (Payload.decision_rejected digest reason)
    pure (refused reason digest)

  -- The revocation of a permit whose premises no longer hold.
  unfoldable pub revoke_stale : ℕ → Reason → Tx ConsumeResult
  revoke_stale digest reason = do
    run_sql (λ t. some (settle_decisions RowState.revoked digest t))
    append_event deps (Payload.decision_revoked digest reason none)
    pure (refused reason digest)

  unfoldable pub expire_decision : ℕ → Tx ConsumeResult
  expire_decision digest = do
    run_sql (λ t. some (settle_decisions RowState.expired digest t))
    append_event deps (Payload.decision_expired digest (Reason.token_in RowState.expired))
    pure (refused (Reason.token_in RowState.expired) digest)

  -- The conditional `UPDATE` that decides the race, and the event of the winner.
  unfoldable pub spend_decision : ℕ → DecisionRow → Tx ConsumeResult
  spend_decision digest d = do
    updated ← gets (λ s.
        length (select (λ x. (x.token_digest == digest) && is_issued x.state) s.tables.decisions))
    run_sql (λ t. some (settle_decisions RowState.consumed digest t))
    if updated == 1
        then (do
          append_event deps (Payload.decision_consumed digest (deps.action_digest d.binding))
          pure (record {
            consumed = true;
            reason_code = Reason.consumed_code;
            token_digest = digest;
          }))
        else reject digest Reason.token_race_lost

  -- `consume_action` from the validation of the premises on.
  unfoldable pub consume_valid : ℕ → DecisionRow → Ledger → Callback → Callback → Tx ConsumeResult
  consume_valid digest d ledger support conflicts =
      if resolve (stored_episode_is_active ledger d.binding) none
      then (if resolve (stored_supports_are_active ledger d.binding)
            (ask support d.binding.supporting_belief_ids)
          then (if resolve (stored_conflicts_are_closed ledger d.binding)
                (ask conflicts d.binding.blocking_conflict_ids)
              then spend_decision digest d
              else revoke_stale digest Reason.open_conflict)
          else revoke_stale digest Reason.support_retracted)
      else revoke_stale digest Reason.episode_finalized

  -- `consume_action` on the row that was found.
  unfoldable pub consume_row :
      ℕ → ActionBinding → Ledger → Callback → Callback → DecisionRow → Tx ConsumeResult
  consume_row digest presented ledger support conflicts d =
      if is_issued d.state
      then (do
        at ← now deps
        if leb d.expires_at at
            then expire_decision digest
            else on_option (binding_mismatch d.binding presented)
                (do
                  reason ← approval_reason deps d.binding true
                  on_option reason (consume_valid digest d ledger support conflicts)
                      (reject digest))
                (reject digest))
      else reject digest (Reason.token_in d.state)

  -- `consume_action`
  unfoldable pub consume_action :
      ℕ → ActionBinding → Ledger → Callback → Callback → Tx ConsumeResult
  consume_action raw_token presented ledger support conflicts =
      let digest = deps.token_hash raw_token in
      atomically (do
        row ← gets (λ s. find_decision digest s.tables)
        on_option row (reject digest Reason.token_not_found)
            (consume_row digest presented ledger support conflicts))

  -- The loop of `revoke_for_support` and of `revoke_for_episode`.
  unfoldable pub revoke_each : Reason → Option ℕ → List ℕ → Tx ℕ
  revoke_each reason belief [] = pure 0
  revoke_each reason belief (digest ∷ rest) = do
    run_sql (λ t. some (settle_decisions RowState.revoked digest t))
    append_event deps (Payload.decision_revoked digest reason belief)
    n ← revoke_each reason belief rest
    pure (n + 1)

  -- `revoke_for_support`
  unfoldable pub revoke_for_support : ℕ → Tx ℕ
  revoke_for_support belief = atomically (do
    rows ← gets (λ s. issued_and s.tables.supports belief s.tables.decisions)
    revoke_each Reason.support_retracted (some belief) rows)

  -- `revoke_for_episode`
  unfoldable pub revoke_for_episode : ℕ → Tx ℕ
  revoke_for_episode episode = atomically (do
    rows ← gets (λ s. issued_and s.tables.episodes episode s.tables.decisions)
    revoke_each Reason.episode_finalized none rows)

  -- `action_state`
  unfoldable pub action_state : ℕ → Tx (Option RowState)
  action_state digest =
      gets (λ s. elim (find_decision digest s.tables) [ none ↦ none | some d ↦ some d.state ])
