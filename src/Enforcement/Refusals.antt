-- ===== src/Enforcement/Refusals.antt =====
-- packages/core/src/belief_ledger_core/enforcement.py: the parts of a consumption that refuse, and
-- what an event and a judged approval leave alone.
use belief_ledger_pramana.Prelude.{
  ℕ, suc, ◌≡◌, refl, Bool, true, false, Option, none, some, List, [], ◌∷◌, map, find, arith, ◌==◌,
  on_option,
}
use belief_ledger_pramana.Enforcement.Tables.{
  ActionBinding, Payload, DecisionRow, ReceiptRow, RowState, Reason, settle_decision,
  settle_decisions, settle_receipts,
}
use belief_ledger_pramana.Enforcement.Store.{
  Event, Dependencies, Store, ok, Tx, ◌>>=◌, pure, gets, now, new_id, run_sql, insert_event,
  append_event,
}
use belief_ledger_pramana.Enforcement.Invariants.{state_of}
use belief_ledger_pramana.Enforcement.Approvals.{
  approval_reason, judge_receipt, expire_receipt, find_receipt,
}
use belief_ledger_pramana.Enforcement.Actions.{
  ConsumeResult, reject, revoke_stale, expire_decision, spend_decision,
}

-- A transaction whose answer, if any, is a refusal.
abbrev pub Refuses : Tx ConsumeResult → Type 0
Refuses m = (s s' : Store) (r : ConsumeResult) → m s ≡ (ok r, s') → r.consumed ≡ false

pub state_of-find :
    (digest : ℕ) (rows : List DecisionRow) (d : DecisionRow)
    → find (λ x. x.token_digest == digest) rows ≡ some d
    → state_of digest rows ≡ some d.state
state_of-find digest [] d h = cc
state_of-find digest (x ∷ rows) d h = ground (arith, state_of-find digest rows d)

module _ (deps : Dependencies) where
  pub reject-Refuses : (digest : ℕ) (reason : Reason) → Refuses (reject deps digest reason)
  unfolding reject ◌>>=◌ pure
  reject-Refuses digest reason s s' r e = ground arith

  pub revoke_stale-Refuses :
      (digest : ℕ) (reason : Reason) → Refuses (revoke_stale deps digest reason)
  unfolding revoke_stale ◌>>=◌ pure
  revoke_stale-Refuses digest reason s s' r e = ground arith

  pub expire_decision-Refuses : (digest : ℕ) → Refuses (expire_decision deps digest)
  unfolding expire_decision ◌>>=◌ pure
  expire_decision-Refuses digest s s' r e = ground arith

  insert_event-tables : (e : Event) (s : Store) → (insert_event deps e s).1.tables ≡ s.tables
  unfolding insert_event
  insert_event-tables e s = ground arith

  pub append_event-tables : (p : Payload) (s : Store) → (append_event deps p s).1.tables ≡ s.tables
  unfolding append_event ◌>>=◌ gets now new_id
  append_event-tables p s = insert_event-tables _ _

  state_of-spend :
      (digest : ℕ) (rows : List DecisionRow)
      → state_of digest rows ≡ some RowState.issued
      → state_of digest (map (settle_decision RowState.consumed digest) rows)
        ≡ some RowState.consumed
  state_of-spend digest [] h = cc
  state_of-spend digest (d ∷ rows) h = ground (arith, state_of-spend digest rows)

  pub spend_decision_settles :
      (digest : ℕ) (d : DecisionRow) (s s' : Store) (r : ConsumeResult)
      → spend_decision deps digest d s ≡ (ok r, s')
      → r.consumed ≡ true
      → state_of digest s.tables.decisions ≡ some RowState.issued
      → state_of digest s'.tables.decisions ≡ some RowState.consumed
  unfolding spend_decision ◌>>=◌ pure gets run_sql settle_decisions
  spend_decision_settles digest d s s' r e c h =
      let t = settle_decisions RowState.consumed digest s.tables in
      ground (
        arith,
        append_event-tables (Payload.decision_consumed digest (deps.action_digest d.binding))
            (record s { tables = t }),
        reject-Refuses digest Reason.token_race_lost (record s { tables = t }) s' r,
        state_of-spend digest s.tables.decisions,
      )

  expire_receipt-decisions :
      (digest : ℕ) (s : Store)
      → (expire_receipt deps digest s).1.tables.decisions ≡ s.tables.decisions
  unfolding expire_receipt ◌>>=◌ pure run_sql settle_receipts
  expire_receipt-decisions digest s = ground (
    arith,
    append_event-tables (Payload.receipt_expired digest)
        (record s { tables = settle_receipts RowState.expired digest s.tables }),
  )

  judge_receipt-decisions :
      (b : ActionBinding) (allow : Bool) (row : ReceiptRow) (s : Store)
      → (judge_receipt deps b allow row s).1.tables.decisions ≡ s.tables.decisions
  unfolding judge_receipt ◌>>=◌ pure now
  judge_receipt-decisions b allow row s =
      ground (arith, expire_receipt-decisions row.digest (record s { readings = suc s.readings }))

  -- Judging an approval changes no permit.
  approval_reason-decisions :
      (b : ActionBinding) (allow : Bool) (s : Store)
      → (approval_reason deps b allow s).1.tables.decisions ≡ s.tables.decisions
  unfolding approval_reason ◌>>=◌ pure gets
  approval_reason-decisions b allow s = on_digest b.approval_receipt_digest
    where
      on_row :
          (o : Option ReceiptRow)
          → (on_option o
              (pure (some Reason.approval_not_found))
              (judge_receipt deps b allow)
              s).1.tables.decisions
            ≡ s.tables.decisions
      on_row none = refl
      on_row (some row) = judge_receipt-decisions b allow row s

      on_digest :
          (o : Option ℕ)
          → (on_option {B = Tx (Option Reason)} o
              (pure none)
              (λ digest. gets (λ s'. find_receipt digest s'.tables) >>= (λ row.
                on_option row (pure (some Reason.approval_not_found)) (judge_receipt deps b allow)))
              s).1.tables.decisions
            ≡ s.tables.decisions
      on_digest none = refl
      on_digest (some digest) = on_row (find_receipt digest s.tables)

  pub approval_reason-state :
      (b : ActionBinding) (allow : Bool) (s : Store) (digest : ℕ)
      → state_of digest s.tables.decisions ≡ some RowState.issued
      → state_of digest (approval_reason deps b allow s).1.tables.decisions ≡ some RowState.issued
  approval_reason-state b allow s digest h = rw (approval_reason-decisions b allow s) h
