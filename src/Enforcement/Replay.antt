-- ===== src/Enforcement/Replay.antt =====
-- packages/core/src/belief_ledger_core/enforcement.py: the replay of the events into the tables,
-- and the check of the hash chain. Both walk the events in the order of `seq`, oldest first.
use belief_ledger_pramana.Prelude.{
  ℕ, ◌+◌, ◌&&◌, Option, none, some, List, [], ◌∷◌, ◌==◌, if◌then◌else◌,
}
use belief_ledger_pramana.Enforcement.Tables.{
  Tables, empty_tables, RowState, Payload, settle_receipts, revoke_bound_receipts, settle_decisions,
  insert_receipt, insert_decision,
}
use belief_ledger_pramana.Enforcement.Store.{Event, Dependencies, Outcome, ok, raise, Error}

-- One event of `rebuild_enforcement_projection`; `none` is an `IntegrityError`.
unfoldable pub apply_event : Payload → Tables → Option Tables
apply_event (Payload.receipt_issued r) t = insert_receipt (record r { state = RowState.issued }) t
apply_event (Payload.receipt_denied _ binding _ _) t = some (revoke_bound_receipts binding t)
apply_event (Payload.receipt_revoked d _) t = some (settle_receipts RowState.revoked d t)
apply_event (Payload.receipt_consumed d) t = some (settle_receipts RowState.consumed d t)
apply_event (Payload.receipt_expired d) t = some (settle_receipts RowState.expired d t)
apply_event (Payload.decision_issued d) t = insert_decision (record d { state = RowState.issued }) t
apply_event (Payload.decision_refused _ _ _) t = some t
apply_event (Payload.decision_rejected _ _) t = some t
apply_event (Payload.decision_expired d _) t = some (settle_decisions RowState.expired d t)
apply_event (Payload.decision_revoked d _ _) t = some (settle_decisions RowState.revoked d t)
apply_event (Payload.decision_consumed d _) t = some (settle_decisions RowState.consumed d t)

-- `rebuild_enforcement_projection`: the deletions leave the tables empty, by `ON DELETE CASCADE`
-- also the one that no statement names.
unfoldable pub rebuild_enforcement_projection : List Event → Option Tables
unfolding apply_event
rebuild_enforcement_projection [] = some empty_tables
rebuild_enforcement_projection (e ∷ es) = elim (rebuild_enforcement_projection es) [
  | none ↦ none
  | some t ↦ apply_event e.payload t
]

module _ (deps : Dependencies) where
  -- The step of the loop of `verify_hash_chain`, from `(expected_seq, previous)`.
  unfoldable pub check_event : Event → ℕ → ℕ → Outcome (ℕ × ℕ)
  check_event e expected previous =
      if (e.seq == expected) && (e.previous_hash == previous)
      then (if deps.event_digest previous e.seq e.id e.at e.payload == e.event_hash
          then ok (expected + 1, e.event_hash)
          else raise Error.hash_mismatch)
      else raise Error.sequence_mismatch

  -- `verify_hash_chain`: the next sequence number and the root of the chain.
  unfoldable pub verify_hash_chain : List Event → Outcome (ℕ × ℕ)
  unfolding check_event
  verify_hash_chain [] = ok (1, deps.genesis)
  verify_hash_chain (e ∷ es) = elim (verify_hash_chain es) [
    | ok r ↦ check_event e r.0 r.1
    | raise x ↦ raise x
  ]
