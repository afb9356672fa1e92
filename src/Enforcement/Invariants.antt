-- ===== src/Enforcement/Invariants.antt =====
-- packages/core/src/belief_ledger_core/enforcement.py: invariants over the tables and the events.
use belief_ledger_pramana.Prelude.{
  ℕ, ◌+◌, ◌≤◌, ◌≡◌, refl, false, Option, none, some, List, [], ◌∷◌, map, any, select, length, arith,
  ◌==◌, if◌then◌else◌, Option-cases, inl, inr, subst,
}
use mathlib.Core.Option.{some-injective}
use belief_ledger_pramana.Enforcement.Tables.{
  Tables, empty_tables, Payload, DecisionRow, RowState, is_issued, settle_decision, settle_receipts,
  settle_decisions, revoke_bound_receipts, insert_receipt, insert_decision,
}
use belief_ledger_pramana.Enforcement.Store.{Event, Dependencies, ok, next_seq, head_hash, chained}
use belief_ledger_pramana.Enforcement.Replay.{
  apply_event, rebuild_enforcement_projection, check_event, verify_hash_chain,
}
use belief_ledger_pramana.Enforcement.Rules.{IsLogged, issued_with}

-- The tables hold what a replay of the events gives.
abbrev pub IsReplayed : Tables → List Event → Type 0
IsReplayed t es = rebuild_enforcement_projection es ≡ some t

-- The rows of a token, issued or not.
abbrev pub rows_with : ℕ → List DecisionRow → List DecisionRow
rows_with digest rows = select (λ x. x.token_digest == digest) rows

issued-le-rows :
    (digest : ℕ) (rows : List DecisionRow)
    → length (issued_with digest rows) ≤ length (rows_with digest rows)
issued-le-rows digest [] = omega arith
issued-le-rows digest (d ∷ rows) = ground (arith, issued-le-rows digest rows)

length-rows_with-settle :
    (to : RowState) (k digest : ℕ) (rows : List DecisionRow)
    → length (rows_with digest (map (settle_decision to k) rows)) ≡ length (rows_with digest rows)
length-rows_with-settle to k digest [] = refl
length-rows_with-settle to k digest (d ∷ rows) =
    ground (arith, length-rows_with-settle to k digest rows)

absent_rows :
    (digest : ℕ) (rows : List DecisionRow)
    → any (λ x. x.token_digest == digest) rows ≡ false
    → length (rows_with digest rows) ≡ 0
absent_rows digest [] h = refl
absent_rows digest (d ∷ rows) h = ground (arith, absent_rows digest rows)

-- The primary key: no token has two rows.
abbrev IsKeyed : Tables → Type 0
IsKeyed t = (digest : ℕ) → length (rows_with digest t.decisions) ≤ 1

apply_event-IsKeyed :
    (p : Payload) (t t' : Tables) → IsKeyed t → apply_event p t ≡ some t' → IsKeyed t'
unfolding apply_event settle_receipts settle_decisions revoke_bound_receipts insert_receipt
    insert_decision
apply_event-IsKeyed (Payload.receipt_issued r) t t' h e digest = ground (arith, h digest)
apply_event-IsKeyed (Payload.receipt_denied a b c d) t t' h e digest = ground (arith, h digest)
apply_event-IsKeyed (Payload.receipt_revoked d r) t t' h e digest = ground (arith, h digest)
apply_event-IsKeyed (Payload.receipt_consumed d) t t' h e digest = ground (arith, h digest)
apply_event-IsKeyed (Payload.receipt_expired d) t t' h e digest = ground (arith, h digest)
apply_event-IsKeyed (Payload.decision_issued d) t t' h e digest =
    ground (arith, h digest, absent_rows d.token_digest t.decisions)
apply_event-IsKeyed (Payload.decision_refused a b c) t t' h e digest = ground (arith, h digest)
apply_event-IsKeyed (Payload.decision_rejected a b) t t' h e digest = ground (arith, h digest)
apply_event-IsKeyed (Payload.decision_expired d r) t t' h e digest =
    ground (arith, h digest, length-rows_with-settle RowState.expired d digest t.decisions)
apply_event-IsKeyed (Payload.decision_revoked d r b) t t' h e digest =
    ground (arith, h digest, length-rows_with-settle RowState.revoked d digest t.decisions)
apply_event-IsKeyed (Payload.decision_consumed d b) t t' h e digest =
    ground (arith, h digest, length-rows_with-settle RowState.consumed d digest t.decisions)

rebuild-IsKeyed :
    (es : List Event) (t : Tables) → rebuild_enforcement_projection es ≡ some t → IsKeyed t
unfolding rebuild_enforcement_projection
rebuild-IsKeyed [] t e = subst IsKeyed (some-injective empty_tables t e) (λ digest. omega arith)
rebuild-IsKeyed (ev ∷ es) t e = elim (Option-cases (rebuild_enforcement_projection es)) [
  | inl failed ↦ absurd (ground (arith, failed))
  | inr (t₀, h) ↦ apply_event-IsKeyed ev.payload t₀ t (rebuild-IsKeyed es t₀ h) (rw h at e)
]

IsReplayed-step :
    (t t' : Tables) (ev : Event) (es : List Event)
    → IsReplayed t es
    → apply_event ev.payload t ≡ some t'
    → IsReplayed t' (ev ∷ es)
unfolding rebuild_enforcement_projection
IsReplayed-step t t' ev es h e = rw h e

module _ (deps : Dependencies) where
  pub IsReplayed-IsLogged : IsLogged deps IsReplayed
  IsReplayed-IsLogged = record {
    step = λ t t' es id at p h e. IsReplayed-step t t' (chained deps es id at p) es h e;
    single = λ t es digest h.
        omega (arith, issued-le-rows digest t.decisions, rebuild-IsKeyed es t h digest);
  }

  -- The chain verifies, and ends at the newest event.
  abbrev pub IsChained : Tables → List Event → Type 0
  IsChained t es =
      IsReplayed t es × (verify_hash_chain deps es ≡ ok (next_seq es, head_hash deps es))

  check_chained :
      (es : List Event) (id at : ℕ) (p : Payload)
      → check_event deps (chained deps es id at p) (next_seq es) (head_hash deps es)
        ≡ ok (next_seq es + 1, (chained deps es id at p).event_hash)
  unfolding check_event
  check_chained es id at p = ground arith

  chained-step :
      (es : List Event) (id at : ℕ) (p : Payload)
      → verify_hash_chain deps es ≡ ok (next_seq es, head_hash deps es)
      → verify_hash_chain deps (chained deps es id at p ∷ es)
        ≡ ok (next_seq es + 1, (chained deps es id at p).event_hash)
  unfolding verify_hash_chain
  chained-step es id at p h = rw h (check_chained es id at p)

  pub IsChained-IsLogged : IsLogged deps IsChained
  IsChained-IsLogged = record {
    step = λ t t' es id at p h e.
        (IsReplayed-step t t' (chained deps es id at p) es h.0 e, chained-step es id at p h.1);
    single = λ t es digest h. IsReplayed-IsLogged.single t es digest h.0;
  }

-- The state of a token's permit.
abbrev pub state_of : ℕ → List DecisionRow → Option RowState
state_of digest [] = none
state_of digest (d ∷ rows) = if d.token_digest == digest then some d.state else state_of digest rows

state_of-settle :
    (to st : RowState) (k digest : ℕ) (rows : List DecisionRow)
    → is_issued st ≡ false
    → state_of digest rows ≡ some st
    → state_of digest (map (settle_decision to k) rows) ≡ some st
state_of-settle to st k digest [] n h = cc
state_of-settle to st k digest (d ∷ rows) n h =
    ground (arith, state_of-settle to st k digest rows n)

absent_state :
    (digest : ℕ) (rows : List DecisionRow)
    → any (λ x. x.token_digest == digest) rows ≡ false
    → state_of digest rows ≡ none
absent_state digest [] h = refl
absent_state digest (d ∷ rows) h = ground (arith, absent_state digest rows)

module _ (digest : ℕ) (st : RowState) (final : is_issued st ≡ false) where
  apply_event-settled :
      (p : Payload) (t t' : Tables)
      → state_of digest t.decisions ≡ some st
      → apply_event p t ≡ some t'
      → state_of digest t'.decisions ≡ some st
  unfolding apply_event settle_receipts settle_decisions revoke_bound_receipts insert_receipt
      insert_decision
  apply_event-settled (Payload.receipt_issued r) t t' h e = ground arith
  apply_event-settled (Payload.decision_issued d) t t' h e =
      ground (arith, absent_state d.token_digest t.decisions)
  apply_event-settled (Payload.decision_expired d r) t t' h e =
      ground (arith, state_of-settle RowState.expired st d digest t.decisions final h)
  apply_event-settled (Payload.decision_revoked d r b) t t' h e =
      ground (arith, state_of-settle RowState.revoked st d digest t.decisions final h)
  apply_event-settled (Payload.decision_consumed d b) t t' h e =
      ground (arith, state_of-settle RowState.consumed st d digest t.decisions final h)
  apply_event-settled p t t' h e = ground arith

  -- The tables are a replay, and the token's permit has this final state.
  abbrev pub IsSettled : Tables → List Event → Type 0
  IsSettled t es = IsReplayed t es × (state_of digest t.decisions ≡ some st)

  pub IsSettled-IsLogged : (deps : Dependencies) → IsLogged deps IsSettled
  IsSettled-IsLogged deps = record {
    step = λ t t' es id at p h e.
        (IsReplayed-step t t' (chained deps es id at p) es h.0 e, apply_event-settled p t t' h.1 e);
    single = λ t es k h. (IsReplayed-IsLogged deps).single t es k h.0;
  }
