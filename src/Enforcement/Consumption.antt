-- ===== src/Enforcement/Consumption.antt =====
-- packages/core/src/belief_ledger_core/enforcement.py: what a consumption that succeeds has
-- checked, and what it leaves.
use belief_ledger_pramana.Prelude.{
  ℕ, suc, ◌<◌, ◌≡◌, refl, Bool, true, false, Option, none, some, arith, ap, ◌∙◌, leb, leb-false,
  on_option, if◌then◌else◌,
}
use belief_ledger_pramana.Enforcement.Tables.{
  ActionBinding, DecisionRow, RowState, is_issued, Reason,
}
use belief_ledger_pramana.Enforcement.Store.{
  Dependencies, Store, Outcome, ok, raise, Tx, after, ◌>>=◌, gets, now, atomically,
}
use belief_ledger_pramana.Enforcement.Premises.{
  Ledger, resolve, binding_mismatch, stored_episode_is_active, stored_supports_are_active,
  stored_conflicts_are_closed,
}
use belief_ledger_pramana.Enforcement.Approvals.{approval_reason}
use belief_ledger_pramana.Enforcement.Actions.{
  Callback, ask, ConsumeResult, reject, expire_decision, spend_decision, consume_valid, consume_row,
  consume_action, find_decision,
}
use belief_ledger_pramana.Enforcement.Invariants.{state_of}
use belief_ledger_pramana.Enforcement.Refusals.{
  reject-Refuses, revoke_stale-Refuses, expire_decision-Refuses, spend_decision_settles,
  approval_reason-state, state_of-find,
}

-- What must hold of a permit when it is consumed: it is issued and not expired, it is bound as
-- the caller presents it, its episode is active, its supports are IN and no conflict is open.
pub record IsLive (d : DecisionRow) (presented : ActionBinding) (at : ℕ) (l : Ledger)
    (support conflicts : Callback) : Type 0 where
  pub is_fresh : d.state ≡ RowState.issued
  pub in_time : at < d.expires_at
  pub is_bound : binding_mismatch d.binding presented ≡ none
  pub episode_active : resolve (stored_episode_is_active l d.binding) none ≡ true
  pub supports_active :
      resolve (stored_supports_are_active l d.binding) (ask support d.binding.supporting_belief_ids)
      ≡ true
  pub conflicts_closed :
      resolve
        (stored_conflicts_are_closed l d.binding)
        (ask conflicts d.binding.blocking_conflict_ids)
      ≡ true

module _ (deps : Dependencies) where
  -- What consume_valid has checked when it answers with a consumption.
  consume_valid_checks :
      (digest : ℕ) (d : DecisionRow) (l : Ledger) (support conflicts : Callback) (s s' : Store)
      (r : ConsumeResult)
      → consume_valid deps digest d l support conflicts s ≡ (ok r, s')
      → r.consumed ≡ true
      → (resolve (stored_episode_is_active l d.binding) none ≡ true)
        × (resolve
              (stored_supports_are_active l d.binding)
              (ask support d.binding.supporting_belief_ids)
            ≡ true)
        × (resolve
              (stored_conflicts_are_closed l d.binding)
              (ask conflicts d.binding.blocking_conflict_ids)
            ≡ true)
        × (spend_decision deps digest d s ≡ (ok r, s'))
  unfolding consume_valid
  consume_valid_checks digest d l support conflicts s s' r e c = ground (
    arith,
    revoke_stale-Refuses deps digest Reason.episode_finalized s s' r,
    revoke_stale-Refuses deps digest Reason.support_retracted s s' r,
    revoke_stale-Refuses deps digest Reason.open_conflict s s' r,
  )

  -- What the rest of the consumption has checked once the approval was judged.
  approved_checks :
      (digest : ℕ) (d : DecisionRow) (l : Ledger) (support conflicts : Callback)
      (q : Outcome (Option Reason) × Store) (s' : Store) (r : ConsumeResult)
      → after q
          (λ reason.
            on_option reason (consume_valid deps digest d l support conflicts) (reject deps digest))
          (λ e s. (raise e, s))
        ≡ (ok r, s')
      → r.consumed ≡ true
      → state_of digest q.1.tables.decisions ≡ some RowState.issued
      → (resolve (stored_episode_is_active l d.binding) none ≡ true)
        × (resolve
              (stored_supports_are_active l d.binding)
              (ask support d.binding.supporting_belief_ids)
            ≡ true)
        × (resolve
              (stored_conflicts_are_closed l d.binding)
              (ask conflicts d.binding.blocking_conflict_ids)
            ≡ true)
        × (state_of digest s'.tables.decisions ≡ some RowState.consumed)
  approved_checks digest d l support conflicts (raise x, s) s' r e c h = absurd (ground arith)
  approved_checks digest d l support conflicts (ok (some why), s) s' r e c h =
      absurd (ground (arith, reject-Refuses deps digest why s s' r e))
  approved_checks digest d l support conflicts (ok none, s) s' r e c h =
      let (a, b, k, spent) = consume_valid_checks digest d l support conflicts s s' r e c in
      (a, b, k, spend_decision_settles deps digest d s s' r spent c h)

  consume_row_checks :
      (digest : ℕ) (presented : ActionBinding) (l : Ledger) (support conflicts : Callback)
      (d : DecisionRow) (s s' : Store) (r : ConsumeResult)
      → consume_row deps digest presented l support conflicts d s ≡ (ok r, s')
      → r.consumed ≡ true
      → state_of digest s.tables.decisions ≡ some d.state
      → IsLive d presented (deps.clock s.readings) l support conflicts
        × (state_of digest s'.tables.decisions ≡ some RowState.consumed)
  unfolding consume_row ◌>>=◌ now
  consume_row_checks digest presented l support conflicts d s s' r e c h = go d.state refl e
    where
      s₁ : Store
      s₁ = record s { readings = suc s.readings }

      judged : Tx ConsumeResult
      judged = approval_reason deps d.binding true >>= (λ reason.
          on_option reason (consume_valid deps digest d l support conflicts) (reject deps digest))

      Goal : Type 0
      Goal =
          IsLive d presented (deps.clock s.readings) l support conflicts
          × (state_of digest s'.tables.decisions ≡ some RowState.consumed)

      timed :
          d.state ≡ RowState.issued
          → (late : Bool) → leb d.expires_at (deps.clock s.readings) ≡ late
          → (m : Option Reason) → binding_mismatch d.binding presented ≡ m
          → (if late then expire_decision deps digest else on_option m judged (reject deps digest))
              s₁
            ≡ (ok r, s')
          → Goal
      timed es true el m em q =
          absurd (ground (arith, expire_decision-Refuses deps digest s₁ s' r q))
      timed es false el (some why) em q =
          absurd (ground (arith, reject-Refuses deps digest why s₁ s' r q))
      timed es false el none em q =
          let (a, b, k, settled) =
            approved_checks digest d l support conflicts (approval_reason deps d.binding true s₁) s'
              r q c (approval_reason-state deps d.binding true s₁ digest (h ∙ ap some es)) in
          (
            record {
              is_fresh = es;
              in_time = leb-false d.expires_at (deps.clock s.readings) el;
              is_bound = em;
              episode_active = a;
              supports_active = b;
              conflicts_closed = k;
            },
            settled,
          )

      go :
          (st : RowState)
          → d.state ≡ st
          → (if is_issued st
                then now deps >>= (λ at.
                  if leb d.expires_at at
                  then expire_decision deps digest
                  else on_option (binding_mismatch d.binding presented) judged (reject deps digest))
                else reject deps digest (Reason.token_in st))
              s
            ≡ (ok r, s')
          → Goal
      go RowState.issued es q =
          timed es (leb d.expires_at (deps.clock s.readings)) refl
            (binding_mismatch d.binding presented) refl q
      go st es q = absurd (ground (arith, reject-Refuses deps digest (Reason.token_in st) s s' r q))

  found_checks :
      (digest : ℕ) (presented : ActionBinding) (l : Ledger) (support conflicts : Callback)
      (s s' : Store) (r : ConsumeResult) (o : Option DecisionRow)
      → find_decision digest s.tables ≡ o
      → on_option o
          (reject deps digest Reason.token_not_found)
          (consume_row deps digest presented l support conflicts)
          s
        ≡ (ok r, s')
      → r.consumed ≡ true
      → (d : DecisionRow) × (find_decision digest s.tables ≡ some d)
        × IsLive d presented (deps.clock s.readings) l support conflicts
        × (state_of digest s'.tables.decisions ≡ some RowState.consumed)
  found_checks digest presented l support conflicts s s' r none f e c =
      absurd (ground (arith, reject-Refuses deps digest Reason.token_not_found s s' r e))
  found_checks digest presented l support conflicts s s' r (some d) f e c =
      let (live, settled) =
        consume_row_checks digest presented l support conflicts d s s' r e c
          (state_of-find digest s.tables.decisions d f) in
      (d, f, live, settled)

  atomically-ok :
      {A : Type 0} (m : Tx A) (s s' : Store) (a : A)
      → atomically m s ≡ (ok a, s')
      → m s ≡ (ok a, s')
  unfolding atomically
  atomically-ok {A} m s s' a e = go (m s) e
    where
      go :
          (q : Outcome A × Store)
          → ◌≡◌ {A = Outcome A × Store}
              (after q
                (λ x t. (ok x, t))
                (λ x t. (raise x, record t { tables = s.tables; events = s.events })))
              (ok a, s')
          → q ≡ (ok a, s')
      go (ok x, t) h = h
      go (raise x, t) h = absurd (ground arith)

  pub consume_action_checks :
      (raw_token : ℕ) (presented : ActionBinding) (l : Ledger) (support conflicts : Callback)
      (s s' : Store) (r : ConsumeResult)
      → consume_action deps raw_token presented l support conflicts s ≡ (ok r, s')
      → r.consumed ≡ true
      → (d : DecisionRow) × (find_decision (deps.token_hash raw_token) s.tables ≡ some d)
        × IsLive d presented (deps.clock s.readings) l support conflicts
        × (state_of (deps.token_hash raw_token) s'.tables.decisions ≡ some RowState.consumed)
  unfolding consume_action ◌>>=◌ gets
  consume_action_checks raw_token presented l support conflicts s s' r e c =
      let digest = deps.token_hash raw_token in
      found_checks digest presented l support conflicts s s' r (find_decision digest s.tables) refl
        (atomically-ok _ s s' r e) c
