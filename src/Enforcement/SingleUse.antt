-- ===== src/Enforcement/SingleUse.antt =====
-- packages/core/src/belief_ledger_core/enforcement.py: two consumptions of one permit, with calls
-- in between.
use belief_ledger_pramana.Prelude.{
  ℕ, ◌≡◌, refl, true, false, some, List, arith, Bool-cases, inl, inr, subst,
}
use belief_ledger_pramana.Enforcement.Tables.{ActionBinding, RowState}
use belief_ledger_pramana.Enforcement.Store.{Dependencies, Store, Outcome, ok}
use belief_ledger_pramana.Enforcement.Premises.{Ledger}
use belief_ledger_pramana.Enforcement.Actions.{Callback, ConsumeResult, consume_action}
use belief_ledger_pramana.Enforcement.ActionsKeep.{consume_action-Keeps}
use belief_ledger_pramana.Enforcement.Operations.{Call, run, run_keeps}
use belief_ledger_pramana.Enforcement.Invariants.{
  IsReplayed, IsReplayed-IsLogged, IsSettled, IsSettled-IsLogged, state_of,
}
use belief_ledger_pramana.Enforcement.Refusals.{state_of-find}
use belief_ledger_pramana.Enforcement.Consumption.{consume_action_checks}

module _ (deps : Dependencies) where
  -- A token whose permit is settled is refused.
  settled_refuses :
      (raw_token : ℕ) (presented : ActionBinding) (l : Ledger) (support conflicts : Callback)
      (s s' : Store) (r : ConsumeResult)
      → state_of (deps.token_hash raw_token) s.tables.decisions ≡ some RowState.consumed
      → consume_action deps raw_token presented l support conflicts s ≡ (ok r, s')
      → r.consumed ≡ false
  settled_refuses raw_token presented l support conflicts s s' r h e =
      elim (Bool-cases r.consumed) [
        | inr no_use ↦ no_use
        | inl used ↦
            let (d, found, live, _) =
              consume_action_checks deps raw_token presented l support conflicts s s' r e used in
            absurd (
              ground (
                arith,
                live.is_fresh,
                state_of-find (deps.token_hash raw_token) s.tables.decisions d found,
              ))
      ]

  -- In a store whose events replay to its tables: once a permit was consumed, no later consumption
  -- with the same token succeeds, whatever calls the store served in between, with whatever
  -- binding, ledger and callbacks.
  pub consume_action-once :
      (raw_token : ℕ) (presented : ActionBinding) (l : Ledger) (support conflicts : Callback)
      (s s' : Store) (r : ConsumeResult)
      → IsReplayed s.tables s.events
      → consume_action deps raw_token presented l support conflicts s ≡ (ok r, s')
      → r.consumed ≡ true
      → (calls : List Call) (presented' : ActionBinding) (l' : Ledger)
        (support' conflicts' : Callback) (s'' : Store) (r' : ConsumeResult)
      → consume_action deps raw_token presented' l' support' conflicts' (run deps calls s')
        ≡ (ok r', s'')
      → r'.consumed ≡ false
  consume_action-once raw_token presented l support conflicts s s' r h e c calls presented' l'
        support' conflicts' s'' r' e' =
      let digest = deps.token_hash raw_token in
      let (d, found, live, settled) =
        consume_action_checks deps raw_token presented l support conflicts s s' r e c in
      let replayed : IsReplayed s'.tables s'.events =
        subst (λ (q : Outcome ConsumeResult × Store). IsReplayed q.1.tables q.1.events) e
          ((consume_action-Keeps IsReplayed (IsReplayed-IsLogged deps) raw_token presented l support
              conflicts).keeps
            s h) in
      let later =
        run_keeps (IsSettled digest RowState.consumed refl)
          (IsSettled-IsLogged digest RowState.consumed refl deps) calls s' (replayed, settled) in
      settled_refuses raw_token presented' l' support' conflicts' (run deps calls s') s'' r' later.1
        e'
