-- ===== src/Enforcement/Operations.antt =====
-- packages/core/src/belief_ledger_core/enforcement.py: the operations of the store as one type, and
-- what any sequence of calls does.
use belief_ledger_pramana.Prelude.{ℕ, Bool, List, [], ◌∷◌}
use belief_ledger_pramana.Enforcement.Tables.{
  ApprovalBinding, ActionBinding, Tables, empty_tables, Reason,
}
use belief_ledger_pramana.Enforcement.Store.{Event, Dependencies, Store}
use belief_ledger_pramana.Enforcement.Rules.{IsLogged}
use belief_ledger_pramana.Enforcement.Premises.{Ledger}
use belief_ledger_pramana.Enforcement.Approvals.{issue_approval, revoke_approval, current_approval}
use belief_ledger_pramana.Enforcement.Actions.{
  Callback, issue_action, consume_action, revoke_for_support, revoke_for_episode,
}
use belief_ledger_pramana.Enforcement.ApprovalsKeep.{
  issue_approval-Keeps, revoke_approval-Keeps, current_approval-Keeps,
}
use belief_ledger_pramana.Enforcement.ActionsKeep.{
  issue_action-Keeps, consume_action-Keeps, revoke_for_support-Keeps, revoke_for_episode-Keeps,
}

-- A call of a method of `EnforcementStore`.
pub data Call : Type 0 where
  issue_approval_call : ApprovalBinding → ℕ → Bool → Call
  revoke_approval_call : ℕ → Reason → Call
  current_approval_call : ApprovalBinding → Call
  issue_action_call : ActionBinding → ℕ → Call
  consume_action_call : ℕ → ActionBinding → Ledger → Callback → Callback → Call
  revoke_for_support_call : ℕ → Call
  revoke_for_episode_call : ℕ → Call

abbrev pub empty_store : Store
empty_store = record {
  tables = empty_tables;
  events = [];
  readings = 0;
  identities = 0;
  tokens = 0;
}

module _ (deps : Dependencies) where
  -- The store that a call leaves, whether it returns or raises.
  unfoldable pub step : Call → Store → Store
  step (issue_approval_call b ttl approved) s = (issue_approval deps b ttl approved s).1
  step (revoke_approval_call digest reason) s = (revoke_approval deps digest reason s).1
  step (current_approval_call b) s = (current_approval deps b s).1
  step (issue_action_call b ttl) s = (issue_action deps b ttl s).1
  step (consume_action_call token b l support conflicts) s =
      (consume_action deps token b l support conflicts s).1
  step (revoke_for_support_call belief) s = (revoke_for_support deps belief s).1
  step (revoke_for_episode_call episode) s = (revoke_for_episode deps episode s).1

  -- The calls in the order in which their transactions commit.
  unfoldable pub run : List Call → Store → Store
  run [] s = s
  run (c ∷ rest) s = run rest (step c s)

module _ {deps : Dependencies} (P : Tables → List Event → Type 0) (logged : IsLogged deps P) where
  pub step_keeps :
      (c : Call) (s : Store) → P s.tables s.events → P (step deps c s).tables (step deps c s).events
  unfolding step
  step_keeps (issue_approval_call b ttl approved) s h =
      (issue_approval-Keeps P logged b ttl approved).keeps s h
  step_keeps (revoke_approval_call digest reason) s h =
      (revoke_approval-Keeps P logged digest reason).keeps s h
  step_keeps (current_approval_call b) s h = (current_approval-Keeps P logged b).keeps s h
  step_keeps (issue_action_call b ttl) s h = (issue_action-Keeps P logged b ttl).keeps s h
  step_keeps (consume_action_call token b l support conflicts) s h =
      (consume_action-Keeps P logged token b l support conflicts).keeps s h
  step_keeps (revoke_for_support_call belief) s h =
      (revoke_for_support-Keeps P logged belief).keeps s h
  step_keeps (revoke_for_episode_call episode) s h =
      (revoke_for_episode-Keeps P logged episode).keeps s h

  pub run_keeps :
      (calls : List Call) (s : Store)
      → P s.tables s.events
      → P (run deps calls s).tables (run deps calls s).events
  unfolding run
  run_keeps [] s h = h
  run_keeps (c ∷ rest) s h = run_keeps rest (step deps c s) (step_keeps c s h)
