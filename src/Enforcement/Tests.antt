-- ===== src/Enforcement/Tests.antt =====
-- packages/core/src/belief_ledger_core/enforcement.py: a run of the store on small inputs, and the
-- theorems at it.
use belief_ledger_pramana.Prelude.{◌+◌, ◌≡◌, refl, ◌↔◌, true, false, none, some, List, [], ◌∷◌}
use belief_ledger_pramana.Enforcement.Tables.{
  Scope, ActionBinding, RowState, Reason, settle_receipts, revoke_bound_receipts, settle_decisions,
  insert_receipt, insert_supports, insert_decision,
}
use belief_ledger_pramana.Enforcement.Store.{
  Dependencies, Store, ok, ◌>>=◌, pure, fail, gets, atomically, run_sql, now, new_id, new_token,
  insert_event, append_event, next_seq, head_hash,
}
use belief_ledger_pramana.Enforcement.Replay.{
  apply_event, rebuild_enforcement_projection, check_event, verify_hash_chain,
}
use belief_ledger_pramana.Enforcement.Approvals.{
  expected_approval, grant_approval, deny_approval, issue_approval, revoke_approval,
  current_approval, expire_receipt, judge_receipt, approval_reason,
}
use belief_ledger_pramana.Enforcement.Premises.{
  Ledger, Projection, binding_mismatch, stored_supports_are_active, stored_episode_is_active,
  stored_conflicts_are_closed,
}
use belief_ledger_pramana.Enforcement.Actions.{
  ConsumeResult, spend_receipt, issue_row, issue_action, reject, revoke_stale, expire_decision,
  spend_decision, consume_valid, consume_row, consume_action, revoke_each, revoke_for_support,
  revoke_for_episode,
}
use belief_ledger_pramana.Enforcement.Operations.{Call, empty_store, step, run}
use belief_ledger_pramana.Enforcement.Invariants.{state_of}
use belief_ledger_pramana.Enforcement.Audit.{rebuild-run, verify_hash_chain-run, state_of-run}
use belief_ledger_pramana.Enforcement.Bindings.{binding_mismatch-eq_none_iff}
use belief_ledger_pramana.Enforcement.SingleUse.{consume_action-once}

-- All that a run computes with.
abbrev running : Unit {0}
unfolding settle_receipts revoke_bound_receipts settle_decisions insert_receipt insert_supports
    insert_decision ◌>>=◌ pure fail gets atomically run_sql now new_id new_token insert_event
    append_event apply_event rebuild_enforcement_projection check_event verify_hash_chain
    grant_approval deny_approval issue_approval revoke_approval current_approval expire_receipt
    judge_receipt approval_reason binding_mismatch stored_supports_are_active
    stored_episode_is_active stored_conflicts_are_closed spend_receipt issue_row issue_action reject
    revoke_stale expire_decision spend_decision consume_valid consume_row consume_action revoke_each
    revoke_for_support revoke_for_episode step run
running = tt

-- Ports that answer with the number of the call.
abbrev ports : Dependencies
ports = record {
  clock = λ n. 100 + n;
  identity = λ n. 10 + n;
  token = λ n. n;
  genesis = 0;
  token_hash = λ token. 500 + token;
  receipt_digest = λ id binding. 1000 + id;
  approval_digest = λ binding. binding.episode_id;
  action_digest = λ binding. binding.episode_id;
  event_digest = λ previous seq id at p. 2000 + seq;
}

abbrev permit : ActionBinding
permit = record {
  schema_version = 1;
  episode_id = 7;
  turn_id = 1;
  namespace = 2;
  tool_name = 3;
  arguments_hash = 4;
  target = 5;
  policy_id = 6;
  policy_revision = 7;
  canonicalization_version = 1;
  policy_content_digest = 8;
  config_content_digest = 9;
  stakes = 2;
  supporting_belief_ids = 21 ∷ 22 ∷ [];
  blocking_conflict_ids = [];
  approval_receipt_digest = some 1010;
}

abbrev ledger : Ledger
ledger = record {
  beliefs = Projection.readable (
      record { id = 21; episode_id = 7; holds = true }
      ∷ record { id = 22; episode_id = 7; holds = true }
      ∷ []);
  episodes = Projection.readable (record { id = 7; episode_id = 7; holds = true } ∷ []);
  conflicts = Projection.readable [];
}

abbrev opening : List Call
opening =
    Call.issue_approval_call (expected_approval permit Scope.single_use) 60 true
    ∷ Call.issue_action_call permit 30
    ∷ []

abbrev opened : Store
opened = run ports opening empty_store

abbrev spent : Store
spent = (consume_action ports 0 permit ledger none none opened).1

abbrev answer : ConsumeResult
answer = record { consumed = true; reason_code = Reason.consumed_code; token_digest = 500 }

consumes : consume_action ports 0 permit ledger none none opened ≡ (ok answer, spent)
unfolding running
consumes = refl

state_of-spent : state_of 500 spent.tables.decisions ≡ some RowState.consumed
unfolding running
state_of-spent = refl

rebuild-run_example :
    rebuild_enforcement_projection (run ports opening empty_store).events
    ≡ some (run ports opening empty_store).tables
rebuild-run_example = rebuild-run ports opening

verify_hash_chain-run_example :
    verify_hash_chain ports opened.events
    ≡ ok (next_seq opened.events, head_hash ports opened.events)
verify_hash_chain-run_example = verify_hash_chain-run ports opening

state_of-run_example :
    state_of 500 (run ports (Call.revoke_for_episode_call 7 ∷ []) spent).tables.decisions
    ≡ some RowState.consumed
unfolding running
state_of-run_example =
    state_of-run ports 500 RowState.consumed spent (Call.revoke_for_episode_call 7 ∷ []) refl refl
      refl

binding_mismatch-eq_none_iff_example :
    (binding_mismatch permit permit ≡ none) ↔ (permit ≡ record permit { schema_version = 1 })
binding_mismatch-eq_none_iff_example = binding_mismatch-eq_none_iff permit permit

abbrev again : ConsumeResult
again = record {
  consumed = false;
  reason_code = Reason.token_in RowState.consumed;
  token_digest = 500;
}

consume_action-once_example : again.consumed ≡ false
unfolding running
consume_action-once_example =
    consume_action-once ports 0 permit ledger none none opened spent answer refl refl refl
      (Call.revoke_for_episode_call 7 ∷ []) permit ledger none none
      (consume_action ports 0 permit ledger none none
        (run ports (Call.revoke_for_episode_call 7 ∷ []) spent)).1
      again refl
