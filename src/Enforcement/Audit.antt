-- ===== src/Enforcement/Audit.antt =====
-- packages/core/src/belief_ledger_core/enforcement.py: the tables, the event log and its chain
-- after any calls.
use belief_ledger_pramana.Prelude.{ℕ, ◌≡◌, refl, false, some, List}
use belief_ledger_pramana.Enforcement.Tables.{RowState, is_issued}
use belief_ledger_pramana.Enforcement.Store.{Dependencies, Store, ok, next_seq, head_hash}
use belief_ledger_pramana.Enforcement.Replay.{rebuild_enforcement_projection, verify_hash_chain}
use belief_ledger_pramana.Enforcement.Operations.{Call, empty_store, run, run_keeps}
use belief_ledger_pramana.Enforcement.Invariants.{
  IsReplayed, IsReplayed-IsLogged, IsChained, IsChained-IsLogged, IsSettled, IsSettled-IsLogged,
  state_of,
}

-- Whatever an empty store was asked, a replay of its events succeeds and gives exactly its tables.
pub rebuild-run :
    (deps : Dependencies) (calls : List Call)
    → let s = run deps calls empty_store in rebuild_enforcement_projection s.events ≡ some s.tables
unfolding rebuild_enforcement_projection
rebuild-run deps calls = run_keeps IsReplayed (IsReplayed-IsLogged deps) calls empty_store refl

-- Whatever an empty store was asked, its hash chain verifies up to the newest event.
pub verify_hash_chain-run :
    (deps : Dependencies) (calls : List Call)
    → let s = run deps calls empty_store in
      verify_hash_chain deps s.events ≡ ok (next_seq s.events, head_hash deps s.events)
unfolding rebuild_enforcement_projection verify_hash_chain
verify_hash_chain-run deps calls =
    (run_keeps (IsChained deps) (IsChained-IsLogged deps) calls empty_store (refl, refl)).1

-- In a store whose events replay to its tables, a permit that is consumed, expired or revoked stays
-- so, whatever the store is asked later.
pub state_of-run :
    (deps : Dependencies) (digest : ℕ) (st : RowState) (s : Store) (calls : List Call)
    → IsReplayed s.tables s.events
    → is_issued st ≡ false
    → state_of digest s.tables.decisions ≡ some st
    → state_of digest (run deps calls s).tables.decisions ≡ some st
state_of-run deps digest st s calls h final e =
    (run_keeps (IsSettled digest st final) (IsSettled-IsLogged digest st final deps) calls s
      (h, e)).1
