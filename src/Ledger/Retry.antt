-- ===== src/Ledger/Retry.antt =====
-- packages/core/src/belief_ledger_core/store.py: an idempotency key that is used again.
use belief_ledger_pramana.Prelude.{ℕ, Option, List, if◌then◌else◌}
use belief_ledger_pramana.Ledger.Results.{Error, Result, ok, raise}
use belief_ledger_pramana.Ledger.Events.{Event, Ports}
use belief_ledger_pramana.Ledger.Store.{Ledger, clash_of_fingerprints, first_fingerprint}

module _ (ports : Ports) where
  -- The answer to a key whose batch is `es`.
  abbrev pub answer : List Event → Option ℕ → Result (List Event)
  answer es fingerprint =
      if clash_of_fingerprints (first_fingerprint es) fingerprint
      then raise Error.key_reused
      else ok es
