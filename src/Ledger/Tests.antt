-- ===== src/Ledger/Tests.antt =====
-- packages/core/src/belief_ledger_core/store.py: runs of the store on small inputs, and the theorems
-- at them.
use mathlib.Mathlib.Data.Multiset.Defs.{Multiset, of_list}
use belief_ledger_pramana.Prelude.{
  ℕ, ◌≤◌, ◌≡◌, refl, none, some, List, [], ◌∷◌, map, find, All, inl, inr, length, pos, arith, ◌==◌,
}
use belief_ledger_pramana.Models.{Episode, TaskState, VerificationTask}
use belief_ledger_pramana.Ledger.Results.{Error, ok, raise, when_ok, ◌>>=◌, each}
use belief_ledger_pramana.Ledger.Events.{Event, EventDraft, Payload, build_event}
use belief_ledger_pramana.Ledger.Tables.{insert, update, entity_in_episode}
use belief_ledger_pramana.Ledger.Inserts.{
  require_beliefs, insert_episode, insert_source, insert_evidence, insert_reference,
  insert_premises, insert_justification, insert_provenance, insert_belief, insert_support,
  insert_defeat, insert_task, insert_conflict, insert_retraction, insert_rendered, insert_verdict,
  insert_usage,
}
use belief_ledger_pramana.Ledger.Updates.{
  update_unique, apply_episode_state_changed, set_belief_status, refresh_reference, complete_task,
  resolve_conflict, insert_lint, insert_gate, insert_response,
}
use belief_ledger_pramana.Ledger.Projections.{handle, upsert, lookup, apply_event}
use belief_ledger_pramana.Ledger.Chunks.{chunks_from, chunks, concat, concat-chunks}
use belief_ledger_pramana.Ledger.Chain.{
  authenticated_events, check_event, scan, scan_batches, verified_heads, chain_state,
}
use belief_ledger_pramana.Ledger.Store.{
  Ledger, IdempotencyRow, empty_ledger, insert_event, transaction, store_event, append_drafts,
  events_by_ids, insert_key, earlier_events, append_new, append, append_events, verify_hash_chain,
  clean_correlation,
}
use belief_ledger_pramana.Ledger.Budget.{
  insert_reservation, check_limits, reserve, reserve_llm_budget, release_llm_reservation,
  WithinLimits,
}
use belief_ledger_pramana.Ledger.Reserved.{reserve_llm_budget-WithinLimits}
use belief_ledger_pramana.Ledger.Runs.{step, run, run-IsValid, verify_hash_chain-calls}
use belief_ledger_pramana.Ledger.Heights.{chain_state-append_events}
use belief_ledger_pramana.Ledger.Replay.{
  idempotency_batches, restore_idempotency, rebuild, replay, preserved, copy_without, purge_episode,
}
use belief_ledger_pramana.Ledger.Replayed.{replay-run}
use belief_ledger_pramana.Ledger.Completion.{append_events-repeated}
use belief_ledger_pramana.Ledger.Purge.{without, verified_heads-preserved}
use belief_ledger_pramana.Ledger.Samples.{
  ports, source, draft, plain, fingerprinted, fresh_from, create, task, setup, setup_again, limits,
}

-- All that a run computes with.
abbrev running : Unit {0}
unfolding ◌>>=◌ each insert update entity_in_episode require_beliefs insert_episode insert_source
    insert_evidence insert_reference insert_premises insert_justification insert_provenance
    insert_belief insert_support insert_defeat insert_task insert_conflict insert_retraction
    insert_rendered insert_verdict insert_usage update_unique apply_episode_state_changed
    set_belief_status refresh_reference complete_task resolve_conflict insert_lint insert_gate
    insert_response handle upsert lookup apply_event chunks_from chunks authenticated_events
    check_event scan scan_batches verified_heads chain_state insert_event transaction store_event
    append_drafts events_by_ids insert_key earlier_events append_new append append_events
    verify_hash_chain insert_reservation check_limits reserve reserve_llm_budget
    release_llm_reservation step run idempotency_batches restore_idempotency rebuild replay
    copy_without purge_episode
running = tt

abbrev database : Ledger
database = run ports setup empty_ledger

abbrev database_again : Ledger
database_again = run ports setup_again empty_ledger

seqs : map (λ e. e.seq) database.events ≡ 1 ∷ 2 ∷ 3 ∷ 4 ∷ 5 ∷ 6 ∷ []
unfolding running
seqs = refl

heads : database.projections.heads ≡ (1, (6, 5006)) ∷ (2, (2, 5002)) ∷ []
unfolding running
heads = refl

keys : map (λ r. r.event_ids) database.idempotency ≡ (120 ∷ 121 ∷ []) ∷ []
unfolding running
keys = refl

-- A purge of the first episode keeps the event of the second.
purged : (purge_episode ports 1 1 database).0 ≡ ok (5, 1)
unfolding running
purged = refl

-- The first task is completed, and the second cannot be.
repeated :
    (append_events ports
      (fresh_from 200)
      1
      (draft 42 (Payload.verification_completed (some 1) none) ∷ [])
      plain
      none
      (some 42)
      database_again).0
    ≡ raise Error.constraint
unfolding running
repeated = refl

verify_hash_chain-calls_example :
    verify_hash_chain ports (run ports setup empty_ledger)
    ≡ ok (run ports setup empty_ledger).projections.heads
verify_hash_chain-calls_example = verify_hash_chain-calls ports setup

replay-run_example :
    (rows : List IdempotencyRow) × (◌≡◌ {A = Multiset IdempotencyRow}
      (of_list rows)
      (of_list (run ports setup empty_ledger).idempotency))
    × (replay ports (λ tables heads rows. 0) (run ports setup empty_ledger) ≡ (
      ok (length (run ports setup empty_ledger).events),
      record (run ports setup empty_ledger) { idempotency = rows; reservations = [] },
    ))
replay-run_example =
    replay-run ports (λ tables heads rows. 0) setup (refl, (refl, (_, (refl, (refl, _)))))

abbrev three : List ℕ
three = 1 ∷ 2 ∷ 3 ∷ []

concat-chunks_example :
    (concat (chunks 2 three) ≡ three) × All (λ c. (1 ≤ length c) × (length c ≤ 2)) (chunks 2 three)
concat-chunks_example = concat-chunks 2 three (omega arith)

verified_heads-preserved_example :
    verified_heads ports none
      (run ports setup empty_ledger).auth
      (preserved 1 (run ports setup empty_ledger).events)
    ≡ ok (without 1 (run ports setup empty_ledger).projections.heads)
verified_heads-preserved_example = verified_heads-preserved ports 1 setup

chain_state-append_events_example :
    chain_state ports length
      (some 4)
      (append_events ports
        (fresh_from 200)
        1
        (draft 1 (Payload.episode_turn_started 1 300) ∷ [])
        plain
        none
        none
        database).1.auth
      (append_events ports
        (fresh_from 200)
        1
        (draft 1 (Payload.episode_turn_started 1 300) ∷ [])
        plain
        none
        none
        database).1.events
    ≡ chain_state ports length (some 4) database.auth database.events
unfolding running
chain_state-append_events_example =
    chain_state-append_events ports length 4 (fresh_from 200) 1
      (draft 1 (Payload.episode_turn_started 1 300) ∷ []) plain none none database
      (run-IsValid ports setup) (omega arith)

abbrev created : Ledger
created = run ports (create 100 1 ∷ []) empty_ledger

abbrev registered : EventDraft
registered = draft 21 (Payload.source_registered source)

abbrev keyed : Ledger
keyed =
    (append_events ports (fresh_from 120) 1 (registered ∷ []) (fingerprinted 5) (some 8) none
      created).1

abbrev keyed_event : Event
keyed_event =
    build_event ports 2 120 100 registered 5001 (clean_correlation (some 8) (fingerprinted 5)) 1

abbrev done_task : VerificationTask
done_task = record (task 41) { result = some 1; state = TaskState.completed }

append_events-repeated_example :
    append_events ports
      (fresh_from 200)
      1
      (draft 42 (Payload.verification_completed (some 1) none) ∷ [])
      plain
      none
      (some 42)
      database_again
    ≡ (raise Error.constraint, database_again)
unfolding running
append_events-repeated_example =
    append_events-repeated ports (fresh_from 200) done_task (task 42)
      (draft 42 (Payload.verification_completed (some 1) none)) (some 1) plain database_again
      (record { completed = refl; other = refl; episode = refl; belief = refl; method = refl })
      (inr (inl refl)) (inl refl) refl refl refl refl refl

abbrev reserved : Ledger
reserved = (reserve_llm_budget 77 500 1 0 limits (pos 10) (pos 5) 60 database).1

abbrev reservation_id : ℕ
reservation_id = 77

reserve_llm_budget-WithinLimits_example :
    (reservation_id ≡ reservation_id)
    × ((e : Episode) × (find (λ x. x.id == 1) database.projections.tables.episodes ≡ some e)
        × WithinLimits limits 1 0 e reserved)
unfolding running
reserve_llm_budget-WithinLimits_example =
    reserve_llm_budget-WithinLimits reservation_id 500 1 0 limits (pos 10) (pos 5) 60 database
      reserved reservation_id refl

-- A correlation that brings a key of its own: no row is written, and a rebuild writes one.
abbrev own_key : Ledger
own_key =
    (append_events ports (fresh_from 120) 1 (registered ∷ [])
      (record plain { idempotency_key = some 8 }) none none created).1

own_key-rows :
    (length own_key.idempotency ≡ 0)
    × (when_ok (rebuild ports own_key) (λ e. 0) (λ l. length l.idempotency) ≡ 1)
unfolding running
own_key-rows = (refl, refl)
