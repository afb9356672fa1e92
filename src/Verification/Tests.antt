-- ===== src/Verification/Tests.antt =====
-- packages/core/src/belief_ledger_core/verification/scheduler.py: a task that is requested, completed
-- and completed again.
use belief_ledger_pramana.Prelude.{
  ℕ, ◌+◌, ◌≡◌, refl, true, false, none, List, [], ◌∷◌, ◌++◌, pos, map, all,
}
use belief_ledger_pramana.Models.{VerificationMethod, VerificationTask}
use belief_ledger_pramana.Ledger.Results.{ok, when_ok, ◌>>=◌, each}
use belief_ledger_pramana.Ledger.Events.{Payload}
use belief_ledger_pramana.Ledger.Tables.{insert, update, entity_in_episode}
use belief_ledger_pramana.Ledger.Inserts.{
  insert_episode, insert_source, insert_provenance, insert_belief, insert_task,
}
use belief_ledger_pramana.Ledger.Updates.{update_unique, complete_task}
use belief_ledger_pramana.Ledger.Projections.{handle, Heads, upsert, lookup, apply_event}
use belief_ledger_pramana.Ledger.Store.{
  Ledger, empty_ledger, max_seq, insert_event, transaction, store_event, append_drafts, insert_key,
  append_new, append, append_events,
}
use belief_ledger_pramana.Ledger.Chunks.{chunks}
use belief_ledger_pramana.Ledger.Chain.{
  authenticated_events, check_event, scan, scan_batches, verified_heads, chain_state, max_head,
}
use belief_ledger_pramana.Ledger.Runs.{Call, step, run}
use belief_ledger_pramana.Ledger.Samples.{ports, setup, fresh_from, task}
use belief_ledger_pramana.Verification.Scheduler.{
  Outcome, no_correlation, task_draft, list_verification_tasks, find_open, create_task, request,
  complete,
}
use belief_ledger_pramana.Verification.Completed.{complete-again}
use belief_ledger_pramana.Verification.Anchors.{
  AnchorLabels, AnchorRecord, AnchorReport, compare_record, compare_each, fetch, root_at,
  anchor_publish, anchor_verification,
}
use belief_ledger_pramana.Verification.Anchored.{agrees, anchor_verification_iff}
use belief_ledger_pramana.Verification.Published.{
  AnchorCall, anchor_step, anchor_run, anchor_verification-calls,
}

abbrev running : Unit {0}
unfolding ◌>>=◌ each insert update entity_in_episode insert_episode insert_source insert_provenance
    insert_belief insert_task update_unique complete_task handle upsert lookup apply_event
    insert_event transaction store_event append_drafts insert_key append_new append append_events
    step run list_verification_tasks find_open create_task request complete authenticated_events
    check_event scan scan_batches verified_heads chain_state compare_record compare_each
    anchor_publish anchor_verification anchor_step anchor_run chunks
running = tt

abbrev database : Ledger
database = run ports setup empty_ledger

abbrev requested : Ledger
requested =
    (request ports (fresh_from 200) 42 1 31 VerificationMethod.human (pos 99) (pos 1) database).1

-- The number of confirmations is cut to 20.
ranks : map (λ t. t.k_required) requested.projections.tables.verification_tasks ≡ 20 ∷ 1 ∷ []
unfolding running
ranks = refl

-- A second request finds the task.
found :
    when_ok
      (request ports (fresh_from 210) 43 1 31 VerificationMethod.human (pos 1) (pos 1) requested).0
      (λ e. 0)
      (λ r. r.task.id)
    ≡ 42
unfolding running
found = refl

abbrev human_task : VerificationTask
human_task = record (task 42) { method = VerificationMethod.human; k_required = 20 }

abbrev finished : Ledger
finished = (complete ports (fresh_from 220) human_task Outcome.confirmed requested).1

complete-again_example :
    complete ports (fresh_from 230) human_task Outcome.disconfirmed finished ≡ (ok [], finished)
unfolding running
complete-again_example =
    complete-again ports (fresh_from 220) (fresh_from 230) human_task Outcome.confirmed
      Outcome.disconfirmed 2 requested finished 220 [] refl refl

abbrev labels : AnchorLabels
labels = record {
  ledger_id = 1;
  scope = 1;
  hash_algorithm = 1;
  created_at = 50;
  package_version = 1;
}

abbrev root : Heads → ℕ
root heads = 700 + max_head heads

-- An anchor of the database as it was set up, and one after a further event.
abbrev calls : List AnchorCall
calls =
    map (λ c. AnchorCall.store_call c) setup
    ++ (AnchorCall.publish_call labels
        ∷ AnchorCall.store_call (
            Call.append_call (fresh_from 240) 1
              (task_draft 44 (Payload.episode_turn_started 1 300) ∷ []) no_correlation none none)
        ∷ AnchorCall.publish_call labels
        ∷ [])

abbrev anchored : Ledger × List AnchorRecord
anchored = anchor_run ports root calls (empty_ledger, [])

heights : map (λ (r : AnchorRecord). r.chain_height) anchored.1 ≡ 6 ∷ 7 ∷ []
unfolding running
heights = refl

anchor_verification-calls_example :
    (report : AnchorReport) × (anchor_verification ports root 2 anchored.1 anchored.0 ≡ ok report)
    × (report.is_sound ≡ true)
    × (report.current_height ≡ max_seq anchored.0.events)
anchor_verification-calls_example = anchor_verification-calls ports root calls 2

-- The root of one record is another.
abbrev tampered : List AnchorRecord
tampered = map (λ (r : AnchorRecord). record r { root_hash = 706 }) anchored.1

abbrev tampered_report : AnchorReport
tampered_report =
    when_ok (anchor_verification ports root 0 tampered anchored.0)
      (λ e. record {
        is_sound = true;
        current_height = 0;
        current_root = 0;
        failures = [];
        comparisons = [];
      })
      (λ r. r)

told : tampered_report.is_sound ≡ false
unfolding running
told = refl

anchor_verification_iff_example :
    tampered_report.is_sound
    ≡ all (agrees (root_at ports root anchored.0) tampered_report.current_height) (fetch 0 tampered)
unfolding running
anchor_verification_iff_example =
    anchor_verification_iff ports root 0 tampered anchored.0 tampered_report refl
