-- ===== src/Ledger/Projections.antt =====
-- packages/core/src/belief_ledger_core/projections.py: the handler of each kind of event, and
-- `apply_event`, on the projection tables and the heads of the episodes' chains.
use belief_ledger_pramana.Prelude.{
  ℕ, Bool, true, false, Option, none, some, List, [], ◌∷◌, any, on_option, ◌==◌, if◌then◌else◌,
}
use belief_ledger_pramana.Models.{TaskState, NoticeState}
use belief_ledger_pramana.Ledger.Results.{Error, Result, ok, ◌>>=◌, ◌>>◌, require, each}
use belief_ledger_pramana.Ledger.Events.{Event, Payload, Ports}
use belief_ledger_pramana.Ledger.Tables.{
  PromotionState, Tables, update_id, source_entity, evidence_entity, belief_entity, support_entity,
  justification_entity, defeat_entity, task_entity, conflict_entity, retraction_entity,
}
use belief_ledger_pramana.Ledger.Inserts.{
  require_entity_episode, insert_episode, insert_source, insert_evidence, insert_justification,
  insert_belief, insert_support, insert_defeat, insert_task, insert_conflict, insert_retraction,
  insert_rendered, insert_verdict, insert_usage,
}
use belief_ledger_pramana.Ledger.Updates.{
  record_for_event, update_episode, apply_episode_state_changed, add_delta, update_source,
  update_belief, set_belief_status, refresh_reference, complete_task, resolve_conflict, set_notice,
  replace_unpromoted, finish_unpromoted, insert_lint, insert_gate, insert_response,
}

module _ (ports : Ports) where
  -- `_EVENT_HANDLERS`, on the kind and the payload.
  unfoldable pub handle : Event → Payload → Tables → Result Tables
  handle e (Payload.episode_created r) t = do
    require (r.id == e.episode_id) Error.foreign_record
    insert_episode r t
  handle e (Payload.episode_turn_started turn updated_at) t = ok (
      update_episode e.episode_id (λ x. record x { current_turn = turn; updated_at = updated_at })
        t)
  handle e (Payload.episode_stakes_changed to) t = ok (
      update_episode e.episode_id (λ x. record x { default_stakes = to; updated_at = e.timestamp })
        t)
  handle e (Payload.episode_state_changed state updated_at key) t =
      apply_episode_state_changed state updated_at key e.episode_id t
  handle e (Payload.source_registered r) t = do record_for_event r.episode_id e; insert_source r t
  handle e (Payload.source_stats_updated stats competence) t = do
    require_entity_episode t.sources e.aggregate_id e.episode_id
    ok (update_source e.aggregate_id (λ x. record x { stats = stats; competence = competence }) t)
  handle e (Payload.source_stats_delta d) t = do
    require_entity_episode t.sources e.aggregate_id e.episode_id
    ok (update_source e.aggregate_id (λ x. record x { stats = add_delta d x.stats }) t)
  handle e (Payload.evidence_ingested r) t = do record_for_event r.episode_id e; insert_evidence r t
  handle e (Payload.belief_admitted r transport) t = do
    record_for_event r.episode_id e
    insert_belief ports r transport t
  handle e (Payload.support_added r) t = do record_for_event r.episode_id e; insert_support r t
  handle e (Payload.support_activity_changed active) t = do
    require_entity_episode t.supports e.aggregate_id e.episode_id
    ok (record t {
      supports = update_id e.aggregate_id (λ x. record x { active = active }) t.supports;
    })
  handle e (Payload.justification_added r) t = insert_justification e.episode_id r t
  handle e (Payload.justification_audited audit) t = do
    require_entity_episode t.justifications e.aggregate_id e.episode_id
    ok (record t {
      justifications = update_id e.aggregate_id (λ x. record x { audit = audit }) t.justifications;
    })
  handle e (Payload.defeat_added r) t = do record_for_event r.episode_id e; insert_defeat r t
  handle e (Payload.defeat_activity_changed active) t = do
    require_entity_episode t.defeats e.aggregate_id e.episode_id
    ok (record t {
      defeats = update_id e.aggregate_id (λ x. record x { active = active }) t.defeats;
    })
  handle e (Payload.belief_status_changed to) t = do
    require_entity_episode t.beliefs e.aggregate_id e.episode_id
    ok (set_belief_status ports.has_fts e.aggregate_id to t)
  handle e (Payload.belief_admission_changed to) t = do
    require_entity_episode t.beliefs e.aggregate_id e.episode_id
    ok (update_belief e.aggregate_id (λ x. record x { admission_status = to }) t)
  handle e (Payload.belief_observation_refreshed ref observed_at) t = do
    require_entity_episode t.beliefs e.aggregate_id e.episode_id
    require_entity_episode t.evidence ref.evidence_id e.episode_id
    ok (
        refresh_reference e.aggregate_id ref
          (update_belief e.aggregate_id (λ x. record x { observed_at = observed_at }) t))
  handle e (Payload.belief_corroboration_changed to) t = do
    require_entity_episode t.beliefs e.aggregate_id e.episode_id
    ok (update_belief e.aggregate_id (λ x. record x { corroboration = to }) t)
  handle e (Payload.verification_created r) t = do record_for_event r.episode_id e; insert_task r t
  handle e (Payload.verification_completed result state) t = do
    require_entity_episode t.verification_tasks e.aggregate_id e.episode_id
    complete_task e.aggregate_id result (on_option state TaskState.completed (λ s. s)) t
  handle e (Payload.conflict_opened r) t = do record_for_event r.episode_id e; insert_conflict r t
  handle e Payload.conflict_resolved t = do
    require_entity_episode t.conflicts e.aggregate_id e.episode_id
    resolve_conflict e.aggregate_id t
  handle e (Payload.retraction_created r) t = do
    record_for_event r.episode_id e
    insert_retraction r t
  handle e Payload.retraction_acknowledged t = do
    require_entity_episode t.retractions e.aggregate_id e.episode_id
    ok (set_notice e.aggregate_id NoticeState.acknowledged t)
  handle e Payload.retraction_expired t = do
    require_entity_episode t.retractions e.aggregate_id e.episode_id
    ok (set_notice e.aggregate_id NoticeState.lapsed t)
  handle e (Payload.context_compiled rendered) t = each (insert_rendered e.episode_id) rendered t
  handle e (Payload.component_verdict_recorded r) t = do
    record_for_event r.episode_id e
    insert_verdict r t
  handle e (Payload.llm_usage_recorded r) t = do record_for_event r.episode_id e; insert_usage r t
  handle e (Payload.unpromoted_evidence_added evidence_id profile reason) t = do
    require_entity_episode t.evidence evidence_id e.episode_id
    ok (
        replace_unpromoted
          (record {
            episode_id = e.episode_id;
            evidence_id = evidence_id;
            source_profile = profile;
            state = PromotionState.open_promotion;
            reason = reason;
          })
          t)
  handle e (Payload.unpromoted_evidence_resolved evidence_id reason) t =
      ok (finish_unpromoted e.episode_id evidence_id PromotionState.resolved reason t)
  handle e (Payload.unpromoted_evidence_failed evidence_id reason) t =
      ok (finish_unpromoted e.episode_id evidence_id PromotionState.failed reason t)
  handle e (Payload.lint_recorded response_hash passed report) t =
      insert_lint
        (record {
          event_id = e.id;
          episode_id = e.episode_id;
          response_hash = response_hash;
          passed = passed;
          report = report;
        })
        t
  handle e (Payload.gate_decided tool_name args_hash outcome reason_code detail) t =
      insert_gate
        (record {
          event_id = e.id;
          episode_id = e.episode_id;
          tool_name = tool_name;
          args_hash = args_hash;
          outcome = outcome;
          reason_code = reason_code;
          detail = detail;
        })
        t
  handle e (Payload.assistant_response_recorded turn_id digest content) t =
      insert_response
        (record {
          event_id = e.id;
          episode_id = e.episode_id;
          turn_id = turn_id;
          content_hash = digest;
          content = content;
        })
        t
  handle e (Payload.unprojected kind) t = ok t

abbrev pub creates_episode : Payload → Bool
creates_episode (Payload.episode_created _) = true
creates_episode _ = false

-- `_require_episode_exists`
abbrev pub require_episode_exists : ℕ → Tables → Result (Unit {0})
require_episode_exists episode_id t =
    require (any (λ x. x.id == episode_id) t.episodes) Error.no_episode

-- `event_heads`: an episode with the number and the hash of its last event, the oldest first.
abbrev pub Heads : Type 0
Heads = List (ℕ × (ℕ × ℕ))

-- A dictionary, or a table, whose key keeps its place when its value is written again.
unfoldable pub upsert : {A : Type 0} → ℕ → A → List (ℕ × A) → List (ℕ × A)
upsert k v [] = (k, v) ∷ []
upsert k v (x ∷ xs) = let rest = upsert k v xs in if k == x.0 then (k, v) ∷ xs else x ∷ rest

unfoldable pub lookup : {A : Type 0} → ℕ → List (ℕ × A) → Option A
lookup k [] = none
lookup k (x ∷ xs) = if k == x.0 then some x.1 else lookup k xs

-- What the events are projected to.
pub record Projections : Type 0 where
  pub tables : Tables
  pub heads : Heads

unfoldable pub apply_event : Ports → Event → Projections → Result Projections
apply_event ports e p = do
  if creates_episode e.payload then ok tt else require_episode_exists e.episode_id p.tables
  t ← handle ports e e.payload p.tables
  ok (record { tables = t; heads = upsert e.episode_id (e.seq, e.event_hash) p.heads })
