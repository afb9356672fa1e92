-- ===== src/Ledger/Events.antt =====
-- packages/core/src/belief_ledger_core/events.py and models.py: drafts, correlations and events. A
-- kind and its payload are one constructor, whose fields are what the projections read of it.
use belief_ledger_pramana.Prelude.{ℕ, Bool, Option, List, ℤ}
use belief_ledger_pramana.Models.{
  Belief, ChainAudit, ComponentVerdict, Conflict, DefeatEdge, Episode, EpisodeState, Evidence,
  EvidenceRef, IngestionSupport, Justification, LlmUsage, RenderedBelief, RetractionNotice, Source,
  SourceStats, Stakes, Status, TaskState, Value, VerificationTask,
}
use Prim.Native.String.{String}

-- The deltas of `SOURCE_STATS_DELTA`; a missing one is 0.
pub record StatsDelta : Type 0 where
  pub confirmed : ℤ
  pub defeated : ℤ
  pub samples : ℤ

-- `unprojected` is a kind without a handler.
pub data Payload : Type 0 where
  episode_created : Episode → Payload
  episode_turn_started : ℕ → ℕ → Payload
  episode_stakes_changed : Stakes → Payload
  episode_state_changed : Option EpisodeState → ℕ → Option ℕ → Payload
  source_registered : Source → Payload
  source_stats_updated : SourceStats → List (String × ℕ) → Payload
  source_stats_delta : StatsDelta → Payload
  evidence_ingested : Evidence → Payload
  belief_admitted : Belief → Option ℕ → Payload
  support_added : IngestionSupport → Payload
  support_activity_changed : Bool → Payload
  justification_added : Justification → Payload
  justification_audited : Option ChainAudit → Payload
  defeat_added : DefeatEdge → Payload
  defeat_activity_changed : Bool → Payload
  belief_status_changed : Status → Payload
  belief_admission_changed : Status → Payload
  belief_observation_refreshed : EvidenceRef → ℕ → Payload
  belief_corroboration_changed : ℕ → Payload
  verification_created : VerificationTask → Payload
  verification_completed : Option ℕ → Option TaskState → Payload
  conflict_opened : Conflict → Payload
  conflict_resolved : Payload
  retraction_created : RetractionNotice → Payload
  retraction_acknowledged retraction_expired : Payload
  context_compiled : List RenderedBelief → Payload
  component_verdict_recorded : ComponentVerdict → Payload
  llm_usage_recorded : LlmUsage → Payload
  unpromoted_evidence_added : ℕ → ℕ → Option ℕ → Payload
  unpromoted_evidence_resolved unpromoted_evidence_failed : ℕ → ℕ → Payload
  lint_recorded : ℕ → Bool → Value → Payload
  gate_decided : ℕ → ℕ → ℕ → ℕ → Value → Payload
  assistant_response_recorded : ℕ → ℕ → String → Payload
  unprojected : ℕ → Payload

-- A correlation once the empty values are dropped, its two names that the store reads apart.
pub record Correlation : Type 0 where
  pub idempotency_key : Option ℕ
  pub idempotency_fingerprint : Option ℕ
  pub others : List (ℕ × ℕ)

pub record EventDraft : Type 0 where
  pub aggregate_type : ℕ
  pub aggregate_id : ℕ
  pub payload : Payload
  pub causal_event_id : Option ℕ

-- An event without its authentication tag, that is a row of `events`. Its `schema_version` is
-- always 1.
pub record Event : Type 0 where
  pub seq : ℕ
  pub id : ℕ
  pub episode_id : ℕ
  pub timestamp : ℕ
  pub aggregate_type : ℕ
  pub aggregate_id : ℕ
  pub correlation : Correlation
  pub causal_event_id : Option ℕ
  pub payload : Payload
  pub previous_hash : ℕ
  pub event_hash : ℕ

-- What is outside of the store: the digests (`body_digest previous body` is SHA-256 over `previous` and the canonical JSON of the
-- event without its hash), the authentication tag under the store's key, and the text
-- `"{episode_id}:{idempotency_key}"`, and whether SQLite has `fts5`.
pub record Ports : Type 0 where
  pub body_digest : ℕ → Event → ℕ
  pub auth_tag : ℕ → ℕ → ℕ
  pub zero_hash : ℕ
  pub content_hash : String → ℕ
  pub storage_key : ℕ → ℕ → ℕ
  pub has_fts : Bool

-- The body of an event, whose hash is not part of it.
abbrev pub body : Event → Event
body e = record e { event_hash = 0 }

module _ (ports : Ports) where
  abbrev pub compute_event_hash : ℕ → Event → ℕ
  compute_event_hash previous e = ports.body_digest previous (body e)

  abbrev pub build_event : ℕ → ℕ → ℕ → EventDraft → ℕ → Correlation → ℕ → Event
  build_event seq id timestamp draft previous_hash correlation episode_id =
      let unhashed : Event = record {
        seq = seq;
        id = id;
        episode_id = episode_id;
        timestamp = timestamp;
        aggregate_type = draft.aggregate_type;
        aggregate_id = draft.aggregate_id;
        correlation = correlation;
        causal_event_id = draft.causal_event_id;
        payload = draft.payload;
        previous_hash = previous_hash;
        event_hash = 0;
      } in
      record unhashed { event_hash = compute_event_hash previous_hash unhashed }
