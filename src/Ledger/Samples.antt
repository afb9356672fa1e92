-- ===== src/Ledger/Samples.antt =====
-- packages/core/src/belief_ledger_core/store.py: ports and records for small runs of the store.
use belief_ledger_pramana.Prelude.{ℕ, ◌+◌, ◌*◌, true, none, some, List, [], ◌∷◌, pos}
use belief_ledger_pramana.Models.{
  Belief, CompatibilityMode, Episode, EpisodeState, Integrity, Perishability, Pramana, Source,
  SourceKind, Stakes, Status, TaskState, VerificationMethod, VerificationTask,
}
use belief_ledger_pramana.Ledger.Events.{Correlation, EventDraft, Payload, Ports}
use belief_ledger_pramana.Ledger.Budget.{Limits}
use belief_ledger_pramana.Ledger.Runs.{Call}

abbrev pub ports : Ports
ports = record {
  body_digest = λ previous e. 5000 + e.seq;
  auth_tag = λ id hash. id + hash;
  zero_hash = 0;
  content_hash = λ text. 7;
  storage_key = λ episode_id key. episode_id * 1000 + key;
  has_fts = true;
}

abbrev pub episode : ℕ → Episode
episode id = record {
  id = id;
  key = id;
  session_id = 1;
  task_id = 1;
  platform = 1;
  model = 1;
  default_stakes = Stakes.med;
  current_turn = 0;
  created_at = 10;
  updated_at = 10;
  compatibility_mode = CompatibilityMode.full;
  llm_calls_used = 0;
  input_tokens_used = 0;
  output_tokens_used = 0;
  state = EpisodeState.active;
}

abbrev pub source : Source
source = record {
  id = 21;
  episode_id = 1;
  kind = SourceKind.tool;
  integrity = Integrity.trusted;
  name = "tool";
  root = "tool:a";
  competence = [];
  stats = record { confirmed = 0; defeated = 0; samples = 0 };
}

abbrev pub belief : Belief
belief = record {
  id = 31;
  episode_id = 1;
  content = "the door is open";
  normalized_content = "door open";
  pramana = Pramana.pratyaksha;
  source_id = 21;
  evidence = [];
  justifications = [];
  qualifiers = [];
  perishability = Perishability.fast;
  observed_at = 12;
  stakes = Stakes.med;
  status = Status.in_;
  admission_status = Status.in_;
  domain = "general";
  confidence = none;
  corroboration = 0;
  validity = [];
}

abbrev pub task : ℕ → VerificationTask
task id = record {
  id = id;
  episode_id = 1;
  belief_id = 31;
  method = VerificationMethod.tool_recheck;
  k_required = 1;
  budget = 1;
  result = none;
  state = TaskState.open_task;
}

abbrev pub draft : ℕ → Payload → EventDraft
draft id payload = record {
  aggregate_type = 1;
  aggregate_id = id;
  payload = payload;
  causal_event_id = none;
}

abbrev pub plain : Correlation
plain = record { idempotency_key = none; idempotency_fingerprint = none; others = [] }

abbrev pub fingerprinted : ℕ → Correlation
fingerprinted n = record { idempotency_key = none; idempotency_fingerprint = some n; others = [] }

abbrev pub fresh_from : ℕ → ℕ → ℕ × ℕ
fresh_from start offset = (start + offset, 100 + offset)

abbrev pub create : ℕ → ℕ → Call
create start id =
    Call.append_call (fresh_from start) id (draft id (Payload.episode_created (episode id)) ∷ [])
      plain none none

-- Two episodes, a source and a belief under a key, and a task that is completed.
abbrev pub setup : List Call
setup =
    create 100 1
    ∷ create 110 2
    ∷ Call.append_call (fresh_from 120) 1
        (draft 21 (Payload.source_registered source)
          ∷ draft 31 (Payload.belief_admitted belief none)
          ∷ [])
        (fingerprinted 5) (some 8) none
    ∷ Call.append_call (fresh_from 130) 1 (draft 41 (Payload.verification_created (task 41)) ∷ [])
        plain none none
    ∷ Call.append_call (fresh_from 140) 1
        (draft 41 (Payload.verification_completed (some 1) none) ∷ []) plain none (some 41)
    ∷ []

-- The same, with a second task of the belief and the method.
abbrev pub setup_again : List Call
setup_again =
    create 100 1
    ∷ Call.append_call (fresh_from 120) 1
        (draft 21 (Payload.source_registered source)
          ∷ draft 31 (Payload.belief_admitted belief none)
          ∷ draft 41 (Payload.verification_created (task 41))
          ∷ draft 41 (Payload.verification_completed (some 1) none)
          ∷ draft 42 (Payload.verification_created (task 42))
          ∷ [])
        plain none none
    ∷ []

abbrev pub limits : Limits
limits = record {
  calls_turn = pos 2;
  calls_episode = pos 3;
  input_tokens_episode = pos 100;
  output_tokens_episode = pos 50;
}
