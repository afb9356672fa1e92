-- ===== src/Ledger/Updates.antt =====
-- packages/core/src/belief_ledger_core/projections.py: the updates that the handlers make on the
-- projection tables.
use belief_ledger_pramana.Prelude.{
  ℕ, suc, ◌+◌, ◌-◌, Bool, true, false, ◌&&◌, Option, none, some, List, ◌∷◌, any, find, on_option,
  select, not, ℤ, pos, negsuc, ◌==◌, if◌then◌else◌,
}
use belief_ledger_pramana.Models.{
  Episode, EpisodeState, EvidenceRef, Source, Status, TaskState, SourceStats, NoticeState,
}
use belief_ledger_pramana.Ledger.Results.{Error, Result, ok, raise, ◌>>=◌, require}
use belief_ledger_pramana.Ledger.Events.{Event, StatsDelta}
use belief_ledger_pramana.Ledger.Tables.{
  BeliefRow, PromotionState, UnpromotedRow, LintRow, GateRow, ResponseRow, Tables, insert, update,
  update_id, source_entity, evidence_entity, belief_entity, support_entity, justification_entity,
  defeat_entity, task_entity, conflict_entity, retraction_entity,
}
use belief_ledger_pramana.Ledger.Inserts.{fts_replace, same_task, same_span, same_conflict}

-- `_record_for_event`
abbrev pub record_for_event : ℕ → Event → Result (Unit {0})
record_for_event episode_id event = require (episode_id == event.episode_id) Error.foreign_record

-- `UPDATE episodes SET ... WHERE id=?`
abbrev pub update_episode : ℕ → (Episode → Episode) → Tables → Tables
update_episode episode_id change t = record t {
  episodes = update (λ x. x.id == episode_id) change t.episodes;
}

-- `UPDATE` under a unique key: the row of the identifier may not come to clash with another row.
unfoldable pub update_unique :
    {A : Type 0} (id_of : A → ℕ) → (A → A → Bool) → ℕ → (A → A) → List A → Result (List A)
unfolding update
update_unique id_of clash identifier change rows =
    if any
      (λ x.
        (id_of x == identifier)
        && any (λ y. not (id_of y == identifier) && clash (change x) y) rows)
      rows
    then raise Error.constraint
    else ok (update (λ x. id_of x == identifier) change rows)

-- `COALESCE(?,episode_key)` with the unique `episode_key`.
unfoldable pub apply_episode_state_changed :
    Option EpisodeState → ℕ → Option ℕ → ℕ → Tables → Result Tables
apply_episode_state_changed state updated_at key episode_id t = do
  rows ←
      update_unique (λ x. x.id) (λ x y. x.key == y.key) episode_id
        (λ x. record x {
          state = on_option state EpisodeState.finalized (λ s. s);
          updated_at = updated_at;
          key = on_option key x.key (λ k. k);
        })
        t.episodes
  ok (record t { episodes = rows })

-- `max(0, a + d)`
abbrev pub add_clamped : ℕ → ℤ → ℕ
add_clamped a (pos d) = a + d
add_clamped a (negsuc d) = a - suc d

abbrev pub add_delta : StatsDelta → SourceStats → SourceStats
add_delta d s = record {
  confirmed = add_clamped s.confirmed d.confirmed;
  defeated = add_clamped s.defeated d.defeated;
  samples = add_clamped s.samples d.samples;
}

abbrev pub update_source : ℕ → (Source → Source) → Tables → Tables
update_source identifier change t = record t { sources = update_id identifier change t.sources }

abbrev pub update_belief : ℕ → (BeliefRow → BeliefRow) → Tables → Tables
update_belief identifier change t = record t { beliefs = update_id identifier change t.beliefs }

-- `_belief_status_changed`
unfoldable pub set_belief_status : Bool → ℕ → Status → Tables → Tables
unfolding update
set_belief_status has_fts identifier status t =
    let changed = update_belief identifier (λ x. record x { status = status }) t in
    on_option (find (λ x. x.id == identifier) changed.beliefs) changed (λ row. record changed {
      fts = fts_replace has_fts identifier row.episode_id status row.content changed.fts;
    })

-- `span_json IS ?`
abbrev pub is_same_span : Option (ℕ × ℕ) → Option (ℕ × ℕ) → Bool
is_same_span none none = true
is_same_span x y = same_span x y

unfoldable pub refresh_reference : ℕ → EvidenceRef → Tables → Tables
refresh_reference belief_id ref t =
    if any
      (λ x.
        (x.belief_id == belief_id)
        && (x.evidence_id == ref.evidence_id)
        && is_same_span x.span ref.span)
      t.belief_evidence
    then t
    else (record t {
      belief_evidence =
          (record { belief_id = belief_id; evidence_id = ref.evidence_id; span = ref.span })
          ∷ t.belief_evidence;
    })

unfoldable pub complete_task : ℕ → Option ℕ → TaskState → Tables → Result Tables
complete_task identifier result state t = do
  rows ←
      update_unique (λ x. x.id) same_task identifier
        (λ x. record x { result = result; state = state }) t.verification_tasks
  ok (record t { verification_tasks = rows })

unfoldable pub resolve_conflict : ℕ → Tables → Result Tables
resolve_conflict identifier t = do
  rows ←
      update_unique (λ x. x.id) same_conflict identifier (λ x. record x { open_state = false })
        t.conflicts
  ok (record t { conflicts = rows })

abbrev pub set_notice : ℕ → NoticeState → Tables → Tables
set_notice identifier state t = record t {
  retractions = update_id identifier (λ x. record x { state = state }) t.retractions;
}

-- `INSERT OR REPLACE`
abbrev pub replace_unpromoted : UnpromotedRow → Tables → Tables
replace_unpromoted r t = record t {
  unpromoted =
      r
      ∷ select (λ x. not ((x.episode_id == r.episode_id) && (x.evidence_id == r.evidence_id)))
          t.unpromoted;
}

abbrev pub finish_unpromoted : ℕ → ℕ → PromotionState → ℕ → Tables → Tables
finish_unpromoted episode_id evidence_id state reason t = record t {
  unpromoted =
      update (λ x. (x.episode_id == episode_id) && (x.evidence_id == evidence_id))
        (λ x. record x { state = state; reason = some reason }) t.unpromoted;
}

unfoldable pub insert_lint : LintRow → Tables → Result Tables
insert_lint r t = do
  rows ← insert (λ x y. x.event_id == y.event_id) r t.lint_reports
  ok (record t { lint_reports = rows })

unfoldable pub insert_gate : GateRow → Tables → Result Tables
insert_gate r t = do
  rows ← insert (λ x y. x.event_id == y.event_id) r t.gate_decisions
  ok (record t { gate_decisions = rows })

unfoldable pub insert_response : ResponseRow → Tables → Result Tables
insert_response r t = do
  rows ← insert (λ x y. x.event_id == y.event_id) r t.responses
  ok (record t { responses = rows })
