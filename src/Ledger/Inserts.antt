-- ===== src/Ledger/Inserts.antt =====
-- packages/core/src/belief_ledger_core/projections.py: the functions that insert the rows of a
-- record, with their checks that what it names belongs to its episode.
use Prim.Native.String.{String}
use belief_ledger_pramana.Prelude.{
  ℕ, suc, ◌+◌, Bool, true, false, ◌&&◌, ◌||◌, Option, none, some, List, [], ◌∷◌, map, any, find,
  on_option, select, not, ◌==◌, if◌then◌else◌,
}
use text.Mathlib.Text.{◌==◌ as str_eq}
use belief_ledger_pramana.Models.{
  Belief, ComponentVerdict, Conflict, DefeatEdge, Episode, Evidence, EvidenceRef, IngestionSupport,
  Justification, LlmUsage, RenderedBelief, RetractionNotice, Source, Status, VerificationTask,
  method_rank, same_task_state, source_kind_rank,
}
use belief_ledger_pramana.Ledger.Results.{Error, Result, ok, ◌>>=◌, ◌>>◌, require, each}
use belief_ledger_pramana.Ledger.Events.{Ports}
use belief_ledger_pramana.Ledger.Tables.{
  BeliefRow, BeliefEvidenceRow, PremiseRow, FtsRow, Tables, Entity, entity_in_episode, same_id,
  insert, source_entity, evidence_entity, belief_entity, support_entity, justification_entity,
  defeat_entity, task_entity, conflict_entity, retraction_entity,
}

-- `_require_entity_episode`
abbrev pub require_entity_episode : {A : Type 0} ⦃e : Entity A⦄ → List A → ℕ → ℕ → Result (Unit {0})
require_entity_episode rows identifier episode_id =
    require (entity_in_episode rows identifier episode_id) Error.foreign_record

unfoldable pub require_beliefs : List ℕ → ℕ → List BeliefRow → Result (Unit {0})
unfolding each
require_beliefs identifiers episode_id rows =
    each (λ b _. require_entity_episode rows b episode_id) identifiers tt

unfoldable pub insert_episode : Episode → Tables → Result Tables
insert_episode r t = do
  rows ← insert (λ x y. (x.id == y.id) || (x.key == y.key)) r t.episodes
  ok (record t { episodes = rows })

-- `UNIQUE(episode_id, root, kind)`
abbrev pub same_source : Source → Source → Bool
same_source x y =
    (x.episode_id == y.episode_id)
    && str_eq x.root y.root
    && (source_kind_rank x.kind == source_kind_rank y.kind)

unfoldable pub insert_source : Source → Tables → Result Tables
insert_source r t = do
  rows ← insert (λ x y. same_id x y || same_source x y) r t.sources
  ok (record t { sources = rows })

unfoldable pub insert_evidence : Evidence → Tables → Result Tables
insert_evidence r t = do
  require_entity_episode t.sources r.source_id r.episode_id
  rows ← insert same_id r t.evidence
  ok (record t { evidence = rows })

-- `PRIMARY KEY(belief_id, evidence_id, span_json)`, in which two `NULL`s differ.
abbrev pub same_span : Option (ℕ × ℕ) → Option (ℕ × ℕ) → Bool
same_span (some (a, b)) (some (c, d)) = (a == c) && (b == d)
same_span _ _ = false

abbrev pub same_reference : BeliefEvidenceRow → BeliefEvidenceRow → Bool
same_reference x y =
    (x.belief_id == y.belief_id) && (x.evidence_id == y.evidence_id) && same_span x.span y.span

unfoldable pub insert_reference : ℕ → EvidenceRef → Tables → Result Tables
insert_reference belief_id ref t = do
  rows ←
      insert same_reference
        (record { belief_id = belief_id; evidence_id = ref.evidence_id; span = ref.span })
        t.belief_evidence
  ok (record t { belief_evidence = rows })

abbrev pub same_premise : PremiseRow → PremiseRow → Bool
same_premise x y = (x.justification_id == y.justification_id) && (x.ordinal == y.ordinal)

-- `for ordinal, premise in enumerate(...)`
unfoldable pub insert_premises : ℕ → ℕ → List ℕ → Tables → Result Tables
insert_premises justification_id ordinal [] t = ok t
insert_premises justification_id ordinal (p ∷ ps) t =
    insert same_premise
      (record { justification_id = justification_id; ordinal = ordinal; premise_belief_id = p })
      t.premises
    >>= λ rows. insert_premises justification_id (suc ordinal) ps (record t { premises = rows })

unfoldable pub insert_justification : ℕ → Justification → Tables → Result Tables
insert_justification episode_id r t = do
  require_entity_episode t.beliefs r.belief_id episode_id
  require_beliefs r.premises episode_id t.beliefs
  rows ←
      insert same_id
        (record {
          id = r.id;
          episode_id = episode_id;
          belief_id = r.belief_id;
          warrant = r.warrant;
          audit = r.audit;
          alternatives = r.alternatives;
        })
        t.justifications
  insert_premises r.id 0 r.premises (record t { justifications = rows })

-- `_fts_replace`, which does nothing where there is no such table.
abbrev pub fts_replace : Bool → ℕ → ℕ → Status → String → List FtsRow → List FtsRow
fts_replace has_fts belief_id episode_id status content rows =
    if has_fts
    then (record {
      belief_id = belief_id;
      episode_id = episode_id;
      status = status;
      content = content;
    })
      ∷ select (λ x. not (x.belief_id == belief_id)) rows
    else rows

abbrev pub same_root : Option String → Option String → Bool
same_root (some a) (some b) = str_eq a b
same_root none none = true
same_root _ _ = false

abbrev pub source_root : ℕ → List Source → Option String
source_root source_id rows = on_option (find (λ s. s.id == source_id) rows) none (λ s. some s.root)

abbrev pub belief_row : Belief → ℕ → BeliefRow
belief_row r fingerprint = record {
  id = r.id;
  episode_id = r.episode_id;
  content = r.content;
  normalized_content = r.normalized_content;
  content_fingerprint = fingerprint;
  pramana = r.pramana;
  source_id = r.source_id;
  qualifiers = r.qualifiers;
  perishability = r.perishability;
  observed_at = r.observed_at;
  stakes = r.stakes;
  status = r.status;
  admission_status = r.admission_status;
  domain = r.domain;
  confidence = r.confidence;
  corroboration = r.corroboration;
  validity = r.validity;
}

-- The rows of `source_roots` and `content_fingerprints` of a belief.
unfoldable pub insert_provenance : Belief → Option ℕ → ℕ → Tables → Result Tables
insert_provenance r transport fingerprint t = do
  let root = source_root r.source_id t.sources
  roots ←
      insert
        (λ x y.
          (x.episode_id == y.episode_id) && (x.belief_id == y.belief_id) && same_root x.root y.root)
        (record { episode_id = r.episode_id; belief_id = r.id; root = root; transport = transport })
        t.source_roots
  prints ←
      insert (λ x y. (x.episode_id == y.episode_id) && (x.belief_id == y.belief_id))
        (record {
          episode_id = r.episode_id;
          belief_id = r.id;
          source_root = root;
          fingerprint = fingerprint;
        })
        t.fingerprints
  ok (record t { source_roots = roots; fingerprints = prints })

unfoldable pub insert_belief : Ports → Belief → Option ℕ → Tables → Result Tables
insert_belief ports r transport t = do
  require_entity_episode t.sources r.source_id r.episode_id
  each (λ ref _. require_entity_episode t.evidence ref.evidence_id r.episode_id) r.evidence tt
  let fingerprint = ports.content_hash r.normalized_content
  rows ← insert same_id (belief_row r fingerprint) t.beliefs
  referenced ← each (insert_reference r.id) r.evidence (record t { beliefs = rows })
  justified ← each (insert_justification r.episode_id) r.justifications referenced
  placed ← insert_provenance r transport fingerprint justified
  ok (record placed {
    fts = fts_replace ports.has_fts r.id r.episode_id r.status r.content placed.fts;
  })

unfoldable pub insert_support : IngestionSupport → Tables → Result Tables
insert_support r t = do
  require_entity_episode t.beliefs r.belief_id r.episode_id
  require_entity_episode t.evidence r.evidence_id r.episode_id
  rows ← insert same_id r t.supports
  ok (record t { supports = rows })

unfoldable pub insert_defeat : DefeatEdge → Tables → Result Tables
insert_defeat r t = do
  require_entity_episode t.beliefs r.attacker r.episode_id
  require
      (entity_in_episode t.beliefs r.target r.episode_id
        || entity_in_episode t.justifications r.target r.episode_id)
      Error.foreign_record
  rows ← insert same_id r t.defeats
  ok (record t { defeats = rows })

-- `UNIQUE(episode_id, belief_id, method, state)`
abbrev pub same_task : VerificationTask → VerificationTask → Bool
same_task x y =
    (x.episode_id == y.episode_id)
    && (x.belief_id == y.belief_id)
    && (method_rank x.method == method_rank y.method)
    && same_task_state x.state y.state

unfoldable pub insert_task : VerificationTask → Tables → Result Tables
insert_task r t = do
  require_entity_episode t.beliefs r.belief_id r.episode_id
  rows ← insert (λ x y. same_id x y || same_task x y) r t.verification_tasks
  ok (record t { verification_tasks = rows })

-- `UNIQUE(episode_id, left_belief_id, right_belief_id, state)`
abbrev pub same_flag : Bool → Bool → Bool
same_flag true b = b
same_flag false b = not b

abbrev pub same_conflict : Conflict → Conflict → Bool
same_conflict x y =
    (x.episode_id == y.episode_id)
    && (x.left_belief_id == y.left_belief_id)
    && (x.right_belief_id == y.right_belief_id)
    && same_flag x.open_state y.open_state

unfoldable pub insert_conflict : Conflict → Tables → Result Tables
insert_conflict r t = do
  require_entity_episode t.beliefs r.left_belief_id r.episode_id
  require_entity_episode t.beliefs r.right_belief_id r.episode_id
  require_entity_episode t.verification_tasks r.verification_task_id r.episode_id
  rows ← insert (λ x y. same_id x y || same_conflict x y) r t.conflicts
  ok (record t { conflicts = rows })

unfoldable pub insert_retraction : RetractionNotice → Tables → Result Tables
insert_retraction r t = do
  require_entity_episode t.beliefs r.defeated_belief_id r.episode_id
  require_beliefs r.descendants r.episode_id t.beliefs
  rows ← insert same_id r t.retractions
  ok (record t { retractions = rows })

abbrev pub same_rendering : RenderedBelief → RenderedBelief → Bool
same_rendering x y =
    (x.episode_id == y.episode_id) && (x.belief_id == y.belief_id) && (x.request_id == y.request_id)

-- One turn of the loop of `_context_compiled`, with its `INSERT OR IGNORE`.
unfoldable pub insert_rendered : ℕ → RenderedBelief → Tables → Result Tables
insert_rendered episode_id r t = do
  require_entity_episode t.beliefs r.belief_id episode_id
  let row : RenderedBelief = record r { episode_id = episode_id }
  ok (if any (same_rendering row) t.rendered then t else record t { rendered = row ∷ t.rendered })

unfoldable pub insert_verdict : ComponentVerdict → Tables → Result Tables
insert_verdict r t = do
  on_option r.belief_id (ok tt) (λ b. require_entity_episode t.beliefs b r.episode_id)
  rows ← insert (λ x y. x.id == y.id) r t.verdicts
  ok (record t { verdicts = rows })

abbrev pub add_usage : LlmUsage → Episode → Episode
add_usage r x = record x {
  llm_calls_used = x.llm_calls_used + 1;
  input_tokens_used = x.input_tokens_used + r.input_tokens;
  output_tokens_used = x.output_tokens_used + r.output_tokens;
}

unfoldable pub insert_usage : LlmUsage → Tables → Result Tables
insert_usage r t = do
  rows ← insert (λ x y. x.id == y.id) r t.llm_usage
  ok (record t {
    llm_usage = rows;
    episodes = map (λ x. if x.id == r.episode_id then add_usage r x else x) t.episodes;
  })
