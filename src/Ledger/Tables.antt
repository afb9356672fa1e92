-- ===== src/Ledger/Tables.antt =====
-- packages/core/src/belief_ledger_core/migrations.py: the projection tables, their keys, and the
-- statements that the projections run on them. A JSON column holds the value that it encodes. A
-- table lists its newest row first. Foreign keys hold by the checks of the handlers.
use belief_ledger_pramana.Prelude.{
  ℕ, Bool, false, Option, List, [], ◌∷◌, map, any, find, on_option, ◌==◌, if◌then◌else◌,
}
use Prim.Native.String.{String}
use belief_ledger_pramana.Models.{
  ChainAudit, ComponentVerdict, Conflict, DefeatEdge, Episode, Evidence, IngestionSupport, LlmUsage,
  Perishability, Pramana, RenderedBelief, RetractionNotice, Source, Stakes, Status, Value,
  VerificationTask,
}
use belief_ledger_pramana.Ledger.Results.{Error, Result, ok, raise}

pub record BeliefRow : Type 0 where
  pub id : ℕ
  pub episode_id : ℕ
  pub content : String
  pub normalized_content : String
  pub content_fingerprint : ℕ
  pub pramana : Pramana
  pub source_id : ℕ
  pub qualifiers : List (String × String)
  pub perishability : Perishability
  pub observed_at : ℕ
  pub stakes : Stakes
  pub status : Status
  pub admission_status : Status
  pub domain : String
  pub confidence : Option ℕ
  pub corroboration : ℕ
  pub validity : List (String × Value)

pub record BeliefEvidenceRow : Type 0 where
  pub belief_id : ℕ
  pub evidence_id : ℕ
  pub span : Option (ℕ × ℕ)

pub record JustificationRow : Type 0 where
  pub id : ℕ
  pub episode_id : ℕ
  pub belief_id : ℕ
  pub warrant : String
  pub audit : Option ChainAudit
  pub alternatives : List String

pub record PremiseRow : Type 0 where
  pub justification_id : ℕ
  pub ordinal : ℕ
  pub premise_belief_id : ℕ

-- `root` is `none` where no row of the source was found, which is written as `unknown`.
pub record SourceRootRow : Type 0 where
  pub episode_id : ℕ
  pub belief_id : ℕ
  pub root : Option String
  pub transport : Option ℕ

pub record FingerprintRow : Type 0 where
  pub episode_id : ℕ
  pub belief_id : ℕ
  pub source_root : Option String
  pub fingerprint : ℕ

pub data PromotionState : Type 0 where
  open_promotion resolved failed : PromotionState

-- `reason` is `none` for `lazy_extraction`.
pub record UnpromotedRow : Type 0 where
  pub episode_id : ℕ
  pub evidence_id : ℕ
  pub source_profile : ℕ
  pub state : PromotionState
  pub reason : Option ℕ

pub record LintRow : Type 0 where
  pub event_id : ℕ
  pub episode_id : ℕ
  pub response_hash : ℕ
  pub passed : Bool
  pub report : Value

pub record GateRow : Type 0 where
  pub event_id : ℕ
  pub episode_id : ℕ
  pub tool_name : ℕ
  pub args_hash : ℕ
  pub outcome : ℕ
  pub reason_code : ℕ
  pub detail : Value

pub record ResponseRow : Type 0 where
  pub event_id : ℕ
  pub episode_id : ℕ
  pub turn_id : ℕ
  pub content_hash : ℕ
  pub content : String

pub record FtsRow : Type 0 where
  pub belief_id : ℕ
  pub episode_id : ℕ
  pub status : Status
  pub content : String

pub record Tables : Type 0 where
  pub episodes : List Episode
  pub sources : List Source
  pub evidence : List Evidence
  pub beliefs : List BeliefRow
  pub belief_evidence : List BeliefEvidenceRow
  pub supports : List IngestionSupport
  pub justifications : List JustificationRow
  pub premises : List PremiseRow
  pub defeats : List DefeatEdge
  pub verification_tasks : List VerificationTask
  pub conflicts : List Conflict
  pub retractions : List RetractionNotice
  pub rendered : List RenderedBelief
  pub source_roots : List SourceRootRow
  pub fingerprints : List FingerprintRow
  pub verdicts : List ComponentVerdict
  pub llm_usage : List LlmUsage
  pub unpromoted : List UnpromotedRow
  pub lint_reports : List LintRow
  pub gate_decisions : List GateRow
  pub responses : List ResponseRow
  pub fts : List FtsRow

abbrev pub no_tables : Tables
no_tables = record {
  episodes = [];
  sources = [];
  evidence = [];
  beliefs = [];
  belief_evidence = [];
  supports = [];
  justifications = [];
  premises = [];
  defeats = [];
  verification_tasks = [];
  conflicts = [];
  retractions = [];
  rendered = [];
  source_roots = [];
  fingerprints = [];
  verdicts = [];
  llm_usage = [];
  unpromoted = [];
  lint_reports = [];
  gate_decisions = [];
  responses = [];
  fts = [];
}

-- A table whose rows have an identifier and belong to an episode.
pub record Entity (A : Type 0) : Type 0 where
  pub id_of : A → ℕ
  pub episode_of : A → ℕ

instance abbrev pub source_entity : Entity Source
source_entity = record { id_of = λ r. r.id; episode_of = λ r. r.episode_id }

instance abbrev pub evidence_entity : Entity Evidence
evidence_entity = record { id_of = λ r. r.id; episode_of = λ r. r.episode_id }

instance abbrev pub belief_entity : Entity BeliefRow
belief_entity = record { id_of = λ r. r.id; episode_of = λ r. r.episode_id }

instance abbrev pub support_entity : Entity IngestionSupport
support_entity = record { id_of = λ r. r.id; episode_of = λ r. r.episode_id }

instance abbrev pub justification_entity : Entity JustificationRow
justification_entity = record { id_of = λ r. r.id; episode_of = λ r. r.episode_id }

instance abbrev pub defeat_entity : Entity DefeatEdge
defeat_entity = record { id_of = λ r. r.id; episode_of = λ r. r.episode_id }

instance abbrev pub task_entity : Entity VerificationTask
task_entity = record { id_of = λ r. r.id; episode_of = λ r. r.episode_id }

instance abbrev pub conflict_entity : Entity Conflict
conflict_entity = record { id_of = λ r. r.id; episode_of = λ r. r.episode_id }

instance abbrev pub retraction_entity : Entity RetractionNotice
retraction_entity = record { id_of = λ r. r.id; episode_of = λ r. r.episode_id }

module _ {A : Type 0} where
  -- `INSERT`, with the test of a key that is there already.
  unfoldable pub insert : (A → A → Bool) → A → List A → Result (List A)
  insert clash r rows = if any (clash r) rows then raise Error.constraint else ok (r ∷ rows)

  -- `UPDATE ... WHERE`
  unfoldable pub update : (A → Bool) → (A → A) → List A → List A
  update selected change rows = map (λ r. if selected r then change r else r) rows

module _ {A : Type 0} ⦃e : Entity A⦄ where
  -- `_entity_in_episode`
  unfoldable pub entity_in_episode : List A → ℕ → ℕ → Bool
  entity_in_episode rows identifier episode_id =
      on_option (find (λ r. e.id_of r == identifier) rows) false (λ r. e.episode_of r == episode_id)

  abbrev pub same_id : A → A → Bool
  same_id r x = e.id_of x == e.id_of r

  -- `UPDATE ... WHERE id=?`
  abbrev pub update_id : ℕ → (A → A) → List A → List A
  update_id identifier change rows = update (λ r. e.id_of r == identifier) change rows
