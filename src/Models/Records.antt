-- ===== src/Models/Records.antt =====
-- packages/core/src/belief_ledger_core/models.py, the records.
use Prim.Native.String.{String}
use belief_ledger_pramana.Prelude.{ℕ, List, Bool, Option}
use belief_ledger_pramana.Models.Enums.{
  SourceKind, Integrity, Pramana, Status, Perishability, Stakes, DefeatKind, GateOutcome,
  LintDisposition, CompatibilityMode, VerificationMethod, EpisodeState, TaskState, NoticeState,
}

-- A value of a `dict[str, Any]` that was read from JSON or from the configuration.
mutual
  pub data Value : Type 0 where
    null : Value
    boolean : Bool → Value
    number : ℕ → Value
    text : String → Value
    array : Values → Value

  pub data Values : Type 0 where
    nil : Values
    cons : Value → Values → Values

pub record SourceStats : Type 0 where
  pub confirmed : ℕ
  pub defeated : ℕ
  pub samples : ℕ

pub record Source : Type 0 where
  pub id : ℕ
  pub episode_id : ℕ
  pub kind : SourceKind
  pub integrity : Integrity
  pub name : String
  pub root : String
  pub competence : List (String × ℕ)
  pub stats : SourceStats

pub record EvidenceRef : Type 0 where
  pub evidence_id : ℕ
  pub span : Option (ℕ × ℕ)

pub record ChainAudit : Type 0 where
  pub paksadharmata : Bool
  pub sapakse_sattvam : Bool
  pub vipakse_asattvam : Bool
  pub evidence_ids : List ℕ
  pub fallacies : List String

pub record Justification : Type 0 where
  pub id : ℕ
  pub belief_id : ℕ
  pub premises : List ℕ
  pub warrant : String
  pub audit : Option ChainAudit
  pub alternatives : List String

pub record Belief : Type 0 where
  pub id : ℕ
  pub episode_id : ℕ
  pub content : String
  pub normalized_content : String
  pub pramana : Pramana
  pub source_id : ℕ
  pub evidence : List EvidenceRef
  pub justifications : List Justification
  pub qualifiers : List (String × String)
  pub perishability : Perishability
  pub observed_at : ℕ
  pub stakes : Stakes
  pub status : Status
  pub admission_status : Status
  pub domain : String
  pub confidence : Option ℕ
  pub corroboration : ℕ
  pub validity : List (String × Value)

pub record DefeatEdge : Type 0 where
  pub id : ℕ
  pub episode_id : ℕ
  pub attacker : ℕ
  pub target : ℕ
  pub kind : DefeatKind
  pub basis : String
  pub active : Bool

pub record IngestionSupport : Type 0 where
  pub id : ℕ
  pub episode_id : ℕ
  pub belief_id : ℕ
  pub evidence_id : ℕ
  pub validity : List (String × Value)
  pub active : Bool

-- `state` is `open` or `resolved`; only `open` is ever tested.
pub record Conflict : Type 0 where
  pub id : ℕ
  pub episode_id : ℕ
  pub left_belief_id : ℕ
  pub right_belief_id : ℕ
  pub normalized_scope : List (String × String)
  pub verification_task_id : ℕ
  pub open_state : Bool

pub record GateDecision : Type 0 where
  pub outcome : GateOutcome
  pub reason_code : String
  pub message : String
  pub stakes : Stakes
  pub missing : List String
  pub suggested_observation : Option String
  pub rule_key : Option String

pub record LintClaim : Type 0 where
  pub text : String
  pub disposition : LintDisposition
  pub cited_beliefs : List ℕ
  pub supporting_beliefs : List ℕ
  pub reason : String

pub record LintReport : Type 0 where
  pub claims : List LintClaim
  pub passed : Bool
  pub replacement : Option String
  pub warnings : List String

pub record Evidence : Type 0 where
  pub id : ℕ
  pub episode_id : ℕ
  pub kind : ℕ
  pub source_id : ℕ
  pub payload : Option String
  pub content_hash : ℕ
  pub metadata : List (String × Value)
  pub observed_at : ℕ
  pub redacted : Bool

pub record Episode : Type 0 where
  pub id : ℕ
  pub key : ℕ
  pub session_id : ℕ
  pub task_id : ℕ
  pub platform : ℕ
  pub model : ℕ
  pub default_stakes : Stakes
  pub current_turn : ℕ
  pub created_at : ℕ
  pub updated_at : ℕ
  pub compatibility_mode : CompatibilityMode
  pub llm_calls_used : ℕ
  pub input_tokens_used : ℕ
  pub output_tokens_used : ℕ
  pub state : EpisodeState

pub record VerificationTask : Type 0 where
  pub id : ℕ
  pub episode_id : ℕ
  pub belief_id : ℕ
  pub method : VerificationMethod
  pub k_required : ℕ
  pub budget : ℕ
  pub result : Option ℕ
  pub state : TaskState

pub record RetractionNotice : Type 0 where
  pub id : ℕ
  pub episode_id : ℕ
  pub defeated_belief_id : ℕ
  pub cause : ℕ
  pub descendants : List ℕ
  pub created_turn : ℕ
  pub ttl_turns : ℕ
  pub state : NoticeState

pub record RenderedBelief : Type 0 where
  pub episode_id : ℕ
  pub belief_id : ℕ
  pub request_id : ℕ
  pub turn_number : ℕ
  pub rendered_at : ℕ

pub record ComponentVerdict : Type 0 where
  pub id : ℕ
  pub episode_id : ℕ
  pub component : ℕ
  pub purpose : ℕ
  pub input_hash : ℕ
  pub outcome : ℕ
  pub belief_id : Option ℕ
  pub detail : List (String × Value)

pub record LlmUsage : Type 0 where
  pub id : ℕ
  pub episode_id : ℕ
  pub purpose : ℕ
  pub provider : ℕ
  pub model : ℕ
  pub input_tokens : ℕ
  pub output_tokens : ℕ
  pub cost : Option ℕ
  pub latency_ms : ℕ
  pub turn_number : ℕ
  pub outcome : ℕ
