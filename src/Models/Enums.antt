-- ===== src/Models/Enums.antt =====
-- packages/core/src/belief_ledger_core/models.py, the enumerations and the order of stakes.
use belief_ledger_pramana.Prelude.{ℕ, List, [], ◌∷◌, Bool, true, false, if◌then◌else◌, ltb, ◌==◌}

pub data SourceKind : Type 0 where
  tool retriever web document user model ledger : SourceKind

pub data Integrity : Type 0 where
  trusted semi untrusted : Integrity

pub data Pramana : Type 0 where
  pratyaksha shabda anumana arthapatti upamana anupalabdhi : Pramana

-- `IN` is spelled `in_`, since `in` is a word of the language.
pub data Status : Type 0 where
  in_ out pending quarantined : Status

pub data Perishability : Type 0 where
  stable slow fast live : Perishability

pub data Stakes : Type 0 where
  low med high critical : Stakes

pub data DefeatKind : Type 0 where
  rebut undercut : DefeatKind

pub data VerificationMethod : Type 0 where
  cross_source tool_recheck chain_audit human : VerificationMethod

pub data Health : Type 0 where
  healthy degraded unavailable : Health

pub data CompatibilityMode : Type 0 where
  full hook_context diagnostics_only : CompatibilityMode

pub data GateOutcome : Type 0 where
  allow approve block : GateOutcome

pub data LintDisposition : Type 0 where
  grounded inferible pending_marked vikalpa : LintDisposition

-- The texts of the `state` fields; the last constructor is any other text.
pub data EpisodeState : Type 0 where
  active finalized : EpisodeState
  other_episode_state : ℕ → EpisodeState

pub data TaskState : Type 0 where
  open_task completed : TaskState
  other_task_state : ℕ → TaskState

pub data NoticeState : Type 0 where
  noticed acknowledged lapsed : NoticeState
  other_notice_state : ℕ → NoticeState

abbrev pub method_rank : VerificationMethod → ℕ
method_rank cross_source = 0
method_rank tool_recheck = 1
method_rank chain_audit = 2
method_rank human = 3

abbrev pub source_kind_rank : SourceKind → ℕ
source_kind_rank tool = 0
source_kind_rank retriever = 1
source_kind_rank web = 2
source_kind_rank document = 3
source_kind_rank SourceKind.user = 4
source_kind_rank model = 5
source_kind_rank ledger = 6

abbrev pub same_task_state : TaskState → TaskState → Bool
same_task_state open_task open_task = true
same_task_state completed completed = true
same_task_state (other_task_state a) (other_task_state b) = a == b
same_task_state _ _ = false

-- `status is Status.IN`, and so on.
abbrev pub is_in : Status → Bool
is_in in_ = true
is_in _ = false

abbrev pub is_pending : Status → Bool
is_pending pending = true
is_pending _ = false

-- `status in {Status.OUT, Status.QUARANTINED}`
abbrev pub is_excluded : Status → Bool
is_excluded out = true
is_excluded quarantined = true
is_excluded _ = false

-- `left == right` on statuses.
abbrev pub same_status : Status → Status → Bool
same_status in_ in_ = true
same_status out out = true
same_status pending pending = true
same_status quarantined quarantined = true
same_status _ _ = false

abbrev pub is_anupalabdhi : Pramana → Bool
is_anupalabdhi anupalabdhi = true
is_anupalabdhi _ = false

abbrev pub is_rebut : DefeatKind → Bool
is_rebut rebut = true
is_rebut undercut = false

abbrev pub is_critical : Stakes → Bool
is_critical critical = true
is_critical _ = false

abbrev pub is_vikalpa : LintDisposition → Bool
is_vikalpa vikalpa = true
is_vikalpa _ = false

-- `STAKE_RANK`
abbrev pub stake_rank : Stakes → ℕ
stake_rank low = 0
stake_rank med = 1
stake_rank high = 2
stake_rank critical = 3

-- Python's `max` keeps the first of equal values.
abbrev pub max_from : Stakes → List Stakes → Stakes
max_from best [] = best
max_from best (s ∷ rest) = max_from (if ltb (stake_rank best) (stake_rank s) then s else best) rest

-- `max_stakes`
unfoldable pub max_stakes : List Stakes → Stakes
max_stakes [] = med
max_stakes (s ∷ rest) = max_from s rest
