-- ===== src/Engine/Priority.antt =====
-- packages/core/src/belief_ledger_core/engine/priority.py: the trace of a belief and the comparison
-- of two traces by the fixed rule and the five keys.
use Prim.Native.String.{String}
use text.Mathlib.Text.{◌==◌ as str_eq}
use belief_ledger_pramana.Prelude.{
  ℕ, Bool, true, false, ◌&&◌, not, Option, none, some, List, [], ◌∷◌, any, select, length, find,
  on_option, ℤ, pos, sub_ℕ, ltb_ℤ, ◌==◌, if◌then◌else◌,
}
use belief_ledger_pramana.Models.{Belief, Source, Pramana, Integrity, Justification, is_anupalabdhi}
use belief_ledger_pramana.Engine.Floats.{Floats}
use belief_ledger_pramana.Engine.Trust.{TrustConfig, get, effective_competence}

-- The keys under which `priority.type_rank` is read; `plain p` is the value of a pramāṇa.
pub data TypeKey : Type 0 where
  shabda_apta_hi shabda_apta_mid shabda_apta_lo anumana_audited anumana_raw : TypeKey
  plain : Pramana → TypeKey

-- `config["priority"]` and `config["trust"]`; a rank that the configuration lacks is `none`.
pub record EngineConfig : Type 0 where
  pub trust : TrustConfig
  pub integrity_rank : Integrity → ℤ
  pub type_ranks : TypeKey → Option ℤ
  pub domain_ranks : String → TypeKey → Option ℤ
  pub high_band : Option ℕ
  pub medium_band : Option ℕ
  pub specificity_keys : List String

pub record PriorityTrace : Type 0 where
  pub belief_id : ℕ
  pub integrity_rank : ℤ
  pub type_rank : ℤ
  pub reliability_rank : ℤ
  pub specificity_rank : ℤ
  pub recency_rank : ℤ
  pub type_key : TypeKey
  pub reliability : ℕ

pub data Field : Type 0 where
  fixed_rule integrity type reliability specificity recency equal : Field

-- The sign of `PriorityComparison.result`.
pub data Verdict : Type 0 where
  attacker_wins target_wins tied : Verdict

pub record PriorityComparison : Type 0 where
  pub result : Verdict
  pub attacker : PriorityTrace
  pub target : PriorityTrace
  pub decisive_field : Field

abbrev pub is_audited : Justification → Bool
is_audited j = on_option j.audit false (λ a.
    a.paksadharmata
    && a.sapakse_sattvam
    && a.vipakse_asattvam
    && (elim a.fallacies [ [] ↦ true | _ ∷ _ ↦ false ]))

-- 1970-01-01 in microseconds since the first instant that a datetime can hold.
abbrev pub epoch : ℕ
epoch = 62_135_596_800_000_000

-- `_recency_micros`
unfoldable pub recency_micros : ℕ → ℤ
recency_micros observed_at = sub_ℕ observed_at epoch

abbrev pub is_present : String → List (String × String) → Bool
is_present key qualifiers = on_option (get key qualifiers) false (λ v. not (str_eq v ""))

-- The rule that stands outside the tuple, on whether each side is an admitted absence.
unfoldable pub fixed_rule_of : Bool → Bool → Option Verdict
fixed_rule_of attacker_absent target_absent =
    if target_absent && not attacker_absent
    then some attacker_wins
    else if attacker_absent && not target_absent
    then some target_wins
    else none

-- One round of the loop over the zipped keys: `none` when the two are equal.
abbrev pub compare_key : ℤ → ℤ → Option Verdict
compare_key left right =
    if ltb_ℤ right left
    then some attacker_wins
    else if ltb_ℤ left right
    then some target_wins
    else none

-- `PriorityTrace.value`
abbrev pub value : PriorityTrace → List ℤ
value t =
    t.integrity_rank ∷ t.type_rank ∷ t.reliability_rank ∷ t.specificity_rank ∷ t.recency_rank ∷ []

abbrev pub fields : List Field
fields = integrity ∷ type ∷ reliability ∷ specificity ∷ recency ∷ []

-- The loop over the zipped keys, each with the name of its field.
unfoldable pub compare_values : List Field → List ℤ → List ℤ → Verdict × Field
compare_values (field ∷ rest) (left ∷ xs) (right ∷ ys) =
    on_option (compare_key left right) (compare_values rest xs ys) (λ v. (v, field))
compare_values _ _ _ = (tied, equal)

-- `compare_priority` on the traces of the two beliefs.
unfoldable pub compare_traces :
    Pramana → Pramana → PriorityTrace → PriorityTrace → PriorityComparison
compare_traces attacker target a t =
    let (v, field) =
      on_option (fixed_rule_of (is_anupalabdhi attacker) (is_anupalabdhi target))
        (compare_values fields (value a) (value t)) (λ w. (w, fixed_rule)) in
    record { result = v; attacker = a; target = t; decisive_field = field }

module _ (f : Floats) where
  -- `_type_key`
  unfoldable pub type_key : Belief → ℕ → EngineConfig → TypeKey
  type_key belief competence config = elim belief.pramana [
    | Pramana.shabda ↦
        if f.ge competence (on_option config.high_band f.four_fifths (λ x. x))
        then shabda_apta_hi
        else if f.ge competence (on_option config.medium_band f.one_half (λ x. x))
        then shabda_apta_mid
        else shabda_apta_lo
    | Pramana.anumana ↦
        if any is_audited belief.justifications then anumana_audited else anumana_raw
    | p ↦ plain p
  ]

  -- `priority_trace`
  unfoldable pub priority_trace : Belief → Source → EngineConfig → PriorityTrace
  priority_trace belief source config =
      let competence = effective_competence f source belief.domain config.trust in
      let key = type_key belief competence config in
      record {
        belief_id = belief.id;
        integrity_rank = config.integrity_rank source.integrity;
        type_rank =
            on_option (config.domain_ranks belief.domain key)
              (on_option (config.domain_ranks belief.domain (plain belief.pramana))
                (on_option (config.type_ranks key) (pos 0) (λ x. x)) (λ x. x))
              (λ x. x);
        reliability_rank = f.round_milli competence;
        specificity_rank =
            pos (length (select (λ k. is_present k belief.qualifiers) config.specificity_keys));
        recency_rank = recency_micros belief.observed_at;
        type_key = key;
        reliability = competence;
      }

  -- `sources[belief.source_id]`: `none` is a `KeyError`.
  abbrev pub source_of : List Source → Belief → Option Source
  source_of sources belief = find (λ s. s.id == belief.source_id) sources

  -- `compare_priority`
  unfoldable pub compare_priority :
      Belief → Belief → List Source → EngineConfig → Option PriorityComparison
  compare_priority attacker target sources config =
      on_option (source_of sources attacker) none (λ s.
        on_option (source_of sources target) none (λ t. some (
          compare_traces attacker.pramana target.pramana (priority_trace attacker s config)
            (priority_trace target t config))))
