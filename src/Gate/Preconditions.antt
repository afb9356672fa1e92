-- ===== src/Gate/Preconditions.antt =====
-- packages/core/src/belief_ledger_core/gate/preconditions.py: the resolution of the preconditions of
-- an action against the beliefs, the sources and the open conflicts.
use Prim.Native.String.{String, ◌++◌ as join}
use text.Mathlib.Text.{◌==◌ as str_eq}
use belief_ledger_pramana.Prelude.{
  ℕ, Bool, true, false, ◌&&◌, ◌||◌, not, Option, none, some, List, [], ◌∷◌, ◌++◌, map, any, find,
  ltb, on_option, ◌==◌, if◌then◌else◌,
}
use belief_ledger_pramana.Models.{Belief, Conflict, Integrity, Source, Value, is_in}
use belief_ledger_pramana.Engine.Trust.{get, Mode}

-- The names of preconditions; `named` is any name that `_proposition` does not list.
pub data Name : Type 0 where
  no_open_conflict explicit_user_confirmation target_exists parent_exists : Name
  environment_known resource_identity operator_policy version_freshness : Name
  named : String → Name

-- The operations on texts that the resolution uses: `normalize_content`, `str.split`, the text
-- without apostrophes, the parent of a path, and `str(value).strip()`.
pub record Texts : Type 0 where
  pub normalize : String → String
  pub split : String → List String
  pub unquoted : String → String
  pub parent_of : String → String
  pub shown : Value → String

-- The texts of `PreconditionResult.reason`, also those that the gate writes.
pub data CheckReason : Type 0 where
  no_open_conflicts has_open_conflict host_bound supported unsupported unavailable : CheckReason
  requires : Mode → CheckReason

pub record PreconditionResult : Type 0 where
  pub name : Name
  pub proposition : String
  pub satisfied : Bool
  pub belief_id : Option ℕ
  pub reason : CheckReason
  pub suggestion : String

abbrev pub is_confirmation : Name → Bool
is_confirmation Name.explicit_user_confirmation = true
is_confirmation _ = false

abbrev pub integrity_rank : Integrity → ℕ
integrity_rank Integrity.untrusted = 0
integrity_rank Integrity.semi = 1
integrity_rank Integrity.trusted = 2

-- `required`: any text but two demands `trusted`.
abbrev pub required_rank : String → ℕ
required_rank text = if str_eq text "untrusted" then 0 else if str_eq text "semi" then 1 else 2

-- `token in tokens`
abbrev pub has_token : String → List String → Bool
has_token token tokens = any (str_eq token) tokens

abbrev pub shares_token : List String → List String → Bool
shares_token tokens others = any (λ t. has_token t others) tokens

abbrev pub negations : List String
negations =
    "not" ∷ "no" ∷ "never" ∷ "without" ∷ "deny" ∷ "denied" ∷ "decline" ∷ "declined" ∷ "dont"
    ∷ "cannot" ∷ "cant" ∷ "unconfirm" ∷ []

abbrev pub no_target : String
no_target = "the requested target"

-- `sources.get(id)` and `belief_map.get(id)`.
abbrev pub source_at : List Source → ℕ → Option Source
source_at sources id = find (λ s. s.id == id) sources

abbrev pub belief_at : List Belief → ℕ → Option Belief
belief_at beliefs id = find (λ b. b.id == id) beliefs

module _ (texts : Texts) where
  -- The first field of `_target` whose value is neither missing, null nor blank.
  abbrev pub target_of : List (String × Value) → List String → String
  target_of args [] = no_target
  target_of args (field ∷ rest) = on_option (get field args) (target_of args rest) (λ v. elim v [
    | Value.null ↦ target_of args rest
    | w ↦ if str_eq (texts.shown w) "" then target_of args rest else texts.shown w
  ])

  -- `_proposition`
  unfoldable pub proposition : String → Name → String × String
  proposition target Name.target_exists = (
    join "Target " (join target " exists"),
    join "Use a read-only stat/list operation on " target,
  )
  proposition target Name.parent_exists = (
    join "Parent " (join (texts.parent_of target) " exists"),
    join "Use a read-only stat/list operation on " (texts.parent_of target),
  )
  proposition target Name.environment_known = (
    "The current execution environment is identified",
    "Use a read-only environment identity command",
  )
  proposition target Name.resource_identity = (
    join "Resource " (join target " is the intended target"),
    join "Read the identity of " (join target " without mutating it"),
  )
  proposition target Name.explicit_user_confirmation = (
    join "The user explicitly confirmed the action on " target,
    "Ask the user for explicit confirmation",
  )
  proposition target Name.operator_policy = (
    "The operator configured a policy for this tool",
    "Add an anchored action-policy rule and retry",
  )
  proposition target Name.version_freshness = (
    join "The version of " (join target " is current"),
    join "Use a read-only version query for " target,
  )
  proposition target Name.no_open_conflict = (
    join "Precondition no_open_conflict holds for " target,
    "Obtain a read-only observation for no_open_conflict",
  )
  proposition target (Name.named name) = (
    join "Precondition " (join name (join " holds for " target)),
    join "Obtain a read-only observation for " name,
  )

  -- `_contains_negation`
  unfoldable pub contains_negation : String → Bool
  contains_negation content =
      shares_token (texts.split (texts.unquoted (texts.normalize content))) negations

  -- The tests of the loop of `_entailing_belief`.
  unfoldable pub entails : String → List Source → String → Belief → Bool
  entails text sources minimum b =
      is_in b.status
      && on_option (source_at sources b.source_id) false
          (λ s. not (ltb (integrity_rank s.integrity) (required_rank minimum)))
      && not (contains_negation b.normalized_content)
      && str_eq b.normalized_content (texts.normalize text)

  -- `_entailing_belief`, on beliefs in the order of their identifiers.
  unfoldable pub entailing_belief : String → List Belief → List Source → String → Option Belief
  entailing_belief text beliefs sources minimum = find (entails text sources minimum) beliefs

  abbrev pub tokens_of : List String → List String
  tokens_of [] = []
  tokens_of (value ∷ rest) = texts.split (texts.normalize value) ++ tokens_of rest

  -- The tokens that one side of a conflict adds.
  abbrev pub side_tokens : List Belief → ℕ → List String
  side_tokens beliefs id =
      on_option (find (λ b. b.id == id) beliefs) []
        (λ b. texts.split b.normalized_content ++ tokens_of (map (λ q. q.1) b.qualifiers))

  -- `_conflict_affects_target`
  unfoldable pub conflict_affects_target : String → List Belief → Conflict → Bool
  conflict_affects_target target beliefs c = elim (texts.split (texts.normalize target)) [
    | [] ↦ true
    | t ∷ ts ↦
        str_eq target no_target
        || shares_token (t ∷ ts) (
            tokens_of (map (λ q. q.1) c.normalized_scope)
            ++ side_tokens beliefs c.left_belief_id
            ++ side_tokens beliefs c.right_belief_id)
  ]

  -- The result for one name of `resolve_preconditions`, on the target of the action.
  unfoldable pub resolve_name :
      String → List Belief → List Source → List Conflict → String → Name → PreconditionResult
  resolve_name target beliefs sources conflicts minimum Name.no_open_conflict =
      let satisfied = not (any (conflict_affects_target target beliefs) conflicts) in
      record {
        name = Name.no_open_conflict;
        proposition = "No open ledger conflict affects this action";
        satisfied = satisfied;
        belief_id = none;
        reason = if satisfied then CheckReason.no_open_conflicts else CheckReason.has_open_conflict;
        suggestion = "Resolve the listed conflict with a read-only observation";
      }
  resolve_name target beliefs sources conflicts minimum Name.explicit_user_confirmation =
      let (text, suggestion) = proposition target Name.explicit_user_confirmation in
      record {
        name = Name.explicit_user_confirmation;
        proposition = text;
        satisfied = false;
        belief_id = none;
        reason = CheckReason.host_bound;
        suggestion = suggestion;
      }
  resolve_name target beliefs sources conflicts minimum name =
      let (text, suggestion) = proposition target name in
      let found = entailing_belief text beliefs sources minimum in
      record {
        name = name;
        proposition = text;
        satisfied = on_option found false (λ _. true);
        belief_id = on_option found none (λ b. some b.id);
        reason = on_option found CheckReason.unsupported (λ _. CheckReason.supported);
        suggestion = suggestion;
      }

  -- `resolve_preconditions`
  abbrev pub resolve_preconditions :
      List Name
      → String
      → List Belief
      → List Source
      → List Conflict
      → String
      → List PreconditionResult
  resolve_preconditions names target beliefs sources conflicts minimum =
      map (resolve_name target beliefs sources conflicts minimum) names
