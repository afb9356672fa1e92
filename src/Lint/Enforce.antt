-- ===== src/Lint/Enforce.antt =====
-- packages/core/src/belief_ledger_core/lint/enforce.py: what becomes of a response whose report has
-- not passed.
use Prim.Native.String.{String, ◌++◌ as join}
use text.Mathlib.Text.{◌==◌ as str_eq}
use belief_ledger_pramana.Prelude.{
  ℕ, ltb, Bool, true, false, ◌&&◌, not, Option, none, some, List, [], ◌∷◌, map, any, select,
  on_option, length, if◌then◌else◌,
}
use belief_ledger_pramana.Models.{LintClaim, LintReport, Stakes, is_vikalpa}

-- `policy[stakes.value]`; any text but three falls to the blocking branch.
pub data PolicyAction : Type 0 where
  allow annotate rewrite_once : PolicyAction
  other_action : String → PolicyAction

abbrev pub lets_through : PolicyAction → Bool
lets_through allow = true
lets_through annotate = true
lets_through _ = false

abbrev pub is_rewrite : PolicyAction → Bool
is_rewrite rewrite_once = true
is_rewrite _ = false

abbrev pub is_annotate : PolicyAction → Bool
is_annotate annotate = true
is_annotate _ = false

-- The text operations that the module uses: `str` on a number, `text[:240]`, and
-- `text.replace(old, new, 1)`.
pub record TextOps : Type 0 where
  pub shown : ℕ → String
  pub first_240 : String → String
  pub replace_once : String → String → String → String

-- The two callbacks. The linter is taken to return; `none` is a rewrite that raises.
pub record Callbacks : Type 0 where
  pub relint : Option (String → LintReport)
  pub rewrite : Option (String → Option String)

abbrev pub unsupported_claims : LintReport → List LintClaim
unsupported_claims report = select (λ c. is_vikalpa c.disposition) report.claims

-- `"\n".join(lines)`
abbrev pub lines : List String → String
lines [] = ""
lines (x ∷ []) = x
lines (x ∷ y ∷ ys) = join x (join "\n" (lines (y ∷ ys)))

module _ (ops : TextOps) where
  abbrev pub bullets : List LintClaim → String
  bullets [] = "- grounding evaluation failed"
  bullets (c ∷ cs) =
      lines (map (λ c. join "- unsupported candidate: " (ops.first_240 c.text)) (c ∷ cs))

  -- The text that stands in for a blocked response.
  unfoldable pub block_text : List LintClaim → String
  block_text unsupported = join "Response blocked by belief-ledger grounding policy.\n\n" (
      join (bullets unsupported)
        "\n\nSafe next step: obtain read-only evidence for each candidate, then answer from IN beliefs.")

  -- `_blocked`
  abbrev pub blocked : LintReport → List LintClaim → LintReport
  blocked report unsupported = record {
    claims = report.claims;
    passed = false;
    replacement = some (block_text unsupported);
    warnings = "high-stakes response blocked" ∷ [];
  }

  abbrev pub passing : LintReport → Option String → String → LintReport
  passing report replacement warning = record {
    claims = report.claims;
    passed = true;
    replacement = replacement;
    warnings = warning ∷ [];
  }

  -- `_marked_or_blocked`
  unfoldable pub marked_or_blocked : LintReport → String → String → LintReport
  marked_or_blocked checked marked warning =
      if not checked.passed
      then blocked checked (unsupported_claims checked)
      else passing checked (some marked) warning

  abbrev pub has_text : String → List String → Bool
  has_text text marked = any (str_eq text) marked

  -- The loop of `_mark_unsupported`, with the texts marked so far.
  unfoldable pub mark_each : List LintClaim → List String → String → String
  mark_each [] marked result = result
  mark_each (c ∷ cs) marked result =
      let skipped = mark_each cs marked result in
      let replaced =
        mark_each cs (c.text ∷ marked)
          (ops.replace_once result c.text (join "speculation: " c.text)) in
      if is_vikalpa c.disposition && not (has_text c.text marked) then replaced else skipped

  -- `_mark_unsupported`
  unfoldable pub mark_unsupported : String → LintReport → String
  mark_unsupported response report = mark_each report.claims [] response

  -- The text is linted again, and is marked or blocked by what comes of it.
  abbrev pub relint_marked : (String → LintReport) → String → String → LintReport
  relint_marked relint fallback warning = marked_or_blocked (relint fallback) fallback warning

  -- The branch in which both callbacks are there.
  unfoldable pub rewrite_and_check :
      (String → LintReport) → (String → Option String) → String → LintReport → LintReport
  rewrite_and_check relint rewrite response report =
      on_option (rewrite response)
        (relint_marked relint (mark_unsupported response report)
          "rewrite unavailable; unsupported clauses marked")
        (λ rewritten.
          let second = relint rewritten in
          if second.passed
          then passing second (some rewritten) "response rewritten once"
          else relint_marked relint (mark_unsupported rewritten second)
              "unsupported clauses marked after one rewrite")

  abbrev pub grounding_warning : List LintClaim → String
  grounding_warning unsupported =
      join "Grounding warning: "
        (join (ops.shown (length unsupported)) " unsupported factual claim(s).")

  -- `rewrite_once` where there is a linter to check what comes of it.
  unfoldable pub rewritten_report : ℕ → Callbacks → String → LintReport → LintReport
  rewritten_report max_rewrite_attempts callbacks response report =
      on_option callbacks.relint (blocked report (unsupported_claims report)) (λ relint.
        on_option (if ltb 0 max_rewrite_attempts then callbacks.rewrite else none)
          (relint_marked relint (mark_unsupported response report) "unsupported clauses marked")
          (λ rewrite. rewrite_and_check relint rewrite response report))

  -- `enforce_report`
  unfoldable pub enforce_report :
      (Stakes → PolicyAction) → ℕ → Callbacks → String → LintReport → Stakes → LintReport
  enforce_report policy max_rewrite_attempts callbacks response report stakes =
      let unsupported = unsupported_claims report in
      if report.passed
      then report
      else if lets_through (policy stakes)
      then passing report
          (if is_annotate (policy stakes)
            then some (join response (join "\n\n" (grounding_warning unsupported)))
            else none)
          (grounding_warning unsupported)
      else if is_rewrite (policy stakes)
      then rewritten_report max_rewrite_attempts callbacks response report
      else blocked report unsupported

-- `linter_failure_response`
abbrev pub linter_failure_response : Stakes → String → String
linter_failure_response Stakes.high original =
    "Response blocked because the grounding linter was unavailable. No high-stakes factual answer was accepted; retry after ledger diagnostics pass."
linter_failure_response Stakes.critical original =
    "Response blocked because the grounding linter was unavailable. No high-stakes factual answer was accepted; retry after ledger diagnostics pass."
linter_failure_response _ original =
    join original "\n\nGrounding warning: the belief-ledger linter was unavailable."
