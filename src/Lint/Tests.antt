-- ===== src/Lint/Tests.antt =====
-- packages/core/src/belief_ledger_core/lint/enforce.py: a response that is marked, and one that is
-- blocked.
use Prim.Native.String.{String}
use text.Mathlib.Text.{◌==◌ as str_eq}
use belief_ledger_pramana.Prelude.{◌≡◌, refl, false, none, some, [], ◌∷◌, if◌then◌else◌}
use belief_ledger_pramana.Models.{LintClaim, LintDisposition, LintReport, Stakes}
use belief_ledger_pramana.Lint.Enforce.{
  PolicyAction, TextOps, Callbacks, block_text, marked_or_blocked, mark_each, mark_unsupported,
  rewrite_and_check, rewritten_report, enforce_report,
}
use belief_ledger_pramana.Lint.Delivered.{Enforced, enforce_report-Enforced}

abbrev running : Unit {0}
unfolding block_text marked_or_blocked mark_each mark_unsupported rewrite_and_check rewritten_report
    enforce_report
running = tt

abbrev ops : TextOps
ops = record {
  shown = λ n. "1";
  first_240 = λ t. t;
  replace_once = λ text old new. if str_eq text old then new else text;
}

abbrev claim : LintClaim
claim = record {
  text = "it rains";
  disposition = LintDisposition.vikalpa;
  cited_beliefs = [];
  supporting_beliefs = [];
  reason = "none";
}

abbrev report : LintReport
report = record { claims = claim ∷ []; passed = false; replacement = none; warnings = [] }

-- The linter passes marked text only.
abbrev linter : String → LintReport
linter text = record report { passed = str_eq text "speculation: it rains" }

abbrev callbacks : Callbacks
callbacks = record { relint = some linter; rewrite = some (λ text. some text) }

abbrev policy : Stakes → PolicyAction
policy Stakes.low = PolicyAction.annotate
policy Stakes.critical = PolicyAction.other_action "block"
policy _ = PolicyAction.rewrite_once

marked :
    (enforce_report ops policy 1 callbacks "it rains" report Stakes.high).replacement
    ≡ some "speculation: it rains"
unfolding running
marked = refl

critical : (enforce_report ops policy 1 callbacks "it rains" report Stakes.critical).passed ≡ false
unfolding running
critical = refl

enforce_report-Enforced_example :
    Enforced ops policy callbacks report Stakes.high
      (enforce_report ops policy 1 callbacks "it rains" report Stakes.high)
enforce_report-Enforced_example =
    enforce_report-Enforced ops policy 1 callbacks "it rains" report Stakes.high
