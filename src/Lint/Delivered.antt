-- ===== src/Lint/Delivered.antt =====
-- packages/core/src/belief_ledger_core/lint/enforce.py: which text an enforced report delivers.
use Prim.Native.String.{String, ◌++◌ as join}
use belief_ledger_pramana.Prelude.{
  ℕ, ltb, ◌≡◌, refl, Bool, true, false, not, Option, none, some, List, on_option, if◌then◌else◌,
}
use belief_ledger_pramana.Models.{LintClaim, LintReport, Stakes}
use belief_ledger_pramana.Lint.Enforce.{
  PolicyAction, lets_through, is_rewrite, is_annotate, TextOps, Callbacks, unsupported_claims,
  block_text, blocked, passing, marked_or_blocked, relint_marked, rewrite_and_check,
  rewritten_report, mark_unsupported, enforce_report, grounding_warning,
}

module _ (ops : TextOps) where
  -- A report that does not pass carries the blocking text.
  pub record IsBlocked (r : LintReport) : Type 0 where
    pub claims : List LintClaim
    pub not_passed : r.passed ≡ false
    pub block : r.replacement ≡ some (block_text ops claims)

  blocked-IsBlocked :
      (report : LintReport) → IsBlocked (blocked ops report (unsupported_claims report))
  blocked-IsBlocked report = record {
    claims = unsupported_claims report;
    not_passed = refl;
    block = refl;
  }

  -- The linter has passed the text that the report delivers, or the report is blocked.
  pub data Checked (relint : String → LintReport) (r : LintReport) : Type 0 where
    accepted :
        (text : String)
        → (relint text).passed ≡ true
        → r.passed ≡ true
        → r.replacement ≡ some text
        → Checked relint r
    refused : IsBlocked r → Checked relint r

  -- The ways in which a report is enforced.
  pub data Enforced (policy : Stakes → PolicyAction) (callbacks : Callbacks) (report : LintReport)
      (stakes : Stakes) (r : LintReport) : Type 0 where
    passed_already : report.passed ≡ true → r ≡ report → Enforced policy callbacks report stakes r
    let_through :
        lets_through (policy stakes) ≡ true
        → r.passed ≡ true
        → Enforced policy callbacks report stakes r
    linted_again :
        (relint : String → LintReport)
        → callbacks.relint ≡ some relint
        → is_rewrite (policy stakes) ≡ true
        → Checked relint r
        → Enforced policy callbacks report stakes r
    unchecked : IsBlocked r → Enforced policy callbacks report stakes r

  module _ (relint : String → LintReport) where
    relint_marked-Checked :
        (text warning : String) → Checked relint (relint_marked ops relint text warning)
    unfolding marked_or_blocked
    relint_marked-Checked text warning = go (relint text).passed refl
      where
        go :
            (b : Bool)
            → (relint text).passed ≡ b
            → Checked relint (
                if not b
                then blocked ops (relint text) (unsupported_claims (relint text))
                else passing ops (relint text) (some text) warning)
        go true p = Checked.accepted text p refl refl
        go false p = Checked.refused (blocked-IsBlocked (relint text))

    rewrite_and_check-Checked :
        (rewrite : String → Option String) (response : String) (report : LintReport)
        → Checked relint (rewrite_and_check ops relint rewrite response report)
    unfolding rewrite_and_check
    rewrite_and_check-Checked rewrite response report = go (rewrite response)
      where
        marked : String → LintReport
        marked rewritten =
            relint_marked ops relint (mark_unsupported ops rewritten (relint rewritten))
              "unsupported clauses marked after one rewrite"

        judged :
            (rewritten : String) (b : Bool)
            → (relint rewritten).passed ≡ b
            → Checked relint (
                if b
                then passing ops (relint rewritten) (some rewritten) "response rewritten once"
                else marked rewritten)
        judged rewritten true p = Checked.accepted rewritten p refl refl
        judged rewritten false p =
            relint_marked-Checked (mark_unsupported ops rewritten (relint rewritten))
              "unsupported clauses marked after one rewrite"

        go :
            (o : Option String)
            → Checked relint (
                on_option o
                  (relint_marked ops relint
                    (mark_unsupported ops response report)
                    "rewrite unavailable; unsupported clauses marked")
                  (λ rewritten.
                    if (relint rewritten).passed
                    then passing ops (relint rewritten) (some rewritten) "response rewritten once"
                    else marked rewritten))
        go none =
            relint_marked-Checked (mark_unsupported ops response report)
              "rewrite unavailable; unsupported clauses marked"
        go (some rewritten) = judged rewritten (relint rewritten).passed refl

  module _ (policy : Stakes → PolicyAction) (attempts : ℕ) (callbacks : Callbacks) where
    rewritten-Enforced :
        (response : String) (report : LintReport) (stakes : Stakes)
        → is_rewrite (policy stakes) ≡ true
        → Enforced policy callbacks report stakes
            (rewritten_report ops attempts callbacks response report)
    unfolding rewritten_report
    rewritten-Enforced response report stakes w = go callbacks.relint refl
      where
        attempted :
            (relint : String → LintReport) (o : Option (String → Option String))
            → Checked relint (
                on_option o
                  (relint_marked ops relint
                    (mark_unsupported ops response report)
                    "unsupported clauses marked")
                  (λ rewrite. rewrite_and_check ops relint rewrite response report))
        attempted relint none =
            relint_marked-Checked relint (mark_unsupported ops response report)
              "unsupported clauses marked"
        attempted relint (some rewrite) = rewrite_and_check-Checked relint rewrite response report

        go :
            (o : Option (String → LintReport))
            → callbacks.relint ≡ o
            → Enforced policy callbacks report stakes (
                on_option o (blocked ops report (unsupported_claims report)) (λ relint.
                  on_option
                    (if ltb 0 attempts then callbacks.rewrite else none)
                    (relint_marked ops relint
                      (mark_unsupported ops response report)
                      "unsupported clauses marked")
                    (λ rewrite. rewrite_and_check ops relint rewrite response report)))
        go none e = Enforced.unchecked (blocked-IsBlocked report)
        go (some relint) e = Enforced.linted_again relint e w (attempted relint _)

    -- An enforced report is the given one, where that passed; or it passes under a policy that lets
    -- the response through; or, under `rewrite_once`, it passes with a text that the linter, asked
    -- again, has passed; or else it does not pass, and then its replacement is the blocking text and
    -- never a candidate's own.
    pub enforce_report-Enforced :
        (response : String) (report : LintReport) (stakes : Stakes)
        → Enforced policy callbacks report stakes
            (enforce_report ops policy attempts callbacks response report stakes)
    unfolding enforce_report
    enforce_report-Enforced response report stakes =
        go report.passed (lets_through (policy stakes)) (is_rewrite (policy stakes)) refl refl refl
      where
        annotated : LintReport
        annotated =
            passing ops report
              (if is_annotate (policy stakes)
                then some (
                    join response (join "\n\n" (grounding_warning ops (unsupported_claims report))))
                else none)
              (grounding_warning ops (unsupported_claims report))

        go :
            (p a w : Bool)
            → report.passed ≡ p
            → lets_through (policy stakes) ≡ a
            → is_rewrite (policy stakes) ≡ w
            → Enforced policy callbacks report stakes (
                if p
                then report
                else if a
                then annotated
                else if w
                then rewritten_report ops attempts callbacks response report
                else blocked ops report (unsupported_claims report))
        go true a w e f g = Enforced.passed_already e refl
        go false true w e f g = Enforced.let_through f refl
        go false false true e f g = rewritten-Enforced response report stakes g
        go false false false e f g = Enforced.unchecked (blocked-IsBlocked report)
