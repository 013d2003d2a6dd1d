-- ===== src/Verifier/Policies/Acceptance.antt =====
-- When the verifier accepts a candidate, and what its report keeps.
use veritext.Prelude.{
  ◌≡◌, refl, sym, ap, ◌∙◌, ◌↔◌, Text, Bool, true, false, ◌&&◌, not, List, [], ◌∷◌, ◌++◌, has_items,
  has_items-false, contains, distinct_from, distinct_from-All, has_items-distinct_from,
  All-append_right, if◌then◌else◌, ok, raise_if, >>=-eq-ok, ok-injective, All, check_all,
}
use mathlib.Core.Path.{subst}
use veritext.Contracts.Spans.{Chunk}
use veritext.Contracts.Candidates.{ExtractionPlan, LensCandidate, RejectionReason, require_text}
use veritext.Contracts.Equality.{reason_eq}
use veritext.Contracts.Reports.{VerifierReport, confidence_one, validate_verifier_report}
use veritext.Executor.Policies.Provenance.{append-empty}
use veritext.Verifier.Policies.{
  build_verifier_report, deterministic_rejection_reasons, kept_llm_reasons,
  merged_rejection_reasons, report_on,
}
use veritext.Verifier.Verdicts.{VerifierVerdict, llm_rejection_reasons}
use veritext.Verifier.Policies.Laws.{Grounded, deterministic_rejection_reasons-empty}
use veritext.Verifier.Policies.Objections.{Objects, kept_llm_reasons-empty}

-- A check that passes gives back the report.
pub validate_verifier_report-same :
    (report : VerifierReport) {r : VerifierReport}
    → validate_verifier_report report ≡ ok r
    → report ≡ r
unfolding validate_verifier_report
validate_verifier_report-same report e =
    let (u, first, rest) =
      >>=-eq-ok
        (check_all require_text
          (report.report_id ∷ report.run_id ∷ report.candidate_id ∷ report.verifier_call_id ∷ []))
        _ e in
    let (v, second, more) =
      >>=-eq-ok (raise_if (report.accepted && has_items report.rejection_reasons) _) _ rest in
    let (w, third, done) =
      >>=-eq-ok (raise_if (not report.accepted && not (has_items report.rejection_reasons)) _) _
        more in
    ok-injective done

module _ (casefold sha256 : Text → Text) where
  build_verifier_report-report :
      (plan : ExtractionPlan) (chunk : Chunk) (candidate : LensCandidate)
      (verdict : VerifierVerdict) (call_id : Text) {report : VerifierReport}
      → build_verifier_report casefold sha256 plan chunk candidate verdict call_id ≡ ok report
      → (llm : List RejectionReason) × (llm_rejection_reasons verdict ≡ ok llm)
        × (report_on casefold sha256 plan candidate call_id (
              distinct_from [] (
                kept_llm_reasons casefold sha256 plan chunk candidate llm
                ++ deterministic_rejection_reasons casefold sha256 plan chunk candidate))
            ≡ report)
  unfolding build_verifier_report merged_rejection_reasons
  build_verifier_report-report plan chunk candidate verdict call_id e =
      let (llm, reasons, rest) =
        >>=-eq-ok (llm_rejection_reasons verdict)
          (λ llm_reasons. validate_verifier_report (
            report_on casefold sha256 plan candidate call_id (
              merged_rejection_reasons (
                kept_llm_reasons casefold sha256 plan chunk candidate llm_reasons
                ++ deterministic_rejection_reasons casefold sha256 plan chunk candidate))))
          e in
      (
        llm,
        reasons,
        validate_verifier_report-same
            (report_on casefold sha256 plan candidate call_id (
              distinct_from [] (
                kept_llm_reasons casefold sha256 plan chunk candidate llm
                ++ deterministic_rejection_reasons casefold sha256 plan chunk candidate)))
            rest,
      )

  -- A report that the verifier makes accepts the candidate exactly when the candidate is
  -- grounded, by the checks of the schema, the span and the value, and the verdict has no
  -- objection but one that these checks contradict.
  pub build_verifier_report-accepted :
      (plan : ExtractionPlan) (chunk : Chunk) (candidate : LensCandidate)
      (verdict : VerifierVerdict) (call_id : Text) {report : VerifierReport}
      → build_verifier_report casefold sha256 plan chunk candidate verdict call_id ≡ ok report
      → (report.accepted ≡ true) ↔ (
          Grounded casefold plan chunk candidate
          × (Objects casefold plan chunk candidate verdict → ⊥))
  unfolding report_on
  build_verifier_report-accepted plan chunk candidate verdict call_id {report = report} e =
      let (llm, reasons, same) =
        build_verifier_report-report plan chunk candidate verdict call_id e in
      let kept = kept_llm_reasons casefold sha256 plan chunk candidate llm in
      let checks = deterministic_rejection_reasons casefold sha256 plan chunk candidate in
      let score : not (has_items (kept ++ checks)) ≡ report.accepted =
        ap not (sym (has_items-distinct_from (kept ++ checks))) ∙ ap (λ r. r.accepted) same in
      let parts = append-empty kept checks in
      let grounded = deterministic_rejection_reasons-empty casefold sha256 plan chunk candidate in
      let objection = kept_llm_reasons-empty casefold sha256 plan chunk candidate verdict reasons in
      (
        λ h.
            let empty = parts.0 (has_items-false (kept ++ checks) (not-true (score ∙ h))) in
            (grounded.0 empty.1, objection.0 empty.0),
        λ (g, o). sym score ∙ ap (λ l. not (has_items l)) (parts.1 (objection.1 o, grounded.1 g)),
      )
    where
      not-true : {b : Bool} → not b ≡ true → b ≡ false
      not-true {b = true} h = cc
      not-true {b = false} h = refl

  -- A report that the verifier makes accepts exactly when it holds no reason, its score is 1.0
  -- then and 0.0 elsewhere, and every reason that the checks of the schema, the span and the
  -- value raise is in it, whatever the verdict says.
  pub build_verifier_report-reasons :
      (plan : ExtractionPlan) (chunk : Chunk) (candidate : LensCandidate)
      (verdict : VerifierVerdict) (call_id : Text) {report : VerifierReport}
      → build_verifier_report casefold sha256 plan chunk candidate verdict call_id ≡ ok report
      → (report.accepted ≡ not (has_items report.rejection_reasons))
        × (report.alignment_score ≡ (if report.accepted then confidence_one else 0))
        × All
            (λ r. contains report.rejection_reasons r ≡ true)
            (deterministic_rejection_reasons casefold sha256 plan chunk candidate)
  unfolding report_on
  build_verifier_report-reasons plan chunk candidate verdict call_id {report = report} e =
      let (llm, reasons, same) =
        build_verifier_report-report plan chunk candidate verdict call_id e in
      let kept = kept_llm_reasons casefold sha256 plan chunk candidate llm in
      let checks = deterministic_rejection_reasons casefold sha256 plan chunk candidate in
      let merged = distinct_from [] (kept ++ checks) in
      let score = ap (λ r. r.accepted) same in
      let list : (if not (has_items merged) then [] else merged) ≡ report.rejection_reasons =
        ap (λ r. r.rejection_reasons) same in
      let all = ap (λ r. r.alignment_score) same in
      let listed : merged ≡ report.rejection_reasons = sym (itself merged) ∙ list in
      (
        sym score ∙ ap (λ l. not (has_items l)) listed,
        sym all ∙ ap (λ b. if b then confidence_one else 0) score,
        subst (λ l. All (λ r. contains l r ≡ true) checks) listed
            (All-append_right _ kept checks (distinct_from-All (kept ++ checks))),
      )
    where
      itself : (l : List RejectionReason) → (if not (has_items l) then [] else l) ≡ l
      itself [] = refl
      itself (r ∷ l) = refl
