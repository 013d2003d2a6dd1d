-- ===== src/Verifier/Policies/Refusals.antt =====
-- Verdicts of which no report can be made (src/extractor/verifier/policies.py).
use veritext.Prelude.{
  ℕ, ◌≡◌, refl, Text, false, Option, none, some, ◌∷◌, ok, err, >>=-eq-ok, codes, validation_error,
}
use veritext.Contracts.Spans.{Chunk}
use veritext.Contracts.Candidates.{
  ExtractionPlan, LensCandidate, RejectionReasonCode, has_text, require_text,
}
use veritext.Contracts.Equality.{reason_eq}
use veritext.Contracts.Reports.{validate_rejection_reason}
use veritext.Verifier.Policies.{build_verifier_report}
use veritext.Verifier.Verdicts.{
  VerifierDecision, VerifierVerdict, llm_rejection_reasons, reason_message, reasons_of,
  required_code, validate_verifier_verdict, decision_check, evidence_check,
}

decision_check-code :
    (decision : VerifierDecision) (code : Option RejectionReasonCode) {u : Unit {0}}
    → decision ≡ VerifierDecision.reject
    → decision_check decision code ≡ ok u
    → (c : RejectionReasonCode) × (code ≡ some c)
unfolding decision_check
decision_check-code decision (some c) r h = (c, refl)
decision_check-code VerifierDecision.reject none r h = cc
decision_check-code VerifierDecision.accept none r h = cc

validate_verifier_verdict-code :
    (verdict : VerifierVerdict)
    → validate_verifier_verdict verdict ≡ ok verdict
    → verdict.decision ≡ VerifierDecision.reject
    → (code : RejectionReasonCode) × (verdict.code ≡ some code)
unfolding validate_verifier_verdict
validate_verifier_verdict-code verdict e rejects =
    let (u, first, rest) = >>=-eq-ok (require_text verdict.id) _ e in
    let (v, second, more) = >>=-eq-ok (evidence_check verdict.evidence) _ rest in
    let (w, third, done) = >>=-eq-ok (decision_check verdict.decision verdict.code) _ more in
    decision_check-code verdict.decision verdict.code rejects third

-- A verdict that its contract accepts and that rejects with an evidence of white space only
-- makes no report: the reason that it would give is refused by the contract of the reasons.
pub build_verifier_report-blank :
    (casefold sha256 : Text → Text) (plan : ExtractionPlan) (chunk : Chunk)
    (candidate : LensCandidate) (verdict : VerifierVerdict) (call_id : Text) (c : ℕ)
    (evidence : Text)
    → validate_verifier_verdict verdict ≡ ok verdict
    → verdict.decision ≡ VerifierDecision.reject
    → verdict.evidence ≡ some (c ∷ evidence)
    → has_text (c ∷ evidence) ≡ false
    → build_verifier_report casefold sha256 plan chunk candidate verdict call_id
      ≡ err (validation_error (codes "String should match pattern '.*\\S.*'"))
unfolding build_verifier_report llm_rejection_reasons reasons_of required_code reason_message
    validate_rejection_reason require_text
build_verifier_report-blank casefold sha256 plan chunk candidate verdict call_id c evidence valid
      rejects text blank =
    let (code, has_code) = validate_verifier_verdict-code verdict valid rejects in
    rw (rejects, has_code, text, blank) refl
