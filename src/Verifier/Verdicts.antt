-- ===== src/Verifier/Verdicts.antt =====
-- A verdict and the reason that it gives (src/extractor/verifier/models.py and policies.py).
use veritext.Prelude.{
  Text, ◌||◌, Option, none, some, List, [], ◌∷◌, length, ltb, nat_eq, list_eq, codes, Result, ok,
  err, validation_error, verifier_error, ◌>>=◌, ◌>>◌, raise_if, or_raise,
}
use veritext.Contracts.Candidates.{RejectionReason, RejectionReasonCode, require_text}
use veritext.Contracts.Equality.{reason_eq}
use veritext.Contracts.Reports.{validate_rejection_reason}

pub data VerifierDecision : Type 0 where
  accept reject : VerifierDecision

pub record VerifierVerdict : Type 0 where
  pub id : Text
  pub decision : VerifierDecision
  pub code : Option RejectionReasonCode
  pub evidence : Option Text

-- `Evidence`, a text of 1 to 200 characters.
unfoldable pub evidence_check : Option Text → Result (Unit {0})
evidence_check none = ok tt
evidence_check (some text) =
    raise_if (ltb (length text) 1 || ltb 200 (length text))
      (validation_error (codes "String should have between 1 and 200 characters"))

-- `validate_decision_fields`
unfoldable pub decision_check : VerifierDecision → Option RejectionReasonCode → Result (Unit {0})
decision_check VerifierDecision.accept (some code) =
    err (validation_error (codes "accepted verifier verdicts must not include code"))
decision_check VerifierDecision.reject none =
    err (validation_error (codes "rejected verifier verdicts must include code"))
decision_check _ _ = ok tt

unfoldable pub validate_verifier_verdict : VerifierVerdict → Result VerifierVerdict
unfolding require_text evidence_check decision_check
validate_verifier_verdict verdict = do
  require_text verdict.id
  evidence_check verdict.evidence
  decision_check verdict.decision verdict.code
  ok verdict

unfoldable pub default_message : RejectionReasonCode → Text
default_message RejectionReasonCode.invalid_source_offsets =
    codes "Candidate source offsets are not valid for the source chunk."
default_message RejectionReasonCode.invented_span =
    codes "Candidate value is not grounded in the selected source span."
default_message RejectionReasonCode.category_not_approved =
    codes "Candidate category is not approved by the extraction schema."
default_message RejectionReasonCode.critic_rejected = codes "Critic rejected the candidate."
default_message RejectionReasonCode.verifier_rejected = codes "Verifier rejected the candidate."
default_message RejectionReasonCode.reconciler_rejected = codes "Reconciler rejected the candidate."
default_message RejectionReasonCode.schema_violation =
    codes "Candidate category or field does not match the approved schema."
default_message RejectionReasonCode.ambiguous_source_span =
    codes "Candidate source span is ambiguous within the source chunk."
default_message RejectionReasonCode.duplicate_candidate =
    codes "Candidate duplicates another candidate selected for review."

-- `verdict.evidence or _default_message(code)`
unfoldable pub reason_message : Option Text → RejectionReasonCode → Text
unfolding default_message
reason_message (some (c ∷ text)) code = c ∷ text
reason_message _ code = default_message code

-- `_required_code`
unfoldable pub required_code : VerifierVerdict → Result RejectionReasonCode
required_code verdict =
    or_raise verdict.code
      (verifier_error (codes "rejected verifier verdict must include a rejection code"))

-- The branch on the decision.
unfoldable pub reasons_of : VerifierDecision → VerifierVerdict → Result (List RejectionReason)
unfolding required_code reason_message validate_rejection_reason
reasons_of VerifierDecision.accept verdict = ok []
reasons_of VerifierDecision.reject verdict = do
  code ← required_code verdict
  reason ←
      validate_rejection_reason
        (record { code = code; message = reason_message verdict.evidence code })
  ok (reason ∷ [])

unfoldable pub llm_rejection_reasons : VerifierVerdict → Result (List RejectionReason)
unfolding reasons_of
llm_rejection_reasons verdict = reasons_of verdict.decision verdict
