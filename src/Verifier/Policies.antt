-- ===== src/Verifier/Policies.antt =====
-- The report on a verdict (src/extractor/verifier/policies.py). `casefold` is
-- `str.casefold`, `sha256` is `hashlib.sha256(...).hexdigest()` of the bytes of a text.
pub mod Laws
pub mod Objections
pub mod Acceptance
pub mod Refusals
use veritext.Prelude.{
  has_items, ℕ, Text, Bool, true, false, ◌&&◌, ◌||◌, not, Option, none, some, List, [], ◌∷◌, ◌++◌,
  map, take, length, keep_if, leb, ltb, ◌==◌, nat_eq, list_eq, list_beq, contains, distinct_from,
  join_texts, codes, if◌then◌else◌, Result, ok, err, validation_error, verifier_error, ◌>>=◌, ◌>>◌,
  raise_if, or_raise,
}
use veritext.Contracts.Spans.{Chunk}
use veritext.Contracts.Candidates.{
  ExtractionPlan, LensCandidate, RejectionReason, RejectionReasonCode, require_text,
}
use veritext.Contracts.Equality.{code_text, reason_eq}
use veritext.Contracts.Reports.{
  VerifierReport, confidence_one, validate_rejection_reason, validate_verifier_report,
}
use veritext.Executor.Policies.{approved_category_fields, schema_reasons, span_matches_chunk}
use veritext.SourceSupport.Values.{is_label_field, value_is_source_supported}
use veritext.Verifier.Verdicts.{VerifierVerdict, llm_rejection_reasons}

-- `span_matches`, `schema_approved` and `value_supported`, in this order.
unfoldable pub is_contradicted_llm_reason : RejectionReasonCode → Bool → Bool → Bool → Bool
is_contradicted_llm_reason RejectionReasonCode.invalid_source_offsets matches approved supported =
    matches
is_contradicted_llm_reason RejectionReasonCode.ambiguous_source_span matches approved supported =
    matches
is_contradicted_llm_reason RejectionReasonCode.invented_span matches approved supported =
    matches && supported
is_contradicted_llm_reason RejectionReasonCode.category_not_approved matches approved supported =
    approved
is_contradicted_llm_reason RejectionReasonCode.schema_violation matches approved supported =
    approved && matches && supported
is_contradicted_llm_reason _ matches approved supported = false

-- The key of a reason, its code and its message, is all of it.
unfoldable pub merged_rejection_reasons : List RejectionReason → List RejectionReason
unfolding distinct_from
merged_rejection_reasons reasons = distinct_from [] reasons

unfoldable pub is_approved_in : Option (List Text) → Text → Bool
unfolding contains
is_approved_in none field_name = false
is_approved_in (some fields) field_name = contains fields field_name

unfoldable pub candidate_schema_approved : ExtractionPlan → LensCandidate → Bool
unfolding approved_category_fields is_approved_in
candidate_schema_approved plan candidate =
    is_approved_in (approved_category_fields plan candidate.category) candidate.field_name

-- `any(reason.code in {...} for reason in reasons)`
pub any_code : (RejectionReasonCode → Bool) → List RejectionReason → Bool
any_code p [] = false
any_code p (reason ∷ reasons) = p reason.code || any_code p reasons

pub is_span_code : RejectionReasonCode → Bool
is_span_code RejectionReasonCode.invented_span = true
is_span_code RejectionReasonCode.invalid_source_offsets = true
is_span_code RejectionReasonCode.ambiguous_source_span = true
is_span_code _ = false

pub is_schema_code : RejectionReasonCode → Bool
is_schema_code RejectionReasonCode.category_not_approved = true
is_schema_code RejectionReasonCode.schema_violation = true
is_schema_code _ = false

-- `"|".join(f"{reason.code}:{reason.message}" for reason in reasons)`
unfoldable pub reason_identity : List RejectionReason → Text
unfolding join_texts code_text
reason_identity reasons =
    join_texts (codes "|") (map (λ r. code_text r.code ++ (codes ":" ++ r.message)) reasons)

-- `str(b)`
bool_text : Bool → Text
bool_text true = codes "True"
bool_text false = codes "False"

module _ (sha256 : Text → Text) where
  -- The score is 1.0 where the report accepts, and 0.0 elsewhere.
  pub stable_report_id : LensCandidate → Text → Bool → Bool → Bool → List RejectionReason → Text
  unfolding join_texts bool_text reason_identity
  stable_report_id candidate call_id span_verified category_verified accepted reasons =
      let identity = join_texts (codes "|") (
        candidate.candidate_id
        ∷ call_id
        ∷ bool_text span_verified
        ∷ bool_text category_verified
        ∷ (if accepted then codes "1.0" else codes "0.0")
        ∷ bool_text accepted
        ∷ reason_identity reasons
        ∷ []) in
      codes "verifier-" ++ take 32 (sha256 identity)

  unfoldable pub stable_missing_report_id : LensCandidate → Text → List RejectionReason → Text
  unfolding reason_identity
  stable_missing_report_id candidate call_id reasons =
      codes "verifier-"
      ++ take 32 (
          sha256 (
            candidate.candidate_id
            ++ (codes "|" ++ (call_id ++ (codes "|missing|" ++ reason_identity reasons)))))

  unfoldable pub stable_rejection_id : LensCandidate → VerifierReport → Text
  unfolding reason_identity
  stable_rejection_id candidate report =
      codes "rejection-"
      ++ take 32 (
          sha256 (
            candidate.candidate_id
            ++ (codes "|"
                ++ (report.report_id ++ (codes "|" ++ reason_identity report.rejection_reasons)))))

module _ (casefold sha256 : Text → Text) where
  span_reasons : LensCandidate → Chunk → List RejectionReason
  unfolding span_matches_chunk is_label_field value_is_source_supported
  span_reasons candidate chunk =
      if not (span_matches_chunk candidate.source_span chunk)
      then record {
        code = RejectionReasonCode.invented_span;
        message =
            codes "Candidate source span does not match the chunk text at the provided offsets.";
      }
        ∷ []
      else if not (is_label_field candidate.field_name)
          && not (value_is_source_supported casefold candidate)
      then record {
        code = RejectionReasonCode.invented_span;
        message =
            codes
              "Candidate value adds words or units that are not grounded in the selected source span.";
      }
        ∷ []
      else []

  -- The reasons of the schema are those of the executor.
  unfoldable pub deterministic_rejection_reasons :
      ExtractionPlan → Chunk → LensCandidate → List RejectionReason
  unfolding schema_reasons approved_category_fields span_reasons
  deterministic_rejection_reasons plan chunk candidate =
      schema_reasons candidate (approved_category_fields plan candidate.category)
      ++ span_reasons candidate chunk

  -- The reasons of the verdict that the checks do not contradict.
  unfoldable pub kept_llm_reasons :
      ExtractionPlan → Chunk → LensCandidate → List RejectionReason → List RejectionReason
  unfolding span_matches_chunk candidate_schema_approved value_is_source_supported
      is_contradicted_llm_reason
  kept_llm_reasons plan chunk candidate reasons =
      let matches = span_matches_chunk candidate.source_span chunk in
      let approved = candidate_schema_approved plan candidate in
      let supported = value_is_source_supported casefold candidate in
      if matches || approved || supported
      then keep_if (λ r. not (is_contradicted_llm_reason r.code matches approved supported)) reasons
      else reasons

  unfoldable pub report_on :
      ExtractionPlan → LensCandidate → Text → List RejectionReason → VerifierReport
  unfolding any_code is_span_code is_schema_code stable_report_id confidence_one
  report_on plan candidate call_id reasons =
      let span_verified = not (any_code is_span_code reasons) in
      let category_verified = not (any_code is_schema_code reasons) in
      let accepted = not (has_items reasons) in
      record {
        report_id =
            stable_report_id sha256 candidate call_id span_verified category_verified accepted
              reasons;
        run_id = plan.run_id;
        candidate_id = candidate.candidate_id;
        verifier_call_id = call_id;
        span_verified = span_verified;
        category_verified = category_verified;
        alignment_score = if accepted then confidence_one else 0;
        accepted = accepted;
        rejection_reasons = if accepted then [] else reasons;
      }

  unfoldable pub build_verifier_report :
      ExtractionPlan → Chunk → LensCandidate → VerifierVerdict → Text → Result VerifierReport
  unfolding llm_rejection_reasons kept_llm_reasons deterministic_rejection_reasons
      merged_rejection_reasons report_on validate_verifier_report
  build_verifier_report plan chunk candidate verdict call_id = do
    llm_reasons ← llm_rejection_reasons verdict
    validate_verifier_report (
        report_on plan candidate call_id (
          merged_rejection_reasons (
            kept_llm_reasons plan chunk candidate llm_reasons
            ++ deterministic_rejection_reasons plan chunk candidate)))
