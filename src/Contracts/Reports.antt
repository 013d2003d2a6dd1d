-- ===== src/Contracts/Reports.antt =====
-- The reports of the review stages, the rejections and the data points
-- (src/extractor/contracts/models.py and src/extractor/audit/models.py).
use veritext.Prelude.{
  has_items, ℕ, ◌^◌, Text, Bool, ◌&&◌, ◌||◌, not, Option, none, some, List, [], ◌∷◌, list_eq,
  nat_eq, list_beq, codes, Result, ok, validation_error, ◌>>◌, raise_if, check_all,
}
use veritext.Contracts.Spans.{SourceSpan}
use veritext.Contracts.Candidates.{
  LensCandidate, LensName, NormalizationStatus, RejectionReason, ValueKind, require_optional,
  require_text, validate_normalization_metadata,
}

pub data RejectionStage : Type 0 where
  executor critic verifier reconciler schema dedup : RejectionStage

-- The time of the rejection is left out.
pub record CandidateRejection : Type 0 where
  pub rejection_id : Text
  pub run_id : Text
  pub candidate_id : Text
  pub stage : RejectionStage
  pub reasons : List RejectionReason

pub data IssueSeverity : Type 0 where
  low medium high : IssueSeverity

pub record CriticIssue : Type 0 where
  pub code : Text
  pub severity : IssueSeverity
  pub message : Text

-- The float 1.0 as a multiple of 2 ^ -1074, which is how the model writes a confidence.
unfoldable pub confidence_one : ℕ
confidence_one = 2 ^ 1074

pub record CriticReport : Type 0 where
  pub report_id : Text
  pub run_id : Text
  pub candidate_id : Text
  pub critic_call_id : Text
  pub plausibility_score : ℕ
  pub accepted : Bool
  pub issues : List CriticIssue
  pub corrected_candidate : Option LensCandidate

pub record VerifierReport : Type 0 where
  pub report_id : Text
  pub run_id : Text
  pub candidate_id : Text
  pub verifier_call_id : Text
  pub span_verified : Bool
  pub category_verified : Bool
  pub alignment_score : ℕ
  pub accepted : Bool
  pub rejection_reasons : List RejectionReason

pub data ConflictStatus : Type 0 where
  no_conflict unresolved : ConflictStatus

pub record DataPoint : Type 0 where
  pub data_point_id : Text
  pub run_id : Text
  pub doc_id : Text
  pub category : Text
  pub field_name : Text
  pub value : Text
  pub source_span : SourceSpan
  pub confidence : ℕ
  pub contributing_candidate_ids : List Text
  pub critic_report_ids : List Text
  pub verifier_report_ids : List Text
  pub reconciliation_decision_id : Text
  pub supporting_source_spans : List SourceSpan
  pub conflict_status : ConflictStatus
  pub conflict_group_id : Option Text
  pub conflict_reason : Option Text
  pub value_verbatim : Option Text
  pub value_canonical : Option Text
  pub value_kind : ValueKind
  pub normalization_status : NormalizationStatus
  pub normalization_policy_id : Option Text
  pub normalization_policy_version : Option Text
  pub normalization_notes : Option Text

-- The construction of a `RejectionReason`.
unfoldable pub validate_rejection_reason : RejectionReason → Result RejectionReason
unfolding require_text
validate_rejection_reason reason = do require_text reason.message; ok reason

unfoldable pub validate_candidate_rejection : CandidateRejection → Result CandidateRejection
unfolding require_text check_all
validate_candidate_rejection rejection = do
  check_all require_text (rejection.rejection_id ∷ rejection.run_id ∷ rejection.candidate_id ∷ [])
  raise_if (not (has_items rejection.reasons))
      (validation_error (codes "Tuple should have at least 1 item after validation"))
  ok rejection

-- The branch of `validate_correction` on the correction.
correction_check : Option LensCandidate → CriticReport → Result (Unit {0})
unfolding list_beq
correction_check none report = ok tt
correction_check (some candidate) report = do
  raise_if (not (list_beq candidate.candidate_id report.candidate_id))
      (validation_error (codes "corrected candidate must preserve candidate_id"))
  raise_if (not (list_beq candidate.run_id report.run_id))
      (validation_error (codes "corrected candidate must preserve run_id"))

unfoldable pub validate_critic_report : CriticReport → Result CriticReport
unfolding require_text check_all correction_check
validate_critic_report report = do
  check_all require_text
      (report.report_id ∷ report.run_id ∷ report.candidate_id ∷ report.critic_call_id ∷ [])
  correction_check report.corrected_candidate report
  ok report

unfoldable pub validate_verifier_report : VerifierReport → Result VerifierReport
unfolding require_text check_all
validate_verifier_report report = do
  check_all require_text
      (report.report_id ∷ report.run_id ∷ report.candidate_id ∷ report.verifier_call_id ∷ [])
  raise_if (report.accepted && has_items report.rejection_reasons)
      (validation_error (codes "accepted verifier reports must not include rejection reasons"))
  raise_if (not report.accepted && not (has_items report.rejection_reasons))
      (validation_error (codes "rejected verifier reports must include at least one reason"))
  ok report

-- A data point as the arguments of `validate_normalization_metadata` and `canonical_value_key`,
-- which read no field of a candidate but those of its value and its normalization.
abbrev pub value_arguments : DataPoint → LensCandidate
value_arguments point = record {
  candidate_id = [];
  run_id = point.run_id;
  doc_id = point.doc_id;
  chunk_id = [];
  lens = LensName.claim;
  category = point.category;
  field_name = point.field_name;
  value = point.value;
  source_span = point.source_span;
  confidence = point.confidence;
  executor_call_id = [];
  value_verbatim = point.value_verbatim;
  value_canonical = point.value_canonical;
  value_kind = point.value_kind;
  normalization_status = point.normalization_status;
  normalization_policy_id = point.normalization_policy_id;
  normalization_policy_version = point.normalization_policy_version;
  normalization_notes = point.normalization_notes;
}

-- The optional texts of a data point, which must have text where they are there.
pub optional_texts : DataPoint → Result (Unit {0})
optional_texts point = do
  require_optional point.conflict_group_id
  require_optional point.conflict_reason
  require_optional point.value_verbatim
  require_optional point.value_canonical
  require_optional point.normalization_policy_id
  require_optional point.normalization_policy_version
  require_optional point.normalization_notes

-- The fields of a data point, then `DataPoint.validate_source_identity`.
unfoldable pub validate_data_point : DataPoint → Result DataPoint
unfolding require_text check_all optional_texts validate_normalization_metadata list_beq
validate_data_point point = do
  check_all require_text (
      point.data_point_id ∷ point.run_id ∷ point.doc_id ∷ point.category ∷ point.field_name
      ∷ point.value ∷ point.reconciliation_decision_id ∷ point.contributing_candidate_ids)
  check_all require_text point.critic_report_ids
  check_all require_text point.verifier_report_ids
  raise_if
      (not (has_items point.contributing_candidate_ids)
        || not (has_items point.critic_report_ids)
        || not (has_items point.verifier_report_ids))
      (validation_error (codes "Tuple should have at least 1 item after validation"))
  optional_texts point
  raise_if (not (list_beq point.source_span.doc_id point.doc_id))
      (validation_error (codes "source_span doc_id must match data point doc_id"))
  validate_normalization_metadata (value_arguments point)
  ok point
