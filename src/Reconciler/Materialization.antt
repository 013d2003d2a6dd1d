-- ===== src/Reconciler/Materialization.antt =====
-- The data points and rejections of a decision (src/extractor/reconciler/materialization.py).
-- The dicts by candidate id are lists of their values, whose ids are different.
pub mod Points
pub mod Decision
use veritext.Prelude.{
  ℕ, Text, Bool, true, false, ◌&&◌, ◌||◌, not, Option, none, some, List, [], ◌∷◌, ◌++◌, map, take,
  min, keep_if, decimal, has_items, contains, distinct_from, nat_eq, list_eq, list_beq, sorted_by,
  text_le, join_texts, codes, if◌then◌else◌, Result, ok, err, reconciler_error, key_error, ◌>>=◌,
  ◌>>◌, raise_if, or_raise, map_result,
}
use veritext.Contracts.Spans.{SourceSpan}
use veritext.Contracts.Candidates.{
  ExtractionPlan, LensCandidate, RejectionReason, RejectionReasonCode,
}
use veritext.Contracts.Reports.{
  CandidateRejection, ConflictStatus, CriticReport, DataPoint, RejectionStage, VerifierReport,
  validate_candidate_rejection, validate_data_point,
}
use veritext.Contracts.Reviews.{report_of}
use veritext.Executor.Policies.{approved_category_fields, schema_reasons}
use veritext.SourceSupport.Ranks.{min_source_rank}
use veritext.Verifier.Policies.{merged_rejection_reasons, reason_identity}
use veritext.Verifier.Verdicts.{default_message}
use veritext.Reconciler.Conflicts.{mark_unresolved_conflicts}
use veritext.Reconciler.Models.{ReconciledDataPointPayload, ReconciliationBatch, validate_payload}

-- `candidates_by_id[id]`
unfoldable pub candidate_of : List LensCandidate → Text → Result LensCandidate
unfolding report_of
candidate_of candidates id = or_raise (report_of (λ c. c.candidate_id) candidates id) key_error

-- The ids that no candidate has.
unknown_ids : List LensCandidate → List Text → List Text
unfolding contains
unknown_ids candidates ids =
    keep_if (λ id. not (contains (map (λ c. c.candidate_id) candidates) id)) ids

-- `raise ReconcilerError(message + ", ".join(sorted(unknown_ids)))`, where there are some.
require_known : Text → List Text → Result (Unit {0})
unfolding sorted_by text_le distinct_from join_texts
require_known message unknown = raise_if (has_items unknown) (
    reconciler_error
      (message ++ join_texts (codes ", ") (sorted_by text_le (distinct_from [] unknown))))

validate_groups : List LensCandidate → List (Text × List Text) → Result (Unit {0})
unfolding unknown_ids require_known
validate_groups candidates [] = ok tt
validate_groups candidates (group ∷ groups) = do
  require_known (codes "reconciler output referenced unknown candidate IDs: ")
      (unknown_ids candidates (group.0 ∷ group.1))
  validate_groups candidates groups

unfoldable pub validate_output_candidate_ids :
    ReconciliationBatch → List LensCandidate → Result (Unit {0})
unfolding validate_groups unknown_ids require_known
validate_output_candidate_ids batch candidates = do
  validate_groups candidates batch.groups
  require_known (codes "reconciler output rejected unknown candidate IDs: ")
      (unknown_ids candidates (map (λ r. r.0) batch.rejected))

pub same_slot : LensCandidate → LensCandidate → Bool
unfolding list_beq
same_slot a b = list_beq a.category b.category && list_beq a.field_name b.field_name

module _ (casefold : Text → Text) where
  -- `min(comparable, key=...)`, where there is one to compare.
  pub best_of : Text → List LensCandidate → Text
  unfolding min_source_rank
  best_of selected [] = selected
  best_of selected (candidate ∷ candidates) =
      let best = min_source_rank casefold candidate candidates in best.candidate_id

  unfoldable pub best_source_candidate_id : Text → List Text → List LensCandidate → Result Text
  unfolding candidate_of map_result same_slot best_of
  best_source_candidate_id selected_id contributing_ids candidates = do
    selected ← candidate_of candidates selected_id
    contributing ← map_result (candidate_of candidates) contributing_ids
    ok (best_of selected_id (keep_if (λ c. same_slot c selected) contributing))

  unfoldable pub payload_from_group :
      Text × List Text → List LensCandidate → Result ReconciledDataPointPayload
  unfolding best_source_candidate_id candidate_of validate_payload
  payload_from_group group candidates = do
    source_id ← best_source_candidate_id group.0 group.1 candidates
    source ← candidate_of candidates source_id
    validate_payload (record {
      source_candidate_id = source_id;
      contributing_candidate_ids = group.1;
      category = source.category;
      field_name = source.field_name;
      value = source.value;
      confidence = source.confidence;
    })

-- The reasons that one contributing candidate gives.
pub contributor_reasons :
    ReconciledDataPointPayload → List Text → Text → LensCandidate → List RejectionReason
unfolding contains list_beq
contributor_reasons payload accounted_ids id candidate =
    (if contains accounted_ids id
      then record {
        code = RejectionReasonCode.reconciler_rejected;
        message = codes "Candidate is assigned to more than one data point: " ++ id;
      }
        ∷ []
      else [])
    ++ (if not (list_beq candidate.category payload.category)
          || not (list_beq candidate.field_name payload.field_name)
        then record {
          code = RejectionReasonCode.schema_violation;
          message =
              codes "Contributing candidate "
              ++ (id ++ codes " does not match reconciled category and field.");
        }
          ∷ []
        else [])

pub contributors_reasons :
    ReconciledDataPointPayload
    → List LensCandidate
    → List Text
    → List Text
    → Result (List RejectionReason)
unfolding candidate_of contributor_reasons
contributors_reasons payload candidates accounted_ids [] = ok []
contributors_reasons payload candidates accounted_ids (id ∷ ids) =
    let rest = contributors_reasons payload candidates accounted_ids ids in
    candidate_of candidates id >>= λ candidate.
    rest >>= λ reasons. ok (contributor_reasons payload accounted_ids id candidate ++ reasons)

-- `_data_point_rejection_reasons`; the reasons of the schema have the messages of the executor,
-- for a candidate with the category and the field of the payload.
unfoldable pub data_point_rejection_reasons :
    ExtractionPlan
    → ReconciledDataPointPayload
    → List LensCandidate
    → LensCandidate
    → List Text
    → Result (List RejectionReason)
unfolding schema_reasons approved_category_fields contributors_reasons merged_rejection_reasons
data_point_rejection_reasons plan payload candidates source accounted_ids = do
  reasons ← contributors_reasons payload candidates accounted_ids payload.contributing_candidate_ids
  ok (
      merged_rejection_reasons (
        schema_reasons
          (record source { category = payload.category; field_name = payload.field_name })
          (approved_category_fields plan payload.category)
        ++ reasons))

-- `min(confidence, *others)`
unfoldable pub min_all : ℕ → List ℕ → ℕ
min_all best [] = best
min_all best (n ∷ ns) = min_all (min best n) ns

module _ (sha256 : Text → Text) where
  pub stable_decision_id : ExtractionPlan → ReconciledDataPointPayload → Text
  unfolding join_texts
  stable_decision_id plan payload =
      codes "reconcile-"
      ++ take 32 (
          sha256 (
            join_texts (codes "|") (
              plan.run_id
              ∷ plan.doc_id
              ∷ payload.category
              ∷ payload.field_name
              ∷ payload.value
              ∷ payload.source_candidate_id
              ∷ join_texts (codes ",") payload.contributing_candidate_ids
              ∷ [])))

  pub stable_data_point_id : ExtractionPlan → Text → LensCandidate → Text → Text
  unfolding join_texts decimal
  stable_data_point_id plan decision_id source value =
      codes "datapoint-"
      ++ take 32 (
          sha256 (
            join_texts (codes "|") (
              plan.run_id
              ∷ plan.doc_id
              ∷ decision_id
              ∷ source.candidate_id
              ∷ value
              ∷ decimal source.source_span.start_char
              ∷ decimal source.source_span.end_char
              ∷ source.source_span.text
              ∷ [])))

  unfoldable pub build_rejection :
      ExtractionPlan → Text → List RejectionReason → Result CandidateRejection
  unfolding reason_identity validate_candidate_rejection
  build_rejection plan id reasons = validate_candidate_rejection (record {
    rejection_id =
        codes "rejection-"
        ++ take 32 (sha256 (id ++ (codes "|reconciler|" ++ reason_identity reasons)));
    run_id = plan.run_id;
    candidate_id = id;
    stage = RejectionStage.reconciler;
    reasons = reasons;
  })

  unfoldable pub data_point_of :
      ExtractionPlan
      → ReconciledDataPointPayload
      → LensCandidate
      → List LensCandidate
      → List CriticReport
      → List VerifierReport
      → DataPoint
  unfolding stable_decision_id stable_data_point_id min_all
  data_point_of plan payload source contributing critics verifiers = record {
    data_point_id =
        stable_data_point_id plan (stable_decision_id plan payload) source payload.value;
    run_id = plan.run_id;
    doc_id = plan.doc_id;
    category = payload.category;
    field_name = payload.field_name;
    value = payload.value;
    source_span = source.source_span;
    confidence =
        min_all payload.confidence
          (map (λ c. c.confidence) contributing ++ map (λ r. r.alignment_score) verifiers);
    contributing_candidate_ids = payload.contributing_candidate_ids;
    critic_report_ids = map (λ r. r.report_id) critics;
    verifier_report_ids = map (λ r. r.report_id) verifiers;
    reconciliation_decision_id = stable_decision_id plan payload;
    supporting_source_spans = map (λ c. c.source_span) contributing;
    conflict_status = ConflictStatus.no_conflict;
    conflict_group_id = none;
    conflict_reason = none;
    value_verbatim = source.value_verbatim;
    value_canonical = source.value_canonical;
    value_kind = source.value_kind;
    normalization_status = source.normalization_status;
    normalization_policy_id = source.normalization_policy_id;
    normalization_policy_version = source.normalization_policy_version;
    normalization_notes = source.normalization_notes;
  }

  unfoldable pub build_data_point :
      ExtractionPlan
      → ReconciledDataPointPayload
      → List LensCandidate
      → List CriticReport
      → List VerifierReport
      → Result DataPoint
  unfolding candidate_of report_of map_result data_point_of validate_data_point
  build_data_point plan payload candidates critic_reports verifier_reports = do
    source ← candidate_of candidates payload.source_candidate_id
    critics ←
        map_result (λ id. or_raise (report_of (λ r. r.candidate_id) critic_reports id) key_error)
          payload.contributing_candidate_ids
    verifiers ←
        map_result (λ id. or_raise (report_of (λ r. r.candidate_id) verifier_reports id) key_error)
          payload.contributing_candidate_ids
    contributing ← map_result (candidate_of candidates) payload.contributing_candidate_ids
    validate_data_point (data_point_of plan payload source contributing critics verifiers)
