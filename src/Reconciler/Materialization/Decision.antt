-- ===== src/Reconciler/Materialization/Decision.antt =====
-- The loops of `build_reconciliation_result` (src/extractor/reconciler/materialization.py).
pub mod Progress
pub mod Fresh
pub mod Soundness
pub mod Taken
pub mod Groups
pub mod Accounts
pub mod Partition
use veritext.Prelude.{
  Text, Bool, true, false, ◌&&◌, ◌||◌, not, Option, none, some, List, [], ◌∷◌, ◌++◌, map, has_items,
  contains, nat_eq, list_eq, list_beq, sorted_by, text_le, codes, if◌then◌else◌, Result, ok, err,
  ◌>>=◌, ◌>>◌,
}
use veritext.Contracts.Candidates.{
  ExtractionPlan, LensCandidate, RejectionReason, RejectionReasonCode,
}
use veritext.Contracts.Reports.{CandidateRejection, CriticReport, DataPoint, VerifierReport}
use veritext.Verifier.Verdicts.{default_message}
use veritext.Reconciler.Conflicts.{mark_unresolved_conflicts}
use veritext.Reconciler.Models.{ReconciledDataPointPayload, ReconciliationBatch}
use veritext.Reconciler.Materialization.{
  build_data_point, build_rejection, candidate_of, data_point_rejection_reasons, payload_from_group,
  validate_output_candidate_ids,
}

-- `data_points`, `rejections_by_candidate_id` and `accounted_ids`.
pub record Decided : Type 0 where
  pub data_points : List DataPoint
  pub rejections : List CandidateRejection
  pub accounted_ids : List Text

-- `rejections.setdefault(id, rejection)`
pub set_default : List CandidateRejection → CandidateRejection → List CandidateRejection
unfolding contains
set_default rejections rejection =
    if contains (map (λ r. r.candidate_id) rejections) rejection.candidate_id
    then rejections
    else rejections ++ (rejection ∷ [])

-- `rejections[id] = rejection`
pub set_rejection : List CandidateRejection → CandidateRejection → List CandidateRejection
unfolding list_beq
set_rejection [] rejection = rejection ∷ []
set_rejection (r ∷ rejections) rejection =
    let rest = set_rejection rejections rejection in
    if list_beq r.candidate_id rejection.candidate_id then rejection ∷ rejections else r ∷ rest

pub rejection_le : CandidateRejection → CandidateRejection → Bool
unfolding text_le
rejection_le a b = text_le a.candidate_id b.candidate_id

-- `_rejection_reason_for_code`
pub rejection_reason_for_code : RejectionReasonCode → RejectionReason
unfolding default_message
rejection_reason_for_code code = record { code = code; message = default_message code }

not_selected : RejectionReason
not_selected = record {
  code = RejectionReasonCode.reconciler_rejected;
  message = codes "Candidate was not selected or explicitly rejected by reconciliation output.";
}

module _ (casefold sha256 : Text → Text) where
  -- The loop over the contributing candidates of a group with reasons.
  pub reject_group : ExtractionPlan → List RejectionReason → List Text → Decided → Result Decided
  unfolding build_rejection set_default
  reject_group plan reasons [] decided = ok decided
  reject_group plan reasons (id ∷ ids) decided =
      build_rejection sha256 plan id reasons >>= λ rejection.
      reject_group plan reasons ids (record decided {
        rejections = set_default decided.rejections rejection;
        accounted_ids = id ∷ decided.accounted_ids;
      })

  -- One round of the loop over the groups.
  pub decide_group :
      ExtractionPlan
      → List LensCandidate
      → List CriticReport
      → List VerifierReport
      → Text × List Text
      → Decided
      → Result Decided
  unfolding payload_from_group candidate_of data_point_rejection_reasons reject_group
      build_data_point
  decide_group plan candidates critics verifiers group decided = do
    payload ← payload_from_group casefold group candidates
    source ← candidate_of candidates payload.source_candidate_id
    reasons ← data_point_rejection_reasons plan payload candidates source decided.accounted_ids
    if has_items reasons
        then reject_group plan reasons payload.contributing_candidate_ids decided
        else build_data_point sha256 plan payload candidates critics verifiers >>= λ point.
            ok (record decided {
              data_points = decided.data_points ++ (point ∷ []);
              accounted_ids = payload.contributing_candidate_ids ++ decided.accounted_ids;
            })

  pub decide_groups :
      ExtractionPlan
      → List LensCandidate
      → List CriticReport
      → List VerifierReport
      → List (Text × List Text)
      → Decided
      → Result Decided
  unfolding decide_group
  decide_groups plan candidates critics verifiers [] decided = ok decided
  decide_groups plan candidates critics verifiers (group ∷ groups) decided =
      decide_group plan candidates critics verifiers group decided >>= λ next.
      decide_groups plan candidates critics verifiers groups next

  -- The loop over the candidates that the model rejects.
  pub decide_rejected :
      ExtractionPlan → List (Text × RejectionReasonCode) → Decided → Result Decided
  unfolding contains build_rejection rejection_reason_for_code set_rejection
  decide_rejected plan [] decided = ok decided
  decide_rejected plan ((id, code) ∷ rejected) decided =
      let skipped = decide_rejected plan rejected decided in
      let added =
        build_rejection sha256 plan id (rejection_reason_for_code code ∷ []) >>= λ rejection.
        decide_rejected plan rejected (record decided {
          rejections = set_rejection decided.rejections rejection;
          accounted_ids = id ∷ decided.accounted_ids;
        }) in
      if contains decided.accounted_ids id then skipped else added

  -- The loop over all candidates, which leaves `accounted_ids` as it is.
  pub decide_rest : ExtractionPlan → List LensCandidate → Decided → Result Decided
  unfolding contains build_rejection not_selected set_rejection
  decide_rest plan [] decided = ok decided
  decide_rest plan (candidate ∷ candidates) decided =
      let skipped = decide_rest plan candidates decided in
      let added =
        build_rejection sha256 plan candidate.candidate_id (not_selected ∷ []) >>= λ rejection.
        decide_rest plan candidates
          (record decided { rejections = set_rejection decided.rejections rejection }) in
      if contains decided.accounted_ids candidate.candidate_id then skipped else added

  pub decide_all :
      ExtractionPlan
      → List LensCandidate
      → List CriticReport
      → List VerifierReport
      → ReconciliationBatch
      → Result Decided
  unfolding validate_output_candidate_ids decide_groups decide_rejected decide_rest
  decide_all plan candidates critics verifiers batch = do
    validate_output_candidate_ids batch candidates
    grouped ←
        decide_groups plan candidates critics verifiers batch.groups
          (record { data_points = []; rejections = []; accounted_ids = [] })
    rejected ← decide_rejected plan batch.rejected grouped
    decide_rest plan candidates rejected

module _ (nfkc casefold sha256 : Text → Text) where
  unfoldable pub build_reconciliation_result :
      ExtractionPlan
      → List LensCandidate
      → List CriticReport
      → List VerifierReport
      → ReconciliationBatch
      → Result (List DataPoint × List CandidateRejection)
  unfolding decide_all mark_unresolved_conflicts sorted_by rejection_le
  build_reconciliation_result plan candidates critics verifiers batch =
      decide_all casefold sha256 plan candidates critics verifiers batch >>= λ decided. ok (
        mark_unresolved_conflicts nfkc casefold sha256 decided.data_points,
        sorted_by rejection_le decided.rejections,
      )
