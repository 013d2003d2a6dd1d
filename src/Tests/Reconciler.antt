-- ===== src/Tests/Reconciler.antt =====
-- Runs of the reconciler.
use veritext.Prelude.{
  ◌≡◌, refl, false, List, [], ◌∷◌, map, keep_if, codes, ok, All, has_duplicates, list_beq, list_eq,
  nat_eq,
}
use veritext.Contracts.Candidates.{LensCandidate, RejectionReasonCode}
use veritext.Contracts.Reports.{CandidateRejection, DataPoint, RejectionStage}
use veritext.Reconciler.Conflicts.{mark_unresolved_conflicts}
use veritext.Reconciler.Conflicts.Laws.{
  contributed, mark_unresolved_conflicts-without_conflict, without_conflict,
}
use veritext.Reconciler.Models.{
  ReconciledDataPointPayload, ReconciliationBatch, validate_reconciliation_batch_model,
}
use veritext.Reconciler.Materialization.{data_point_of}
use veritext.Reconciler.Materialization.Points.{FromCandidate}
use veritext.Reconciler.Materialization.Decision.{build_reconciliation_result}
use veritext.Reconciler.Materialization.Decision.Accounts.{IsAccounted}
use veritext.Reconciler.Materialization.Decision.Partition.{build_reconciliation_result-IsAccounted}
use veritext.Reconciler.Validation.{validate_reconciler_inputs}
use veritext.Reconciler.Validation.Laws.{Passed, validate_reconciler_inputs-Passed}
use veritext.Tests.Data.{candidate, critic_report, listed, plan, same_text, verifier_report}

abbrev two : List LensCandidate
two = listed ∷ candidate (codes "b") ∷ []

abbrev batch : ReconciliationBatch
batch = record {
  groups = (codes "candidate-0123456789abcdef", codes "candidate-0123456789abcdef" ∷ []) ∷ [];
  rejected = (codes "b", RejectionReasonCode.duplicate_candidate) ∷ [];
}

batch_valid : validate_reconciliation_batch_model batch ≡ ok batch
unfolding validate_reconciliation_batch_model list_beq
batch_valid = refl

abbrev payload : ReconciledDataPointPayload
payload = record {
  source_candidate_id = codes "candidate-0123456789abcdef";
  contributing_candidate_ids = codes "candidate-0123456789abcdef" ∷ [];
  category = codes "Lease";
  field_name = codes "rent";
  value = codes "5";
  confidence = 1;
}

abbrev point : DataPoint
point =
    data_point_of same_text plan payload listed (listed ∷ []) (critic_report ∷ [])
      (verifier_report ∷ [])

abbrev duplicate : CandidateRejection
duplicate = record {
  rejection_id = codes "rejection-b|reconciler|duplicate_candidate";
  run_id = codes "r";
  candidate_id = codes "b";
  stage = RejectionStage.reconciler;
  reasons =
      record {
        code = RejectionReasonCode.duplicate_candidate;
        message = codes "Candidate duplicates another candidate selected for review.";
      }
      ∷ [];
}

decision_run :
    build_reconciliation_result same_text same_text same_text plan two
      (critic_report ∷ [])
      (verifier_report ∷ [])
      batch
    ≡ ok (point ∷ [], duplicate ∷ [])
unfolding build_reconciliation_result data_point_of
decision_run = refl

build_reconciliation_result-IsAccounted_example :
    All (IsAccounted (point ∷ []) (duplicate ∷ [])) two
    × (has_duplicates (contributed (point ∷ [])) ≡ false)
    × All (FromCandidate two) (point ∷ [])
build_reconciliation_result-IsAccounted_example =
    build_reconciliation_result-IsAccounted same_text same_text same_text plan two
      (critic_report ∷ []) (verifier_report ∷ []) batch decision_run

mark_unresolved_conflicts-without_conflict_example :
    map without_conflict
      (mark_unresolved_conflicts same_text same_text same_text (point ∷ point ∷ []))
    ≡ map without_conflict (point ∷ point ∷ [])
mark_unresolved_conflicts-without_conflict_example =
    mark_unresolved_conflicts-without_conflict same_text same_text same_text (point ∷ point ∷ [])

inputs_run :
    validate_reconciler_inputs plan (listed ∷ []) (critic_report ∷ []) (verifier_report ∷ [])
    ≡ ok (critic_report ∷ [], verifier_report ∷ [])
unfolding validate_reconciler_inputs
inputs_run = refl

validate_reconciler_inputs-Passed_example :
    (has_duplicates (map (λ c. c.candidate_id) (listed ∷ [])) ≡ false)
    × All (λ c. (c.run_id ≡ codes "r") × (c.doc_id ≡ codes "d")) (listed ∷ [])
    × (critic_report ∷ [] ≡ keep_if (λ r. r.accepted) (critic_report ∷ []))
    × (verifier_report ∷ [] ≡ keep_if (λ r. r.accepted) (verifier_report ∷ []))
    × (has_duplicates (map (λ r. r.candidate_id) (critic_report ∷ [])) ≡ false)
    × (has_duplicates (map (λ r. r.candidate_id) (verifier_report ∷ [])) ≡ false)
    × All (Passed (critic_report ∷ []) (verifier_report ∷ [])) (listed ∷ [])
validate_reconciler_inputs-Passed_example =
    validate_reconciler_inputs-Passed plan (listed ∷ []) (critic_report ∷ []) (verifier_report ∷ [])
      inputs_run
