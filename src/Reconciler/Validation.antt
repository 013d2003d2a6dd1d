-- ===== src/Reconciler/Validation.antt =====
-- The checks of the reconciler's inputs (src/extractor/reconciler/validation.py).
pub mod Laws
use veritext.Prelude.{
  Text, Bool, true, false, not, Option, none, some, List, [], ◌∷◌, list_eq, nat_eq, list_beq,
  contains, has_items, codes, Result, ok, err, reconciler_error, ◌>>=◌, ◌>>◌, raise_if, or_raise,
  check_all,
}
use veritext.Contracts.Candidates.{ExtractionPlan, LensCandidate, is_none}
use veritext.Contracts.Reports.{CriticReport, VerifierReport}
use veritext.Contracts.Reviews.{accept_loop, report_of}
use veritext.Verifier.Validation.{is_other_correction}

-- The first loop; `candidate_ids` has the ids of the candidates before.
check_identities : ExtractionPlan → List Text → List LensCandidate → Result (Unit {0})
unfolding list_beq contains
check_identities plan candidate_ids [] = ok tt
check_identities plan candidate_ids (candidate ∷ candidates) = do
  raise_if (not (list_beq candidate.run_id plan.run_id))
      (reconciler_error (codes "candidate run_id must match extraction plan run_id"))
  raise_if (not (list_beq candidate.doc_id plan.doc_id))
      (reconciler_error (codes "candidate doc_id must match extraction plan doc_id"))
  raise_if (contains candidate_ids candidate.candidate_id)
      (reconciler_error (codes "candidate IDs must be unique before reconciliation"))
  check_identities plan (candidate.candidate_id ∷ candidate_ids) candidates

accepted_critic_reports_by_candidate_id :
    ExtractionPlan → List CriticReport → Result (List CriticReport)
unfolding accept_loop
accepted_critic_reports_by_candidate_id plan reports =
    accept_loop (λ r. r.candidate_id) (λ r. r.run_id) (λ r. r.accepted)
      (reconciler_error (codes "critic report run_id must match extraction plan run_id"))
      (reconciler_error
        (codes "reconciler requires exactly one accepted critic report per candidate"))
      plan.run_id [] reports

accepted_verifier_reports_by_candidate_id :
    ExtractionPlan → List VerifierReport → Result (List VerifierReport)
unfolding accept_loop
accepted_verifier_reports_by_candidate_id plan reports =
    accept_loop (λ r. r.candidate_id) (λ r. r.run_id) (λ r. r.accepted)
      (reconciler_error (codes "verifier report run_id must match extraction plan run_id"))
      (reconciler_error
        (codes "reconciler requires exactly one accepted verifier report per candidate"))
      plan.run_id [] reports

check_accepted : List CriticReport → List VerifierReport → LensCandidate → Result (Unit {0})
unfolding report_of is_other_correction
check_accepted critics verifiers candidate = do
  report ← or_raise (report_of (λ r. r.candidate_id) critics candidate.candidate_id) (
      reconciler_error
        (codes "candidate must have an accepted critic report before reconciliation"))
  raise_if (is_other_correction report.corrected_candidate candidate)
      (reconciler_error (codes "candidate must match the accepted critic correction"))
  raise_if (is_none (report_of (λ r. r.candidate_id) verifiers candidate.candidate_id)) (
      reconciler_error
        (codes "candidate must have an accepted verifier report before reconciliation"))

unfoldable pub validate_reconciler_inputs :
    ExtractionPlan
    → List LensCandidate
    → List CriticReport
    → List VerifierReport
    → Result (List CriticReport × List VerifierReport)
unfolding check_identities accepted_critic_reports_by_candidate_id
    accepted_verifier_reports_by_candidate_id check_all check_accepted
validate_reconciler_inputs plan candidates critic_reports verifier_reports = do
  raise_if (not (has_items candidates))
      (reconciler_error (codes "reconciler requires at least one verified candidate"))
  check_identities plan [] candidates
  critics ← accepted_critic_reports_by_candidate_id plan critic_reports
  verifiers ← accepted_verifier_reports_by_candidate_id plan verifier_reports
  check_all (check_accepted critics verifiers) candidates
  ok (critics, verifiers)
