-- ===== src/Verifier/Validation.antt =====
-- The checks of the verifier's inputs (src/extractor/verifier/validation.py).
pub mod Laws
use veritext.Prelude.{
  Text, Bool, true, false, not, Option, none, some, List, [], ◌∷◌, ◌==◌, list_eq, nat_eq, option_eq,
  list_beq, has_items, codes, Result, ok, err, verifier_error, ◌>>=◌, ◌>>◌, raise_if, or_raise,
  check_all, ◌&&◌,
}
use veritext.Contracts.Spans.{Chunk}
use veritext.Contracts.Candidates.{ExtractionPlan, LensCandidate, is_none}
use veritext.Contracts.Equality.Candidates.{candidate_eq}
use veritext.Contracts.Reports.{CriticReport}
use veritext.Contracts.Reviews.{accept_loop, report_of}
use veritext.Critic.Validation.{chunk_by_id}

check_chunk_doc : ExtractionPlan → Chunk → Result (Unit {0})
unfolding list_beq
check_chunk_doc plan chunk =
    raise_if (not (list_beq chunk.doc_id plan.doc_id))
      (verifier_error (codes "chunk doc_id must match extraction plan doc_id"))

-- `correction is not None and correction != candidate`
unfoldable pub is_other_correction : Option LensCandidate → LensCandidate → Bool
unfolding list_beq
is_other_correction none candidate = false
is_other_correction (some correction) candidate = not (correction == candidate)

pub accepted_critic_reports : ExtractionPlan → List CriticReport → Result (List CriticReport)
unfolding accept_loop
accepted_critic_reports plan reports =
    accept_loop (λ r. r.candidate_id) (λ r. r.run_id) (λ r. r.accepted)
      (verifier_error (codes "critic report run_id must match extraction plan run_id"))
      (verifier_error (codes "verifier requires exactly one accepted critic report per candidate"))
      plan.run_id [] reports

pub check_reviewed :
    ExtractionPlan → List Chunk → List CriticReport → LensCandidate → Result (Unit {0})
unfolding list_beq chunk_by_id report_of is_other_correction
check_reviewed plan chunks accepted candidate = do
  raise_if (not (list_beq candidate.run_id plan.run_id))
      (verifier_error (codes "candidate run_id must match extraction plan run_id"))
  raise_if (not (list_beq candidate.doc_id plan.doc_id))
      (verifier_error (codes "candidate doc_id must match extraction plan doc_id"))
  raise_if (is_none (chunk_by_id chunks candidate.chunk_id))
      (verifier_error (codes "candidate chunk_id must reference a provided chunk"))
  report ←
      or_raise (report_of (λ r. r.candidate_id) accepted candidate.candidate_id)
        (verifier_error (codes "candidate must have an accepted critic report before verification"))
  raise_if (is_other_correction report.corrected_candidate candidate)
      (verifier_error (codes "candidate must match the accepted critic correction"))

-- It returns the reports; the other dict is `chunk_by_id` of the chunks.
unfoldable pub validate_verifier_inputs :
    ExtractionPlan
    → List Chunk
    → List LensCandidate
    → List CriticReport
    → Result (List CriticReport)
unfolding check_all check_chunk_doc accepted_critic_reports check_reviewed
validate_verifier_inputs plan chunks candidates critic_reports = do
  raise_if (not (has_items chunks))
      (verifier_error (codes "verifier requires chunks for candidate context"))
  check_all (check_chunk_doc plan) chunks
  accepted ← accepted_critic_reports plan critic_reports
  check_all (check_reviewed plan chunks accepted) candidates
  ok accepted
