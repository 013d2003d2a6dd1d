-- ===== src/Verifier/Batch.antt =====
-- The review of batches (src/extractor/verifier/service.py, with short_candidate_id and
-- build_candidate_view_map of src/extractor/llm/views.py). What the language model answers for a
-- batch is a parameter, `lower` is `str.lower`. The records for the audit are left out, and the
-- batches, which run concurrently, come one after another: only what they give is read.
pub mod Accounts
pub mod Laws
use veritext.Prelude.{
  ℕ, Text, Bool, true, false, ◌&&◌, ◌||◌, not, Option, none, some, List, [], ◌∷◌, ◌++◌, take, drop,
  length, leb, ◌==◌, nat_eq, list_eq, list_beq, contains, all_chars, starts_with, has_items, codes,
  if◌then◌else◌, Result, ok, err, validation_error, key_error, ◌>>=◌, ◌>>◌, raise_if, or_raise,
  map_result,
}
use veritext.Contracts.Spans.{Chunk}
use veritext.Contracts.Candidates.{
  ExtractionPlan, LensCandidate, RejectionReason, RejectionReasonCode,
}
use veritext.Contracts.Equality.{code_text}
use veritext.Contracts.Reports.{
  CandidateRejection, CriticReport, RejectionStage, VerifierReport, validate_candidate_rejection,
  validate_verifier_report,
}
use veritext.Contracts.Reviews.{report_of}
use veritext.Critic.Batching.{partition_into_batches}
use veritext.Critic.Validation.{chunk_by_id}
use veritext.Verifier.Policies.{
  build_verifier_report, stable_missing_report_id, stable_rejection_id,
}
use veritext.Verifier.Verdicts.{VerifierVerdict}
use veritext.Verifier.Validation.{validate_verifier_inputs}

pub record VerifierTaskResult : Type 0 where
  pub accepted_candidates : List LensCandidate
  pub rejected_candidates : List LensCandidate
  pub reports : List VerifierReport
  pub rejections : List CandidateRejection

abbrev pub no_result : VerifierTaskResult
no_result = record {
  accepted_candidates = [];
  rejected_candidates = [];
  reports = [];
  rejections = [];
}

-- The results of two candidates or batches, one after the other.
abbrev pub add_results : VerifierTaskResult → VerifierTaskResult → VerifierTaskResult
add_results a b = record {
  accepted_candidates = a.accepted_candidates ++ b.accepted_candidates;
  rejected_candidates = a.rejected_candidates ++ b.rejected_candidates;
  reports = a.reports ++ b.reports;
  rejections = a.rejections ++ b.rejections;
}

abbrev pub all_results : List VerifierTaskResult → VerifierTaskResult
all_results [] = no_result
all_results (result ∷ results) = add_results result (all_results results)

-- `char in _HEX`
is_hex : ℕ → Bool
is_hex c = (leb 0x30 c && leb c 0x39) || (leb 0x61 c && leb c 0x66)

-- `text.removeprefix("candidate-")`
remove_prefix : Text → Text
unfolding starts_with
remove_prefix text = if starts_with text (codes "candidate-") then drop 10 text else text

-- The codes that `RejectionReasonCode` lists.
all_codes : List RejectionReasonCode
all_codes =
    RejectionReasonCode.invalid_source_offsets ∷ RejectionReasonCode.invented_span
    ∷ RejectionReasonCode.category_not_approved ∷ RejectionReasonCode.critic_rejected
    ∷ RejectionReasonCode.verifier_rejected ∷ RejectionReasonCode.reconciler_rejected
    ∷ RejectionReasonCode.schema_violation ∷ RejectionReasonCode.ambiguous_source_span
    ∷ RejectionReasonCode.duplicate_candidate ∷ []

code_among : List RejectionReasonCode → Text → Result RejectionReasonCode
unfolding list_beq code_text
code_among [] name = err (validation_error (codes "Input should be a listed code"))
code_among (code ∷ listed) name =
    let rest = code_among listed name in if list_beq (code_text code) name then ok code else rest

-- The check of a code that is written as a string.
pub literal_code : Text → Result RejectionReasonCode
unfolding code_among all_codes
literal_code name = code_among all_codes name

-- `verdicts_by_candidate.get(id)`: of the verdicts with one id the first counts.
unfoldable pub verdict_of : List VerifierVerdict → Text → Option VerifierVerdict
unfolding list_beq
verdict_of [] id = none
verdict_of (verdict ∷ verdicts) id =
    let rest = verdict_of verdicts id in if list_beq verdict.id id then some verdict else rest

module _ (casefold lower sha256 : Text → Text) where
  unfoldable pub short_candidate_id : Text → Text
  unfolding is_hex remove_prefix all_chars
  short_candidate_id candidate_id =
      let token_source = lower (remove_prefix candidate_id) in
      if leb 12 (length token_source) && all_chars is_hex (take 12 token_source)
      then take 12 token_source
      else take 12 (sha256 candidate_id)

  -- The last candidate with a view id, of those that stand before.
  view_of : List LensCandidate → Text → Option LensCandidate
  unfolding short_candidate_id list_beq
  view_of [] id = none
  view_of (candidate ∷ earlier) id =
      let rest = view_of earlier id in
      if list_beq (short_candidate_id candidate.candidate_id) id then some candidate else rest

  is_collision : Option LensCandidate → LensCandidate → Bool
  unfolding list_beq
  is_collision none candidate = false
  is_collision (some existing) candidate =
      not (list_beq existing.candidate_id candidate.candidate_id)

  -- The loop of `build_candidate_view_map`, where `earlier` has the candidates before, the last
  -- first. The views are what the language model is shown.
  pub check_views : List LensCandidate → List LensCandidate → Result (Unit {0})
  unfolding view_of is_collision short_candidate_id
  check_views earlier [] = ok tt
  check_views earlier (candidate ∷ candidates) = do
    raise_if (is_collision (view_of earlier (short_candidate_id candidate.candidate_id)) candidate)
        (validation_error (codes "candidate short ID collision"))
    check_views (candidate ∷ earlier) candidates

  reject : ExtractionPlan → LensCandidate → VerifierReport → Result VerifierTaskResult
  unfolding stable_rejection_id validate_candidate_rejection
  reject plan candidate report = do
    rejection ← validate_candidate_rejection (record {
      rejection_id = stable_rejection_id sha256 candidate report;
      run_id = plan.run_id;
      candidate_id = candidate.candidate_id;
      stage = RejectionStage.verifier;
      reasons = report.rejection_reasons;
    })
    ok (record {
      accepted_candidates = [];
      rejected_candidates = candidate ∷ [];
      reports = report ∷ [];
      rejections = rejection ∷ [];
    })

  -- The branch of a candidate that the model gave no verdict for.
  pub review_missing : ExtractionPlan → LensCandidate → Text → Result VerifierTaskResult
  unfolding literal_code stable_missing_report_id validate_verifier_report reject
  review_missing plan candidate call_id = do
    code ← literal_code (codes "verifier_missing_report")
    let reasons =
        record {
          code = code;
          message =
              codes "Verifier batch response did not include a report for candidate "
              ++ (candidate.candidate_id ++ codes ".");
        }
        ∷ []
    report ← validate_verifier_report (record {
      report_id = stable_missing_report_id sha256 candidate call_id reasons;
      run_id = plan.run_id;
      candidate_id = candidate.candidate_id;
      verifier_call_id = call_id;
      span_verified = false;
      category_verified = false;
      alignment_score = 0;
      accepted = false;
      rejection_reasons = reasons;
    })
    reject plan candidate report

  unfoldable pub review_candidate :
      ExtractionPlan
      → Chunk
      → List VerifierVerdict
      → Text
      → LensCandidate
      → Result VerifierTaskResult
  unfolding verdict_of short_candidate_id review_missing build_verifier_report reject
  review_candidate plan chunk verdicts call_id candidate =
      elim (verdict_of verdicts (short_candidate_id candidate.candidate_id)) [
        | none ↦ review_missing plan candidate call_id
        | some verdict ↦
            build_verifier_report casefold sha256 plan chunk candidate verdict call_id >>= λ report.
            (if report.accepted
              then ok (record {
                accepted_candidates = candidate ∷ [];
                rejected_candidates = [];
                reports = report ∷ [];
                rejections = [];
              })
              else reject plan candidate report)
      ]

  -- `critic_reports_by_candidate[candidate.candidate_id]`, which raises on a missing key.
  check_reported : List CriticReport → LensCandidate → Result CriticReport
  unfolding report_of
  check_reported reports candidate =
      or_raise (report_of (λ r. r.candidate_id) reports candidate.candidate_id) key_error

  unfoldable pub verify_batch :
      ExtractionPlan
      → Chunk
      → List LensCandidate
      → List CriticReport
      → List VerifierVerdict
      → Text
      → Result VerifierTaskResult
  unfolding check_views check_reported map_result review_candidate
  verify_batch plan chunk batch critic_reports verdicts call_id = do
    check_views [] batch
    reported ← map_result (check_reported critic_reports) batch
    results ← map_result (review_candidate plan chunk verdicts call_id) batch
    ok (all_results results)

  -- The batch with the chunk of its first candidate, and what the model answers for it.
  verify_answered :
      ExtractionPlan
      → List Chunk
      → List CriticReport
      → (List LensCandidate → List VerifierVerdict × Text)
      → List LensCandidate
      → Result VerifierTaskResult
  unfolding chunk_by_id verify_batch
  verify_answered plan chunks critic_reports answer [] = err key_error
  verify_answered plan chunks critic_reports answer (candidate ∷ batch) =
      or_raise (chunk_by_id chunks candidate.chunk_id) key_error >>= λ chunk.
      verify_batch plan chunk (candidate ∷ batch) critic_reports (answer (candidate ∷ batch)).0
        (answer (candidate ∷ batch)).1

  -- `answer` is what the language model gives for a batch: its verdicts and the id of the call.
  unfoldable pub verify_candidates :
      ExtractionPlan
      → List Chunk
      → List LensCandidate
      → List CriticReport
      → ℕ
      → (List LensCandidate → List VerifierVerdict × Text)
      → Result VerifierTaskResult
  unfolding validate_verifier_inputs partition_into_batches map_result verify_answered
  verify_candidates plan chunks [] critic_reports batch_size answer = ok no_result
  verify_candidates plan chunks (candidate ∷ candidates) critic_reports batch_size answer = do
    reports ← validate_verifier_inputs plan chunks (candidate ∷ candidates) critic_reports
    batches ← partition_into_batches (candidate ∷ candidates) batch_size
    results ← map_result (verify_answered plan chunks reports answer) batches
    ok (all_results results)
