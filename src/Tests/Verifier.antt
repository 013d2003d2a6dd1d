-- ===== src/Tests/Verifier.antt =====
-- Runs of the verifier and of the tests of source support.
use veritext.Prelude.{
  ◌⊎◌, ◌≡◌, ◌↔◌, refl, true, false, not, has_items, has_duplicates, if◌then◌else◌, [], ◌∷◌, none,
  some, map, keep_if, codes, ok, err, arith, All, contains, encode, nat_eq, list_eq,
  validation_error,
}
use veritext.Contracts.Candidates.{RejectionReason, RejectionReasonCode, has_text}
use veritext.Contracts.Equality.{reason_eq}
use veritext.Contracts.Reports.{VerifierReport, confidence_one}
use veritext.SourceSupport.Tokens.{collapse_whitespace, canonical_token}
use veritext.SourceSupport.Values.{value_is_source_supported}
use veritext.SourceSupport.Values.Laws.{IsTraced, value_is_source_supported_iff}
use veritext.SourceSupport.Tokens.Parts.{StandsIn}
use veritext.SourceSupport.Backing.{require_source_backed_span, source_span_is_source_backed}
use veritext.SourceSupport.Backing.Laws.{
  Backed, require_source_backed_span-Backed, source_span_is_source_backed_iff,
}
use veritext.SourceSupport.Ranks.{min_source_rank}
use veritext.Verifier.Policies.{
  build_verifier_report, deterministic_rejection_reasons, merged_rejection_reasons, report_on,
}
use veritext.Verifier.Verdicts.{VerifierDecision, VerifierVerdict, validate_verifier_verdict}
use veritext.Verifier.Policies.Laws.{Grounded, merged_rejection_reasons-members}
use veritext.Verifier.Policies.Objections.{Objects}
use veritext.Verifier.Policies.Acceptance.{
  build_verifier_report-accepted, build_verifier_report-reasons,
}
use veritext.Verifier.Policies.Refusals.{build_verifier_report-blank}
use veritext.Verifier.Validation.{validate_verifier_inputs}
use veritext.Verifier.Validation.Laws.{Reviewed, validate_verifier_inputs-Reviewed}
use veritext.Verifier.Batch.{VerifierTaskResult, verify_batch, verify_candidates}
use veritext.Verifier.Batch.Accounts.{Accounts}
use veritext.Verifier.Batch.Laws.{
  HasVerdict, InChunk, verify_batch-Accounts, verify_candidates-Accounts,
}
use veritext.Tests.Data.{
  amount_span, candidate, critic_report, letter, listed, page, plan, same_text,
}

canonical_tokens :
    map canonical_token (codes "acquired" ∷ codes "started" ∷ codes "shipments" ∷ codes "is" ∷ [])
    ≡ codes "acquis" ∷ codes "commenc" ∷ codes "ship" ∷ codes "is" ∷ []
unfolding canonical_token
canonical_tokens = refl

collapsed : collapse_whitespace (codes "  two \n words ") ≡ codes "two words"
unfolding collapse_whitespace
collapsed = refl

value_is_source_supported_iff_example : (value_is_source_supported same_text listed ≡ true) ↔ (
    StandsIn (collapse_whitespace (codes "5")) (collapse_whitespace (codes "5"))
    ⊎ IsTraced same_text (collapse_whitespace (codes "5")) (collapse_whitespace (codes "5")))
value_is_source_supported_iff_example = value_is_source_supported_iff same_text (λ t. refl) listed

backed : require_source_backed_span letter amount_span ≡ ok tt
unfolding require_source_backed_span encode
backed = refl

require_source_backed_span-Backed_example : Backed letter amount_span
require_source_backed_span-Backed_example =
    require_source_backed_span-Backed letter amount_span backed

source_span_is_source_backed_iff_example :
    (source_span_is_source_backed letter amount_span ≡ true)
    ↔ (require_source_backed_span letter amount_span ≡ ok tt)
source_span_is_source_backed_iff_example = source_span_is_source_backed_iff letter amount_span

first_of_two :
    min_source_rank same_text (candidate (codes "b")) (candidate (codes "a") ∷ [])
    ≡ candidate (codes "a")
unfolding min_source_rank
first_of_two = refl

abbrev accepting : VerifierVerdict
accepting = record {
  id = codes "0123456789ab";
  decision = VerifierDecision.accept;
  code = none;
  evidence = none;
}

abbrev doubting : VerifierVerdict
doubting = record {
  id = codes "0123456789ab";
  decision = VerifierDecision.reject;
  code = some RejectionReasonCode.verifier_rejected;
  evidence = some (codes " ");
}

abbrev accepted_report : VerifierReport
accepted_report = report_on same_text same_text plan listed (codes "call") []

report_run :
    build_verifier_report same_text same_text plan page listed accepting (codes "call")
    ≡ ok accepted_report
unfolding build_verifier_report report_on
report_run = refl

build_verifier_report-accepted_example :
    (accepted_report.accepted ≡ true)
    ↔ (Grounded same_text plan page listed × (Objects same_text plan page listed accepting → ⊥))
build_verifier_report-accepted_example =
    build_verifier_report-accepted same_text same_text plan page listed accepting (codes "call")
      report_run

build_verifier_report-reasons_example :
    (accepted_report.accepted ≡ not (has_items accepted_report.rejection_reasons))
    × (accepted_report.alignment_score ≡ (if accepted_report.accepted then confidence_one else 0))
    × All
        (λ r. contains accepted_report.rejection_reasons r ≡ true)
        (deterministic_rejection_reasons same_text same_text plan page listed)
build_verifier_report-reasons_example =
    build_verifier_report-reasons same_text same_text plan page listed accepting (codes "call")
      report_run

doubting_valid : validate_verifier_verdict doubting ≡ ok doubting
unfolding validate_verifier_verdict
doubting_valid = refl

blank : has_text (codes " ") ≡ false
unfolding has_text
blank = refl

build_verifier_report-blank_example :
    build_verifier_report same_text same_text plan page listed doubting (codes "call")
    ≡ err (validation_error (codes "String should match pattern '.*\\S.*'"))
build_verifier_report-blank_example =
    build_verifier_report-blank same_text same_text plan page listed doubting (codes "call") 32 []
      doubting_valid refl refl blank

abbrev one_reason : RejectionReason
one_reason = record { code = RejectionReasonCode.verifier_rejected; message = codes "x" }

merged_rejection_reasons-members_example :
    ((r : RejectionReason)
      → contains (merged_rejection_reasons (one_reason ∷ one_reason ∷ [])) r
        ≡ contains (one_reason ∷ one_reason ∷ []) r)
    × (has_duplicates (merged_rejection_reasons (one_reason ∷ one_reason ∷ [])) ≡ false)
merged_rejection_reasons-members_example =
    merged_rejection_reasons-members (one_reason ∷ one_reason ∷ [])

inputs_run :
    validate_verifier_inputs plan (page ∷ []) (listed ∷ []) (critic_report ∷ [])
    ≡ ok (critic_report ∷ [])
unfolding validate_verifier_inputs
inputs_run = refl

validate_verifier_inputs-Reviewed_example :
    (critic_report ∷ [] ≡ keep_if (λ r. r.accepted) (critic_report ∷ []))
    × (has_duplicates (map (λ r. r.candidate_id) (critic_report ∷ [])) ≡ false)
    × All (Reviewed plan (page ∷ []) (critic_report ∷ [])) (listed ∷ [])
validate_verifier_inputs-Reviewed_example =
    validate_verifier_inputs-Reviewed plan (page ∷ []) (listed ∷ []) (critic_report ∷ []) inputs_run

abbrev accepted_result : VerifierTaskResult
accepted_result = record {
  accepted_candidates = listed ∷ [];
  rejected_candidates = [];
  reports = accepted_report ∷ [];
  rejections = [];
}

batch_run :
    verify_batch same_text same_text same_text plan page
      (listed ∷ [])
      (critic_report ∷ [])
      (accepting ∷ [])
      (codes "call")
    ≡ ok accepted_result
unfolding verify_batch report_on
batch_run = refl

verify_batch-Accounts_example :
    All (HasVerdict same_text same_text same_text (accepting ∷ [])) (listed ∷ [])
    × Accounts (Grounded same_text plan page) (listed ∷ []) accepted_result
verify_batch-Accounts_example =
    verify_batch-Accounts same_text same_text same_text plan page (listed ∷ []) (critic_report ∷ [])
      (accepting ∷ []) (codes "call") batch_run

verify_run :
    verify_candidates same_text same_text same_text plan
      (page ∷ [])
      (listed ∷ [])
      (critic_report ∷ [])
      4
      (λ batch. (accepting ∷ [], codes "call"))
    ≡ ok accepted_result
unfolding verify_candidates report_on
verify_run = refl

verify_candidates-Accounts_example :
    Accounts (InChunk same_text same_text same_text plan (page ∷ [])) (listed ∷ []) accepted_result
verify_candidates-Accounts_example =
    verify_candidates-Accounts same_text same_text same_text plan (page ∷ []) (listed ∷ [])
      (critic_report ∷ []) 4 (λ batch. (accepting ∷ [], codes "call")) (omega arith) verify_run
