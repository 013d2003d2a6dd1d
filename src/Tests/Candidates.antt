-- ===== src/Tests/Candidates.antt =====
-- Runs on candidates.
use veritext.Prelude.{◌∷◌, [], All, ◌≡◌, ◌≢◌, ◌↔◌, refl, true, false, [], codes, ok, arith}
use veritext.Contracts.Candidates.{
  LensCandidate, LensName, NormalizationStatus, has_text, validate_lens_candidate,
}
use veritext.Contracts.Candidates.Laws.{ValueFrom, validate_lens_candidate-ValueFrom}
use veritext.Executor.Policies.{
  approved_category_fields, candidate_rejection_reasons, span_matches_chunk,
}
use veritext.Executor.Policies.Provenance.{IsApproved, Matches, candidate_rejection_reasons-empty}
use veritext.Executor.Materialization.{build_candidate}
use veritext.Executor.Materialization.Laws.{
  TakesTexts, build_candidate-blank, build_candidate-matches,
}
use veritext.Executor.Materialization.Offsets.{IsSource}
use veritext.Executor.Validation.{validate_executor_inputs, without_chunks}
use veritext.Executor.Validation.Laws.{HasBudget, validate_executor_inputs_iff}
use veritext.Tests.Data.{same_text, page, amount_span, plan, candidate, payload}
use veritext.Tests.Documents.{page-IsChunk}

candidate_valid : validate_lens_candidate (candidate (codes "a")) ≡ ok (candidate (codes "a"))
unfolding validate_lens_candidate
candidate_valid = refl

validate_lens_candidate-ValueFrom_example :
    (candidate (codes "a") ≡ candidate (codes "a"))
    × (amount_span.doc_id ≡ codes "d")
    × (amount_span.chunk_id ≡ codes "k0")
    × ValueFrom NormalizationStatus.verbatim_only (candidate (codes "a"))
validate_lens_candidate-ValueFrom_example =
    validate_lens_candidate-ValueFrom (candidate (codes "a")) candidate_valid

candidate_rejection_reasons-empty_example :
    (candidate_rejection_reasons (candidate (codes "a")) page (approved_category_fields plan) ≡ [])
    ↔ (IsApproved (candidate (codes "a")) (approved_category_fields plan (codes "Lease"))
        × Matches amount_span page)
candidate_rejection_reasons-empty_example =
    candidate_rejection_reasons-empty (candidate (codes "a")) page (approved_category_fields plan)

amount-IsSource : IsSource page 5 (codes "5")
amount-IsSource = record {
  first = omega arith;
  inside = omega arith;
  text_lem = refl;
  nonempty = omega arith;
}

payload_texts : TakesTexts same_text plan LensName.number page payload 5 (codes "5") 0 (codes "e")
unfolding has_text
payload_texts = (refl, (refl, (refl, (refl, (refl, (refl, (refl, (refl, tt))))))))

build_candidate-matches_example :
    (made : LensCandidate) × (build_candidate same_text plan LensName.number page payload 5
        (codes "5")
        0
        (codes "e")
      ≡ ok made)
    × (span_matches_chunk made.source_span page ≡ true)
    × (made.value ≡ codes "five")
    × (made.source_span.text ≡ codes "5")
build_candidate-matches_example =
    build_candidate-matches same_text plan LensName.number page payload 5 (codes "5") 0 (codes "e")
      page-IsChunk amount-IsSource payload_texts

space_blank : has_text (codes " ") ≡ false
unfolding has_text
space_blank = refl

build_candidate-blank_example :
    build_candidate same_text plan LensName.number page payload 4 (codes " ") 0 (codes "e")
    ≢ ok (candidate (codes "a"))
build_candidate-blank_example =
    build_candidate-blank same_text plan LensName.number page payload 4 (codes " ") 0 (codes "e")
      (candidate (codes "a")) space_blank

validate_executor_inputs_iff_example : (validate_executor_inputs plan (page ∷ []) ≡ ok tt) ↔ (
    (without_chunks (page ∷ []) ≡ false)
    × All (λ chunk. chunk.doc_id ≡ codes "d") (page ∷ [])
    × All (HasBudget plan 1) plan.enabled_lenses)
validate_executor_inputs_iff_example = validate_executor_inputs_iff plan (page ∷ [])
