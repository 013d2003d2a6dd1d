-- ===== src/Verifier/Policies/Laws.antt =====
-- When the verifier accepts a candidate, and what its report keeps.
use veritext.Prelude.{
  ◌≡◌, refl, ◌∙◌, inl, inr, ◌⊎◌, ◌↔◌, Text, Bool, true, false, ◌&&◌, not, List, [], ◌∷◌, contains,
  arith, if◌then◌else◌, has_duplicates, contains-distinct_from, distinct_from-no_duplicates,
}
use veritext.Contracts.Spans.{Chunk}
use veritext.Contracts.Candidates.{ExtractionPlan, LensCandidate, RejectionReason}
use veritext.Contracts.Equality.{reason_eq}
use veritext.Executor.Policies.{approved_category_fields, schema_reasons, span_matches_chunk}
use veritext.Executor.Policies.Provenance.{
  IsApproved, Matches, append-empty, schema_reasons-empty, span_matches_chunk-Matches,
}
use veritext.SourceSupport.Values.{is_label_field, value_is_source_supported}
use veritext.Verifier.Policies.{
  deterministic_rejection_reasons, merged_rejection_reasons, span_reasons,
}

-- The reasons that are merged are those that were given, each of them once.
pub merged_rejection_reasons-members :
    (reasons : List RejectionReason)
    → ((r : RejectionReason) → contains (merged_rejection_reasons reasons) r ≡ contains reasons r)
      × (has_duplicates (merged_rejection_reasons reasons) ≡ false)
unfolding merged_rejection_reasons
merged_rejection_reasons-members reasons = (
  λ r. contains-distinct_from [] reasons r ∙ and_true_right (contains reasons r),
  distinct_from-no_duplicates [] reasons,
)
  where
    and_true_right : (b : Bool) → (b && true) ≡ b
    and_true_right b = ground arith

-- What the checks of the verifier ask for: an approved field of an approved category, a span
-- with the text of the chunk at its offsets, and, but for label fields, a supported value.
pub record Grounded (casefold : Text → Text) (plan : ExtractionPlan) (chunk : Chunk)
    (candidate : LensCandidate) : Type 0 where
  pub approved : IsApproved candidate (approved_category_fields plan candidate.category)
  pub matches : Matches candidate.source_span chunk
  pub supported :
      (is_label_field candidate.field_name ≡ true)
      ⊎ (value_is_source_supported casefold candidate ≡ true)

module _ (casefold sha256 : Text → Text) where
  span_reasons-empty :
      (candidate : LensCandidate) (chunk : Chunk)
      → (span_reasons casefold sha256 candidate chunk ≡ []) ↔ (
          Matches candidate.source_span chunk
          × ((is_label_field candidate.field_name ≡ true)
              ⊎ (value_is_source_supported casefold candidate ≡ true)))
  unfolding span_reasons
  span_reasons-empty candidate chunk =
      let m = span_matches_chunk-Matches candidate.source_span chunk in
      let c =
        branches (span_matches_chunk candidate.source_span chunk)
          (is_label_field candidate.field_name) (value_is_source_supported casefold candidate) _
          _ in
      (λ e. (m.0 (c.0 e).0, (c.0 e).1), λ (h, k). c.1 (m.1 h, k))
    where
      branches :
          (matches label supported : Bool) (x y : RejectionReason)
          → ((if not matches then x ∷ [] else if not label && not supported then y ∷ [] else [])
              ≡ [])
            ↔ ((matches ≡ true) × ((label ≡ true) ⊎ (supported ≡ true)))
      branches false label supported x y = (λ e. absurd cc, λ (h, k). absurd cc)
      branches true true supported x y = (λ e. (refl, inl refl), λ h. refl)
      branches true false true x y = (λ e. (refl, inr refl), λ h. refl)
      branches true false false x y =
          (λ e. absurd cc, λ (h, k). elim k [ inl l ↦ absurd cc | inr l ↦ absurd cc ])

  -- The checks raise no reason exactly when the candidate is grounded.
  pub deterministic_rejection_reasons-empty :
      (plan : ExtractionPlan) (chunk : Chunk) (candidate : LensCandidate)
      → (deterministic_rejection_reasons casefold sha256 plan chunk candidate ≡ [])
        ↔ Grounded casefold plan chunk candidate
  unfolding deterministic_rejection_reasons
  deterministic_rejection_reasons-empty plan chunk candidate =
      let approval = approved_category_fields plan candidate.category in
      let parts =
        append-empty (schema_reasons candidate approval)
          (span_reasons casefold sha256 candidate chunk) in
      let schema = schema_reasons-empty candidate approval in
      let span = span_reasons-empty candidate chunk in
      (
        λ e. record {
          approved = schema.0 (parts.0 e).0;
          matches = (span.0 (parts.0 e).1).0;
          supported = (span.0 (parts.0 e).1).1;
        },
        λ g. parts.1 (schema.1 g.approved, span.1 (g.matches, g.supported)),
      )
