-- ===== src/Executor/Policies.antt =====
-- The rules that a candidate is held to (src/extractor/executor/policies.py).
pub mod Provenance
use veritext.Prelude.{
  ℕ, ◌-◌, Text, Bool, true, false, ◌&&◌, ◌||◌, not, Option, none, some, List, [], ◌∷◌, ◌++◌, map,
  slice, ltb, ◌==◌, nat_eq, list_eq, list_beq, contains, encode, codes, if◌then◌else◌,
}
use veritext.Contracts.Spans.{Chunk, SourceSpan}
use veritext.Contracts.Candidates.{
  CategoryDefinition, ExtractionPlan, FieldDefinition, LensCandidate, RejectionReason,
  RejectionReasonCode,
}

-- `approved_category_fields(plan).get(name)`; of equal names the last category counts.
unfoldable pub category_fields : List CategoryDefinition → Text → Option (List Text)
category_fields [] name = none
category_fields (category ∷ categories) name = elim (category_fields categories name) [
  | some fields ↦ some fields
  | none ↦ if list_beq category.name name then some (map (λ f. f.name) category.fields) else none
]

unfoldable pub approved_category_fields : ExtractionPlan → Text → Option (List Text)
unfolding category_fields
approved_category_fields plan = category_fields plan.approved_categories

unfoldable pub span_matches_chunk : SourceSpan → Chunk → Bool
unfolding list_beq encode
span_matches_chunk span chunk =
    let matches =
      list_beq
        (slice chunk.text (span.start_char - chunk.start_char) (span.end_char - chunk.start_char))
        span.text
      && list_beq
          (slice (encode chunk.text) (span.start_byte - chunk.start_byte)
            (span.end_byte - chunk.start_byte))
          (encode span.text) in
    if ltb span.start_char chunk.start_char || ltb chunk.end_char span.end_char
    then false
    else if ltb span.start_byte chunk.start_byte || ltb chunk.end_byte span.end_byte
    then false
    else matches

-- The reason that the category and the field give, where they are not approved.
unfoldable pub schema_reasons : LensCandidate → Option (List Text) → List RejectionReason
unfolding contains
schema_reasons candidate none =
    record {
      code = RejectionReasonCode.category_not_approved;
      message = codes "Category is not approved for this extraction plan: " ++ candidate.category;
    }
    ∷ []
schema_reasons candidate (some fields) =
    if contains fields candidate.field_name
    then []
    else record {
      code = RejectionReasonCode.schema_violation;
      message =
          codes "Field "
          ++ (candidate.field_name
              ++ (codes " is not approved for category " ++ candidate.category));
    }
      ∷ []

-- `approved` is what `category_fields.get` stands for.
unfoldable pub candidate_rejection_reasons :
    LensCandidate → Chunk → (Text → Option (List Text)) → List RejectionReason
unfolding span_matches_chunk schema_reasons
candidate_rejection_reasons candidate chunk approved =
    schema_reasons candidate (approved candidate.category)
    ++ (if span_matches_chunk candidate.source_span chunk
        then []
        else record {
          code = RejectionReasonCode.invented_span;
          message =
              codes "Candidate source span does not match the chunk text at the provided offsets.";
        }
          ∷ [])
