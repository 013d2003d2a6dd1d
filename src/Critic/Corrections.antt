-- ===== src/Critic/Corrections.antt =====
-- The corrections of the critic (src/extractor/critic/corrections.py and models.py, with
-- candidate_is_mechanically_valid of critic/checks.py). `casefold` is `str.casefold`, `describe`
-- is the text that the errors of a `ValidationError` are joined to.
pub mod Laws
use veritext.Prelude.{
  ℕ, ◌+◌, ◌-◌, Text, Bool, true, false, ◌&&◌, ◌||◌, not, Option, none, some, List, [], ◌∷◌, ◌++◌,
  length, take, slice, ltb, ◌==◌, nat_eq, list_eq, list_beq, byte_length, starts_with, join_texts,
  has_items, codes, decimal, if◌then◌else◌, Result, ok, err, Error, ◌>>=◌,
}
use veritext.Contracts.Spans.{Chunk, SourceSpan, validate_source_span}
use veritext.Contracts.Candidates.{
  ExtractionPlan, LensCandidate, RejectionReason, RejectionReasonCode, validate_lens_candidate,
}
use veritext.Contracts.Equality.{code_eq, lens_eq}
use veritext.Executor.Policies.{span_matches_chunk}
use veritext.SourceSupport.Tokens.{is_part_of, tokens}
use veritext.SourceSupport.Values.{is_label_field, value_is_source_supported}
use veritext.SourceSupport.Ranks.{contains_phrase, qualifier_phrases}
use veritext.SourceSupport.Backing.{correction_expands_source_span}
use veritext.Verifier.Policies.{candidate_schema_approved}

pub record CompactCorrection : Type 0 where
  pub value : Option Text
  pub category : Option Text
  pub field_name : Option Text
  pub span_start_char : Option ℕ
  pub span_text : Option Text

-- `value if value is not None else other`
abbrev pub or_else {ℓ} : {A : Type ℓ} → Option A → A → A
or_else none other = other
or_else (some a) other = a

violation : Text → RejectionReason
violation message = record { code = RejectionReasonCode.schema_violation; message = message }

invented : Text → RejectionReason
invented message = record { code = RejectionReasonCode.invented_span; message = message }

-- The span of the correction, with the bytes derived from the chunk.
corrected_span : LensCandidate → Chunk → ℕ → Text → SourceSpan
corrected_span original chunk span_start_char span_text =
    let relative_start = span_start_char - chunk.start_char in
    let start_byte = chunk.start_byte + byte_length (take relative_start chunk.text) in
    record {
      doc_id = original.doc_id;
      chunk_id = original.chunk_id;
      start_char = span_start_char;
      end_char = span_start_char + length span_text;
      start_byte = start_byte;
      end_byte = start_byte + byte_length span_text;
      text = span_text;
    }

-- `candidate_dict`
pub candidate_dict : CompactCorrection → LensCandidate → SourceSpan → LensCandidate
candidate_dict raw original span = record original {
  value = or_else raw.value original.value;
  category = or_else raw.category original.category;
  field_name = or_else raw.field_name original.field_name;
  source_span = span;
}

-- `LensCandidate.model_validate(candidate_dict)`
pub model_validate : LensCandidate → Result LensCandidate
unfolding validate_source_span validate_lens_candidate
model_validate candidate = do
  span ← validate_source_span candidate.source_span
  validate_lens_candidate candidate

module _ (describe : Error → Text) where
  -- The `try` statement.
  made_or_reasons : Result LensCandidate → Option LensCandidate × List RejectionReason
  unfolding invented
  made_or_reasons (ok candidate) = (some candidate, [])
  made_or_reasons (err raised) =
      (none, invented (codes "Corrected candidate violated invariants: " ++ describe raised) ∷ [])

  unfoldable pub materialize_correction :
      Option CompactCorrection → LensCandidate → Chunk → Option LensCandidate × List RejectionReason
  unfolding violation invented corrected_span candidate_dict model_validate made_or_reasons list_beq
      decimal
  materialize_correction none original chunk =
      (none, violation (codes "Corrected critic verdict must include a correction payload.") ∷ [])
  materialize_correction (some raw) original chunk =
      let span_start_char = or_else raw.span_start_char original.source_span.start_char in
      let span_text = or_else raw.span_text original.source_span.text in
      let relative_start = span_start_char - chunk.start_char in
      let relative_end = relative_start + length span_text in
      let made = made_or_reasons (
        model_validate (
          candidate_dict raw original (corrected_span original chunk span_start_char span_text))) in
      if ltb span_start_char chunk.start_char
        || ltb (length chunk.text) relative_end
        || not (list_beq (slice chunk.text relative_start relative_end) span_text)
      then (
        none,
        invented (
              codes "Corrected candidate span_text does not match the chunk slice at start_char "
              ++ (decimal span_start_char ++ codes "."))
            ∷ [],
      )
      else made

-- `if c: reasons.append(reason)`
abbrev pub reason_if : Bool → RejectionReason → List RejectionReason
reason_if true reason = reason ∷ []
reason_if false reason = []

meaningful_value_qualifier_phrases : List (List Text)
unfolding qualifier_phrases
meaningful_value_qualifier_phrases = qualifier_phrases ++ ((codes "subject" ∷ codes "to" ∷ []) ∷ [])

-- The loop of `_lost_source_qualifier`.
lost_phrase : List (List Text) → List Text → List Text → Option Text
unfolding contains_phrase join_texts
lost_phrase [] span_tokens value_tokens = none
lost_phrase (phrase ∷ phrases) span_tokens value_tokens =
    let rest = lost_phrase phrases span_tokens value_tokens in
    if contains_phrase span_tokens phrase && not (contains_phrase value_tokens phrase)
    then some (join_texts (codes " ") phrase)
    else rest

module _ (casefold : Text → Text) where
  lost_source_qualifier : LensCandidate → LensCandidate → Option Text
  unfolding list_beq tokens lost_phrase meaningful_value_qualifier_phrases
  lost_source_qualifier original corrected =
      let lost =
        lost_phrase meaningful_value_qualifier_phrases (tokens casefold corrected.source_span.text)
          (tokens casefold corrected.value) in
      if list_beq corrected.value original.value then none else lost

  -- The last reason; the repr of a phrase, which has letters and spaces only, is in quotes.
  qualifier_reasons : Option Text → List RejectionReason
  unfolding violation
  qualifier_reasons none = []
  qualifier_reasons (some phrase) =
      violation (
        codes "Corrected candidate value drops source qualifier '"
        ++ (phrase ++ codes "' while keeping it in the source span."))
      ∷ []

  -- The reasons for a correction that there is.
  unfoldable pub correction_rejection_reasons :
      ExtractionPlan → Chunk → LensCandidate → LensCandidate → List RejectionReason
  unfolding list_beq violation invented candidate_schema_approved span_matches_chunk
      correction_expands_source_span is_label_field value_is_source_supported lost_source_qualifier
      qualifier_reasons
  correction_rejection_reasons plan chunk original corrected =
      reason_if (not (list_beq corrected.candidate_id original.candidate_id))
        (violation (codes "Corrected candidate must preserve candidate_id."))
      ++ (reason_if (not (list_beq corrected.run_id original.run_id))
            (violation (codes "Corrected candidate must preserve run_id."))
          ++ (reason_if (not (list_beq corrected.doc_id original.doc_id))
                (violation (codes "Corrected candidate must preserve doc_id."))
              ++ (reason_if (not (list_beq corrected.chunk_id original.chunk_id))
                    (violation (codes "Corrected candidate must preserve chunk_id."))
                  ++ (reason_if (not (corrected.lens == original.lens))
                        (violation (codes "Corrected candidate must preserve lens."))
                      ++ (reason_if
                            (not (list_beq corrected.executor_call_id original.executor_call_id))
                            (violation
                              (codes "Corrected candidate must preserve executor_call_id."))
                          ++ (reason_if (not (candidate_schema_approved plan corrected)) (
                                violation (
                                  codes
                                    "Corrected candidate category and field must be approved by the plan."))
                              ++ (reason_if (not (span_matches_chunk corrected.source_span chunk)) (
                                    invented (
                                      codes
                                        "Corrected candidate source span must match the chunk text at its offsets."))
                                  ++ (reason_if (correction_expands_source_span original corrected)
                                        (violation (
                                          codes
                                            "Corrected candidate source span may narrow the executor span but must not expand beyond it."))
                                      ++ (reason_if
                                            (not (is_label_field corrected.field_name)
                                              && not (value_is_source_supported casefold corrected))
                                            (invented (
                                              codes
                                                "Corrected candidate value adds words or units that are not grounded in the corrected source span."))
                                          ++ qualifier_reasons
                                              (lost_source_qualifier original corrected))))))))))

  unfoldable pub candidate_is_mechanically_valid : ExtractionPlan → Chunk → LensCandidate → Bool
  unfolding candidate_schema_approved span_matches_chunk value_is_source_supported
  candidate_is_mechanically_valid plan chunk candidate =
      candidate_schema_approved plan candidate
      && span_matches_chunk candidate.source_span chunk
      && value_is_source_supported casefold candidate

  correction_changes_schema_slot : LensCandidate → LensCandidate → Bool
  unfolding list_beq
  correction_changes_schema_slot original corrected =
      not (list_beq corrected.category original.category)
      || not (list_beq corrected.field_name original.field_name)

  only_expanded_span_rejection : List RejectionReason → Bool
  unfolding is_part_of
  only_expanded_span_rejection (reason ∷ []) =
      is_part_of (codes "must not expand beyond it") reason.message
  only_expanded_span_rejection _ = false

  is_structural_materialization_rejection : RejectionReason → Bool
  unfolding starts_with
  is_structural_materialization_rejection reason =
      reason.code == RejectionReasonCode.invented_span
      && (starts_with reason.message (codes "Corrected candidate span_text does not match")
          || starts_with reason.message (codes "Corrected candidate violated invariants"))

  all_structural : List RejectionReason → Bool
  unfolding is_structural_materialization_rejection
  all_structural [] = true
  all_structural (reason ∷ reasons) =
      is_structural_materialization_rejection reason && all_structural reasons

  -- The branch on the correction.
  preserve_by : Option LensCandidate → LensCandidate → List RejectionReason → Bool
  unfolding correction_changes_schema_slot only_expanded_span_rejection all_structural
  preserve_by (some corrected) original reasons =
      correction_changes_schema_slot original corrected || only_expanded_span_rejection reasons
  preserve_by none original reasons = has_items reasons && all_structural reasons

  unfoldable pub should_preserve_original_for_correction :
      ExtractionPlan → Chunk → LensCandidate → Option LensCandidate → List RejectionReason → Bool
  unfolding candidate_is_mechanically_valid preserve_by
  should_preserve_original_for_correction plan chunk original corrected reasons =
      let preserved = preserve_by corrected original reasons in
      if not (candidate_is_mechanically_valid plan chunk original) then false else preserved
