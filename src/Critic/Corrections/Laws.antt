-- ===== src/Critic/Corrections/Laws.antt =====
-- What a correction may change.
use veritext.Prelude.{
  ◌≡◌, ◌≢◌, ◌≤◌, refl, sym, ap, ◌∙◌, inl, inr, ◌⊎◌, Text, Bool, true, false, ◌&&◌, ◌||◌, not,
  Option, none, some, List, [], ◌∷◌, ◌++◌, ◌+◌, ◌-◌, ltb, slice, length, list_beq, list_beq_iff,
  nat_eq, list_eq, arith, Bool-cases, Result, ok, err, Error, >>=-eq-ok, not-false, ◌==◌,
}
use veritext.Contracts.Spans.{Chunk, SourceSpan, validate_source_span}
use veritext.Contracts.Candidates.{
  ExtractionPlan, LensCandidate, NormalizationStatus, RejectionReason, validate_lens_candidate,
}
use veritext.Contracts.Candidates.Laws.{ValueFrom, validate_lens_candidate-ValueFrom}
use veritext.Critic.Corrections.{
  CompactCorrection, candidate_dict, corrected_span, made_or_reasons, materialize_correction,
  model_validate, or_else, correction_rejection_reasons, reason_if,
}
use mathlib.Core.Bool.{false≢true}
use veritext.Contracts.Equality.{lens_eq}
use veritext.Executor.Policies.{approved_category_fields, span_matches_chunk}
use veritext.Executor.Policies.Provenance.{IsApproved, span_matches_chunk-Matches}
use veritext.SourceSupport.Values.{is_label_field, value_is_source_supported}
use veritext.SourceSupport.Backing.{correction_expands_source_span}
use veritext.Verifier.Policies.{candidate_schema_approved, is_approved_in}
use veritext.Verifier.Policies.Laws.{Grounded}

-- A status that ties the value to the canonical or the verbatim value.
abbrev pub IsTied : NormalizationStatus → Type 0
IsTied NormalizationStatus.canonicalized = Unit
IsTied NormalizationStatus.verbatim_only = Unit
IsTied _ = ⊥

tied :
    (status : NormalizationStatus) (a b : LensCandidate)
    → IsTied status
    → a.value_canonical ≡ b.value_canonical
    → a.value_verbatim ≡ b.value_verbatim
    → ValueFrom status a
    → ValueFrom status b
    → a.value ≡ b.value
tied NormalizationStatus.canonicalized a b t c v x y = some-injective (sym x.0 ∙ c ∙ y.0)
  where
    some-injective : {s u : Text} → some s ≡ some u → s ≡ u
    some-injective h = cc
tied NormalizationStatus.verbatim_only a b t c v x y = some-injective (sym x.0 ∙ v ∙ y.0)
  where
    some-injective : {s u : Text} → some s ≡ some u → s ≡ u
    some-injective h = cc
tied NormalizationStatus.unsupported a b t c v x y = absurd t
tied NormalizationStatus.not_normalized a b t c v x y = absurd t

made_or_reasons-none :
    (describe : Error → Text) (r : Result LensCandidate)
    → ((c : LensCandidate) → r ≡ ok c → ⊥)
    → (made_or_reasons describe r).0 ≡ none
unfolding made_or_reasons
made_or_reasons-none describe (ok c) h = absurd (h c refl)
made_or_reasons-none describe (err e) h = refl

candidate_dict-raises :
    (raw : CompactCorrection) (original : LensCandidate) (span : SourceSpan) (value : Text)
    → validate_lens_candidate original ≡ ok original
    → IsTied original.normalization_status
    → raw.value ≡ some value
    → value ≢ original.value
    → (c : LensCandidate) → model_validate (candidate_dict raw original span) ≡ ok c
    → ⊥
unfolding model_validate candidate_dict
candidate_dict-raises raw original span value valid t given other c e =
    let dict : LensCandidate = candidate_dict raw original span in
    let (checked, first, rest) =
      >>=-eq-ok (validate_source_span span) (λ checked. validate_lens_candidate dict) e in
    let (a1, a2, a3, ours) = validate_lens_candidate-ValueFrom dict rest in
    let (b1, b2, b3, theirs) = validate_lens_candidate-ValueFrom original valid in
    let same : or_else raw.value original.value ≡ original.value =
      tied original.normalization_status dict original t refl refl ours theirs in
    other (ap (λ o. or_else o original.value) (sym given) ∙ same)

-- A candidate that its contract accepts and whose value is canonicalized or kept verbatim, as the
-- executor makes them, gets no correction of its value: whatever the chunk and the other fields
-- of the correction, a correction with another value makes no candidate.
pub materialize_correction-value :
    (describe : Error → Text) (raw : CompactCorrection) (original : LensCandidate) (chunk : Chunk)
    (value : Text)
    → validate_lens_candidate original ≡ ok original
    → IsTied original.normalization_status
    → raw.value ≡ some value
    → value ≢ original.value
    → (materialize_correction describe (some raw) original chunk).0 ≡ none
unfolding materialize_correction
materialize_correction-value describe raw original chunk value valid t given other =
    let span_start_char = or_else raw.span_start_char original.source_span.start_char in
    let span_text = or_else raw.span_text original.source_span.text in
    let start = span_start_char - chunk.start_char in
    let last = start + length span_text in
    let span = corrected_span original chunk span_start_char span_text in
    elim (Bool-cases (
      ltb span_start_char chunk.start_char
      || ltb (length chunk.text) last
      || not (list_beq (slice chunk.text start last) span_text))) [
        | inl elsewhere ↦ rw elsewhere refl
        | inr there ↦ rw there (
            made_or_reasons-none describe (model_validate (candidate_dict raw original span))
              (candidate_dict-raises raw original span value valid t given other))
      ]

-- A correction that keeps the identity of the candidate, is grounded in the chunk and does not
-- reach beyond the span of the candidate.
pub record Keeps (casefold : Text → Text) (plan : ExtractionPlan) (chunk : Chunk)
    (original corrected : LensCandidate) : Type 0 where
  pub candidate_id : corrected.candidate_id ≡ original.candidate_id
  pub run_id : corrected.run_id ≡ original.run_id
  pub doc_id : corrected.doc_id ≡ original.doc_id
  pub chunk_id : corrected.chunk_id ≡ original.chunk_id
  pub lens : corrected.lens ≡ original.lens
  pub executor_call_id : corrected.executor_call_id ≡ original.executor_call_id
  pub grounded : Grounded casefold plan chunk corrected
  pub start_char : original.source_span.start_char ≤ corrected.source_span.start_char
  pub end_char : corrected.source_span.end_char ≤ original.source_span.end_char
  pub start_byte : original.source_span.start_byte ≤ corrected.source_span.start_byte
  pub end_byte : corrected.source_span.end_byte ≤ original.source_span.end_byte

reason_if-append :
    (b : Bool) (reason : RejectionReason) (reasons : List RejectionReason)
    → reason_if b reason ++ reasons ≡ []
    → (b ≡ false) × (reasons ≡ [])
reason_if-append true reason reasons e = absurd (cons≢nil e)
  where
    cons≢nil : {A : Type 0} {a : A} {l : List A} → a ∷ l ≡ [] → ⊥
    cons≢nil h = cc
reason_if-append false reason reasons e = (refl, e)

equal : (s t : Text) → not (list_beq s t) ≡ false → s ≡ t
equal s t e = (list_beq_iff s t).0 (not-false e)

-- A correction that the critic finds no reason against keeps the ids, the lens and the call of
-- the candidate, is grounded in the chunk as the verifier asks for, and its span lies within that
-- of the candidate, in characters and in bytes.
pub correction_rejection_reasons-Keeps :
    (casefold : Text → Text) (plan : ExtractionPlan) (chunk : Chunk)
    (original corrected : LensCandidate)
    → correction_rejection_reasons casefold plan chunk original corrected ≡ []
    → Keeps casefold plan chunk original corrected
unfolding correction_rejection_reasons correction_expands_source_span candidate_schema_approved
    is_approved_in
correction_rejection_reasons-Keeps casefold plan chunk original corrected e =
    let (h1, r1) =
      reason_if-append (not (list_beq corrected.candidate_id original.candidate_id)) _ _ e in
    let (h2, r2) = reason_if-append (not (list_beq corrected.run_id original.run_id)) _ _ r1 in
    let (h3, r3) = reason_if-append (not (list_beq corrected.doc_id original.doc_id)) _ _ r2 in
    let (h4, r4) = reason_if-append (not (list_beq corrected.chunk_id original.chunk_id)) _ _ r3 in
    let (h5, r5) = reason_if-append (not (corrected.lens == original.lens)) _ _ r4 in
    let (h6, r6) =
      reason_if-append (not (list_beq corrected.executor_call_id original.executor_call_id)) _ _
        r5 in
    let (h7, r7) = reason_if-append (not (candidate_schema_approved plan corrected)) _ _ r6 in
    let (h8, r8) = reason_if-append (not (span_matches_chunk corrected.source_span chunk)) _ _ r7 in
    let (h9, r9) =
      reason_if-append
        (ltb corrected.source_span.start_char original.source_span.start_char
          || ltb original.source_span.end_char corrected.source_span.end_char
          || ltb corrected.source_span.start_byte original.source_span.start_byte
          || ltb original.source_span.end_byte corrected.source_span.end_byte)
        _ _ r8 in
    let (h10, r10) =
      reason_if-append
        (not (is_label_field corrected.field_name)
          && not (value_is_source_supported casefold corrected))
        _ _ r9 in
    record {
      candidate_id = equal corrected.candidate_id original.candidate_id h1;
      run_id = equal corrected.run_id original.run_id h2;
      doc_id = equal corrected.doc_id original.doc_id h3;
      chunk_id = equal corrected.chunk_id original.chunk_id h4;
      lens = (lens_eq.same_iff corrected.lens original.lens).0 (not-false h5);
      executor_call_id = equal corrected.executor_call_id original.executor_call_id h6;
      grounded = record {
        approved =
            approval (approved_category_fields plan corrected.category) corrected (not-false h7);
        matches = (span_matches_chunk-Matches corrected.source_span chunk).0 (not-false h8);
        supported =
            one_of (is_label_field corrected.field_name)
              (value_is_source_supported casefold corrected) h10;
      };
      start_char = ground (arith, h9);
      end_char = ground (arith, h9);
      start_byte = ground (arith, h9);
      end_byte = ground (arith, h9);
    }
  where
    one_of : (a b : Bool) → (not a && not b) ≡ false → (a ≡ true) ⊎ (b ≡ true)
    one_of true b h = inl refl
    one_of false true h = inr refl
    one_of false false h = cc

    approval :
        (o : Option (List Text)) (c : LensCandidate)
        → is_approved_in o c.field_name ≡ true
        → IsApproved c o
    approval none c h = absurd (false≢true h)
    approval (some fields) c h = (fields, refl, h)
