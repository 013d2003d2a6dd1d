-- ===== src/Executor/Materialization/Laws.antt =====
-- A candidate that is made from a slice of its chunk is accepted by its contract.
use veritext.Prelude.{
  ℕ, ◌≡◌, refl, sym, ap, ◌∙◌, inl, inr, Text, Bool, true, false, not, some, [], ◌∷◌, list_eq,
  nat_eq, option_eq, All, list_beq, list_beq_iff, Bool-cases, ok, check_all, >>=-eq-ok,
  raise_if-eq-ok, ◌≢◌,
}
use veritext.Contracts.Spans.{Chunk, validate_source_span}
use veritext.Contracts.Spans.Laws.{IsChunk, IsSpan-validate_source_span}
use veritext.Contracts.Candidates.{
  ExtractionPlan, LensCandidate, LensName, has_text, require_text, require_optional,
  validate_lens_candidate, validate_normalization_metadata, validate_texts,
}
use veritext.Executor.Policies.{span_matches_chunk}
use veritext.Executor.Policies.Provenance.{span_matches_chunk-Matches}
use veritext.Executor.Materialization.{
  ExtractedCandidatePayload, bare_candidate, build_candidate, candidate_span, raw_candidate,
  stable_candidate_id, with_normalization_metadata,
}
use veritext.Executor.Materialization.Offsets.{IsSource, candidate_span-IsSpan}
use veritext.Executor.Materialization.Contract.{
  HasText, validate_texts_lem, policy_id-HasText, version-HasText, validate_lens_candidate_lem,
  with_normalization_metadata_lem,
}

module _ (sha256 : Text → Text) (plan : ExtractionPlan) (lens : LensName) (chunk : Chunk)
    (payload : ExtractedCandidatePayload) (start_char : ℕ) (source_text : Text)
    (candidate_index : ℕ) (call_id : Text) where
  candidate_id-HasText :
      HasText
        (stable_candidate_id sha256 plan lens chunk payload start_char source_text candidate_index)
  unfolding stable_candidate_id has_text
  candidate_id-HasText = refl

  -- The texts that a candidate takes over have text.
  abbrev pub TakesTexts : Type 0
  TakesTexts = All HasText (
      plan.run_id ∷ plan.doc_id ∷ chunk.chunk_id ∷ payload.category ∷ payload.field_name
      ∷ payload.value ∷ call_id ∷ source_text ∷ [])

  abbrev made : LensCandidate
  made =
      raw_candidate sha256 plan lens chunk payload start_char source_text candidate_index call_id
        (candidate_span plan chunk start_char source_text)

  made_fields :
      (made.source_span ≡ candidate_span plan chunk start_char source_text)
      × (made.value ≡ payload.value)
  unfolding raw_candidate bare_candidate
  made_fields =
      with_normalization_metadata_lem
        (bare_candidate sha256 plan lens chunk payload start_char source_text candidate_index
          call_id (candidate_span plan chunk start_char source_text))
        payload.value source_text

  made-valid : TakesTexts → validate_lens_candidate made ≡ ok made
  unfolding raw_candidate bare_candidate with_normalization_metadata candidate_span
      validate_normalization_metadata
  made-valid (run, (doc, (id, (category, (field, (value, (call, (source, u)))))))) =
      elim (Bool-cases (list_beq payload.value source_text)) [
        | inl same ↦ rw same (
            validate_lens_candidate_lem _
              (validate_texts_lem _
                (candidate_id-HasText, (run, (doc, (id, (category, (field, (value, (call, tt))))))))
                source tt tt tt tt)
              refl refl (rw same refl))
        | inr other ↦ rw other (
            validate_lens_candidate_lem _
              (validate_texts_lem _
                (candidate_id-HasText, (run, (doc, (id, (category, (field, (value, (call, tt))))))))
                source value policy_id-HasText version-HasText tt)
              refl refl (rw ((list_beq_iff payload.value payload.value).1 refl) refl))
      ]

  -- A candidate is made from a slice of a chunk that lies within it, whenever the texts that it
  -- takes over have text: the construction raises nothing, and the span of the candidate has the
  -- chunk's text at its offsets, in characters and in bytes.
  pub build_candidate-matches :
      IsChunk chunk
      → IsSource chunk start_char source_text
      → TakesTexts
      → (candidate : LensCandidate) × (build_candidate sha256 plan lens chunk payload start_char
            source_text candidate_index call_id
          ≡ ok candidate)
        × (span_matches_chunk candidate.source_span chunk ≡ true)
        × (candidate.value ≡ payload.value)
        × (candidate.source_span.text ≡ source_text)
  unfolding build_candidate
  build_candidate-matches h s texts =
      let span = candidate_span plan chunk start_char source_text in
      let (valid, m) = candidate_span-IsSpan plan chunk start_char source_text h s in
      (
        made,
        rw (IsSpan-validate_source_span span valid) (made-valid texts),
        rw made_fields.0 ((span_matches_chunk-Matches span chunk).1 m),
        made_fields.1,
        ap (λ span. span.text) made_fields.0,
      )

validate_texts-verbatim :
    (c : LensCandidate) → validate_texts c ≡ ok tt → require_optional c.value_verbatim ≡ ok tt
unfolding validate_texts
validate_texts-verbatim c e =
    let (a, texts, more) =
      >>=-eq-ok
        (check_all require_text (
          c.candidate_id ∷ c.run_id ∷ c.doc_id ∷ c.chunk_id ∷ c.category ∷ c.field_name ∷ c.value
          ∷ c.executor_call_id ∷ []))
        _ e in
    let (b, verbatim, rest) = >>=-eq-ok (require_optional c.value_verbatim) _ more in verbatim

with_normalization_metadata-verbatim :
    (c : LensCandidate) (value source_text : Text)
    → (with_normalization_metadata c value source_text).value_verbatim ≡ some source_text
unfolding with_normalization_metadata
with_normalization_metadata-verbatim c value source_text =
    elim (Bool-cases (list_beq value source_text)) [
      | inl same ↦ rw same refl
      | inr other ↦ rw other refl
    ]

-- No candidate is made from a source text of white space alone: the construction raises,
-- whatever the other arguments are.
pub build_candidate-blank :
    (sha256 : Text → Text) (plan : ExtractionPlan) (lens : LensName) (chunk : Chunk)
    (payload : ExtractedCandidatePayload) (start_char : ℕ) (source_text : Text)
    (candidate_index : ℕ) (call_id : Text) (candidate : LensCandidate)
    → has_text source_text ≡ false
    → build_candidate sha256 plan lens chunk payload start_char source_text candidate_index call_id
      ≢ ok candidate
unfolding build_candidate validate_lens_candidate raw_candidate require_text
build_candidate-blank sha256 plan lens chunk payload start_char source_text candidate_index call_id
      candidate blank e =
    let (span, valid, more) =
      >>=-eq-ok (validate_source_span (candidate_span plan chunk start_char source_text)) _ e in
    let bare =
      bare_candidate sha256 plan lens chunk payload start_char source_text candidate_index call_id
        span in
    let raw = with_normalization_metadata bare payload.value source_text in
    let (a, texts, rest) = >>=-eq-ok (validate_texts raw) _ more in
    let passed : require_optional (some source_text) ≡ ok tt =
      ap require_optional
        (sym (with_normalization_metadata-verbatim bare payload.value source_text))
      ∙ validate_texts-verbatim raw texts in
    contradiction (has_text source_text) blank
      (raise_if-eq-ok (not (has_text source_text)) _ passed)
  where
    contradiction : (b : Bool) → b ≡ false → not b ≡ false → ⊥
    contradiction true e f = cc
    contradiction false e f = cc
