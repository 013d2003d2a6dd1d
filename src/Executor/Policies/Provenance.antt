-- ===== src/Executor/Policies/Provenance.antt =====
-- The rules keep the link from a candidate to the text of its document.
use veritext.Prelude.{
  ℕ, ◌+◌, ◌-◌, ◌≤◌, ◌≡◌, refl, sym, ap, ◌∙◌, inl, inr, ◌↔◌, Text, Bool, true, false, Option, none,
  some, List, [], ◌∷◌, ◌++◌, slice, take, arith, list_beq_iff, nat_eq, list_eq, encode-slice,
  contains, encode, byte_length, slice-slice, Bool-cases, if◌then◌else◌,
}
use veritext.Contracts.Documents.{Document}
use veritext.Contracts.Spans.{Chunk, SourceSpan}
use veritext.Contracts.Spans.Laws.{IsSpan}
use veritext.Contracts.Candidates.{LensCandidate}
use veritext.Chunker.Windows.Coverage.{IsSlice}
use veritext.Executor.Policies.{candidate_rejection_reasons, schema_reasons, span_matches_chunk}

-- A span that lies within a chunk and has the chunk's text at its offsets.
pub record Matches (span : SourceSpan) (chunk : Chunk) : Type 0 where
  pub start_char : chunk.start_char ≤ span.start_char
  pub end_char : span.end_char ≤ chunk.end_char
  pub start_byte : chunk.start_byte ≤ span.start_byte
  pub end_byte : span.end_byte ≤ chunk.end_byte
  pub chars :
      slice chunk.text (span.start_char - chunk.start_char) (span.end_char - chunk.start_char)
      ≡ span.text
  pub bytes :
      slice
        (encode chunk.text)
        (span.start_byte - chunk.start_byte)
        (span.end_byte - chunk.start_byte)
      ≡ encode span.text

-- The check of a span, and what it means.
pub span_matches_chunk-Matches :
    (span : SourceSpan) (chunk : Chunk)
    → (span_matches_chunk span chunk ≡ true) ↔ Matches span chunk
unfolding span_matches_chunk
span_matches_chunk-Matches span chunk =
    let c =
      list_beq_iff
        (slice chunk.text (span.start_char - chunk.start_char) (span.end_char - chunk.start_char))
        span.text in
    let b =
      list_beq_iff
        (slice (encode chunk.text) (span.start_byte - chunk.start_byte)
          (span.end_byte - chunk.start_byte))
        (encode span.text) in
    (
      λ e. record {
        start_char = ground arith;
        end_char = ground arith;
        start_byte = ground arith;
        end_byte = ground arith;
        chars = c.0 (ground arith);
        bytes = b.0 (ground arith);
      },
      λ m.
          let x = m.start_char in
          let y = m.end_char in
          let z = m.start_byte in
          let w = m.end_byte in let p = c.1 m.chars in let q = b.1 m.bytes in ground arith,
    )

slice-in_slice :
    {A : Type 0} (xs : List A) (a b i j : ℕ)
    → a ≤ i
    → i ≤ j
    → j ≤ b
    → slice (slice xs a b) (i - a) (j - a) ≡ slice xs i j
slice-in_slice xs a b i j p q r =
    slice-slice xs a b (i - a) (j - a) (omega arith)
    ∙ ap (λ n. slice xs n (a + (j - a))) (back a i p)
    ∙ ap (λ n. slice xs i n) (back a j (omega arith))
  where
    back : (a i : ℕ) → a ≤ i → a + (i - a) ≡ i
    back a i p = omega arith

-- A span that matches a chunk of a document is a span of the document itself: its text is the
-- slice of the document's text at its character offsets, and the UTF-8 bytes of its text are the
-- slice of the document's bytes at its byte offsets. The chunk has the text and the places that
-- the chunker gives it, and the span has offsets that its contract accepts.
pub span_matches_chunk-document :
    (document : Document) (chunk : Chunk) (span : SourceSpan)
    → IsSlice document chunk
    → IsSpan span
    → span_matches_chunk span chunk ≡ true
    → (span.text ≡ slice document.text span.start_char span.end_char)
      × (encode span.text ≡ slice (encode document.text) span.start_byte span.end_byte)
span_matches_chunk-document document chunk span s v e =
    let m = (span_matches_chunk-Matches span chunk).0 e in
    let order : chunk.start_char ≤ chunk.end_char = omega (arith, s.is_chunk.chars) in
    let bytes : encode chunk.text ≡ slice (encode document.text) chunk.start_byte chunk.end_byte =
      ap encode s.text_lem
      ∙ encode-slice document.text chunk.start_char chunk.end_char order
      ∙ ap (λ n. slice (encode document.text) n (byte_length (take chunk.end_char document.text)))
          (sym s.start_place.1)
      ∙ ap (slice (encode document.text) chunk.start_byte) (sym s.end_place.1) in
    (
      sym m.chars
          ∙ ap
              (λ t. slice t (span.start_char - chunk.start_char) (span.end_char - chunk.start_char))
              s.text_lem
          ∙ slice-in_slice document.text chunk.start_char chunk.end_char span.start_char
              span.end_char m.start_char (omega (arith, v.chars)) m.end_char,
      sym m.bytes
          ∙ ap
              (λ t. slice t (span.start_byte - chunk.start_byte) (span.end_byte - chunk.start_byte))
              bytes
          ∙ slice-in_slice (encode document.text) chunk.start_byte chunk.end_byte span.start_byte
              span.end_byte m.start_byte (omega (arith, v.bytes)) m.end_byte,
    )

pub append-empty : {A : Type 0} (xs ys : List A) → (xs ++ ys ≡ []) ↔ ((xs ≡ []) × (ys ≡ []))
append-empty [] ys = (λ e. (refl, e), λ h. h.1)
append-empty (x ∷ xs) ys = (λ e. absurd cc, λ h. absurd cc)

abbrev pub IsApproved : LensCandidate → Option (List Text) → Type 0
IsApproved candidate approved =
    (fields : List Text) × (approved ≡ some fields) × (contains fields candidate.field_name ≡ true)

pub schema_reasons-empty :
    (candidate : LensCandidate) (approved : Option (List Text))
    → (schema_reasons candidate approved ≡ []) ↔ IsApproved candidate approved
unfolding schema_reasons
schema_reasons-empty candidate none = (λ e. absurd cc, λ h. absurd cc)
schema_reasons-empty candidate (some fields) =
    elim (Bool-cases (contains fields candidate.field_name)) [
      | inl inside ↦ rw inside (λ e. (fields, refl, inside), λ h. refl)
      | inr outside ↦ rw outside (λ e. absurd cc, λ (others, same, inside). absurd cc)
    ]

if-empty : {A : Type 0} (b : Bool) (x : A) → ((if b then [] else x ∷ []) ≡ []) ↔ (b ≡ true)
if-empty true x = (λ e. refl, λ e. refl)
if-empty false x = (λ e. absurd cc, λ e. absurd cc)

-- A candidate is held to no rule exactly when its category is approved, its field is one of the
-- category's, and its span lies within the chunk and has the chunk's text at its offsets, in
-- characters and in bytes.
pub candidate_rejection_reasons-empty :
    (candidate : LensCandidate) (chunk : Chunk) (approved : Text → Option (List Text))
    → (candidate_rejection_reasons candidate chunk approved ≡ [])
      ↔ (IsApproved candidate (approved candidate.category) × Matches candidate.source_span chunk)
unfolding candidate_rejection_reasons
candidate_rejection_reasons-empty candidate chunk approved =
    let parts = append-empty (schema_reasons candidate (approved candidate.category)) _ in
    let schema = schema_reasons-empty candidate (approved candidate.category) in
    let span = if-empty (span_matches_chunk candidate.source_span chunk) _ in
    let matches = span_matches_chunk-Matches candidate.source_span chunk in
    (
      λ e. (schema.0 (parts.0 e).0, matches.0 (span.0 (parts.0 e).1)),
      λ (approval, m). parts.1 (schema.1 approval, span.1 (matches.1 m)),
    )
