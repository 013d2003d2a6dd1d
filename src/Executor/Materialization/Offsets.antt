-- ===== src/Executor/Materialization/Offsets.antt =====
-- The offsets of a source text within its chunk, and the span made from them.
use veritext.Prelude.{
  ℕ, ◌+◌, ◌-◌, ◌≤◌, ◌<◌, ◌≡◌, refl, sym, ap, ◌∙◌, Text, length, take, slice, list_eq, nat_eq,
  option_eq, byte_length, encode, encode-slice, byte_length-slice, byte_length-take_le,
  le→ltb_false, arith,
}
use veritext.Contracts.Spans.{Chunk}
use veritext.Contracts.Spans.Laws.{IsChunk, IsSpan}
use veritext.Contracts.Candidates.{ExtractionPlan}
use veritext.Executor.Policies.Provenance.{Matches}
use veritext.Executor.Materialization.{candidate_span, derive_byte_offsets}

-- The offsets of a source text within a chunk.
pub record IsSource (chunk : Chunk) (start_char : ℕ) (source_text : Text) : Type 0 where
  pub first : chunk.start_char ≤ start_char
  pub inside : start_char + length source_text ≤ chunk.end_char
  pub text_lem :
      slice chunk.text
        (start_char - chunk.start_char)
        (start_char - chunk.start_char + length source_text)
      ≡ source_text
  pub nonempty : 0 < length source_text

derive_byte_offsets_lem :
    (chunk : Chunk) (start_char : ℕ) (source_text : Text)
    → IsChunk chunk
    → IsSource chunk start_char source_text
    → derive_byte_offsets chunk start_char source_text ≡ (
      chunk.start_byte + byte_length (take (start_char - chunk.start_char) chunk.text),
      chunk.start_byte
          + byte_length (take (start_char - chunk.start_char) chunk.text)
          + byte_length source_text,
    )
unfolding derive_byte_offsets
derive_byte_offsets_lem chunk start_char source_text h s =
    rw
      (
        le→ltb_false start_char chunk.start_char s.first,
        le→ltb_false (length chunk.text) (start_char - chunk.start_char)
            (omega (arith, h.chars, s.inside)),
      )
      refl

-- The bytes of a source text within its chunk.
source_bytes :
    (text source_text : Text) (k : ℕ)
    → slice text k (k + length source_text) ≡ source_text
    → (slice
          (encode text)
          (byte_length (take k text))
          (byte_length (take k text) + byte_length source_text)
        ≡ encode source_text)
      × (byte_length (take k text) + byte_length source_text ≤ byte_length text)
source_bytes text source_text k same =
    let m = length source_text in
    let stop : byte_length (take k text) + byte_length source_text
        ≡ byte_length (take (k + m) text) =
      ap (λ t. byte_length (take k text) + byte_length t) (sym same)
      ∙ byte_length-slice text k (k + m) (omega arith) in
    (
      ap (slice (encode text) (byte_length (take k text))) stop
          ∙ sym (encode-slice text k (k + m) (omega arith))
          ∙ ap encode same,
      omega (arith, stop, byte_length-take_le text (k + m)),
    )

pub candidate_span-IsSpan :
    (plan : ExtractionPlan) (chunk : Chunk) (start_char : ℕ) (source_text : Text)
    → IsChunk chunk
    → IsSource chunk start_char source_text
    → IsSpan (candidate_span plan chunk start_char source_text)
      × Matches (candidate_span plan chunk start_char source_text) chunk
unfolding candidate_span
candidate_span-IsSpan plan chunk start_char source_text h s =
    let k = start_char - chunk.start_char in
    let first = byte_length (take k chunk.text) in
    let (same, inside) = source_bytes chunk.text source_text k s.text_lem in
    rw (derive_byte_offsets_lem chunk start_char source_text h s) (
      record { chars = refl; bytes = refl; nonempty = s.nonempty },
      record {
        start_char = s.first;
        end_char = s.inside;
        start_byte = omega arith;
        end_byte = omega (arith, inside, h.bytes);
        chars =
            ap (slice chunk.text k) (shift chunk.start_char start_char (length source_text) s.first)
            ∙ s.text_lem;
        bytes =
            ap
              (λ n.
                slice (encode chunk.text) n
                  (chunk.start_byte + first + byte_length source_text - chunk.start_byte))
              (back chunk.start_byte first)
            ∙ ap (slice (encode chunk.text) first)
                (back_both chunk.start_byte first (byte_length source_text))
            ∙ same;
      },
    )
  where
    shift : (a b n : ℕ) → a ≤ b → b + n - a ≡ b - a + n
    shift a b n le = omega arith

    back : (a n : ℕ) → a + n - a ≡ n
    back a n = omega arith

    back_both : (a n m : ℕ) → a + n + m - a ≡ n + m
    back_both a n m = omega arith
