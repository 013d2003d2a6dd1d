-- ===== src/Executor/Materialization.antt =====
-- Candidates made from the payloads of the model (src/extractor/executor/models.py, ids.py and
-- materialization.py). `sha256` is `hashlib.sha256(...).hexdigest()` of the bytes of a text.
pub mod Offsets
pub mod Contract
pub mod Laws
use veritext.Prelude.{
  ℕ, ◌+◌, ◌-◌, Text, Bool, true, false, ◌||◌, Option, none, some, List, [], ◌∷◌, ◌++◌, length, take,
  ltb, list_beq, nat_eq, byte_length, decimal, join_texts, codes, if◌then◌else◌, Result, ok, err,
  ◌>>=◌,
}
use veritext.Contracts.Spans.{Chunk, SourceSpan, validate_source_span}
use veritext.Contracts.Candidates.{
  ExtractionPlan, LensCandidate, LensName, NormalizationStatus, RejectionReason,
  RejectionReasonCode, ValueKind, validate_lens_candidate,
}

pub record ExtractedCandidatePayload : Type 0 where
  pub category : Text
  pub field_name : Text
  pub value : Text
  pub source_length : ℕ
  pub start_char : ℕ
  pub confidence : ℕ

-- The string that the source has for a lens.
unfoldable pub lens_text : LensName → Text
lens_text LensName.entity = codes "entity"
lens_text LensName.event = codes "event"
lens_text LensName.claim = codes "claim"
lens_text LensName.number = codes "number"
lens_text LensName.definition = codes "definition"
lens_text LensName.citation = codes "citation"
lens_text LensName.temporal = codes "temporal"
lens_text LensName.quantity_with_unit = codes "quantity_with_unit"

unfoldable pub derive_byte_offsets : Chunk → ℕ → Text → ℕ × ℕ
derive_byte_offsets chunk start_char source_text =
    let relative_start = start_char - chunk.start_char in
    let first = chunk.start_byte + byte_length (take relative_start chunk.text) in
    if ltb start_char chunk.start_char || ltb (length chunk.text) relative_start
    then (chunk.start_byte, chunk.start_byte)
    else (first, first + byte_length source_text)

-- `**_normalization_metadata(...)`: a candidate with these fields set.
pub with_normalization_metadata : LensCandidate → Text → Text → LensCandidate
unfolding list_beq
with_normalization_metadata candidate value source_text =
    if list_beq value source_text
    then record candidate {
      value_verbatim = some source_text;
      value_kind = ValueKind.text;
      normalization_status = NormalizationStatus.verbatim_only;
    }
    else record candidate {
      value_verbatim = some source_text;
      value_canonical = some value;
      value_kind = ValueKind.text;
      normalization_status = NormalizationStatus.canonicalized;
      normalization_policy_id = some (codes "source-traced-label");
      normalization_policy_version = some (codes "1");
    }

pub candidate_span : ExtractionPlan → Chunk → ℕ → Text → SourceSpan
unfolding derive_byte_offsets
candidate_span plan chunk start_char source_text =
    let (start_byte, end_byte) = derive_byte_offsets chunk start_char source_text in
    record {
      doc_id = plan.doc_id;
      chunk_id = chunk.chunk_id;
      start_char = start_char;
      end_char = start_char + length source_text;
      start_byte = start_byte;
      end_byte = end_byte;
      text = source_text;
    }

module _ (sha256 : Text → Text) where
  unfoldable pub stable_candidate_id :
      ExtractionPlan → LensName → Chunk → ExtractedCandidatePayload → ℕ → Text → ℕ → Text
  unfolding lens_text decimal join_texts
  stable_candidate_id plan lens chunk payload start_char source_text candidate_index =
      let identity = join_texts (codes "|") (
        plan.run_id
        ∷ plan.doc_id
        ∷ chunk.chunk_id
        ∷ lens_text lens
        ∷ decimal candidate_index
        ∷ payload.category
        ∷ payload.field_name
        ∷ payload.value
        ∷ decimal start_char
        ∷ source_text
        ∷ []) in
      codes "candidate-" ++ take 32 (sha256 identity)

  -- The fields of a candidate but its normalization metadata.
  bare_candidate :
      ExtractionPlan
      → LensName
      → Chunk
      → ExtractedCandidatePayload
      → ℕ
      → Text
      → ℕ
      → Text
      → SourceSpan
      → LensCandidate
  unfolding stable_candidate_id
  bare_candidate plan lens chunk payload start_char source_text candidate_index call_id span =
      record {
        candidate_id =
            stable_candidate_id plan lens chunk payload start_char source_text candidate_index;
        run_id = plan.run_id;
        doc_id = plan.doc_id;
        chunk_id = chunk.chunk_id;
        lens = lens;
        category = payload.category;
        field_name = payload.field_name;
        value = payload.value;
        source_span = span;
        confidence = payload.confidence;
        executor_call_id = call_id;
        value_verbatim = none;
        value_canonical = none;
        value_kind = ValueKind.text;
        normalization_status = NormalizationStatus.not_normalized;
        normalization_policy_id = none;
        normalization_policy_version = none;
        normalization_notes = none;
      }

  -- The candidate before its contract is checked.
  raw_candidate :
      ExtractionPlan
      → LensName
      → Chunk
      → ExtractedCandidatePayload
      → ℕ
      → Text
      → ℕ
      → Text
      → SourceSpan
      → LensCandidate
  unfolding bare_candidate with_normalization_metadata
  raw_candidate plan lens chunk payload start_char source_text candidate_index call_id span =
      with_normalization_metadata
        (bare_candidate plan lens chunk payload start_char source_text candidate_index call_id span)
        payload.value source_text

  unfoldable pub build_candidate :
      ExtractionPlan
      → LensName
      → Chunk
      → ExtractedCandidatePayload
      → ℕ
      → Text
      → ℕ
      → Text
      → Result LensCandidate
  unfolding candidate_span raw_candidate validate_source_span validate_lens_candidate
  build_candidate plan lens chunk payload start_char source_text candidate_index call_id = do
    span ← validate_source_span (candidate_span plan chunk start_char source_text)
    validate_lens_candidate
        (raw_candidate plan lens chunk payload start_char source_text candidate_index call_id span)
