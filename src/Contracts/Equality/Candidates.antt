-- ===== src/Contracts/Equality/Candidates.antt =====
-- `==` of spans and candidates, field by field (src/extractor/contracts/models.py).
use veritext.Prelude.{ℕ, refl, Text, Option, HasEquality, nat_eq, list_eq, option_eq}
use veritext.Contracts.Spans.{SourceSpan}
use veritext.Contracts.Candidates.{LensCandidate, LensName, NormalizationStatus, ValueKind}
use veritext.Contracts.Equality.{eq_by, kind_eq, lens_eq, pair_eq, status_eq}

abbrev span_fields : SourceSpan → ((Text × (Text × ℕ)) × ((ℕ × ℕ) × (ℕ × Text)))
span_fields x =
    ((x.doc_id, (x.chunk_id, x.start_char)), ((x.end_char, x.start_byte), (x.end_byte, x.text)))

abbrev span_of : ((Text × (Text × ℕ)) × ((ℕ × ℕ) × (ℕ × Text))) → SourceSpan
span_of ((doc_id, (chunk_id, start_char)), ((end_char, start_byte), (end_byte, text))) = record {
  doc_id = doc_id;
  chunk_id = chunk_id;
  start_char = start_char;
  end_char = end_char;
  start_byte = start_byte;
  end_byte = end_byte;
  text = text;
}

instance abbrev pub span_eq : HasEquality SourceSpan
span_eq = eq_by span_fields span_of (λ x. refl)

abbrev candidate_fields :
    LensCandidate
    → ((((Text × Text) × (Text × Text)) × ((LensName × Text) × (Text × (Text × SourceSpan))))
        × (((ℕ × Text) × (Option Text × Option Text))
            × ((ValueKind × NormalizationStatus) × (Option Text × (Option Text × Option Text)))))
candidate_fields x = (
  (
    ((x.candidate_id, x.run_id), (x.doc_id, x.chunk_id)),
    ((x.lens, x.category), (x.field_name, (x.value, x.source_span))),
  ),
  (
    ((x.confidence, x.executor_call_id), (x.value_verbatim, x.value_canonical)),
    (
      (x.value_kind, x.normalization_status),
      (x.normalization_policy_id, (x.normalization_policy_version, x.normalization_notes)),
    ),
  ),
)

abbrev candidate_of :
    ((((Text × Text) × (Text × Text)) × ((LensName × Text) × (Text × (Text × SourceSpan))))
      × (((ℕ × Text) × (Option Text × Option Text))
          × ((ValueKind × NormalizationStatus) × (Option Text × (Option Text × Option Text)))))
    → LensCandidate
candidate_of
      (
        (
          ((candidate_id, run_id), (doc_id, chunk_id)),
          ((lens, category), (field_name, (value, source_span))),
        ),
        (
          ((confidence, executor_call_id), (value_verbatim, value_canonical)),
          (
            (value_kind, normalization_status),
            (normalization_policy_id, (normalization_policy_version, normalization_notes)),
          ),
        ),
      ) =
    record {
      candidate_id = candidate_id;
      run_id = run_id;
      doc_id = doc_id;
      chunk_id = chunk_id;
      lens = lens;
      category = category;
      field_name = field_name;
      value = value;
      source_span = source_span;
      confidence = confidence;
      executor_call_id = executor_call_id;
      value_verbatim = value_verbatim;
      value_canonical = value_canonical;
      value_kind = value_kind;
      normalization_status = normalization_status;
      normalization_policy_id = normalization_policy_id;
      normalization_policy_version = normalization_policy_version;
      normalization_notes = normalization_notes;
    }

instance abbrev pub candidate_eq : HasEquality LensCandidate
candidate_eq = eq_by candidate_fields candidate_of (λ x. refl)
