-- ===== src/Tests/Data.antt =====
-- The document, its chunk, the plan, the candidates and a rejection.
use veritext.Prelude.{ℕ, Text, true, none, some, List, [], ◌∷◌, codes}
use veritext.Contracts.Documents.{Document, LayoutRole, SourceMapSegmentKind, TextRange}
use veritext.Contracts.Spans.{Chunk, SourceSpan}
use veritext.Contracts.Candidates.{
  ExtractionPlan, LensCandidate, LensName, NormalizationStatus, ValueKind,
}
use veritext.Chunker.Config.{ChunkKind, ChunkSplitReason}
use veritext.Executor.Materialization.{ExtractedCandidatePayload}
use veritext.Contracts.Reports.{CandidateRejection, CriticReport, RejectionStage, VerifierReport}

abbrev pub same_text : Text → Text
same_text text = text

abbrev pub range : ℕ → ℕ → TextRange
range a b = record { start_char = a; end_char = b; start_byte = a; end_byte = b }

-- A letter of five characters and a table cell of three.
abbrev pub letter : Document
letter = record {
  doc_id = codes "d";
  text = codes "Rent 5|9";
  text_sha256 = codes "h";
  source_byte_length = 8;
  text_byte_length = 8;
  page_map =
      record { page_number = 1; start_char = 0; end_char = 8; start_byte = 0; end_byte = 8 } ∷ [];
  source_map =
      record {
        segment_id = codes "m0";
        kind = SourceMapSegmentKind.source;
        text_range = range 0 8;
        source_start_byte = some 0;
        source_end_byte = some 8;
        source_start_char = none;
        source_end_char = none;
      }
      ∷ [];
  layout_spans =
      record {
        span_id = codes "s0";
        page_number = 1;
        role = LayoutRole.paragraph;
        text_range = range 0 4;
        bounding_box = some (record { page_number = 1 });
      }
      ∷ [];
  table_spans =
      record {
        table_id = codes "t0";
        page_number = 1;
        text_range = range 5 8;
        cells =
            record {
              cell_id = codes "c0";
              text_range = range 5 6;
              row_index = 0;
              column_index = 0;
              row_span = 1;
              column_span = 1;
              header_labels = [];
              bounding_box = none;
            }
            ∷ [];
        bounding_box = none;
      }
      ∷ [];
  ocr_confidence_spans = [];
}

abbrev pub page : Chunk
page = record {
  chunk_id = codes "k0";
  doc_id = codes "d";
  chunk_index = 0;
  text = codes "Rent 5|9";
  start_char = 0;
  end_char = 8;
  start_byte = 0;
  end_byte = 8;
  start_token = 0;
  end_token = 3;
  chunk_kind = ChunkKind.mixed;
  section_path = [];
  layout_span_ids = [];
  table_ids = [];
  page_numbers = [];
  parent_chunk_id = none;
  depends_on_chunk_ids = [];
  split_reason = ChunkSplitReason.token_window;
}

abbrev pub amount_span : SourceSpan
amount_span = record {
  doc_id = codes "d";
  chunk_id = codes "k0";
  start_char = 5;
  end_char = 6;
  start_byte = 5;
  end_byte = 6;
  text = codes "5";
}

abbrev pub plan : ExtractionPlan
plan = record {
  run_id = codes "r";
  doc_id = codes "d";
  approved_categories =
      record {
        name = codes "Lease";
        description = codes "x";
        fields =
            record {
              name = codes "rent";
              description = codes "x";
              value_type = codes "n";
              required = true;
            }
            ∷ [];
      }
      ∷ [];
  enabled_lenses = LensName.number ∷ [];
  lens_budgets = record { lens = LensName.number; max_calls = 4 } ∷ [];
}

abbrev pub candidate : Text → LensCandidate
candidate id = record {
  candidate_id = id;
  run_id = codes "r";
  doc_id = codes "d";
  chunk_id = codes "k0";
  lens = LensName.number;
  category = codes "Lease";
  field_name = codes "rent";
  value = codes "5";
  source_span = amount_span;
  confidence = 1;
  executor_call_id = codes "e";
  value_verbatim = some (codes "5");
  value_canonical = none;
  value_kind = ValueKind.text;
  normalization_status = NormalizationStatus.verbatim_only;
  normalization_policy_id = none;
  normalization_policy_version = none;
  normalization_notes = none;
}

abbrev pub payload : ExtractedCandidatePayload
payload = record {
  category = codes "Lease";
  field_name = codes "rent";
  value = codes "five";
  source_length = 1;
  start_char = 5;
  confidence = 1;
}

abbrev pub three : List LensCandidate
three = candidate (codes "b") ∷ candidate (codes "a") ∷ candidate (codes "c") ∷ []

abbrev pub rejection : CandidateRejection
rejection = record {
  rejection_id = codes "x";
  run_id = codes "r";
  candidate_id = codes "b";
  stage = RejectionStage.critic;
  reasons = [];
}

-- A candidate with an id as the executors give it.
abbrev pub listed : LensCandidate
listed = candidate (codes "candidate-0123456789abcdef")

abbrev pub critic_report : CriticReport
critic_report = record {
  report_id = codes "c";
  run_id = codes "r";
  candidate_id = codes "candidate-0123456789abcdef";
  critic_call_id = codes "call";
  plausibility_score = 1;
  accepted = true;
  issues = [];
  corrected_candidate = none;
}

abbrev pub verifier_report : VerifierReport
verifier_report = record {
  report_id = codes "v";
  run_id = codes "r";
  candidate_id = codes "candidate-0123456789abcdef";
  verifier_call_id = codes "call";
  span_verified = true;
  category_verified = true;
  alignment_score = 1;
  accepted = true;
  rejection_reasons = [];
}
