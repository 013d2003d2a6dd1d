-- ===== src/Critic/Validation.antt =====
-- The checks of the critic's inputs (`validate_critic_inputs`, src/extractor/critic/validation.py,
-- with `span_matches_chunk` and `approved_category_fields` of critic/checks.py, which are those
-- of executor/policies.py).
pub mod Laws
use veritext.Prelude.{
  Text, Bool, true, false, not, Option, none, some, List, [], ◌∷◌, ◌==◌, list_eq, nat_eq, list_beq,
  contains, codes, Result, ok, err, critic_error, ◌>>=◌, ◌>>◌, raise_if, or_raise, check_all,
  if◌then◌else◌,
}
use veritext.Contracts.Spans.{Chunk}
use veritext.Contracts.Candidates.{ExtractionPlan, LensCandidate}
use veritext.Executor.Policies.{approved_category_fields, span_matches_chunk}

-- `chunks_by_id.get(id)`; of chunks with one id the last counts.
unfoldable pub chunk_by_id : List Chunk → Text → Option Chunk
unfolding list_beq
chunk_by_id [] id = none
chunk_by_id (chunk ∷ chunks) id = elim (chunk_by_id chunks id) [
  | some later ↦ some later
  | none ↦ if list_beq chunk.chunk_id id then some chunk else none
]

pub check_chunk : ExtractionPlan → Chunk → Result (Unit {0})
unfolding list_beq
check_chunk plan chunk =
    raise_if (not (list_beq chunk.doc_id plan.doc_id))
      (critic_error (codes "chunk doc_id must match extraction plan doc_id"))

-- `fields is None or field_name not in fields`
pub not_approved : Option (List Text) → Text → Bool
unfolding contains
not_approved none field_name = true
not_approved (some fields) field_name = not (contains fields field_name)

pub check_candidate : ExtractionPlan → List Chunk → LensCandidate → Result (Unit {0})
unfolding list_beq chunk_by_id not_approved approved_category_fields span_matches_chunk
check_candidate plan chunks candidate = do
  raise_if (not (list_beq candidate.run_id plan.run_id))
      (critic_error (codes "candidate run_id must match extraction plan run_id"))
  raise_if (not (list_beq candidate.doc_id plan.doc_id))
      (critic_error (codes "candidate doc_id must match extraction plan doc_id"))
  chunk ←
      or_raise (chunk_by_id chunks candidate.chunk_id)
        (critic_error (codes "candidate chunk_id must reference a provided chunk"))
  raise_if (not_approved (approved_category_fields plan candidate.category) candidate.field_name)
      (critic_error (codes "critic candidates must already satisfy the approved schema"))
  raise_if (not (span_matches_chunk candidate.source_span chunk))
      (critic_error (codes "critic candidates must preserve source spans that match chunk text"))

abbrev pub no_chunks : List Chunk → Bool
no_chunks [] = true
no_chunks (chunk ∷ chunks) = false

-- The dict that it returns is `chunk_by_id` of the chunks.
unfoldable pub validate_critic_inputs :
    ExtractionPlan → List Chunk → List LensCandidate → Result (Unit {0})
unfolding check_all check_chunk check_candidate
validate_critic_inputs plan chunks candidates = do
  raise_if (no_chunks chunks) (critic_error (codes "critic requires chunks for candidate context"))
  check_all (check_chunk plan) chunks
  check_all (check_candidate plan chunks) candidates
