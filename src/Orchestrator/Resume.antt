-- ===== src/Orchestrator/Resume.antt =====
-- `validate_resume_chunks` (src/extractor/orchestrator/state.py).
pub mod Laws
use veritext.Prelude.{
  ℕ, zero, suc, Text, Bool, true, false, ◌||◌, not, Option, none, some, List, [], ◌∷◌, map, length,
  slice, ◌==◌, nat_eq, list_eq, list_beq, contains, codes, Result, ok, err, orchestrator_error,
  ◌>>=◌, ◌>>◌, raise_if, check_all,
}
use veritext.Contracts.Documents.{Document}
use veritext.Contracts.Spans.{Chunk}

-- `range(start, start + n)`
pub range_from : ℕ → ℕ → List ℕ
range_from start zero = []
range_from start (suc n) = start ∷ range_from (suc start) n

pub check_text : Document → Chunk → Result (Unit {0})
unfolding list_beq
check_text document chunk = do
  raise_if (not (list_beq chunk.doc_id document.doc_id))
      (orchestrator_error (codes "Cannot resume: chunk doc_id does not match document."))
  raise_if (not (list_beq (slice document.text chunk.start_char chunk.end_char) chunk.text))
      (orchestrator_error (codes "Cannot resume: chunk text no longer matches document offsets."))

-- `id == chunk.chunk_id or id not in chunk_ids`
pub is_dangling : List Text → Chunk → Text → Bool
unfolding list_beq contains
is_dangling chunk_ids chunk id = list_beq id chunk.chunk_id || not (contains chunk_ids id)

pub check_parent : List Text → Chunk → Option Text → Result (Unit {0})
unfolding is_dangling
check_parent chunk_ids chunk none = ok tt
check_parent chunk_ids chunk (some parent) =
    raise_if (is_dangling chunk_ids chunk parent)
      (orchestrator_error (codes "Cannot resume: chunk parent references missing chunk."))

pub check_dependency : List Text → Chunk → Text → Result (Unit {0})
unfolding is_dangling
check_dependency chunk_ids chunk dependency_id =
    raise_if (is_dangling chunk_ids chunk dependency_id)
      (orchestrator_error (codes "Cannot resume: chunk dependency references missing chunk."))

pub check_references : List Text → Chunk → Result (Unit {0})
unfolding check_parent check_dependency check_all
check_references chunk_ids chunk = do
  check_parent chunk_ids chunk chunk.parent_chunk_id
  check_all (check_dependency chunk_ids chunk) chunk.depends_on_chunk_ids

abbrev pub lacks_chunks : List Chunk → Bool
lacks_chunks [] = true
lacks_chunks (chunk ∷ chunks) = false

unfoldable pub validate_resume_chunks : Document → List Chunk → Result (List Chunk)
unfolding range_from check_text check_references check_all list_beq
validate_resume_chunks document chunks = do
  raise_if (lacks_chunks chunks)
      (orchestrator_error (codes "Cannot resume: audited chunk list is empty."))
  raise_if (not (list_beq (map (λ c. c.chunk_index) chunks) (range_from 0 (length chunks))))
      (orchestrator_error (codes "Cannot resume: audited chunk indexes are not contiguous."))
  check_all (check_text document) chunks
  check_all (check_references (map (λ c. c.chunk_id) chunks)) chunks
  ok chunks
