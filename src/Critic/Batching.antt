-- ===== src/Critic/Batching.antt =====
-- The batches that the critic reviews (`partition_into_batches`, src/extractor/critic/batching.py).
pub mod Laws
use veritext.Prelude.{
  ℕ, zero, suc, ◌+◌, Text, Bool, true, List, [], ◌∷◌, ◌++◌, length, slice, ltb, leb, ◌==◌, nat_eq,
  list_eq, list_beq, group_by, flatten, codes, Result, ok, err, validation_error, ◌>>=◌, ◌>>◌,
  raise_if, map_result, if◌then◌else◌,
}
use veritext.Contracts.Candidates.{LensCandidate}

unfoldable pub same_chunk : LensCandidate → LensCandidate → Bool
unfolding list_beq
same_chunk a b = list_beq a.chunk_id b.chunk_id

-- `for start in range(0, len(group), batch_size)`, from `start` on; `rounds` bounds the rounds.
pub batch_loop : ℕ → List LensCandidate → ℕ → ℕ → List (List LensCandidate)
batch_loop zero group batch_size start = []
batch_loop (suc rounds) group batch_size start =
    let rest = batch_loop rounds group batch_size (start + batch_size) in
    if ltb start (length group) then slice group start (start + batch_size) ∷ rest else []

-- The batches of one group. `range` raises on a step of zero.
pub batches_of : ℕ → List LensCandidate → Result (List (List LensCandidate))
unfolding batch_loop
batches_of batch_size group = do
  raise_if (leb batch_size 0) (validation_error (codes "range() arg 3 must not be zero"))
  ok (batch_loop (length group) group batch_size 0)

unfoldable pub partition_into_batches : List LensCandidate → ℕ → Result (List (List LensCandidate))
unfolding same_chunk batches_of group_by map_result
partition_into_batches candidates batch_size = do
  batches ← map_result (batches_of batch_size) (group_by same_chunk candidates)
  ok (flatten batches)
