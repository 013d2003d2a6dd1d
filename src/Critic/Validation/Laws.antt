-- ===== src/Critic/Validation/Laws.antt =====
-- The candidates that the executors accept are those that the critic takes.
use veritext.Prelude.{
  ◌≡◌, refl, Text, false, Option, none, some, List, [], list_beq_iff, list_eq, nat_eq, ok,
  All-check_all, All, All-map_imp,
}
use veritext.Contracts.Spans.{Chunk}
use veritext.Contracts.Candidates.{ExtractionPlan, LensCandidate}
use veritext.Executor.Policies.{approved_category_fields, candidate_rejection_reasons}
use veritext.Executor.Policies.Provenance.{
  IsApproved, candidate_rejection_reasons-empty, span_matches_chunk-Matches,
}
use veritext.Critic.Validation.{
  check_candidate, check_chunk, chunk_by_id, no_chunks, not_approved, validate_critic_inputs,
}

-- A candidate of the plan that no rule of the executor rejects in the chunk that it names.
pub record Acceptable (plan : ExtractionPlan) (chunks : List Chunk) (c : LensCandidate)
    : Type 0 where
  pub run : c.run_id ≡ plan.run_id
  pub doc : c.doc_id ≡ plan.doc_id
  pub chunk : Chunk
  pub found : chunk_by_id chunks c.chunk_id ≡ some chunk
  pub no_reasons : candidate_rejection_reasons c chunk (approved_category_fields plan) ≡ []

not_approved-IsApproved :
    (c : LensCandidate) (o : Option (List Text))
    → IsApproved c o
    → not_approved o c.field_name ≡ false
unfolding not_approved
not_approved-IsApproved c none (fields, same, inside) = absurd cc
not_approved-IsApproved c (some others) (fields, same, inside) =
    let equal : others ≡ fields = cc in rw (equal, inside) refl

Acceptable-check_candidate :
    (plan : ExtractionPlan) (chunks : List Chunk) (c : LensCandidate)
    → Acceptable plan chunks c
    → check_candidate plan chunks c ≡ ok tt
unfolding check_candidate
Acceptable-check_candidate plan chunks c a =
    let (approval, m) =
      (candidate_rejection_reasons-empty c a.chunk (approved_category_fields plan)).0
        a.no_reasons in
    rw
      (
        (list_beq_iff c.run_id plan.run_id).1 a.run,
        (list_beq_iff c.doc_id plan.doc_id).1 a.doc,
        a.found,
        not_approved-IsApproved c (approved_category_fields plan c.category) approval,
        (span_matches_chunk-Matches c.source_span a.chunk).1 m,
      )
      refl

-- The critic takes what the executors accept: its checks pass on chunks of the plan's document,
-- of which there is one at least, and candidates of the plan that no rule of the executor
-- rejects in the chunks that they name.
pub validate_critic_inputs-accepted :
    (plan : ExtractionPlan) (chunks : List Chunk) (candidates : List LensCandidate)
    → no_chunks chunks ≡ false
    → All (λ chunk. chunk.doc_id ≡ plan.doc_id) chunks
    → All (Acceptable plan chunks) candidates
    → validate_critic_inputs plan chunks candidates ≡ ok tt
unfolding validate_critic_inputs check_chunk
validate_critic_inputs-accepted plan chunks candidates some_chunks docs accepted =
    rw
      (
        some_chunks,
        All-check_all (check_chunk plan) chunks (
            All-map_imp _ (λ chunk. check_chunk plan chunk ≡ ok tt) chunks
              (λ chunk e. rw ((list_beq_iff chunk.doc_id plan.doc_id).1 e) refl) docs),
        All-check_all (check_candidate plan chunks) candidates (
            All-map_imp _ (λ c. check_candidate plan chunks c ≡ ok tt) candidates
              (Acceptable-check_candidate plan chunks) accepted),
      )
      refl
