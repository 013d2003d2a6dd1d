-- ===== src/Tests/Review.antt =====
-- Runs of deduplication, of the critic and of a run that is taken up again.
use veritext.Prelude.{
  IsAmong, map, sym, ◌∙◌, list_beq_iff, nat_eq, Text, ◌≡◌, ◌↔◌, refl, true, false, List, [], ◌∷◌,
  Perm, codes, ok, arith, All, flatten, list_beq,
}
use mathlib.Core.Bool.{true≢false}
use mathlib.Core.HLevel.{⊥_prop}
use mathlib.Core.Logic.Or
use mathlib.Core.List.{Mem, Nodup, Nodup-cons, Pairwise, not-mem-nil, eq-or-mem_of_mem-cons}
use veritext.Contracts.Candidates.{LensCandidate}
use veritext.Executor.Policies.{approved_category_fields, candidate_rejection_reasons}
use veritext.Executor.Dedup.{deduplicate_candidates}
use veritext.Executor.Dedup.Laws.{all_ids, deduplicate_candidates-perm}
use veritext.Critic.Batching.{partition_into_batches}
use veritext.Critic.Batching.Laws.{IsBatch, partition_into_batches-perm}
use veritext.Critic.Validation.{chunk_by_id, validate_critic_inputs}
use veritext.Critic.Validation.Laws.{Acceptable, validate_critic_inputs-accepted}
use veritext.Orchestrator.Resume.{validate_resume_chunks}
use veritext.Orchestrator.Resume.Laws.{Resumable, validate_resume_chunks-Resumable}
use veritext.Contracts.Reports.{RejectionStage}
use veritext.Orchestrator.Stages.{review_stage_complete}
use veritext.Orchestrator.Stages.Laws.{Complete, NotBegun, review_stage_complete-cases}
use veritext.Tests.Data.{same_text, letter, page, plan, candidate, three, rejection}

deduplicated :
    all_ids (deduplicate_candidates same_text same_text three)
    ≡ codes "a" ∷ codes "b" ∷ codes "c" ∷ []
unfolding deduplicate_candidates
deduplicated = refl

not_in : {a b : Text} {l : List Text} → list_beq a b ≡ false → (Mem a l → ⊥) → Mem a (b ∷ l) → ⊥
not_in {a} {b} other absent h =
    Or.elim ⊥_prop (eq-or-mem_of_mem-cons h)
      (λ e. true≢false (sym ((list_beq_iff a b).1 e) ∙ other)) absent

three-Nodup : Nodup (codes "b" ∷ codes "a" ∷ codes "c" ∷ [])
unfolding list_beq
three-Nodup = Nodup-cons.1 (
  not_in refl (not_in refl not-mem-nil),
  Nodup-cons.1 (not_in refl not-mem-nil, Nodup-cons.1 (not-mem-nil, Pairwise.nil)),
)

deduplicate_candidates-perm_example :
    let r = deduplicate_candidates same_text same_text three in
    Perm (all_ids r) (codes "b" ∷ codes "a" ∷ codes "c" ∷ [])
    × All (λ m. IsAmong m.1 (map (λ c. c.candidate_id) r.0)) r.1
deduplicate_candidates-perm_example =
    deduplicate_candidates-perm same_text same_text three three-Nodup

-- Three candidates with one id leave one entry in the dict.
merged_once :
    deduplicate_candidates same_text same_text
      (candidate (codes "a") ∷ candidate (codes "a") ∷ candidate (codes "a") ∷ [])
    ≡ (candidate (codes "a") ∷ [], (codes "a", codes "a") ∷ [])
unfolding deduplicate_candidates
merged_once = refl

partition_into_batches-perm_example :
    (batches : List (List LensCandidate)) × (partition_into_batches three 2 ≡ ok batches)
    × Perm (flatten batches) three
    × All (IsBatch 2) batches
partition_into_batches-perm_example = partition_into_batches-perm three 2 (omega arith)

candidate-Acceptable : Acceptable plan (page ∷ []) (candidate (codes "a"))
unfolding chunk_by_id candidate_rejection_reasons approved_category_fields
candidate-Acceptable = record {
  run = refl;
  doc = refl;
  chunk = page;
  found = refl;
  no_reasons = refl;
}

validate_critic_inputs-accepted_example :
    validate_critic_inputs plan (page ∷ []) (candidate (codes "a") ∷ []) ≡ ok tt
validate_critic_inputs-accepted_example =
    validate_critic_inputs-accepted plan (page ∷ []) (candidate (codes "a") ∷ []) refl (refl, tt)
      (candidate-Acceptable, tt)

resume_run : validate_resume_chunks letter (page ∷ []) ≡ ok (page ∷ [])
unfolding validate_resume_chunks
resume_run = refl

validate_resume_chunks-Resumable_example :
    (validate_resume_chunks letter (page ∷ []) ≡ ok (page ∷ [])) ↔ Resumable letter (page ∷ [])
validate_resume_chunks-Resumable_example = validate_resume_chunks-Resumable letter (page ∷ [])

critic_run :
    review_stage_complete RejectionStage.critic
      (codes "a" ∷ codes "b" ∷ [])
      (codes "a" ∷ [])
      (rejection ∷ [])
    ≡ ok true
unfolding review_stage_complete list_beq
critic_run = refl

review_stage_complete-cases_example :
    ((review_stage_complete RejectionStage.critic
          (codes "a" ∷ codes "b" ∷ [])
          (codes "a" ∷ [])
          (rejection ∷ [])
        ≡ ok true)
      ↔ Complete RejectionStage.critic
          (codes "a" ∷ codes "b" ∷ [])
          (codes "a" ∷ [])
          (rejection ∷ []))
    × ((review_stage_complete RejectionStage.critic
            (codes "a" ∷ codes "b" ∷ [])
            (codes "a" ∷ [])
            (rejection ∷ [])
          ≡ ok false)
        ↔ NotBegun RejectionStage.critic
            (codes "a" ∷ codes "b" ∷ [])
            (codes "a" ∷ [])
            (rejection ∷ []))
review_stage_complete-cases_example =
    review_stage_complete-cases RejectionStage.critic (codes "a" ∷ codes "b" ∷ []) (codes "a" ∷ [])
      (rejection ∷ [])
