-- ===== src/Orchestrator/Stages.antt =====
-- Whether a stage of a run is complete (`_review_stage_complete`,
-- src/extractor/orchestrator/state.py), with the rejections of the contracts.
pub mod Reviewed
pub mod Laws
use veritext.Prelude.{
  ℕ, Text, Bool, true, false, ◌||◌, not, List, [], ◌∷◌, ◌++◌, map, keep_if, ◌==◌, nat_eq, list_eq,
  contains, sorted_by, text_le, join_texts, codes, if◌then◌else◌, Result, ok, err,
  orchestrator_error, ◌>>=◌, ◌>>◌, raise_if,
}
use veritext.Contracts.Reports.{CandidateRejection, RejectionStage}

stage_text : RejectionStage → Text
stage_text RejectionStage.executor = codes "executor"
stage_text RejectionStage.critic = codes "critic"
stage_text RejectionStage.verifier = codes "verifier"
stage_text RejectionStage.reconciler = codes "reconciler"
stage_text RejectionStage.schema = codes "schema"
stage_text RejectionStage.dedup = codes "dedup"

stage_rank : RejectionStage → ℕ
stage_rank RejectionStage.executor = 0
stage_rank RejectionStage.critic = 1
stage_rank RejectionStage.verifier = 2
stage_rank RejectionStage.reconciler = 3
stage_rank RejectionStage.schema = 4
stage_rank RejectionStage.dedup = 5

abbrev pub is_nil {ℓ} : {A : Type ℓ} → List A → Bool
is_nil [] = true
is_nil (x ∷ xs) = false

-- `rejection.candidate_id for rejection in rejections if rejection.stage == stage`
pub rejected_ids : RejectionStage → List CandidateRejection → List Text
unfolding stage_rank
rejected_ids stage rejections =
    map (λ r. r.candidate_id) (keep_if (λ r. stage_rank r.stage == stage_rank stage) rejections)

-- `id in accounted`
unfoldable pub is_accounted : RejectionStage → List Text → List CandidateRejection → Text → Bool
unfolding rejected_ids contains
is_accounted stage report_candidate_ids rejections id =
    contains report_candidate_ids id || contains (rejected_ids stage rejections) id

-- `sorted(set(ids))`
distinct : List Text → List Text
unfolding contains
distinct [] = []
distinct (id ∷ ids) = let rest = distinct ids in if contains ids id then rest else id ∷ rest

partial_message : RejectionStage → List Text → Text
unfolding stage_text distinct sorted_by text_le join_texts
partial_message stage missing =
    codes "Cannot safely resume: audited "
    ++ (stage_text stage
        ++ (codes " output is partial for candidates: "
            ++ (join_texts (codes ", ") (sorted_by text_le (distinct missing)) ++ codes ".")))

unfoldable pub review_stage_complete :
    RejectionStage → List Text → List Text → List CandidateRejection → Result Bool
unfolding is_accounted partial_message
review_stage_complete stage candidate_ids report_candidate_ids rejections =
    let accounted = is_accounted stage report_candidate_ids rejections in
    let missing = keep_if (λ id. not (accounted id)) candidate_ids in
    let rest : Result Bool = do
      raise_if (not (is_nil missing)) (orchestrator_error (partial_message stage missing))
      ok true
    in if is_nil candidate_ids
      then ok true
      else if is_nil (keep_if accounted candidate_ids)
      then ok false
      else rest
