-- ===== src/Orchestrator/Stages/Reviewed.antt =====
-- When a candidate has been reviewed.
use veritext.Prelude.{
  get_elem?, none, some, ℕ, ◌≡◌, ◌↔◌, ◌⊎◌, ◌||◌, ◌==◌, nat_eq, nat_beq_iff, list_eq, contains,
  contains_iff, IsAmong, ap, sym, ◌∙◌, arith, refl, inl, inr, Text, Bool, true, List, [], ◌∷◌,
  Bool-cases,
}
use mathlib.Core.Path.{subst}
use veritext.Contracts.Reports.{CandidateRejection, RejectionStage}
use veritext.Orchestrator.Stages.{is_accounted, rejected_ids, stage_rank}

abbrev all_stages : List RejectionStage
all_stages =
    RejectionStage.executor ∷ RejectionStage.critic ∷ RejectionStage.verifier
    ∷ RejectionStage.reconciler ∷ RejectionStage.schema ∷ RejectionStage.dedup ∷ []

-- The stage with a rank.
abbrev stage_at : ℕ → RejectionStage
stage_at n = elim (get_elem? all_stages n) [ some x ↦ x | none ↦ RejectionStage.executor ]

stage_at-stage_rank : (a : RejectionStage) → stage_at (stage_rank a) ≡ a
unfolding stage_rank
stage_at-stage_rank RejectionStage.executor = refl
stage_at-stage_rank RejectionStage.critic = refl
stage_at-stage_rank RejectionStage.verifier = refl
stage_at-stage_rank RejectionStage.reconciler = refl
stage_at-stage_rank RejectionStage.schema = refl
stage_at-stage_rank RejectionStage.dedup = refl

-- Stages with the same rank are the same.
stage_rank-eq : (a b : RejectionStage) → (stage_rank a == stage_rank b) ≡ true → a ≡ b
stage_rank-eq a b h =
    sym (stage_at-stage_rank a)
    ∙ ap stage_at ((nat_beq_iff (stage_rank a) (stage_rank b)).0 h)
    ∙ stage_at-stage_rank b

stage_rank-same : (a : RejectionStage) → (stage_rank a == stage_rank a) ≡ true
stage_rank-same a = (nat_beq_iff (stage_rank a) (stage_rank a)).1 refl

module _ (stage : RejectionStage) where
  -- A rejection of the stage for a candidate.
  abbrev pub IsRejected : List CandidateRejection → Text → Type 0
  IsRejected rejections id =
      (r : CandidateRejection) × IsAmong r rejections × (r.stage ≡ stage) × (r.candidate_id ≡ id)

  rejected_ids-IsRejected :
      (rejections : List CandidateRejection) (id : Text)
      → IsAmong id (rejected_ids stage rejections)
      → IsRejected rejections id
  unfolding rejected_ids
  rejected_ids-IsRejected [] id h = absurd h
  rejected_ids-IsRejected (r ∷ rejections) id h =
      elim (Bool-cases (stage_rank r.stage == stage_rank stage)) [
        | inl here ↦ elim (rw here at h) [
          | inl same ↦ (r, inl refl, stage_rank-eq r.stage stage here, sym same)
          | inr later ↦
              let (s, among, at_stage, named) = rejected_ids-IsRejected rejections id later in
              (s, inr among, at_stage, named)
        ]
        | inr other ↦
            let (s, among, at_stage, named) =
              rejected_ids-IsRejected rejections id (rw other at h) in
            (s, inr among, at_stage, named)
      ]

  IsRejected-rejected_ids :
      (rejections : List CandidateRejection) (r : CandidateRejection)
      → IsAmong r rejections
      → r.stage ≡ stage
      → IsAmong r.candidate_id (rejected_ids stage rejections)
  unfolding rejected_ids
  IsRejected-rejected_ids [] r h e = absurd h
  IsRejected-rejected_ids (first ∷ rejections) r (inl same) e =
      let here : (stage_rank first.stage == stage_rank stage) ≡ true =
        (nat_beq_iff (stage_rank first.stage) (stage_rank stage)).1
          (ap (λ x. stage_rank x.stage) (sym same) ∙ ap stage_rank e) in
      rw here (inl (ap (λ x. x.candidate_id) same))
  IsRejected-rejected_ids (first ∷ rejections) r (inr later) e =
      let rest = IsRejected-rejected_ids rejections r later e in
      elim (Bool-cases (stage_rank first.stage == stage_rank stage)) [
        | inl here ↦ rw here (inr rest)
        | inr other ↦ rw other rest
      ]

  -- A candidate with a report or a rejection of the stage.
  abbrev pub IsReviewed : List Text → List CandidateRejection → Text → Type 0
  IsReviewed report_ids rejections id = IsAmong id report_ids ⊎ IsRejected rejections id

  pub is_accounted_iff :
      (report_ids : List Text) (rejections : List CandidateRejection) (id : Text)
      → (is_accounted stage report_ids rejections id ≡ true) ↔ IsReviewed report_ids rejections id
  unfolding is_accounted
  is_accounted_iff report_ids rejections id =
      let reported = contains_iff report_ids id in
      let rejected = contains_iff (rejected_ids stage rejections) id in
      (
        λ h. elim (Bool-cases (contains report_ids id)) [
          | inl there ↦ inl (reported.0 there)
          | inr not_there ↦
              inr (rejected_ids-IsRejected rejections id (rejected.0 (rw not_there at h)))
        ],
        λ h. elim h [
          | inl there ↦ rw (reported.1 there) refl
          | inr (r, among, at_stage, named) ↦
              let found = rejected.1 (
                subst (λ n. IsAmong n (rejected_ids stage rejections)) named
                  (IsRejected-rejected_ids rejections r among at_stage)) in
              either (contains report_ids id) found
        ],
      )
    where
      either : {q : Bool} (p : Bool) → q ≡ true → (p || q) ≡ true
      either p e = ground arith
