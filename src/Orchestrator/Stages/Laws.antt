-- ===== src/Orchestrator/Stages/Laws.antt =====
-- When a stage of a run counts as complete, as not begun, and as partial.
use veritext.Prelude.{
  ◌≡◌, ◌↔◌, nat_eq, list_eq, ap, All-map_imp, refl, inl, inr, Text, Bool, true, false, not, List,
  [], ◌∷◌, keep_if, All, Bool-cases, ok,
}
use veritext.Contracts.Reports.{CandidateRejection, RejectionStage}
use veritext.Orchestrator.Stages.Reviewed.{IsReviewed, is_accounted_iff}
use veritext.Orchestrator.Stages.{is_accounted, is_nil, review_stage_complete}

module _ {A : Type 0} (p : A → Bool) where
  keep_if-none : (xs : List A) → (is_nil (keep_if p xs) ≡ true) ↔ All (λ x. p x ≡ false) xs
  keep_if-none [] = (λ e. tt, λ h. refl)
  keep_if-none (x ∷ xs) = elim (Bool-cases (p x)) [
    | inl e ↦ rw e (λ f. absurd cc, λ h. absurd cc)
    | inr e ↦ rw e (λ f. (refl, (keep_if-none xs).0 f), λ h. (keep_if-none xs).1 h.1)
  ]

  keep_if-All :
      (xs : List A) → (is_nil (keep_if (λ x. not (p x)) xs) ≡ true) ↔ All (λ x. p x ≡ true) xs
  keep_if-All [] = (λ e. tt, λ h. refl)
  keep_if-All (x ∷ xs) = elim (Bool-cases (p x)) [
    | inl e ↦ rw e (λ f. (refl, (keep_if-All xs).0 f), λ h. (keep_if-All xs).1 h.1)
    | inr e ↦ rw e (λ f. absurd cc, λ h. absurd cc)
  ]

is_nil-All : {A : Type 0} (P : A → Type 0) (xs : List A) → is_nil xs ≡ true → All P xs
is_nil-All P [] e = tt
is_nil-All P (x ∷ xs) e = absurd cc

true_and_false :
    {A : Type 0} (p : A → Bool) (xs : List A)
    → is_nil xs ≡ false
    → All (λ x. p x ≡ true) xs
    → All (λ x. p x ≡ false) xs
    → ⊥
true_and_false p [] e h k = cc
true_and_false p (x ∷ xs) e (h, hs) (k, ks) = cc

clash : {b : Bool} → b ≡ true → b ≡ false → ⊥
clash e f = cc

some_items : {A : Type 0} (xs : List A) → (xs ≡ [] → ⊥) → is_nil xs ≡ false
some_items [] h = absurd (h refl)
some_items (x ∷ xs) h = refl

module _ (stage : RejectionStage) (candidate_ids report_ids : List Text)
    (rejections : List CandidateRejection) where
  abbrev pub Complete : Type 0
  Complete = All (IsReviewed stage report_ids rejections) candidate_ids

  abbrev pub NotBegun : Type 0
  NotBegun =
      (candidate_ids ≡ [] → ⊥)
      × All (λ id. IsReviewed stage report_ids rejections id → ⊥) candidate_ids

  abbrev AllAccounted : Type 0
  AllAccounted = All (λ id. is_accounted stage report_ids rejections id ≡ true) candidate_ids

  abbrev NoneAccounted : Type 0
  NoneAccounted =
      (is_nil candidate_ids ≡ false)
      × All (λ id. is_accounted stage report_ids rejections id ≡ false) candidate_ids

  review_stage_complete-accounted :
      ((review_stage_complete stage candidate_ids report_ids rejections ≡ ok true) ↔ AllAccounted)
      × ((review_stage_complete stage candidate_ids report_ids rejections ≡ ok false)
          ↔ NoneAccounted)
  unfolding review_stage_complete
  review_stage_complete-accounted =
      let accounted = is_accounted stage report_ids rejections in
      let none_accounted = keep_if-none accounted candidate_ids in
      let all_accounted = keep_if-All accounted candidate_ids in
      elim (Bool-cases (is_nil candidate_ids)) [
        | inl empty ↦ rw empty (
          (λ e. is_nil-All _ candidate_ids empty, λ h. refl),
          (λ e. absurd cc, λ (some_ids, others). absurd cc),
        )
        | inr some_ids ↦ elim (Bool-cases (is_nil (keep_if accounted candidate_ids))) [
          | inl never ↦
              let unaccounted = none_accounted.0 never in
              rw (some_ids, never)
                (
                  (
                    λ e. absurd cc,
                    λ h. absurd (true_and_false accounted candidate_ids some_ids h unaccounted),
                  ),
                  (λ e. (refl, unaccounted), λ h. refl),
                )
          | inr begun ↦
              let not_none : NoneAccounted → ⊥ = λ h. clash (none_accounted.1 h.1) begun in
              elim (Bool-cases (is_nil (keep_if (λ id. not (accounted id)) candidate_ids))) [
                | inl whole ↦
                    rw (some_ids, begun, whole)
                      (
                        (λ e. all_accounted.0 whole, λ h. refl),
                        (λ e. absurd cc, λ h. absurd (not_none (some_ids, h.1))),
                      )
                | inr partial ↦
                    rw (some_ids, begun, partial)
                      (
                        (λ e. absurd cc, λ h. absurd (clash (all_accounted.1 h) partial)),
                        (λ e. absurd cc, λ h. absurd (not_none (some_ids, h.1))),
                      )
              ]
        ]
      ]

  AllAccounted_iff : AllAccounted ↔ Complete
  AllAccounted_iff =
      let one = is_accounted_iff stage report_ids rejections in
      (
        All-map_imp _ _ candidate_ids (λ id. (one id).0),
        All-map_imp _ _ candidate_ids (λ id. (one id).1),
      )

  NoneAccounted_iff : NoneAccounted ↔ NotBegun
  NoneAccounted_iff =
      let one = is_accounted_iff stage report_ids rejections in
      (
        λ h. (
          λ e. clash (ap is_nil e) h.0,
          All-map_imp _ _ candidate_ids (λ id k reviewed. clash ((one id).1 reviewed) k) h.1,
        ),
        λ h. (
          some_items candidate_ids h.0,
          All-map_imp _ _ candidate_ids
              (λ id k. elim (Bool-cases (is_accounted stage report_ids rejections id)) [
                | inl e ↦ absurd (k ((one id).0 e))
                | inr e ↦ e
              ])
              h.1,
        ),
      )

  -- A review stage is complete exactly when each candidate has a report or a rejection of that
  -- stage, and not begun exactly when there are candidates and none has either. In all other
  -- cases the check neither passes nor fails: it raises.
  pub review_stage_complete-cases :
      ((review_stage_complete stage candidate_ids report_ids rejections ≡ ok true) ↔ Complete)
      × ((review_stage_complete stage candidate_ids report_ids rejections ≡ ok false) ↔ NotBegun)
  review_stage_complete-cases =
      let (complete, not_begun) = review_stage_complete-accounted in
      (both complete AllAccounted_iff, both not_begun NoneAccounted_iff)
    where
      both : {A B C : Type 0} → A ↔ B → B ↔ C → A ↔ C
      both f g = (λ a. g.0 (f.0 a), λ c. f.1 (g.1 c))
