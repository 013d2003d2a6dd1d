-- ===== src/Reconciler/Materialization/Decision/Accounts.antt =====
-- The last loop accounts for the candidates that the model has left out.
use veritext.Prelude.{
  ◌≡◌, refl, ap, ◌∙◌, inl, inr, Text, true, ◌||◌, List, [], ◌∷◌, contains, nat_eq, list_eq,
  list_beq, list_beq_iff, Bool-cases, All, ok, ok-injective, >>=-eq-ok,
}
use mathlib.Core.Path.{subst}
use veritext.Contracts.Candidates.{ExtractionPlan, LensCandidate}
use veritext.Contracts.Equality.{reason_eq}
use veritext.Contracts.Reports.{CandidateRejection, DataPoint}
use veritext.Reconciler.Conflicts.Laws.{contributed}
use veritext.Reconciler.Materialization.{build_rejection}
use veritext.Reconciler.Materialization.Decision.{Decided, decide_rest, set_rejection, not_selected}
use veritext.Reconciler.Materialization.Decision.Progress.{ids_of, set_rejection-ids}
use veritext.Reconciler.Materialization.Decision.Soundness.{
  Sound, build_rejection-id, or_cases, or_left, or_right,
}

-- A candidate that is in a data point or rejected.
abbrev pub IsAccounted : List DataPoint → List CandidateRejection → LensCandidate → Type 0
IsAccounted points rejections c =
    (contains (contributed points) c.candidate_id || contains (ids_of rejections) c.candidate_id)
    ≡ true

abbrev pub Grows : Decided → Decided → Type 0
Grows d out =
    (out.data_points ≡ d.data_points)
    × ((id : Text)
        → contains (ids_of d.rejections) id ≡ true
        → contains (ids_of out.rejections) id ≡ true)

later-IsAccounted :
    (c : LensCandidate) (d out : Decided)
    → Grows d out
    → IsAccounted d.data_points d.rejections c
    → IsAccounted out.data_points out.rejections c
later-IsAccounted c d out grows h = elim (or_cases h) [
  | inl point ↦
      or_left (contains (ids_of out.rejections) c.candidate_id)
        (ap (λ l. contains (contributed l) c.candidate_id) grows.0 ∙ point)
  | inr rejected ↦
      or_right (contains (contributed out.data_points) c.candidate_id)
        (grows.1 c.candidate_id rejected)
]

module _ (candidates : List LensCandidate) where
  more_rejections :
      (d : Decided) (rejections : List CandidateRejection)
      → ((id : Text)
          → contains (ids_of d.rejections) id ≡ true
          → contains (ids_of rejections) id ≡ true)
      → Sound candidates d
      → Sound candidates (record d { rejections = rejections })
  more_rejections d rejections more s = record {
    covers = λ id h. elim (or_cases (s.covers id h)) [
      | inl point ↦ or_left (contains (ids_of rejections) id) point
      | inr rejected ↦ or_right (contains (contributed d.data_points) id) (more id rejected)
    ];
    counted = s.counted;
    once = s.once;
    points = s.points;
  }

  module _ (casefold sha256 : Text → Text) (plan : ExtractionPlan) where
    pub decide_rest-IsAccounted :
        (cs : List LensCandidate) (d : Decided) {out : Decided}
        → Sound candidates d
        → decide_rest casefold sha256 plan cs d ≡ ok out
        → Grows d out × All (IsAccounted out.data_points out.rejections) cs
    unfolding decide_rest
    decide_rest-IsAccounted [] d s e =
        subst (λ out. Grows d out × All (IsAccounted out.data_points out.rejections) [])
          (ok-injective e) ((refl, λ id h. h), tt)
    decide_rest-IsAccounted (c ∷ cs) d {out = out} s e =
        elim (Bool-cases (contains d.accounted_ids c.candidate_id)) [
          | inl there ↦
              let (grows, all) = decide_rest-IsAccounted cs d s (rw there at e) in
              (grows, (later-IsAccounted c d out grows (s.covers c.candidate_id there), all))
          | inr new ↦
              let (rejection, made, rest) =
                >>=-eq-ok (build_rejection sha256 plan c.candidate_id (not_selected ∷ []))
                  (λ rejection.
                    decide_rest casefold sha256 plan cs
                      (record d { rejections = set_rejection d.rejections rejection }))
                  (rw new at e) in
              let named = build_rejection-id sha256 plan c.candidate_id (not_selected ∷ []) made in
              let next : Decided = record d { rejections = set_rejection d.rejections rejection } in
              let more : (id : Text)
                  → contains (ids_of d.rejections) id ≡ true
                  → contains (ids_of next.rejections) id ≡ true =
                λ id h.
                  set_rejection-ids d.rejections rejection id
                  ∙ or_left (list_beq rejection.candidate_id id) h in
              let here : contains (ids_of next.rejections) c.candidate_id ≡ true =
                set_rejection-ids d.rejections rejection c.candidate_id
                ∙ or_right (contains (ids_of d.rejections) c.candidate_id)
                    ((list_beq_iff rejection.candidate_id c.candidate_id).1 named) in
              let (grows, all) =
                decide_rest-IsAccounted cs next (more_rejections d next.rejections more s) rest in
              (
                (grows.0, λ id h. grows.1 id (more id h)),
                (
                  later-IsAccounted c next out grows
                      (or_right (contains (contributed d.data_points) c.candidate_id) here),
                  all,
                ),
              )
        ]
