-- ===== src/Reconciler/Materialization/Decision/Taken.antt =====
-- A data point more, whose candidates no earlier group has taken.
use veritext.Prelude.{
  ◌≡◌, sym, ap, ◌∙◌, inl, inr, Text, false, ◌||◌, List, [], ◌∷◌, ◌++◌, contains, contains-append,
  has_duplicates, has_duplicates-append, nat_eq, list_eq, Bool-cases, All, All-append, All-map_imp,
}
use mathlib.Core.List.{append-nil, append_assoc}
use mathlib.Core.Bool.{true≢false}
use veritext.Contracts.Candidates.{LensCandidate}
use veritext.Contracts.Equality.{reason_eq}
use veritext.Contracts.Reports.{DataPoint}
use veritext.Reconciler.Conflicts.Laws.{contributed}
use veritext.Reconciler.Materialization.Points.{FromCandidate}
use veritext.Reconciler.Materialization.Decision.{Decided}
use veritext.Reconciler.Materialization.Decision.Progress.{ids_of}
use veritext.Reconciler.Materialization.Decision.Soundness.{Sound, or_cases, or_left, or_right}

contributed-end :
    (points : List DataPoint) (p : DataPoint)
    → contributed (points ++ (p ∷ [])) ≡ contributed points ++ p.contributing_candidate_ids
contributed-end [] p = append-nil p.contributing_candidate_ids
contributed-end (q ∷ points) p =
    ap (λ l. q.contributing_candidate_ids ++ l) (contributed-end points p)
    ∙ sym (
        append_assoc q.contributing_candidate_ids (contributed points) p.contributing_candidate_ids)

module _ (candidates : List LensCandidate) where
  pub add_point :
      (d : Decided) (p : DataPoint)
      → Sound candidates d
      → FromCandidate candidates p
      → has_duplicates p.contributing_candidate_ids ≡ false
      → All (λ id. contains d.accounted_ids id ≡ false) p.contributing_candidate_ids
      → Sound candidates (record d {
        data_points = d.data_points ++ (p ∷ []);
        accounted_ids = p.contributing_candidate_ids ++ d.accounted_ids;
      })
  add_point d p s f once news =
      let ids = p.contributing_candidate_ids in
      let both : (id : Text)
          → contains (contributed (d.data_points ++ (p ∷ []))) id
            ≡ (contains (contributed d.data_points) id || contains ids id) =
        λ id.
          ap (λ l. contains l id) (contributed-end d.data_points p)
          ∙ contains-append (contributed d.data_points) ids id in
      record {
        covers = λ id h. elim (or_cases (sym (contains-append ids d.accounted_ids id) ∙ h)) [
          | inl here ↦
              or_left (contains (ids_of d.rejections) id)
                (both id ∙ or_right (contains (contributed d.data_points) id) here)
          | inr old ↦ elim (or_cases (s.covers id old)) [
            | inl point ↦
                or_left (contains (ids_of d.rejections) id)
                  (both id ∙ or_left (contains ids id) point)
            | inr rejected ↦
                or_right (contains (contributed (d.data_points ++ (p ∷ []))) id) rejected
          ]
        ];
        counted = λ id h.
            contains-append ids d.accounted_ids id ∙ (elim (or_cases (sym (both id) ∙ h)) [
              | inl point ↦ or_right (contains ids id) (s.counted id point)
              | inr here ↦ or_left (contains d.accounted_ids id) here
            ]);
        once =
            ap has_duplicates (contributed-end d.data_points p)
            ∙ has_duplicates-append (contributed d.data_points) ids s.once once (
                All-map_imp (λ id. contains d.accounted_ids id ≡ false)
                  (λ id. contains (contributed d.data_points) id ≡ false) ids
                  (λ id new. elim (Bool-cases (contains (contributed d.data_points) id)) [
                    | inl there ↦ absurd (true≢false (sym (s.counted id there) ∙ new))
                    | inr other ↦ other
                  ])
                  news);
        points = All-append (FromCandidate candidates) d.data_points (p ∷ []) s.points (f, tt);
      }
