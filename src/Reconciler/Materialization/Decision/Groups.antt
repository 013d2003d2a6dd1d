-- ===== src/Reconciler/Materialization/Decision/Groups.antt =====
-- The loop over the groups of the model.
use veritext.Prelude.{
  ◌≡◌, sym, ap, ◌∙◌, inl, inr, Text, false, List, [], ◌∷◌, ◌++◌, has_items, contains,
  has_duplicates, nat_eq, list_eq, Bool-cases, All, Result, ok, ◌>>=◌, ok-injective, >>=-eq-ok,
  if◌then◌else◌,
}
use mathlib.Core.Path.{subst}
use veritext.Contracts.Candidates.{ExtractionPlan, LensCandidate}
use veritext.Contracts.Equality.{reason_eq}
use veritext.Contracts.Reports.{CriticReport, VerifierReport}
use veritext.Reconciler.Models.{ReconciledDataPointPayload}
use veritext.Reconciler.Materialization.{
  build_data_point, candidate_of, data_point_rejection_reasons, payload_from_group,
}
use veritext.Reconciler.Materialization.Points.{
  build_data_point-FromCandidate, payload_from_group-PayloadFrom,
}
use veritext.Reconciler.Materialization.Decision.{
  Decided, decide_group, decide_groups, reject_group,
}
use veritext.Reconciler.Materialization.Decision.Fresh.{data_point_rejection_reasons-empty}
use veritext.Reconciler.Materialization.Decision.Soundness.{Sound, reject_group-Sound}
use veritext.Reconciler.Materialization.Decision.Taken.{add_point}

module _ (candidates : List LensCandidate) where
  module _ (casefold sha256 : Text → Text) (plan : ExtractionPlan) (critics : List CriticReport)
      (verifiers : List VerifierReport) where
    decide_group-Sound :
        (group : Text × List Text) (d : Decided) {out : Decided}
        → Sound candidates d
        → decide_group casefold sha256 plan candidates critics verifiers group d ≡ ok out
        → Sound candidates out
    unfolding decide_group
    decide_group-Sound group d s e =
        let build : ReconciledDataPointPayload → Result Decided = λ payload.
          build_data_point sha256 plan payload candidates critics verifiers >>= λ point.
          ok (record d {
            data_points = d.data_points ++ (point ∷ []);
            accounted_ids = payload.contributing_candidate_ids ++ d.accounted_ids;
          }) in
        let (payload, taken, r1) =
          >>=-eq-ok (payload_from_group casefold group candidates)
            (λ payload. candidate_of candidates payload.source_candidate_id >>= λ source.
              data_point_rejection_reasons plan payload candidates source d.accounted_ids
              >>= λ reasons.
                  if has_items reasons
                  then reject_group casefold sha256 plan reasons payload.contributing_candidate_ids
                      d
                  else build payload)
            e in
        let (source, found, r2) =
          >>=-eq-ok (candidate_of candidates payload.source_candidate_id)
            (λ source.
              data_point_rejection_reasons plan payload candidates source d.accounted_ids
              >>= λ reasons.
                  if has_items reasons
                  then reject_group casefold sha256 plan reasons payload.contributing_candidate_ids
                      d
                  else build payload)
            r1 in
        let (reasons, made, r3) =
          >>=-eq-ok (data_point_rejection_reasons plan payload candidates source d.accounted_ids)
            (λ reasons.
              if has_items reasons
              then reject_group casefold sha256 plan reasons payload.contributing_candidate_ids d
              else build payload)
            r2 in
        let from = payload_from_group-PayloadFrom casefold group candidates taken in
        elim (Bool-cases (has_items reasons)) [
          | inl some_reasons ↦
              reject_group-Sound candidates casefold sha256 plan reasons
                payload.contributing_candidate_ids d s (rw some_reasons at r3)
          | inr no_reasons ↦
              let (point, built, done) =
                >>=-eq-ok (build_data_point sha256 plan payload candidates critics verifiers)
                  (λ point. ok (record d {
                    data_points = d.data_points ++ (point ∷ []);
                    accounted_ids = payload.contributing_candidate_ids ++ d.accounted_ids;
                  }))
                  (rw no_reasons at r3) in
              let (f, same) =
                build_data_point-FromCandidate candidates sha256 plan payload critics verifiers from
                  built in
              let news =
                data_point_rejection_reasons-empty payload candidates plan source d.accounted_ids
                  made no_reasons in
              subst (Sound candidates)
                (ap
                    (λ ids. record d {
                      data_points = d.data_points ++ (point ∷ []);
                      accounted_ids = ids ++ d.accounted_ids;
                    })
                    same
                  ∙ ok-injective done)
                (add_point candidates d point s f (ap has_duplicates same ∙ from.once)
                  (subst (All (λ id. contains d.accounted_ids id ≡ false)) (sym same) news))
        ]

    pub decide_groups-Sound :
        (groups : List (Text × List Text)) (d : Decided) {out : Decided}
        → Sound candidates d
        → decide_groups casefold sha256 plan candidates critics verifiers groups d ≡ ok out
        → Sound candidates out
    unfolding decide_groups
    decide_groups-Sound [] d s e = subst (Sound candidates) (ok-injective e) s
    decide_groups-Sound (group ∷ groups) d s e =
        let (next, made, rest) =
          >>=-eq-ok (decide_group casefold sha256 plan candidates critics verifiers group d)
            (λ next. decide_groups casefold sha256 plan candidates critics verifiers groups next)
            e in
        decide_groups-Sound groups next (decide_group-Sound group d s made) rest
