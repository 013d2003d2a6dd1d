-- ===== src/Reconciler/Materialization/Decision/Partition.antt =====
-- The decision accounts for every candidate, and its data points share none.
use veritext.Prelude.{
  ◌≡◌, refl, sym, ap, ◌∙◌, Text, false, ◌||◌, some, List, [], contains, has_duplicates, nat_eq,
  list_eq, All, All-map_imp, ok, ◌>>=◌, ok-injective, >>=-eq-ok, sorted_by,
}
use mathlib.Core.Path.{subst}
use veritext.Contracts.Candidates.{ExtractionPlan, LensCandidate}
use veritext.Contracts.Equality.{reason_eq}
use veritext.Contracts.Reports.{CandidateRejection, CriticReport, DataPoint, VerifierReport}
use veritext.Reconciler.Conflicts.Laws.{contributed}
use veritext.Reconciler.Models.{ReconciliationBatch}
use veritext.Reconciler.Materialization.{validate_output_candidate_ids}
use veritext.Reconciler.Materialization.Points.{FromCandidate}
use veritext.Reconciler.Materialization.Decision.{
  Decided, decide_all, decide_groups, decide_rejected, decide_rest,
}
use veritext.Reconciler.Materialization.Decision.Progress.{ids_of}
use veritext.Reconciler.Materialization.Decision.{build_reconciliation_result, rejection_le}
use veritext.Reconciler.Conflicts.{mark, mark_unresolved_conflicts}
use veritext.Reconciler.Conflicts.Laws.{
  mark_unresolved_conflicts-All, mark_unresolved_conflicts-contributed,
}
use veritext.Reconciler.Materialization.Decision.Progress.{sorted_by-ids}
use veritext.Reconciler.Materialization.Decision.Soundness.{Sound, decide_rejected-Sound}
use veritext.Reconciler.Materialization.Decision.Accounts.{IsAccounted, decide_rest-IsAccounted}
use veritext.Reconciler.Materialization.Decision.Groups.{decide_groups-Sound}

module _ (candidates : List LensCandidate) where
  mark-FromCandidate :
      (p : DataPoint) (id : Text)
      → FromCandidate candidates p
      → FromCandidate candidates (mark (some id) p)
  unfolding mark
  mark-FromCandidate p id f = record {
    source = f.source;
    among = f.among;
    contributes = f.contributes;
    category = f.category;
    field_name = f.field_name;
    value = f.value;
    source_span = f.source_span;
    bounded = f.bounded;
  }

  module _ (casefold sha256 : Text → Text) (plan : ExtractionPlan) (critics : List CriticReport)
      (verifiers : List VerifierReport) where
    start-Sound :
        Sound candidates (record { data_points = []; rejections = []; accounted_ids = [] })
    unfolding contains has_duplicates
    start-Sound = record { covers = λ id h. h; counted = λ id h. h; once = refl; points = tt }

    decide_all-IsAccounted :
        (batch : ReconciliationBatch) {out : Decided}
        → decide_all casefold sha256 plan candidates critics verifiers batch ≡ ok out
        → All (IsAccounted out.data_points out.rejections) candidates
          × (has_duplicates (contributed out.data_points) ≡ false)
          × All (FromCandidate candidates) out.data_points
    unfolding decide_all
    decide_all-IsAccounted batch e =
        let start : Decided = record { data_points = []; rejections = []; accounted_ids = [] } in
        let (u, known, r1) =
          >>=-eq-ok (validate_output_candidate_ids batch candidates)
            (λ u.
              decide_groups casefold sha256 plan candidates critics verifiers batch.groups start
              >>= λ grouped.
                  decide_rejected casefold sha256 plan batch.rejected grouped >>= λ rejected.
                  decide_rest casefold sha256 plan candidates rejected)
            e in
        let (grouped, groups, r2) =
          >>=-eq-ok
            (decide_groups casefold sha256 plan candidates critics verifiers batch.groups start)
            (λ grouped. decide_rejected casefold sha256 plan batch.rejected grouped >>= λ rejected.
              decide_rest casefold sha256 plan candidates rejected)
            r1 in
        let (rejected, refused, rest) =
          >>=-eq-ok (decide_rejected casefold sha256 plan batch.rejected grouped)
            (λ rejected. decide_rest casefold sha256 plan candidates rejected) r2 in
        let first =
          decide_groups-Sound candidates casefold sha256 plan critics verifiers batch.groups start
            start-Sound groups in
        let second =
          decide_rejected-Sound candidates casefold sha256 plan batch.rejected grouped first
            refused in
        let (grows, all) =
          decide_rest-IsAccounted candidates casefold sha256 plan candidates rejected second rest in
        (
          all,
          ap (λ l. has_duplicates (contributed l)) grows.0 ∙ second.once,
          subst (All (FromCandidate candidates)) (sym grows.0) second.points,
        )

-- The decision of the reconciler, when it returns, drops no candidate: each contributes to a data
-- point or has a rejection. No candidate contributes to two data points, and each data point is
-- taken from a candidate that contributes to it, whose category, field, value and span it has,
-- with a confidence that is at most that of each contributor.
pub build_reconciliation_result-IsAccounted :
    (nfkc casefold sha256 : Text → Text) (plan : ExtractionPlan) (candidates : List LensCandidate)
    (critics : List CriticReport) (verifiers : List VerifierReport) (batch : ReconciliationBatch)
    {points : List DataPoint} {rejections : List CandidateRejection}
    → build_reconciliation_result nfkc casefold sha256 plan candidates critics verifiers batch
      ≡ ok (points, rejections)
    → All (IsAccounted points rejections) candidates
      × (has_duplicates (contributed points) ≡ false)
      × All (FromCandidate candidates) points
unfolding build_reconciliation_result
build_reconciliation_result-IsAccounted nfkc casefold sha256 plan candidates critics verifiers batch
      {points = points} {rejections = rejections} e =
    let (decided, made, done) =
      >>=-eq-ok (decide_all casefold sha256 plan candidates critics verifiers batch)
        (λ decided. ok (
          mark_unresolved_conflicts nfkc casefold sha256 decided.data_points,
          sorted_by rejection_le decided.rejections,
        ))
        e in
    let (all, once, from) =
      decide_all-IsAccounted candidates casefold sha256 plan critics verifiers batch made in
    let same = ok-injective done in
    let marked : mark_unresolved_conflicts nfkc casefold sha256 decided.data_points ≡ points =
      ap (λ r. r.0) same in
    let sorted : sorted_by rejection_le decided.rejections ≡ rejections = ap (λ r. r.1) same in
    let ids : contributed points ≡ contributed decided.data_points =
      ap contributed (sym marked)
      ∙ mark_unresolved_conflicts-contributed nfkc casefold sha256 decided.data_points in
    (
      All-map_imp _ _ candidates
          (λ c h.
            ap (λ l. contains l c.candidate_id || contains (ids_of rejections) c.candidate_id) ids
            ∙ ap (λ b. contains (contributed decided.data_points) c.candidate_id || b)
                (ap (λ l. contains (ids_of l) c.candidate_id) (sym sorted)
                  ∙ sorted_by-ids rejection_le decided.rejections c.candidate_id)
            ∙ h)
          all,
      ap has_duplicates ids ∙ once,
      subst (All (FromCandidate candidates)) marked (
          mark_unresolved_conflicts-All nfkc casefold sha256 (FromCandidate candidates)
            (mark-FromCandidate candidates) decided.data_points from),
    )
