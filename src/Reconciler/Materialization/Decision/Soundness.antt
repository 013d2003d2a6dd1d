-- ===== src/Reconciler/Materialization/Decision/Soundness.antt =====
-- What the loops over the groups and the rejected candidates keep.
use veritext.Prelude.{
  ◌≡◌, refl, sym, ap, ◌∙◌, ◌⊎◌, inl, inr, take, codes, Text, Bool, true, false, ◌||◌, List, [], ◌∷◌,
  ◌++◌, contains, has_duplicates, nat_eq, list_eq, list_beq, arith, Bool-cases, All, ok,
  ok-injective, >>=-eq-ok,
}
use mathlib.Core.Path.{subst}
use veritext.Contracts.Candidates.{
  ExtractionPlan, LensCandidate, RejectionReason, RejectionReasonCode,
}
use veritext.Contracts.Equality.{reason_eq}
use veritext.Contracts.Reports.{CandidateRejection, RejectionStage}
use veritext.Verifier.Batch.Accounts.{validate_candidate_rejection-same}
use veritext.Verifier.Policies.{reason_identity}
use veritext.Reconciler.Conflicts.Laws.{contributed}
use veritext.Reconciler.Materialization.{build_rejection}
use veritext.Reconciler.Materialization.Points.{FromCandidate}
use veritext.Reconciler.Materialization.Decision.{
  Decided, decide_rejected, reject_group, rejection_reason_for_code, set_default, set_rejection,
}
use veritext.Reconciler.Materialization.Decision.Progress.{
  ids_of, set_default-ids, set_rejection-ids,
}

-- What the loops keep: each accounted id is in a data point or rejected, the ids of the data
-- points are accounted and different, and the data points are taken from candidates.
pub record Sound (candidates : List LensCandidate) (d : Decided) : Type 0 where
  pub covers :
      (id : Text)
      → contains d.accounted_ids id ≡ true
      → (contains (contributed d.data_points) id || contains (ids_of d.rejections) id) ≡ true
  pub counted :
      (id : Text)
      → contains (contributed d.data_points) id ≡ true
      → contains d.accounted_ids id ≡ true
  pub once : has_duplicates (contributed d.data_points) ≡ false
  pub points : All (FromCandidate candidates) d.data_points

pub or_cases : {a b : Bool} → (a || b) ≡ true → (a ≡ true) ⊎ (b ≡ true)
or_cases {a = true} h = inl refl
or_cases {a = false} h = inr h

pub or_left : {a : Bool} (b : Bool) → a ≡ true → (a || b) ≡ true
or_left b h = ground arith

pub or_right : (a : Bool) {b : Bool} → b ≡ true → (a || b) ≡ true
or_right a h = ground arith

pub build_rejection-id :
    (sha256 : Text → Text) (plan : ExtractionPlan) (id : Text) (reasons : List RejectionReason)
    {r : CandidateRejection}
    → build_rejection sha256 plan id reasons ≡ ok r
    → r.candidate_id ≡ id
unfolding build_rejection
build_rejection-id sha256 plan id reasons e =
    ap (λ r. r.candidate_id)
      (sym (
        validate_candidate_rejection-same
          (record {
            rejection_id =
                codes "rejection-"
                ++ take 32 (sha256 (id ++ (codes "|reconciler|" ++ reason_identity reasons)));
            run_id = plan.run_id;
            candidate_id = id;
            stage = RejectionStage.reconciler;
            reasons = reasons;
          })
          e))

module _ (candidates : List LensCandidate) where
  -- A rejection more, and its id accounted or not.
  add_rejection :
      (d : Decided) (rejections : List CandidateRejection) (id : Text)
      → ((other : Text)
          → contains (ids_of rejections) other
            ≡ (contains (ids_of d.rejections) other || list_beq id other))
      → Sound candidates d
      → Sound candidates
          (record d { rejections = rejections; accounted_ids = id ∷ d.accounted_ids })
  unfolding contains
  add_rejection d rejections id same s = record {
    covers = λ other h. elim (or_cases h) [
      | inl itself ↦
          or_right (contains (contributed d.data_points) other)
            (same other ∙ or_right (contains (ids_of d.rejections) other) itself)
      | inr old ↦ elim (or_cases (s.covers other old)) [
        | inl point ↦ or_left (contains (ids_of rejections) other) point
        | inr rejected ↦
            or_right (contains (contributed d.data_points) other)
              (same other ∙ or_left (list_beq id other) rejected)
      ]
    ];
    counted = λ other h. or_right (list_beq id other) (s.counted other h);
    once = s.once;
    points = s.points;
  }

  module _ (casefold sha256 : Text → Text) (plan : ExtractionPlan) where
    pub reject_group-Sound :
        (reasons : List RejectionReason) (ids : List Text) (d : Decided) {out : Decided}
        → Sound candidates d
        → reject_group casefold sha256 plan reasons ids d ≡ ok out
        → Sound candidates out
    unfolding reject_group
    reject_group-Sound reasons [] d s e = subst (Sound candidates) (ok-injective e) s
    reject_group-Sound reasons (id ∷ ids) d s e =
        let (rejection, made, rest) =
          >>=-eq-ok (build_rejection sha256 plan id reasons)
            (λ rejection. reject_group casefold sha256 plan reasons ids (record d {
              rejections = set_default d.rejections rejection;
              accounted_ids = id ∷ d.accounted_ids;
            }))
            e in
        let named = build_rejection-id sha256 plan id reasons made in
        reject_group-Sound reasons ids _
          (add_rejection d (set_default d.rejections rejection) id
            (λ other.
              set_default-ids d.rejections rejection other
              ∙ ap (λ n. contains (ids_of d.rejections) other || list_beq n other) named)
            s)
          rest

    pub decide_rejected-Sound :
        (rejected : List (Text × RejectionReasonCode)) (d : Decided) {out : Decided}
        → Sound candidates d
        → decide_rejected casefold sha256 plan rejected d ≡ ok out
        → Sound candidates out
    unfolding decide_rejected
    decide_rejected-Sound [] d s e = subst (Sound candidates) (ok-injective e) s
    decide_rejected-Sound ((id, code) ∷ rejected) d s e =
        elim (Bool-cases (contains d.accounted_ids id)) [
          | inl there ↦ decide_rejected-Sound rejected d s (rw there at e)
          | inr new ↦
              let (rejection, made, rest) =
                >>=-eq-ok (build_rejection sha256 plan id (rejection_reason_for_code code ∷ []))
                  (λ rejection. decide_rejected casefold sha256 plan rejected (record d {
                    rejections = set_rejection d.rejections rejection;
                    accounted_ids = id ∷ d.accounted_ids;
                  }))
                  (rw new at e) in
              let named =
                build_rejection-id sha256 plan id (rejection_reason_for_code code ∷ []) made in
              decide_rejected-Sound rejected _
                (add_rejection d (set_rejection d.rejections rejection) id
                  (λ other.
                    set_rejection-ids d.rejections rejection other
                    ∙ ap (λ n. contains (ids_of d.rejections) other || list_beq n other) named)
                  s)
                rest
        ]
