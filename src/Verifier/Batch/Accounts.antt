-- ===== src/Verifier/Batch/Accounts.antt =====
-- What the review of one candidate gives, and how the results add up.
use veritext.Prelude.{
  map-append, ◌≡◌, refl, sym, ap, ◌∙◌, inl, inr, Text, not, some, List, [], ◌∷◌, ◌++◌, map,
  has_items, Perm, exchange, flatten, All, All-append, Pairs, ok, raise_if, ok-injective, >>=-eq-ok,
  Bool-cases, Option-cases, if◌then◌else◌, check_all,
}
use mathlib.Core.Path.{subst}
use mathlib.Core.List.Perm
use veritext.Contracts.Spans.{Chunk}
use veritext.Contracts.Candidates.{ExtractionPlan, LensCandidate, require_text}
use veritext.Contracts.Reports.{
  CandidateRejection, RejectionStage, VerifierReport, validate_candidate_rejection,
}
use veritext.Verifier.Policies.{build_verifier_report, stable_rejection_id}
use veritext.Verifier.Verdicts.{VerifierVerdict}
use veritext.Verifier.Policies.Laws.{Grounded}
use veritext.Verifier.Policies.Acceptance.{build_verifier_report-accepted}
use veritext.Verifier.Batch.{
  VerifierTaskResult, add_results, all_results, no_result, reject, review_candidate, review_missing,
  short_candidate_id, verdict_of,
}

-- A result that accounts for candidates: each is accepted or rejected, the accepted ones have a
-- property, and each rejection is that of a rejected candidate.
pub record Accounts (Good : LensCandidate → Type 0) (candidates : List LensCandidate)
    (r : VerifierTaskResult) : Type 0 where
  pub all : Perm (r.accepted_candidates ++ r.rejected_candidates) candidates
  pub good : All Good r.accepted_candidates
  pub rejections :
      map (λ j. j.candidate_id) r.rejections ≡ map (λ c. c.candidate_id) r.rejected_candidates

module _ (Good : LensCandidate → Type 0) where
  pub no_result-Accounts : Accounts Good [] no_result
  no_result-Accounts = record { all = Perm.refl []; good = tt; rejections = refl }

  add_results-Accounts :
      (xs ys : List LensCandidate) (r s : VerifierTaskResult)
      → Accounts Good xs r
      → Accounts Good ys s
      → Accounts Good (xs ++ ys) (add_results r s)
  add_results-Accounts xs ys r s a b = record {
    all =
        Perm.trans
          (exchange r.accepted_candidates s.accepted_candidates r.rejected_candidates
            s.rejected_candidates)
          (Perm.append a.all b.all);
    good = All-append Good r.accepted_candidates s.accepted_candidates a.good b.good;
    rejections =
        map-append (λ j. j.candidate_id) r.rejections s.rejections
        ∙ ap (λ l. l ++ map (λ j. j.candidate_id) s.rejections) a.rejections
        ∙ ap (λ l. map (λ c. c.candidate_id) r.rejected_candidates ++ l) b.rejections
        ∙ sym (map-append (λ c. c.candidate_id) r.rejected_candidates s.rejected_candidates);
  }

  -- The results of candidates, or of batches, one by one.
  pub all_results-Accounts :
      {A : Type 0} (candidates_of : A → List LensCandidate) (xs : List A)
      (rs : List VerifierTaskResult)
      → Pairs (λ x r. Accounts Good (candidates_of x) r) xs rs
      → Accounts Good (flatten (map candidates_of xs)) (all_results rs)
  all_results-Accounts candidates_of [] [] h = no_result-Accounts
  all_results-Accounts candidates_of [] (r ∷ rs) h = absurd h
  all_results-Accounts candidates_of (x ∷ xs) [] h = absurd h
  all_results-Accounts candidates_of (x ∷ xs) (r ∷ rs) h =
      add_results-Accounts (candidates_of x) (flatten (map candidates_of xs)) r (all_results rs) h.0
        (all_results-Accounts candidates_of xs rs h.1)

-- A check that passes gives back the rejection.
pub validate_candidate_rejection-same :
    (rejection : CandidateRejection) {r : CandidateRejection}
    → validate_candidate_rejection rejection ≡ ok r
    → rejection ≡ r
unfolding validate_candidate_rejection
validate_candidate_rejection-same rejection e =
    let (u, first, rest) =
      >>=-eq-ok
        (check_all require_text
          (rejection.rejection_id ∷ rejection.run_id ∷ rejection.candidate_id ∷ []))
        _ e in
    let (v, second, done) = >>=-eq-ok (raise_if (not (has_items rejection.reasons)) _) _ rest in
    ok-injective done

module _ (casefold lower sha256 : Text → Text) where
  reject-Accounts :
      (Good : LensCandidate → Type 0) (plan : ExtractionPlan) (candidate : LensCandidate)
      (report : VerifierReport) {r : VerifierTaskResult}
      → reject casefold lower sha256 plan candidate report ≡ ok r
      → Accounts Good (candidate ∷ []) r
  unfolding reject
  reject-Accounts Good plan candidate report e =
      let made : CandidateRejection = record {
        rejection_id = stable_rejection_id sha256 candidate report;
        run_id = plan.run_id;
        candidate_id = candidate.candidate_id;
        stage = RejectionStage.verifier;
        reasons = report.rejection_reasons;
      } in
      let (rejection, valid, done) =
        >>=-eq-ok (validate_candidate_rejection made)
          (λ rejection. ok (record {
            accepted_candidates = [];
            rejected_candidates = candidate ∷ [];
            reports = report ∷ [];
            rejections = rejection ∷ [];
          }))
          e in
      subst (Accounts Good (candidate ∷ [])) (ok-injective done) (record {
        all = Perm.refl (candidate ∷ []);
        good = tt;
        rejections =
            ap (λ j. j.candidate_id ∷ []) (sym (validate_candidate_rejection-same made valid));
      })

  review_missing-raises :
      (plan : ExtractionPlan) (candidate : LensCandidate) (call_id : Text) {r : VerifierTaskResult}
      → review_missing casefold lower sha256 plan candidate call_id ≡ ok r
      → ⊥
  unfolding review_missing
  review_missing-raises plan candidate call_id e = cc

  -- A candidate that is reviewed has a verdict, and it is accepted if it is grounded in the chunk.
  pub review_candidate-Accounts :
      (Good : LensCandidate → Type 0) (plan : ExtractionPlan) (chunk : Chunk)
      (verdicts : List VerifierVerdict) (call_id : Text) (candidate : LensCandidate)
      {r : VerifierTaskResult}
      → (Grounded casefold plan chunk candidate → Good candidate)
      → review_candidate casefold lower sha256 plan chunk verdicts call_id candidate ≡ ok r
      → ((verdict : VerifierVerdict) × (verdict_of verdicts
              (short_candidate_id casefold lower sha256 candidate.candidate_id)
            ≡ some verdict))
        × Accounts Good (candidate ∷ []) r
  unfolding review_candidate
  review_candidate-Accounts Good plan chunk verdicts call_id candidate imply e =
      let found =
        verdict_of verdicts (short_candidate_id casefold lower sha256 candidate.candidate_id) in
      elim (Option-cases found) [
        | inl missing ↦
            absurd
              (review_missing-raises plan candidate call_id (rw (missing, review_candidate) at e))
        | inr (verdict, given) ↦
            let (report, made, rest) =
              >>=-eq-ok (build_verifier_report casefold sha256 plan chunk candidate verdict call_id)
                (λ report.
                  if report.accepted
                  then ok (record {
                    accepted_candidates = candidate ∷ [];
                    rejected_candidates = [];
                    reports = report ∷ [];
                    rejections = [];
                  })
                  else reject casefold lower sha256 plan candidate report)
                (rw (given, review_candidate) at e) in
            (
              (verdict, given),
              elim (Bool-cases report.accepted) [
                | inl accepted ↦
                    subst (Accounts Good (candidate ∷ [])) (ok-injective (rw accepted at rest))
                      (record {
                        all = Perm.refl (candidate ∷ []);
                        good = (
                          imply
                              ((build_verifier_report-accepted casefold sha256 plan chunk candidate
                                  verdict call_id made).0
                                accepted).0,
                          tt,
                        );
                        rejections = refl;
                      })
                | inr rejected ↦ reject-Accounts Good plan candidate report (rw rejected at rest)
              ],
            )
      ]
