-- ===== src/Reconciler/Validation/Laws.antt =====
-- What the checks of the reconciler's inputs establish.
use veritext.Prelude.{
  ◌≡◌, refl, ap, ◌⊎◌, Text, false, not, Option, none, some, List, [], ◌∷◌, map, keep_if, has_items,
  contains, has_duplicates, list_eq, nat_eq, list_beq, list_beq_iff, All, All-map_imp, IsAmong, ok,
  ◌>>=◌, ◌>>◌, raise_if, or_raise, or_raise-eq-ok, check_all, check_all-All, >>=-eq-ok,
  raise_if-eq-ok, not-false, ok-injective, codes, reconciler_error,
}
use veritext.Contracts.Candidates.{ExtractionPlan, LensCandidate, is_none}
use veritext.Contracts.Reports.{CriticReport, VerifierReport}
use veritext.Contracts.Reviews.{accept_loop-keep_if, fresh, report_of, report_of-IsAmong}
use veritext.Verifier.Validation.{is_other_correction}
use veritext.Verifier.Validation.Laws.{is_other_correction-cases}
use veritext.Reconciler.Validation.{
  accepted_critic_reports_by_candidate_id, accepted_verifier_reports_by_candidate_id,
  check_accepted, check_identities, validate_reconciler_inputs,
}

-- A candidate that both reviews accept.
pub record Passed (critics : List CriticReport) (verifiers : List VerifierReport)
    (c : LensCandidate) : Type 0 where
  pub critic_report : CriticReport
  pub critic_among : IsAmong critic_report critics
  pub critic_of : critic_report.candidate_id ≡ c.candidate_id
  pub correction :
      (critic_report.corrected_candidate ≡ none) ⊎ (critic_report.corrected_candidate ≡ some c)
  pub verifier_report : VerifierReport
  pub verifier_among : IsAmong verifier_report verifiers
  pub verifier_of : verifier_report.candidate_id ≡ c.candidate_id

found_report : (o : Option VerifierReport) → is_none o ≡ false → (r : VerifierReport) × (o ≡ some r)
found_report none e = cc
found_report (some r) e = (r, refl)

check_accepted-Passed :
    (critics : List CriticReport) (verifiers : List VerifierReport) (c : LensCandidate)
    → check_accepted critics verifiers c ≡ ok tt
    → Passed critics verifiers c
unfolding check_accepted
check_accepted-Passed critics verifiers c e =
    let critic = report_of (λ r. r.candidate_id) critics c.candidate_id in
    let verifier = report_of (λ r. r.candidate_id) verifiers c.candidate_id in
    let (report, known, r1) =
      >>=-eq-ok
        (or_raise critic (
          reconciler_error
            (codes "candidate must have an accepted critic report before reconciliation")))
        (λ report.
          raise_if (is_other_correction report.corrected_candidate c)
            (reconciler_error (codes "candidate must match the accepted critic correction"))
          >> raise_if (is_none verifier) (
              reconciler_error
                (codes "candidate must have an accepted verifier report before reconciliation")))
        e in
    let (u, same, r2) =
      >>=-eq-ok (raise_if (is_other_correction report.corrected_candidate c) _) _ r1 in
    let (among, named) =
      report_of-IsAmong (λ r. r.candidate_id) critics c.candidate_id
        (or_raise-eq-ok critic _ known) in
    let (verified, found) = found_report verifier (raise_if-eq-ok (is_none verifier) _ r2) in
    let (listed, of) = report_of-IsAmong (λ r. r.candidate_id) verifiers c.candidate_id found in
    record {
      critic_report = report;
      critic_among = among;
      critic_of = named;
      correction =
          is_other_correction-cases report.corrected_candidate c
            (raise_if-eq-ok (is_other_correction report.corrected_candidate c) _ same);
      verifier_report = verified;
      verifier_among = listed;
      verifier_of = of;
    }

check_identities-distinct :
    (plan : ExtractionPlan) (seen : List Text) (cs : List LensCandidate)
    → check_identities plan seen cs ≡ ok tt
    → (has_duplicates (map (λ c. c.candidate_id) cs) ≡ false)
      × All (λ c. (c.run_id ≡ plan.run_id) × (c.doc_id ≡ plan.doc_id)) cs
      × All (λ c. contains seen c.candidate_id ≡ false) cs
unfolding check_identities has_duplicates
check_identities-distinct plan seen [] e = (refl, tt, tt)
check_identities-distinct plan seen (c ∷ cs) e =
    let (u, run, r1) = >>=-eq-ok (raise_if (not (list_beq c.run_id plan.run_id)) _) _ e in
    let (v, doc, r2) = >>=-eq-ok (raise_if (not (list_beq c.doc_id plan.doc_id)) _) _ r1 in
    let (w, new, rest) = >>=-eq-ok (raise_if (contains seen c.candidate_id) _) _ r2 in
    let (once, identities, news) = check_identities-distinct plan (c.candidate_id ∷ seen) cs rest in
    let (single, old) = fresh (λ c. c.candidate_id) c.candidate_id seen cs news in
    (
      rw (single, once) refl,
      (
        (
          (list_beq_iff c.run_id plan.run_id).0
              (not-false (raise_if-eq-ok (not (list_beq c.run_id plan.run_id)) _ run)),
          (list_beq_iff c.doc_id plan.doc_id).0
              (not-false (raise_if-eq-ok (not (list_beq c.doc_id plan.doc_id)) _ doc)),
        ),
        identities,
      ),
      (raise_if-eq-ok (contains seen c.candidate_id) _ new, old),
    )

-- Inputs that the reconciler takes: the candidates are of the plan's run and document and have
-- different ids, the reports that it goes on with are the accepted ones, of different
-- candidates, and each candidate has one of the critic, whose correction, if there is one, is the
-- candidate itself, and one of the verifier.
pub validate_reconciler_inputs-Passed :
    (plan : ExtractionPlan) (candidates : List LensCandidate) (critic_reports : List CriticReport)
    (verifier_reports : List VerifierReport) {critics : List CriticReport}
    {verifiers : List VerifierReport}
    → validate_reconciler_inputs plan candidates critic_reports verifier_reports
      ≡ ok (critics, verifiers)
    → (has_duplicates (map (λ c. c.candidate_id) candidates) ≡ false)
      × All (λ c. (c.run_id ≡ plan.run_id) × (c.doc_id ≡ plan.doc_id)) candidates
      × (critics ≡ keep_if (λ r. r.accepted) critic_reports)
      × (verifiers ≡ keep_if (λ r. r.accepted) verifier_reports)
      × (has_duplicates (map (λ r. r.candidate_id) critics) ≡ false)
      × (has_duplicates (map (λ r. r.candidate_id) verifiers) ≡ false)
      × All (Passed critics verifiers) candidates
unfolding validate_reconciler_inputs accepted_critic_reports_by_candidate_id
    accepted_verifier_reports_by_candidate_id
validate_reconciler_inputs-Passed plan candidates critic_reports verifier_reports
      {critics = critics} {verifiers = verifiers} e =
    let first = accepted_critic_reports_by_candidate_id plan critic_reports in
    let second = accepted_verifier_reports_by_candidate_id plan verifier_reports in
    let (u, some_items, r1) = >>=-eq-ok (raise_if (not (has_items candidates)) _) _ e in
    let (v, identities, r2) = >>=-eq-ok (check_identities plan [] candidates) _ r1 in
    let (cs, critic, r3) =
      >>=-eq-ok first
        (λ cs. second >>= λ vs. check_all (check_accepted cs vs) candidates >> ok (cs, vs)) r2 in
    let (vs, verifier, r4) =
      >>=-eq-ok second (λ vs. check_all (check_accepted cs vs) candidates >> ok (cs, vs)) r3 in
    let (w, checked, done) = >>=-eq-ok (check_all (check_accepted cs vs) candidates) _ r4 in
    let (once, same, news) = check_identities-distinct plan [] candidates identities in
    let (ours, runs, fresh_ones, distinct) =
      accept_loop-keep_if (λ r. r.candidate_id) (λ r. r.run_id) (λ r. r.accepted) _ _ plan.run_id []
        critic_reports critic in
    let (theirs, all, fresh_twos, different) =
      accept_loop-keep_if (λ r. r.candidate_id) (λ r. r.run_id) (λ r. r.accepted) _ _ plan.run_id []
        verifier_reports verifier in
    let passed =
      All-map_imp (λ c. check_accepted cs vs c ≡ ok tt) (Passed cs vs) candidates
        (check_accepted-Passed cs vs) (check_all-All (check_accepted cs vs) candidates checked) in
    let pair = ok-injective done in
    let a : cs ≡ critics = ap (λ p. p.0) pair in
    let b : vs ≡ verifiers = ap (λ p. p.1) pair in
    rw (← a, ← b) (once, same, ours, theirs, distinct, different, passed)
