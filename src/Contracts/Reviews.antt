-- ===== src/Contracts/Reviews.antt =====
-- The accepted reports of a review stage, by candidate: the loop that
-- src/extractor/verifier/validation.py and src/extractor/reconciler/validation.py share.
use veritext.Prelude.{
  ◌≡◌, refl, sym, ap, inl, inr, Text, Bool, false, ◌||◌, not, Option, none, some, List, [], ◌∷◌,
  map, keep_if, contains, has_duplicates, nat_eq, list_eq, list_beq, list_beq_iff, All, arith,
  Bool-cases, Error, Result, ok, ◌>>=◌, ◌>>◌, raise_if, ok-injective, not-false, >>=-eq-ok,
  raise_if-eq-ok, IsAmong, if◌then◌else◌,
}

module _ {R : Type 0} (candidate_id : R → Text) where
  -- `reports.get(id)`
  unfoldable pub report_of : List R → Text → Option R
  unfolding list_beq
  report_of [] id = none
  report_of (report ∷ reports) id =
      let rest = report_of reports id in
      if list_beq (candidate_id report) id then some report else rest

  pub report_of-IsAmong :
      (reports : List R) (id : Text) {r : R}
      → report_of reports id ≡ some r
      → IsAmong r reports × (candidate_id r ≡ id)
  unfolding report_of
  report_of-IsAmong [] id e = cc
  report_of-IsAmong (report ∷ reports) id {r = r} e =
      elim (Bool-cases (list_beq (candidate_id report) id)) [
        | inl same ↦
            let here : some report ≡ some r = rw same at e in
            let equal : r ≡ report = cc in
            let named = (list_beq_iff (candidate_id report) id).0 same in
            (inl equal, rw equal named)
        | inr other ↦
            let (among, named) = report_of-IsAmong reports id (rw other at e) in (inr among, named)
      ]

  beq_false : (a b : Text) → list_beq a b ≡ false → list_beq b a ≡ false
  beq_false a b e = elim (Bool-cases (list_beq b a)) [
    | inl same ↦
        let equal : b ≡ a = (list_beq_iff b a).0 same in
        let itself = (list_beq_iff a b).1 (sym equal) in absurd cc
    | inr other ↦ other
  ]

  -- Items that are not in a longer list of names have another name than its first.
  pub fresh :
      (name : Text) (seen : List Text) (rs : List R)
      → All (λ r. contains (name ∷ seen) (candidate_id r) ≡ false) rs
      → (contains (map candidate_id rs) name ≡ false)
        × All (λ r. contains seen (candidate_id r) ≡ false) rs
  unfolding contains
  fresh name seen [] h = (refl, tt)
  fresh name seen (r ∷ rs) h =
      let (rest, others) = fresh name seen rs h.1 in
      let (here, old) =
        or_false (list_beq name (candidate_id r)) (contains seen (candidate_id r)) h.0 in
      (rw (beq_false name (candidate_id r) here, rest) refl, (old, others))
    where
      or_false : (a b : Bool) → (a || b) ≡ false → (a ≡ false) × (b ≡ false)
      or_false a b e = (ground arith, ground arith)

module _ {R : Type 0} (candidate_id run_id : R → Text) (accepted : R → Bool) where
  -- `mismatch` is raised on a report of another run, `twice` on a second accepted report of a
  -- candidate; `seen` has the candidates that have one. The dict is the list of its values.
  unfoldable pub accept_loop : Error → Error → Text → List Text → List R → Result (List R)
  unfolding list_beq contains
  accept_loop mismatch twice run seen [] = ok []
  accept_loop mismatch twice run seen (report ∷ reports) =
      let skipped = accept_loop mismatch twice run seen reports in
      let added = accept_loop mismatch twice run (candidate_id report ∷ seen) reports in
      raise_if (not (list_beq (run_id report) run)) mismatch
      >> (if not (accepted report)
          then skipped
          else raise_if (contains seen (candidate_id report)) twice
            >> (added >>= λ rest. ok (report ∷ rest)))

  -- The reports that the loop gives are the accepted ones, of one run, of different candidates.
  pub accept_loop-keep_if :
      (mismatch twice : Error) (run : Text) (seen : List Text) (reports : List R) {out : List R}
      → accept_loop mismatch twice run seen reports ≡ ok out
      → (out ≡ keep_if accepted reports)
        × All (λ r. run_id r ≡ run) reports
        × All (λ r. contains seen (candidate_id r) ≡ false) out
        × (has_duplicates (map candidate_id out) ≡ false)
  unfolding accept_loop has_duplicates
  accept_loop-keep_if mismatch twice run seen [] e =
      let same = ok-injective e in rw (← same) (refl, tt, tt, refl)
  accept_loop-keep_if mismatch twice run seen (report ∷ reports) e =
      let named = list_beq_iff (run_id report) run in
      let (u, first, rest) =
        >>=-eq-ok (raise_if (not (list_beq (run_id report) run)) mismatch) _ e in
      let mine =
        named.0 (not-false (raise_if-eq-ok (not (list_beq (run_id report) run)) mismatch first)) in
      elim (Bool-cases (accepted report)) [
        | inr skip ↦
            let (same, runs, news, distinct) =
              accept_loop-keep_if mismatch twice run seen reports (rw skip at rest) in
            rw skip (same, (mine, runs), news, distinct)
        | inl take ↦
            let taken : (raise_if (contains seen (candidate_id report)) twice
                  >> (accept_loop mismatch twice run (candidate_id report ∷ seen) reports
                      >>= λ more. ok (report ∷ more)))
                ≡ ok _ =
              rw take at rest in
            let (v, second, next) =
              >>=-eq-ok (raise_if (contains seen (candidate_id report)) twice) _ taken in
            let (more, made, done) =
              >>=-eq-ok (accept_loop mismatch twice run (candidate_id report ∷ seen) reports)
                (λ more. ok (report ∷ more)) next in
            let (same, runs, news, distinct) =
              accept_loop-keep_if mismatch twice run (candidate_id report ∷ seen) reports made in
            let (single, old) = fresh candidate_id (candidate_id report) seen more news in
            rw (← ok-injective done, take)
              (
                ap (λ l. report ∷ l) same,
                (mine, runs),
                (raise_if-eq-ok (contains seen (candidate_id report)) twice second, old),
                rw (single, distinct) refl,
              )
      ]
