-- ===== src/Executor/Validation/Laws.antt =====
-- What the executor's checks of its inputs admit.
use veritext.Prelude.{
  sym, ◌∙◌, none, ℕ, ◌≤◌, ◌≡◌, ◌↔◌, refl, inl, inr, false, some, List, length, ltb, list_beq_iff,
  nat_eq, le→ltb_false, ltb_false→le, Option-cases, ok, raise_if, raise_if-eq-ok, check_all,
  check_all-All, All-check_all, All, All-map_imp, >>=-eq-ok, arith,
}
use veritext.Contracts.Spans.{Chunk}
use veritext.Contracts.Candidates.{ExtractionPlan, LensName}
use veritext.Executor.Validation.Budgets.{LastBudget, max_calls_iff}
use veritext.Executor.Validation.{
  check_budget, check_document, max_calls, validate_executor_inputs, without_chunks,
}

-- A lens whose last budget permits as many calls as there are chunks, at least.
abbrev pub HasBudget : ExtractionPlan → ℕ → LensName → Type 0
HasBudget plan chunks lens =
    (calls : ℕ) × LastBudget plan.lens_budgets lens calls × (chunks ≤ calls)

check_budget-HasBudget :
    (plan : ExtractionPlan) (chunks : ℕ) (lens : LensName)
    → (check_budget plan chunks lens ≡ ok tt) ↔ HasBudget plan chunks lens
unfolding check_budget
check_budget-HasBudget plan chunks lens =
    let budget = max_calls_iff plan.lens_budgets lens in
    elim (Option-cases (max_calls plan.lens_budgets lens)) [
      | inl missing ↦ rw missing (
        λ e. absurd cc,
        λ (calls, last, enough). absurd (none≢some (sym missing ∙ (budget calls).1 last)),
      )
      | inr (calls, found) ↦ rw found (
        λ e. (
          calls,
          (budget calls).0 found,
          ltb_false→le calls chunks (raise_if-eq-ok (ltb calls chunks) _ e),
        ),
        λ (others, last, enough).
            let equal : calls ≡ others = some-injective (sym found ∙ (budget others).1 last) in
            rw (le→ltb_false calls chunks (rw equal enough)) refl,
      )
    ]
  where
    none≢some : {a : ℕ} → none ≡ some a → ⊥
    none≢some e = cc

    some-injective : {a b : ℕ} → some a ≡ some b → a ≡ b
    some-injective e = cc

check_document_iff :
    (plan : ExtractionPlan) (chunk : Chunk)
    → (check_document plan chunk ≡ ok tt) ↔ (chunk.doc_id ≡ plan.doc_id)
unfolding check_document
check_document_iff plan chunk =
    let d = list_beq_iff chunk.doc_id plan.doc_id in
    (λ e. d.0 (ground arith), λ same. rw (d.1 same) refl)

-- The executor's inputs pass exactly when there is a chunk at least, each is of the plan's
-- document, and the last budget of each enabled lens permits a call for each chunk. A lens
-- without a budget does not pass.
pub validate_executor_inputs_iff :
    (plan : ExtractionPlan) (chunks : List Chunk)
    → (validate_executor_inputs plan chunks ≡ ok tt) ↔ (
        (without_chunks chunks ≡ false)
        × All (λ chunk. chunk.doc_id ≡ plan.doc_id) chunks
        × All (HasBudget plan (length chunks)) plan.enabled_lenses)
unfolding validate_executor_inputs
validate_executor_inputs_iff plan chunks = (
  λ e.
      let (a, some_chunks, more) = >>=-eq-ok (raise_if (without_chunks chunks) _) _ e in
      let (b, documents, budgets) = >>=-eq-ok (check_all (check_document plan) chunks) _ more in
      (
        raise_if-eq-ok (without_chunks chunks) _ some_chunks,
        All-map_imp _ (λ chunk. chunk.doc_id ≡ plan.doc_id) chunks
            (λ chunk. (check_document_iff plan chunk).0)
            (check_all-All (check_document plan) chunks documents),
        All-map_imp _ (HasBudget plan (length chunks)) plan.enabled_lenses
            (λ lens. (check_budget-HasBudget plan (length chunks) lens).0)
            (check_all-All (check_budget plan (length chunks)) plan.enabled_lenses budgets),
      ),
  λ (some_chunks, documents, budgets).
      rw
        (
          some_chunks,
          All-check_all (check_document plan) chunks (
              All-map_imp _ (λ chunk. check_document plan chunk ≡ ok tt) chunks
                (λ chunk. (check_document_iff plan chunk).1) documents),
          All-check_all (check_budget plan (length chunks)) plan.enabled_lenses (
              All-map_imp _ (λ lens. check_budget plan (length chunks) lens ≡ ok tt)
                plan.enabled_lenses (λ lens. (check_budget-HasBudget plan (length chunks) lens).1)
                budgets),
        )
        refl,
)
