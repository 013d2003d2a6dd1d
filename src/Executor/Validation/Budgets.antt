-- ===== src/Executor/Validation/Budgets.antt =====
-- The budget of a lens: of budgets for one lens the last one counts.
use veritext.Prelude.{
  ℕ, ◌≡◌, ◌↔◌, refl, sym, ap, ◌∙◌, inl, inr, Text, true, false, none, some, List, [], ◌∷◌, ◌++◌,
  list_beq, list_beq_iff, nat_eq, list_eq, codes, All, Bool-cases, Option-cases, if◌then◌else◌,
}
use mathlib.Core.Path.{subst}
use veritext.Contracts.Candidates.{LensBudget, LensName}
use veritext.Executor.Materialization.{lens_text}
use veritext.Executor.Validation.{max_calls, same_lens}

-- The lens with a name.
lens_of : Text → LensName
unfolding list_beq
lens_of text =
    if list_beq text (codes "entity")
    then LensName.entity
    else if list_beq text (codes "event")
    then LensName.event
    else if list_beq text (codes "claim")
    then LensName.claim
    else if list_beq text (codes "number")
    then LensName.number
    else if list_beq text (codes "definition")
    then LensName.definition
    else if list_beq text (codes "citation")
    then LensName.citation
    else if list_beq text (codes "temporal")
    then LensName.temporal
    else LensName.quantity_with_unit

lens_of-lens_text : (lens : LensName) → lens_of (lens_text lens) ≡ lens
unfolding lens_of lens_text
lens_of-lens_text LensName.entity = refl
lens_of-lens_text LensName.event = refl
lens_of-lens_text LensName.claim = refl
lens_of-lens_text LensName.number = refl
lens_of-lens_text LensName.definition = refl
lens_of-lens_text LensName.citation = refl
lens_of-lens_text LensName.temporal = refl
lens_of-lens_text LensName.quantity_with_unit = refl

same_lens_iff : (a b : LensName) → (same_lens a b ≡ true) ↔ (a ≡ b)
unfolding same_lens
same_lens_iff a b = (
  λ e.
      sym (lens_of-lens_text a)
      ∙ ap lens_of ((list_beq_iff (lens_text a) (lens_text b)).0 e)
      ∙ lens_of-lens_text b,
  λ e. (list_beq_iff (lens_text a) (lens_text b)).1 (ap lens_text e),
)

-- The last budget of a lens in a list: it is for the lens, and none after it is.
pub record LastBudget (budgets : List LensBudget) (lens : LensName) (calls : ℕ) : Type 0 where
  pub before : List LensBudget
  pub budget : LensBudget
  pub after : List LensBudget
  pub split : budgets ≡ before ++ (budget ∷ after)
  pub of_lens : budget.lens ≡ lens
  pub last : All (λ b. b.lens ≡ lens → ⊥) after
  pub permits : budget.max_calls ≡ calls

max_calls-none :
    (budgets : List LensBudget) (lens : LensName)
    → (max_calls budgets lens ≡ none) ↔ All (λ b. b.lens ≡ lens → ⊥) budgets
unfolding max_calls
max_calls-none [] lens = (λ e. tt, λ h. refl)
max_calls-none (budget ∷ budgets) lens =
    let same = same_lens_iff budget.lens lens in
    let rest = max_calls-none budgets lens in
    elim (Option-cases (max_calls budgets lens)) [
      | inr (calls, found) ↦
          rw found (λ e. absurd cc, λ h. absurd (clash (sym (rest.1 h.1) ∙ found)))
      | inl missing ↦ elim (Bool-cases (same_lens budget.lens lens)) [
        | inl here ↦ rw (missing, here) (λ e. absurd cc, λ h. absurd (h.0 (same.0 here)))
        | inr other ↦
            rw (missing, other)
              (λ e. (λ equal. differs (sym (same.1 equal) ∙ other), rest.0 missing), λ h. refl)
      ]
    ]
  where
    clash : {calls : ℕ} → none ≡ some calls → ⊥
    clash e = cc

    differs : true ≡ false → ⊥
    differs e = cc

max_calls-LastBudget :
    (budgets : List LensBudget) (lens : LensName) {calls : ℕ}
    → max_calls budgets lens ≡ some calls
    → LastBudget budgets lens calls
unfolding max_calls
max_calls-LastBudget [] lens e = cc
max_calls-LastBudget (budget ∷ budgets) lens {calls} e =
    elim (Option-cases (max_calls budgets lens)) [
      | inr (later, found) ↦
          let b = max_calls-LastBudget budgets lens (found ∙ rw found at e) in
          record {
            before = budget ∷ b.before;
            budget = b.budget;
            after = b.after;
            split = ap (λ l. budget ∷ l) b.split;
            of_lens = b.of_lens;
            last = b.last;
            permits = b.permits;
          }
      | inl missing ↦ elim (Bool-cases (same_lens budget.lens lens)) [
        | inl here ↦ record {
          before = [];
          budget = budget;
          after = budgets;
          split = refl;
          of_lens = (same_lens_iff budget.lens lens).0 here;
          last = (max_calls-none budgets lens).0 missing;
          permits = some-injective (rw (missing, here) at e);
        }
        | inr other ↦ absurd (cc (rw (missing, other) at e))
      ]
    ]
  where
    some-injective : {a b : ℕ} → some a ≡ some b → a ≡ b
    some-injective h = cc

LastBudget-max_calls :
    (before : List LensBudget) (budget : LensBudget) (after : List LensBudget)
    → All (λ b. b.lens ≡ budget.lens → ⊥) after
    → max_calls (before ++ (budget ∷ after)) budget.lens ≡ some budget.max_calls
unfolding max_calls
LastBudget-max_calls [] budget after last =
    rw ((max_calls-none after budget.lens).1 last, (same_lens_iff budget.lens budget.lens).1 refl)
      refl
LastBudget-max_calls (b ∷ before) budget after last =
    rw (LastBudget-max_calls before budget after last) refl

pub max_calls_iff :
    (budgets : List LensBudget) (lens : LensName) (calls : ℕ)
    → (max_calls budgets lens ≡ some calls) ↔ LastBudget budgets lens calls
max_calls_iff budgets lens calls = (
  max_calls-LastBudget budgets lens,
  λ b.
      ap (λ l. max_calls l lens) b.split
      ∙ ap (max_calls (b.before ++ (b.budget ∷ b.after))) (sym b.of_lens)
      ∙ LastBudget-max_calls b.before b.budget b.after
          (subst (λ k. All (λ x. x.lens ≡ k → ⊥) b.after) (sym b.of_lens) b.last)
      ∙ ap some b.permits,
)
