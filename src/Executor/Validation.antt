-- ===== src/Executor/Validation.antt =====
-- The checks of the executor's inputs (`validate_executor_inputs`,
-- src/extractor/executor/validation.py).
pub mod Budgets
pub mod Laws
use veritext.Prelude.{
  ℕ, Text, Bool, true, false, not, Option, none, some, List, [], ◌∷◌, ◌++◌, length, ltb, ◌==◌,
  nat_eq, list_beq, decimal, codes, Result, ok, err, executor_error, key_error, ◌>>=◌, ◌>>◌,
  raise_if, or_raise, check_all, if◌then◌else◌,
}
use veritext.Contracts.Spans.{Chunk}
use veritext.Contracts.Candidates.{ExtractionPlan, LensBudget, LensName}
use veritext.Executor.Materialization.{lens_text}

-- Equality of lenses, which the source compares as strings.
pub same_lens : LensName → LensName → Bool
unfolding lens_text list_beq
same_lens a b = list_beq (lens_text a) (lens_text b)

-- `budgets[lens]`; of budgets for one lens the last counts.
unfoldable pub max_calls : List LensBudget → LensName → Option ℕ
unfolding same_lens
max_calls [] lens = none
max_calls (budget ∷ budgets) lens = elim (max_calls budgets lens) [
  | some later ↦ some later
  | none ↦ if same_lens budget.lens lens then some budget.max_calls else none
]

pub check_document : ExtractionPlan → Chunk → Result (Unit {0})
unfolding list_beq
check_document plan chunk =
    raise_if (not (list_beq chunk.doc_id plan.doc_id))
      (executor_error (codes "chunk doc_id must match extraction plan doc_id"))

budget_message : LensName → ℕ → ℕ → Text
unfolding lens_text decimal
budget_message lens calls chunks =
    codes "executor budget for lens "
    ++ (lens_text lens
        ++ (codes " permits "
            ++ (decimal calls
                ++ (codes " calls, but "
                    ++ (decimal chunks ++ codes " chunks require execution")))))

pub check_budget : ExtractionPlan → ℕ → LensName → Result (Unit {0})
unfolding max_calls budget_message
check_budget plan chunks lens = do
  calls ← or_raise (max_calls plan.lens_budgets lens) key_error
  raise_if (ltb calls chunks) (executor_error (budget_message lens calls chunks))

abbrev pub without_chunks : List Chunk → Bool
without_chunks [] = true
without_chunks (chunk ∷ chunks) = false

unfoldable pub validate_executor_inputs : ExtractionPlan → List Chunk → Result (Unit {0})
unfolding check_document check_budget check_all
validate_executor_inputs plan chunks = do
  raise_if (without_chunks chunks) (executor_error (codes "executor requires at least one chunk"))
  check_all (check_document plan) chunks
  check_all (check_budget plan (length chunks)) plan.enabled_lenses
