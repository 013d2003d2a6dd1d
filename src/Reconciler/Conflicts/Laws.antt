-- ===== src/Reconciler/Conflicts/Laws.antt =====
-- What the marks of conflicts keep.
use veritext.Prelude.{
  ◌≡◌, refl, sym, ap, ◌∙◌, ◌⊎◌, inl, inr, Text, Option, none, some, List, [], ◌∷◌, ◌++◌, map,
  flatten, has_items, group_by, All, Bool-cases,
}
use mathlib.Core.Path.{ap₂, subst}
use veritext.Contracts.Reports.{ConflictStatus, DataPoint}
use veritext.Reconciler.Conflicts.{
  conflict_updates, mark, mark_unresolved_conflicts, same_field, update_of,
}

-- A data point as it is before it is marked.
abbrev pub without_conflict : DataPoint → DataPoint
without_conflict point = record point {
  conflict_status = ConflictStatus.no_conflict;
  conflict_group_id = none;
  conflict_reason = none;
}

mark-without_conflict :
    (o : Option Text) (point : DataPoint) → without_conflict (mark o point) ≡ without_conflict point
unfolding mark
mark-without_conflict none point = refl
mark-without_conflict (some id) point = refl

abbrev pub contributed : List DataPoint → List Text
contributed points = flatten (map (λ p. p.contributing_candidate_ids) points)

module _ (f : DataPoint → Option Text) where
  all_marked : List DataPoint → List DataPoint
  all_marked points = map (λ p. mark (f p) p) points

  all_marked-contributed :
      (points : List DataPoint) → contributed (all_marked points) ≡ contributed points
  unfolding all_marked mark
  all_marked-contributed [] = refl
  all_marked-contributed (p ∷ points) =
      ap₂ (λ a b. a ++ b) (same (f p) p) (all_marked-contributed points)
    where
      same :
          (o : Option Text) (p : DataPoint)
          → (mark o p).contributing_candidate_ids ≡ p.contributing_candidate_ids
      same none p = refl
      same (some id) p = refl

  all_marked-without_conflict :
      (points : List DataPoint)
      → map without_conflict (all_marked points) ≡ map without_conflict points
  unfolding all_marked
  all_marked-without_conflict [] = refl
  all_marked-without_conflict (p ∷ points) =
      ap₂ (λ a b. a ∷ b) (mark-without_conflict (f p) p) (all_marked-without_conflict points)

  all_marked-All :
      (P : DataPoint → Type 0)
      → ((p : DataPoint) (id : Text) → P p → P (mark (some id) p))
      → (points : List DataPoint) → All P points
      → All P (all_marked points)
  unfolding all_marked mark
  all_marked-All P keep [] h = tt
  all_marked-All P keep (p ∷ points) h = (kept (f p) h.0, all_marked-All P keep points h.1)
    where
      kept : {p : DataPoint} (o : Option Text) → P p → P (mark o p)
      kept none h = h
      kept {p = p} (some id) h = keep p id h

module _ (nfkc casefold sha256 : Text → Text) where
  mark_unresolved_conflicts-cases :
      (points : List DataPoint)
      → (mark_unresolved_conflicts nfkc casefold sha256 points ≡ points)
        ⊎ ((f : DataPoint → Option Text) × (mark_unresolved_conflicts nfkc casefold sha256 points
              ≡ all_marked f points))
  unfolding mark_unresolved_conflicts all_marked
  mark_unresolved_conflicts-cases points =
      let updates = conflict_updates nfkc casefold sha256 (group_by same_field points) in
      elim (Bool-cases (has_items updates)) [
        | inl some_updates ↦ inr (λ p. update_of updates p.data_point_id, rw some_updates refl)
        | inr no_updates ↦ inl (rw no_updates refl)
      ]

  -- The marks change the conflict fields of data points and nothing else: without these fields
  -- the data points are those that were given, in their order.
  pub mark_unresolved_conflicts-without_conflict :
      (points : List DataPoint)
      → map without_conflict (mark_unresolved_conflicts nfkc casefold sha256 points)
        ≡ map without_conflict points
  mark_unresolved_conflicts-without_conflict points =
      elim (mark_unresolved_conflicts-cases points) [
        | inl same ↦ ap (map without_conflict) same
        | inr (f, same) ↦ ap (map without_conflict) same ∙ all_marked-without_conflict f points
      ]

  pub mark_unresolved_conflicts-contributed :
      (points : List DataPoint)
      → contributed (mark_unresolved_conflicts nfkc casefold sha256 points) ≡ contributed points
  mark_unresolved_conflicts-contributed points = elim (mark_unresolved_conflicts-cases points) [
    | inl same ↦ ap contributed same
    | inr (f, same) ↦ ap contributed same ∙ all_marked-contributed f points
  ]

  pub mark_unresolved_conflicts-All :
      (P : DataPoint → Type 0)
      → ((p : DataPoint) (id : Text) → P p → P (mark (some id) p))
      → (points : List DataPoint) → All P points
      → All P (mark_unresolved_conflicts nfkc casefold sha256 points)
  mark_unresolved_conflicts-All P keep points h = elim (mark_unresolved_conflicts-cases points) [
    | inl same ↦ subst (All P) (sym same) h
    | inr (f, same) ↦ subst (All P) (sym same) (all_marked-All f P keep points h)
  ]
