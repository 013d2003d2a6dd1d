-- ===== src/Prelude/Distinct.antt =====
-- The first occurrence of each item of a list.
use mathlib.Core.Path.{◌≡◌, refl, sym, ap, ◌∙◌}
use mathlib.Core.Logic.{inl, inr, ◌↔◌}
use mathlib.Core.Bool.{Bool, true, false, true≢false, ◌&&◌, ◌||◌, not}
use mathlib.Core.List.{List, [], ◌∷◌, ◌++◌}
use native.Mathlib.Omega.{arith}
use veritext.Prelude.Tests.{Bool-cases, HasEquality, ◌==◌, contains, has_duplicates, if◌then◌else◌}
use veritext.Prelude.Lists.{All, IsAmong, has_items}

module _ {A : Type 0} ⦃e : HasEquality A⦄ where
  -- `a in xs` is true of the members of a list, and of them alone.
  pub contains_iff : (xs : List A) (a : A) → (contains xs a ≡ true) ↔ IsAmong a xs
  unfolding contains
  contains_iff [] a = (λ h. absurd cc, λ h. absurd h)
  contains_iff (x ∷ xs) a = (
    λ h. elim (Bool-cases (x == a)) [
      | inl same ↦ inl (sym ((e.same_iff x a).0 same))
      | inr other ↦ inr ((contains_iff xs a).0 (rw other at h))
    ],
    λ h. elim h [
      | inl same ↦ first (x == a) (contains xs a) ((e.same_iff x a).1 (sym same))
      | inr later ↦ second (x == a) (contains xs a) ((contains_iff xs a).1 later)
    ],
  )
    where
      first : (same rest : Bool) → same ≡ true → (same || rest) ≡ true
      first same rest k = ground arith

      second : (same rest : Bool) → rest ≡ true → (same || rest) ≡ true
      second same rest k = ground arith

  pub All-contains :
      (xs ys : List A)
      → ((a : A) → contains xs a ≡ true → contains ys a ≡ true)
      → All (λ x. contains ys x ≡ true) xs
  unfolding contains
  All-contains [] ys h = tt
  All-contains (x ∷ xs) ys h =
      let itself = (e.same_iff x x).1 refl in
      (
        h x (first (x == x) (contains xs x) itself),
        All-contains xs ys (λ a k. h a (later (x == a) (contains xs a) k)),
      )
    where
      first : (same rest : Bool) → same ≡ true → (same || rest) ≡ true
      first same rest k = ground arith

      later : (same rest : Bool) → rest ≡ true → (same || rest) ≡ true
      later same rest k = ground arith

  -- The items that are not in `seen`, each where it first comes up.
  unfoldable pub distinct_from : List A → List A → List A
  unfolding contains
  distinct_from seen [] = []
  distinct_from seen (x ∷ xs) =
      let skipped = distinct_from seen xs in
      let added = x ∷ distinct_from (x ∷ seen) xs in if contains seen x then skipped else added

  contains-same : (xs : List A) (x a : A) → (x == a) ≡ true → contains xs a ≡ contains xs x
  contains-same xs x a same = ap (contains xs) (sym ((e.same_iff x a).0 same))

  pub contains-distinct_from :
      (seen xs : List A) (a : A)
      → contains (distinct_from seen xs) a ≡ (contains xs a && not (contains seen a))
  unfolding distinct_from contains
  contains-distinct_from seen [] a = refl
  contains-distinct_from seen (x ∷ xs) a =
      let same = contains-same seen x a in
      let later = contains-distinct_from (x ∷ seen) xs a in
      elim (Bool-cases (contains seen x)) [
        | inl old ↦
            rw (old, contains-distinct_from seen xs a)
              (known (x == a) (contains xs a) (contains seen a) (λ h. same h ∙ old))
        | inr new ↦
            rw (new, later) (fresh (x == a) (contains xs a) (contains seen a) (λ h. same h ∙ new))
      ]
    where
      known :
          (same rest seen : Bool)
          → (same ≡ true → seen ≡ true)
          → (rest && not seen) ≡ ((same || rest) && not seen)
      known same rest seen h = ground arith

      fresh :
          (same rest seen : Bool)
          → (same ≡ true → seen ≡ false)
          → (same || (rest && not (same || seen))) ≡ ((same || rest) && not seen)
      fresh same rest seen h = ground arith

  pub distinct_from-no_duplicates :
      (seen xs : List A) → has_duplicates (distinct_from seen xs) ≡ false
  unfolding distinct_from has_duplicates
  distinct_from-no_duplicates seen [] = refl
  distinct_from-no_duplicates seen (x ∷ xs) =
      let itself = (e.same_iff x x).1 refl in
      elim (Bool-cases (contains seen x)) [
        | inl old ↦ rw old (distinct_from-no_duplicates seen xs)
        | inr new ↦
            rw
              (
                new,
                contains-distinct_from (x ∷ seen) xs x,
                distinct_from-no_duplicates (x ∷ seen) xs,
              )
              (gone (contains xs x) (x == x) (contains seen x) itself)
      ]
    where
      gone : (rest same seen : Bool) → same ≡ true → (rest && not (same || seen) || false) ≡ false
      gone rest same seen h = ground arith

  -- Every item of a list is among the items that are kept from it.
  pub distinct_from-All : (xs : List A) → All (λ x. contains (distinct_from [] xs) x ≡ true) xs
  unfolding contains
  distinct_from-All xs =
      All-contains xs (distinct_from [] xs)
        (λ a h. contains-distinct_from [] xs a ∙ kept (contains xs a) h)
    where
      kept : (b : Bool) → b ≡ true → (b && true) ≡ true
      kept b h = ground arith

  -- The first item is always kept.
  pub has_items-distinct_from : (xs : List A) → has_items (distinct_from [] xs) ≡ has_items xs
  unfolding distinct_from
  has_items-distinct_from [] = refl
  has_items-distinct_from (x ∷ xs) = refl

  pub contains-append :
      (xs ys : List A) (a : A) → contains (xs ++ ys) a ≡ (contains xs a || contains ys a)
  unfolding contains
  contains-append [] ys a = refl
  contains-append (x ∷ xs) ys a =
      ap (λ b. x == a || b) (contains-append xs ys a)
      ∙ or_assoc (x == a) (contains xs a) (contains ys a)
    where
      or_assoc : (p q r : Bool) → (p || (q || r)) ≡ ((p || q) || r)
      or_assoc p q r = ground arith

  -- Lists that share no item, and have no item twice, have none twice together.
  pub has_duplicates-append :
      (xs ys : List A)
      → has_duplicates xs ≡ false
      → has_duplicates ys ≡ false
      → All (λ y. contains xs y ≡ false) ys
      → has_duplicates (xs ++ ys) ≡ false
  unfolding contains has_duplicates
  has_duplicates-append [] ys h k d = k
  has_duplicates-append (x ∷ xs) ys h k d =
      let (once, rest) = or_false (contains xs x) (has_duplicates xs) h in
      let others = has_duplicates-append xs ys rest k (without x xs ys d) in
      rw (contains-append xs ys x, once, others, absent x xs ys d) refl
    where
      or_false : (p q : Bool) → (p || q) ≡ false → (p ≡ false) × (q ≡ false)
      or_false p q e = (ground arith, ground arith)

      without :
          (x : A) (xs ys : List A)
          → All (λ y. (x == y || contains xs y) ≡ false) ys
          → All (λ y. contains xs y ≡ false) ys
      without x xs [] d = tt
      without x xs (y ∷ ys) d = ((or_false (x == y) (contains xs y) d.0).1, without x xs ys d.1)

      absent :
          (x : A) (xs ys : List A)
          → All (λ y. (x == y || contains xs y) ≡ false) ys
          → contains ys x ≡ false
      absent x xs [] d = refl
      absent x xs (y ∷ ys) d = elim (Bool-cases (y == x)) [
        | inl same ↦
            let equal = (e.same_iff x y).1 (sym ((e.same_iff y x).0 same)) in
            absurd (true≢false (sym equal ∙ (or_false (x == y) (contains xs y) d.0).0))
        | inr other ↦ rw (other, absent x xs ys d.1) refl
      ]
