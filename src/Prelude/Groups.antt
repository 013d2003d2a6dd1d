-- ===== src/Prelude/Groups.antt =====
-- Dicts from a key to the list of the items with it, in the order in which the keys come up.
use mathlib.Core.Path.{◌≡◌}
use mathlib.Core.Logic.{inl, inr}
use mathlib.Core.Bool.{Bool, true, false}
use mathlib.Core.List.{List, [], ◌∷◌, ◌++◌, Perm, append-nil, append_assoc, perm_middle}
use mathlib.Core.List.Perm
use veritext.Prelude.Tests.{if◌then◌else◌, Bool-cases}
use veritext.Prelude.Lists.{All, All-append}

module _ {ℓ} {A : Type ℓ} (same_key : A → A → Bool) where
  -- `groups.setdefault(key(x), []).append(x)`, where a group has the key of its first item. No
  -- group is empty.
  unfoldable pub add_to_groups : A → List (List A) → List (List A)
  add_to_groups x [] = (x ∷ []) ∷ []
  add_to_groups x ([] ∷ groups) = [] ∷ add_to_groups x groups
  add_to_groups x ((y ∷ ys) ∷ groups) =
      let rest = add_to_groups x groups in
      if same_key y x then (y ∷ (ys ++ (x ∷ []))) ∷ groups else (y ∷ ys) ∷ rest

  unfoldable pub group_loop : List A → List (List A) → List (List A)
  unfolding add_to_groups
  group_loop [] groups = groups
  group_loop (x ∷ xs) groups = group_loop xs (add_to_groups x groups)

  unfoldable pub group_by : List A → List (List A)
  unfolding group_loop
  group_by xs = group_loop xs []

abbrev pub flatten {ℓ} : {A : Type ℓ} → List (List A) → List A
flatten [] = []
flatten (xs ∷ xss) = xs ++ flatten xss

module _ {A : Type 0} where
  pub swap_append : (xs ys zs : List A) → Perm (xs ++ (ys ++ zs)) (ys ++ (xs ++ zs))
  swap_append [] ys zs = Perm.refl (ys ++ zs)
  swap_append (x ∷ xs) ys zs =
      Perm.trans (Perm.cons x (swap_append xs ys zs)) (Perm.symm (perm_middle ys (xs ++ zs)))

  -- Two pairs of lists, joined by their first and second parts.
  pub exchange : (a b c d : List A) → Perm ((a ++ b) ++ (c ++ d)) ((a ++ c) ++ (b ++ d))
  exchange a b c d =
      rw (append_assoc a b (c ++ d), append_assoc a c (b ++ d))
        (Perm.append_left a (swap_append b c d))

module _ {ℓ} {A : Type ℓ} (same_key : A → A → Bool) where
  -- All items of a group after the first have the key of the first, and no group is empty.
  abbrev pub OneKey : List A → Type 0
  OneKey [] = ⊥
  OneKey (x ∷ xs) = All (λ y. same_key x y ≡ true) xs

  -- The first items of two groups have different keys.
  abbrev pub OtherKey : List A → List A → Type 0
  OtherKey (x ∷ xs) (y ∷ ys) = same_key x y ≡ false
  OtherKey _ _ = Unit

  abbrev pub DistinctKeys : List (List A) → Type 0
  DistinctKeys [] = Unit
  DistinctKeys (g ∷ groups) = All (OtherKey g) groups × DistinctKeys groups

  add_to_groups-perm :
      (x : A) (groups : List (List A))
      → Perm (flatten (add_to_groups same_key x groups)) (x ∷ flatten groups)
  unfolding add_to_groups
  add_to_groups-perm x [] = Perm.refl (x ∷ [])
  add_to_groups-perm x ([] ∷ groups) = add_to_groups-perm x groups
  add_to_groups-perm x ((y ∷ ys) ∷ groups) = elim (Bool-cases (same_key y x)) [
    | inl e ↦ rw e (
        Perm.trans (Perm.append_right (flatten groups) (perm_middle (y ∷ ys) []))
          (Perm.cons x (rw append-nil (Perm.refl ((y ∷ ys) ++ flatten groups)))))
    | inr e ↦ rw e (
        Perm.trans (Perm.append_left (y ∷ ys) (add_to_groups-perm x groups))
          (perm_middle (y ∷ ys) (flatten groups)))
  ]

  group_loop-perm :
      (xs : List A) (groups : List (List A))
      → Perm (flatten (group_loop same_key xs groups)) (flatten groups ++ xs)
  unfolding group_loop
  group_loop-perm [] groups = rw append-nil (Perm.refl (flatten groups))
  group_loop-perm (x ∷ xs) groups =
      Perm.trans (group_loop-perm xs (add_to_groups same_key x groups)) (
        Perm.trans (Perm.append_right xs (add_to_groups-perm x groups))
          (Perm.symm (perm_middle (flatten groups) xs)))

  -- The groups have all items, each as often as it was there.
  pub group_by-perm : (xs : List A) → Perm (flatten (group_by same_key xs)) xs
  unfolding group_by
  group_by-perm xs = group_loop-perm xs []

  add_to_groups-OneKey :
      (x : A) (groups : List (List A))
      → All OneKey groups
      → All OneKey (add_to_groups same_key x groups)
  unfolding add_to_groups
  add_to_groups-OneKey x [] h = (tt, tt)
  add_to_groups-OneKey x ([] ∷ groups) h = absurd h.0
  add_to_groups-OneKey x ((y ∷ ys) ∷ groups) h = elim (Bool-cases (same_key y x)) [
    | inl e ↦ rw e (All-append _ ys (x ∷ []) h.0 (e, tt), h.1)
    | inr e ↦ rw e (h.0, add_to_groups-OneKey x groups h.1)
  ]

  group_loop-OneKey :
      (xs : List A) (groups : List (List A))
      → All OneKey groups
      → All OneKey (group_loop same_key xs groups)
  unfolding group_loop
  group_loop-OneKey [] groups h = h
  group_loop-OneKey (x ∷ xs) groups h =
      group_loop-OneKey xs (add_to_groups same_key x groups) (add_to_groups-OneKey x groups h)

  pub group_by-OneKey : (xs : List A) → All OneKey (group_by same_key xs)
  unfolding group_by
  group_by-OneKey xs = group_loop-OneKey xs [] tt

  -- Adding an item keeps what stands first in each group, or adds a group for it at the end.
  add_to_groups-OtherKey :
      (g : List A) (x : A) (groups : List (List A))
      → OtherKey g (x ∷ [])
      → All (OtherKey g) groups
      → All (OtherKey g) (add_to_groups same_key x groups)
  unfolding add_to_groups
  add_to_groups-OtherKey g x [] other h = (other, tt)
  add_to_groups-OtherKey g x ([] ∷ groups) other h =
      (h.0, add_to_groups-OtherKey g x groups other h.1)
  add_to_groups-OtherKey [] x ((y ∷ ys) ∷ groups) other h = elim (Bool-cases (same_key y x)) [
    | inl e ↦ rw e (tt, h.1)
    | inr e ↦ rw e (tt, add_to_groups-OtherKey [] x groups other h.1)
  ]
  add_to_groups-OtherKey (z ∷ zs) x ((y ∷ ys) ∷ groups) other h = elim (Bool-cases (same_key y x)) [
    | inl e ↦ rw e (h.0, h.1)
    | inr e ↦ rw e (h.0, add_to_groups-OtherKey (z ∷ zs) x groups other h.1)
  ]

  longer-OtherKey :
      (y : A) (ys more : List A) (groups : List (List A))
      → All (OtherKey (y ∷ ys)) groups
      → All (OtherKey (y ∷ (ys ++ more))) groups
  longer-OtherKey y ys more [] h = tt
  longer-OtherKey y ys more ([] ∷ groups) h = (tt, longer-OtherKey y ys more groups h.1)
  longer-OtherKey y ys more ((z ∷ zs) ∷ groups) h = (h.0, longer-OtherKey y ys more groups h.1)

  add_to_groups-DistinctKeys :
      (x : A) (groups : List (List A))
      → DistinctKeys groups
      → DistinctKeys (add_to_groups same_key x groups)
  unfolding add_to_groups
  add_to_groups-DistinctKeys x [] h = (tt, tt)
  add_to_groups-DistinctKeys x ([] ∷ groups) h =
      (add_to_groups-OtherKey [] x groups tt h.0, add_to_groups-DistinctKeys x groups h.1)
  add_to_groups-DistinctKeys x ((y ∷ ys) ∷ groups) h = elim (Bool-cases (same_key y x)) [
    | inl e ↦ rw e (longer-OtherKey y ys (x ∷ []) groups h.0, h.1)
    | inr e ↦
        rw e
          (add_to_groups-OtherKey (y ∷ ys) x groups e h.0, add_to_groups-DistinctKeys x groups h.1)
  ]

  group_loop-DistinctKeys :
      (xs : List A) (groups : List (List A))
      → DistinctKeys groups
      → DistinctKeys (group_loop same_key xs groups)
  unfolding group_loop
  group_loop-DistinctKeys [] groups h = h
  group_loop-DistinctKeys (x ∷ xs) groups h =
      group_loop-DistinctKeys xs (add_to_groups same_key x groups)
        (add_to_groups-DistinctKeys x groups h)

  pub group_by-DistinctKeys : (xs : List A) → DistinctKeys (group_by same_key xs)
  unfolding group_by
  group_by-DistinctKeys xs = group_loop-DistinctKeys xs [] tt
