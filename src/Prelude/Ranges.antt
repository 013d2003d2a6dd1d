-- ===== src/Prelude/Ranges.antt =====
-- Items with a start and an end that tile an interval: each begins where the one before it ends.
use Prim.Native.Nat.{ℕ, ◌≤◌}
use mathlib.Core.Path.{◌≡◌, refl}
use mathlib.Core.Logic.{inl, inr}
use mathlib.Core.List.{List, [], ◌∷◌, ◌++◌}
use native.Mathlib.Omega.{arith}
use veritext.Prelude.Tests.{ltb, Bool-cases, ltb_false→le}
use veritext.Prelude.Lists.{keep_if}

module _ {ℓ} {A : Type ℓ} (first last : A → ℕ) where
  abbrev pub Tiles : ℕ → ℕ → List A → Type 0
  Tiles a b [] = a ≡ b
  Tiles a b (x ∷ xs) = (first x ≡ a) × (a ≤ last x) × Tiles (last x) b xs

  pub Tiles-le : (a b : ℕ) (xs : List A) → Tiles a b xs → a ≤ b
  Tiles-le a b [] h = omega arith
  Tiles-le a b (x ∷ xs) h = omega (arith, Tiles-le (last x) b xs h.2)

  pub Tiles-append :
      (a b c : ℕ) (xs ys : List A) → Tiles a b xs → Tiles b c ys → Tiles a c (xs ++ ys)
  Tiles-append a b c [] ys h k = rw h k
  Tiles-append a b c (x ∷ xs) ys h k = (h.0, h.1, Tiles-append (last x) b c xs ys h.2 k)

  pub Tiles-one : (x : A) (a : ℕ) → first x ≡ a → a ≤ last x → Tiles a (last x) (x ∷ [])
  Tiles-one x a h k = (h, k, refl)

  -- Items that are empty can be left out.
  pub Tiles-keep_if :
      (a b : ℕ) (xs : List A) → Tiles a b xs → Tiles a b (keep_if (λ x. ltb (first x) (last x)) xs)
  Tiles-keep_if a b [] h = h
  Tiles-keep_if a b (x ∷ xs) h = elim (Bool-cases (ltb (first x) (last x))) [
    | inl e ↦ rw e (h.0, h.1, Tiles-keep_if (last x) b xs h.2)
    | inr e ↦
        let same : last x ≡ a = omega (arith, ltb_false→le (first x) (last x) e, h) in
        rw e (rw same at (Tiles-keep_if (last x) b xs h.2))
  ]
