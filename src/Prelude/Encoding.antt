-- ===== src/Prelude/Encoding.antt =====
-- The UTF-8 bytes of a slice of a text are a slice of the bytes of the text.
use Prim.Native.Nat.{ℕ, ◌+◌, ◌-◌, ◌≤◌}
use mathlib.Core.Path.{◌≡◌, refl, sym, ap, ◌∙◌}
use mathlib.Core.List.{List, [], ◌∷◌, ◌++◌}
use native.Mathlib.Omega.{arith}
use veritext.Prelude.Lists.{
  length, take, drop, slice, take-append-drop, take-append-take, length-append,
}
use veritext.Prelude.Texts.{Text, encode, encode-append, byte_length, byte_length-append}

module _ {ℓ} {A : Type ℓ} where
  take-length-append : (xs ys : List A) → take (length xs) (xs ++ ys) ≡ xs
  take-length-append [] ys = refl
  take-length-append (x ∷ xs) ys = ap (λ l. x ∷ l) (take-length-append xs ys)

  drop-length-append : (xs ys : List A) → drop (length xs) (xs ++ ys) ≡ ys
  drop-length-append [] ys = refl
  drop-length-append (x ∷ xs) ys = drop-length-append xs ys

encode-parts : (n : ℕ) (t : Text) → encode (take n t) ++ encode (drop n t) ≡ encode t
encode-parts n t = sym (encode-append (take n t) (drop n t)) ∙ ap encode (take-append-drop n t)

pub encode-take : (n : ℕ) (t : Text) → encode (take n t) ≡ take (byte_length (take n t)) (encode t)
encode-take n t =
    sym (take-length-append (encode (take n t)) (encode (drop n t)))
    ∙ ap (take (byte_length (take n t))) (encode-parts n t)

pub encode-drop : (n : ℕ) (t : Text) → encode (drop n t) ≡ drop (byte_length (take n t)) (encode t)
encode-drop n t =
    sym (drop-length-append (encode (take n t)) (encode (drop n t)))
    ∙ ap (drop (byte_length (take n t))) (encode-parts n t)

-- The bytes before the end of a slice.
pub byte_length-slice :
    (t : Text) (a b : ℕ)
    → a ≤ b
    → byte_length (take a t) + byte_length (slice t a b) ≡ byte_length (take b t)
byte_length-slice t a b le =
    sym (byte_length-append (take a t) (slice t a b))
    ∙ ap byte_length (take-append-take a (b - a) t)
    ∙ ap (λ n. byte_length (take n t)) (same a b le)
  where
    same : (a b : ℕ) → a ≤ b → a + (b - a) ≡ b
    same a b le = omega arith

pub encode-slice :
    (t : Text) (a b : ℕ)
    → a ≤ b
    → encode (slice t a b) ≡ slice (encode t) (byte_length (take a t)) (byte_length (take b t))
encode-slice t a b le =
    encode-take (b - a) (drop a t)
    ∙ ap (take (byte_length (slice t a b))) (encode-drop a t)
    ∙ ap (λ n. take n (drop (byte_length (take a t)) (encode t)))
        (rest (byte_length (take a t)) (byte_length (slice t a b)) (byte_length (take b t))
          (byte_length-slice t a b le))
  where
    rest : (m k n : ℕ) → m + k ≡ n → k ≡ n - m
    rest m k n e = omega arith

pub byte_length-take_le : (t : Text) (n : ℕ) → byte_length (take n t) ≤ byte_length t
byte_length-take_le t n =
    omega
      (arith, ap length (encode-parts n t), length-append (encode (take n t)) (encode (drop n t)))
