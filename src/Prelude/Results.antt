-- ===== src/Prelude/Results.antt =====
-- Exceptions as values. A constructor stands for an exception class of the source and holds
-- its message.
use mathlib.Core.Path.{◌≡◌, refl, ap, subst}
use mathlib.Core.Logic.{◌≢◌}
use mathlib.Core.Bool.{Bool, true, false, not}
use mathlib.Core.Option.{Option, none, some}
use mathlib.Core.List.{List, [], ◌∷◌}
use veritext.Prelude.Texts.{Text}
use veritext.Prelude.Lists.{All}

pub data Error : Type 0 where
  -- `pydantic.ValidationError`, raised from the `ValueError` of a validator
  validation_error : Text → Error
  chunking_error token_offset_error executor_error critic_error : Text → Error
  verifier_error reconciler_error orchestrator_error retry_merge_error : Text → Error
  -- a key that a dict lacks
  key_error : Error
  -- no exception: the fuel of a loop of the model ran out
  diverged : Error

-- What a call gives: an exception or a value.
pub data Result {ℓ} (A : Type ℓ) : Type ℓ where
  err : (raised : Error) → Result A
  ok : (value : A) → Result A

-- The next statement runs on the value, and an exception passes it by.
infixl 5 ◌>>=◌
abbrev pub ◌>>=◌ {κ ℓ} :
    {A : Type κ} {B : Type ℓ} (call : Result A) (next : A → Result B) → Result B
err raised >>= next = err raised
ok value >>= next = next value

-- `if c: raise e`
abbrev pub raise_if : Bool → Error → Result (Unit {0})
raise_if true e = err e
raise_if false e = ok tt

-- A statement whose value is not used.
infixl 5 ◌>>◌
abbrev pub ◌>>◌ {ℓ} : {B : Type ℓ} (call : Result (Unit {0})) (next : Result B) → Result B
call >> next = call >>= λ done. next

-- A lookup `d[k]`, with what it raises on a missing key.
abbrev pub or_raise {ℓ} : {A : Type ℓ} → Option A → Error → Result A
or_raise none e = err e
or_raise (some a) e = ok a

-- A sequence that returns has a first call that returns, and the rest returns on its value.
pub >>=-eq-ok {κ ℓ} :
    {A : Type κ} {B : Type ℓ} (call : Result A) (next : A → Result B) {b : B}
    → (call >>= next) ≡ ok b
    → (a : A) × (call ≡ ok a) × (next a ≡ ok b)
>>=-eq-ok (err raised) next eq = cc
>>=-eq-ok (ok value) next eq = (value, refl, eq)

pub raise_if-eq-ok : (c : Bool) (e : Error) {u : Unit {0}} → raise_if c e ≡ ok u → c ≡ false
raise_if-eq-ok true e h = cc
raise_if-eq-ok false e h = refl

pub ok-injective {ℓ} : {A : Type ℓ} {a b : A} → ok a ≡ ok b → a ≡ b
ok-injective e = cc

pub not-false : {b : Bool} → not b ≡ false → b ≡ true
not-false {b = true} h = refl
not-false {b = false} h = cc

pub or_raise-eq-ok {ℓ} :
    {A : Type ℓ} (o : Option A) (e : Error) {a : A} → or_raise o e ≡ ok a → o ≡ some a
or_raise-eq-ok none e h = cc
or_raise-eq-ok (some b) e h = ap some (ok-injective h)

module _ {ℓ κ} {A : Type ℓ} {B : Type κ} where
  -- A comprehension over a call that may raise, from the left.
  unfoldable pub map_result : (A → Result B) → List A → Result (List B)
  map_result f [] = ok []
  map_result f (x ∷ xs) = do let rest = map_result f xs; y ← f x; ys ← rest; ok (y ∷ ys)

-- Two lists of one length whose items stand in a relation, one by one.
abbrev pub Pairs {ℓ κ} : {A : Type ℓ} {B : Type κ} (R : A → B → Type 0) → List A → List B → Type 0
Pairs R [] [] = Unit
Pairs R [] (y ∷ ys) = ⊥
Pairs R (x ∷ xs) [] = ⊥
Pairs R (x ∷ xs) (y ∷ ys) = R x y × Pairs R xs ys

module _ {A : Type 0} {B : Type 0} where
  pub map_result-Pairs :
      (f : A → Result B) (xs : List A) {ys : List B}
      → map_result f xs ≡ ok ys
      → Pairs (λ x y. f x ≡ ok y) xs ys
  unfolding map_result
  map_result-Pairs f [] {ys = []} e = tt
  map_result-Pairs f [] {ys = y ∷ ys} e = absurd (nil≢cons (ok-injective e))
    where
      nil≢cons : {y : B} {ys : List B} → [] ≡ y ∷ ys → ⊥
      nil≢cons h = cc
  map_result-Pairs f (x ∷ xs) {ys = ys} e =
      let (y, made, more) = >>=-eq-ok (f x) _ e in
      let (rest, others, done) = >>=-eq-ok (map_result f xs) (λ rest. ok (y ∷ rest)) more in
      subst (Pairs (λ x y. f x ≡ ok y) (x ∷ xs)) (ok-injective done)
        (made, map_result-Pairs f xs others)

-- A call that returns.
abbrev pub Returns {ℓ} : {A : Type ℓ} → Result A → Type 0
Returns (ok a) = Unit
Returns (err e) = ⊥

pub Returns-ok {ℓ} : {A : Type ℓ} (r : Result A) → Returns r → (a : A) × (r ≡ ok a)
Returns-ok (ok a) h = (a, refl)
Returns-ok (err e) h = absurd h

pub Returns->>= {ℓ κ} :
    {A : Type ℓ} {B : Type κ} (r : Result A) (f : A → Result B)
    → Returns r
    → ((a : A) → r ≡ ok a → Returns (f a))
    → Returns (r >>= f)
Returns->>= (ok a) f h k = k a refl
Returns->>= (err e) f h k = h

abbrev pub IsException : Error → Type 0
IsException diverged = ⊥
IsException _ = Unit

-- A call whose loops end: it returns or raises, and no fuel runs out.
abbrev pub Ends {ℓ} : {A : Type ℓ} → Result A → Type 0
Ends (ok a) = Unit
Ends (err e) = IsException e

pub Ends->>= {ℓ κ} :
    {A : Type ℓ} {B : Type κ} (r : Result A) (f : A → Result B)
    → Ends r
    → ((a : A) → r ≡ ok a → Ends (f a))
    → Ends (r >>= f)
Ends->>= (ok a) f h k = k a refl
Ends->>= (err e) f h k = h

pub Ends-raise_if : (c : Bool) (e : Error) → IsException e → Ends (raise_if c e)
Ends-raise_if true e h = h
Ends-raise_if false e h = tt

pub Ends-or_raise {ℓ} :
    {A : Type ℓ} (o : Option A) (e : Error) → IsException e → Ends (or_raise o e)
Ends-or_raise none e h = h
Ends-or_raise (some a) e h = tt

pub Ends-of_ne {ℓ} : {A : Type ℓ} (r : Result A) → r ≢ err diverged → Ends r
Ends-of_ne (ok a) h = tt
Ends-of_ne (err diverged) h = h refl
Ends-of_ne (err _) h = tt

module _ {ℓ} {A : Type ℓ} where
  -- A `for` loop whose body raises or passes.
  unfoldable pub check_all : (A → Result (Unit {0})) → List A → Result (Unit {0})
  check_all check [] = ok tt
  check_all check (x ∷ xs) = check x >> check_all check xs

  pub check_all-All :
      (check : A → Result (Unit {0})) (xs : List A)
      → check_all check xs ≡ ok tt
      → All (λ x. check x ≡ ok tt) xs
  unfolding check_all
  check_all-All check [] eq = tt
  check_all-All check (x ∷ xs) eq =
      let (done, passed, rest) = >>=-eq-ok (check x) _ eq in (passed, check_all-All check xs rest)

  pub All-check_all :
      (check : A → Result (Unit {0})) (xs : List A)
      → All (λ x. check x ≡ ok tt) xs
      → check_all check xs ≡ ok tt
  unfolding check_all
  All-check_all check [] h = refl
  All-check_all check (x ∷ xs) h = rw (h.0, All-check_all check xs h.1) refl
