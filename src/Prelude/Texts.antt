-- ===== src/Prelude/Texts.antt =====
-- A Python `str` is the list of its code points, `bytes` a list of numbers below 256.
use Prim.Native.Nat.{ℕ, zero, suc, ◌+◌, ◌/◌, ◌%◌, ◌≤◌}
use Prim.Native.Char.{code}
use Prim.Native.String.{String}
use mathlib.Core.Path.{◌≡◌, refl, ap, ◌∙◌, sym}
use mathlib.Core.Bool.{Bool, true, false, ◌&&◌, ◌||◌}
use mathlib.Core.List.{List, [], ◌∷◌, ◌++◌, append_assoc, reverse}
use native.Mathlib.Omega.{arith}
use veritext.Prelude.Tests.{ltb, leb, if◌then◌else◌, ◌==◌, nat_eq}
use veritext.Prelude.Lists.{length, length-append}

abbrev pub Text : Type 0
Text = List ℕ

abbrev pub Bytes : Type 0
Bytes = List ℕ

-- A literal of the source.
abbrev pub codes : String → Text
codes String.[] = []
codes (String.◌∷◌ c s) = code c ∷ codes s

-- The UTF-8 bytes of a code point.
unfoldable pub encode_char : ℕ → Bytes
encode_char c =
    if ltb c 0x80
    then c ∷ []
    else if ltb c 0x800
    then (0xC0 + c / 64) ∷ (0x80 + c % 64) ∷ []
    else if ltb c 0x10000
    then (0xE0 + c / 4096) ∷ (0x80 + c / 64 % 64) ∷ (0x80 + c % 64) ∷ []
    else (0xF0 + c / 262144) ∷ (0x80 + c / 4096 % 64) ∷ (0x80 + c / 64 % 64) ∷ (0x80 + c % 64) ∷ []

-- `text.encode("utf-8")`
unfoldable pub encode : Text → Bytes
unfolding encode_char
encode [] = []
encode (c ∷ text) = encode_char c ++ encode text

pub encode-append : (s t : Text) → encode (s ++ t) ≡ encode s ++ encode t
unfolding encode
encode-append [] t = refl
encode-append (c ∷ s) t =
    ap (λ l. encode_char c ++ l) (encode-append s t)
    ∙ sym (append_assoc (encode_char c) (encode s) (encode t))

-- `len(text.encode("utf-8"))`
abbrev pub byte_length : Text → ℕ
byte_length text = length (encode text)

pub byte_length-append : (s t : Text) → byte_length (s ++ t) ≡ byte_length s + byte_length t
byte_length-append s t = ap length (encode-append s t) ∙ length-append (encode s) (encode t)

-- Every character has between one and four bytes.
pub encode_char-bounds : (c : ℕ) → (1 ≤ length (encode_char c)) × (length (encode_char c) ≤ 4)
unfolding encode_char
encode_char-bounds c = ground arith

pub length-le-byte_length : (text : Text) → length text ≤ byte_length text
unfolding encode
length-le-byte_length [] = omega arith
length-le-byte_length (c ∷ text) = omega (
  arith,
  length-le-byte_length text,
  length-append (encode_char c) (encode text),
  encode_char-bounds c,
)

-- `c.isspace()`, which is also what the regular expression `\s` matches.
unfoldable pub is_space : ℕ → Bool
is_space c =
    (leb 9 c && leb c 13)
    || (leb 28 c && leb c 32)
    || (c == 0x85)
    || (c == 0xA0)
    || (c == 0x1680)
    || (leb 0x2000 c && leb c 0x200A)
    || (c == 0x2028)
    || (c == 0x2029)
    || (c == 0x202F)
    || (c == 0x205F)
    || (c == 0x3000)

unfoldable pub all_chars : (ℕ → Bool) → Text → Bool
all_chars p [] = true
all_chars p (c ∷ text) = p c && all_chars p text

unfoldable pub any_char : (ℕ → Bool) → Text → Bool
any_char p [] = false
any_char p (c ∷ text) = p c || any_char p text

-- `text.isspace()`, which is false of the empty text.
unfoldable pub text_isspace : Text → Bool
unfolding all_chars is_space
text_isspace [] = false
text_isspace (c ∷ text) = all_chars is_space (c ∷ text)

-- `text in {...}` and the like: a text that starts with another.
unfoldable pub starts_with : Text → Text → Bool
starts_with text [] = true
starts_with [] (d ∷ prefix) = false
starts_with (c ∷ text) (d ∷ prefix) = c == d && starts_with text prefix

-- `a <= b` on texts, code point by code point.
unfoldable pub text_le : Text → Text → Bool
text_le [] t = true
text_le (c ∷ s) [] = false
text_le (c ∷ s) (d ∷ t) = ltb c d || (c == d && text_le s t)

pub text_le_refl : (s : Text) → text_le s s ≡ true
unfolding text_le
text_le_refl [] = refl
text_le_refl (c ∷ s) = ground (arith, text_le_refl s)

pub text_le_total : (s t : Text) → text_le s t ≡ false → text_le t s ≡ true
unfolding text_le
text_le_total [] t h = cc
text_le_total (c ∷ s) [] h = refl
text_le_total (c ∷ s) (d ∷ t) h = ground (arith, text_le_total s t)

pub text_le_trans : (s t u : Text) → text_le s t ≡ true → text_le t u ≡ true → text_le s u ≡ true
unfolding text_le
text_le_trans [] t u h k = refl
text_le_trans (c ∷ s) [] u h k = cc
text_le_trans (c ∷ s) (d ∷ t) [] h k = cc
text_le_trans (c ∷ s) (d ∷ t) (e ∷ u) h k = ground (arith, text_le_trans s t u)

-- `str(n)`, by one digit a round; `n + 1` rounds are enough.
decimal_loop : ℕ → ℕ → Text → Text
decimal_loop zero n digits = digits
decimal_loop (suc fuel) n digits =
    let rest = decimal_loop fuel (n / 10) ((0x30 + n % 10) ∷ digits) in
    if ltb n 10 then (0x30 + n) ∷ digits else rest

unfoldable pub decimal : ℕ → Text
unfolding decimal_loop
decimal n = decimal_loop (suc n) n []

-- `text.lstrip()` and `text.strip()`
unfoldable pub lstrip : Text → Text
unfolding is_space
lstrip [] = []
lstrip (c ∷ text) = let rest = lstrip text in if is_space c then rest else c ∷ text

unfoldable pub strip : Text → Text
unfolding lstrip
strip text = reverse (lstrip (reverse (lstrip text)))

-- `separator.join(texts)`
unfoldable pub join_texts : Text → List Text → Text
join_texts separator [] = []
join_texts separator (t ∷ []) = t
join_texts separator (t ∷ u ∷ ts) = t ++ (separator ++ join_texts separator (u ∷ ts))
