-- ===== src/SourceSupport/Tokens.antt =====
-- Words and tokens of a text (src/extractor/source_support.py). `casefold` is `str.casefold`.
pub mod Parts
use veritext.Prelude.{
  ℕ, ◌+◌, ◌-◌, Text, Bool, false, ◌&&◌, ◌||◌, not, List, [], ◌∷◌, length, take, drop, ltb, leb,
  list_beq, nat_eq, list_eq, contains, is_space, starts_with, join_texts, codes, if◌then◌else◌,
}

-- A run gets one more character at its start.
extend_first : ℕ → List Text → List Text
extend_first c [] = (c ∷ []) ∷ []
extend_first c (run ∷ runs) = (c ∷ run) ∷ runs

-- A character that belongs to a run, before the text that is left and its runs.
start_run : (ℕ → Bool) → ℕ → Text → List Text → List Text
unfolding extend_first
start_run p c [] rest = (c ∷ []) ∷ rest
start_run p c (d ∷ text) rest = if p d then extend_first c rest else (c ∷ []) ∷ rest

-- The longest runs of characters with a property, from the left.
unfoldable pub char_runs : (ℕ → Bool) → Text → List Text
unfolding start_run
char_runs p [] = []
char_runs p (c ∷ text) =
    let rest = char_runs p text in if p c then start_run p c text rest else rest

-- `" ".join(text.split())`
unfoldable pub collapse_whitespace : Text → Text
unfolding char_runs is_space join_texts
collapse_whitespace text = join_texts (codes " ") (char_runs (λ c. not (is_space c)) text)

-- `[a-z0-9]`
is_token_char : ℕ → Bool
is_token_char c = (leb 0x61 c && leb c 0x7A) || (leb 0x30 c && leb c 0x39)

-- `part in text`
unfoldable pub is_part_of : Text → Text → Bool
unfolding starts_with
is_part_of part [] = starts_with [] part
is_part_of part (c ∷ text) = starts_with (c ∷ text) part || is_part_of part text

-- `text.endswith(suffix)`
unfoldable pub ends_with : Text → Text → Bool
unfolding list_beq
ends_with text suffix =
    leb (length suffix) (length text) && list_beq (drop (length text - length suffix) text) suffix

-- `token.startswith((...))`
starts_with_one : List Text → Text → Bool
unfolding starts_with
starts_with_one [] token = false
starts_with_one (prefix ∷ prefixes) token =
    starts_with token prefix || starts_with_one prefixes token

start_words : List Text
start_words =
    codes "began"
    ∷ codes "begin"
    ∷ codes "begun"
    ∷ codes "start"
    ∷ codes "started"
    ∷ codes "starts"
    ∷ []

token_suffixes : List Text
token_suffixes =
    codes "ments"
    ∷ codes "ment"
    ∷ codes "ingly"
    ∷ codes "ing"
    ∷ codes "edly"
    ∷ codes "ed"
    ∷ codes "es"
    ∷ codes "s"
    ∷ []

-- The loop over the suffixes.
strip_suffix : List Text → Text → Text
unfolding ends_with
strip_suffix [] token = token
strip_suffix (suffix ∷ suffixes) token =
    let rest = strip_suffix suffixes token in
    if ltb (length suffix + 3) (length token) && ends_with token suffix
    then take (length token - length suffix) token
    else rest

unfoldable pub canonical_token : Text → Text
unfolding starts_with starts_with_one strip_suffix contains start_words token_suffixes
canonical_token token =
    if starts_with token (codes "approv")
    then codes "approv"
    else if starts_with_one (codes "acquir" ∷ codes "acquis" ∷ []) token
    then codes "acquis"
    else if starts_with token (codes "commenc")
    then codes "commenc"
    else if starts_with_one (codes "operat" ∷ codes "operation" ∷ []) token
    then codes "operat"
    else if starts_with token (codes "appoint")
    then codes "appoint"
    else if starts_with token (codes "retir")
    then codes "retir"
    else if contains start_words token
    then codes "commenc"
    else strip_suffix token_suffixes token

module _ (casefold : Text → Text) where
  unfoldable pub tokens : Text → List Text
  unfolding char_runs is_token_char
  tokens text = char_runs is_token_char (casefold text)

  unfoldable pub same_normalized : Text → Text → Bool
  unfolding collapse_whitespace list_beq
  same_normalized left right =
      list_beq (casefold (collapse_whitespace left)) (casefold (collapse_whitespace right))
