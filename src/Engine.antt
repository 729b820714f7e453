-- ===== src/Engine.antt =====
-- The SQL that the statements of the program are written in, over tables held as lists: the
-- comparison of the `path` columns (`COLLATE utf8mb4_general_ci`, src/schema.rs) and `LIKE`.
pub mod Fold
pub mod Order
use project_db.Base.{
  ℕ, ◌-◌, Text, slash, text_eq, Bool, true, false, ◌&&◌, List, [], ◌∷◌, any, map, leb, ◌==◌,
  if◌then◌else◌,
}

-- The collation's weight of a character, as it is on the path alphabet: ASCII case is folded, no more.
-- What the collation does with other characters is not modelled.
unfoldable pub weight : ℕ → ℕ
weight c = if leb b'a' c && leb c b'z' then c - 32 else c

unfoldable pub collate : Text → Text
unfolding weight
collate = map weight

unfoldable pub ci_eq : Text → Text → Bool
unfolding collate text_eq
ci_eq s t = text_eq (collate s) (collate t)

pub data Token : Type 0 where
  any_run any_char : Token
  char : ℕ → Token

abbrev pub backslash : ℕ
backslash = 92

-- A pattern with `ESCAPE '\\'`: a backslash takes the next character literally.
unfoldable pub tokens : Text → List Token
tokens [] = []
tokens (c ∷ []) =
    if c == b'%' then any_run ∷ [] else if c == b'_' then any_char ∷ [] else char c ∷ []
tokens (c ∷ d ∷ p) =
    if c == backslash
    then char d ∷ tokens p
    else (if c == b'%' then any_run else if c == b'_' then any_char else char c) ∷ tokens (d ∷ p)

unfoldable pub suffixes : Text → List Text
suffixes [] = [] ∷ []
suffixes (c ∷ t) = (c ∷ t) ∷ suffixes t

-- Under a collation that gives each character a weight.
unfoldable pub matches : (ℕ → ℕ) → List Token → Text → Bool
unfolding suffixes
matches w [] [] = true
matches w [] (d ∷ t) = false
matches w (any_run ∷ p) t = any (matches w p) (suffixes t)
matches w (any_char ∷ p) [] = false
matches w (any_char ∷ p) (d ∷ t) = matches w p t
matches w (char c ∷ p) [] = false
matches w (char c ∷ p) (d ∷ t) = w c == w d && matches w p t

unfoldable pub like_under : (ℕ → ℕ) → Text → Text → Bool
unfolding tokens matches
like_under w value pattern = matches w (tokens pattern) value

-- `value LIKE pattern ESCAPE '\\'`.
unfoldable pub like : Text → Text → Bool
unfolding weight like_under
like value pattern = like_under weight value pattern
