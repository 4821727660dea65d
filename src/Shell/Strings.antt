-- ===== src/Shell/Strings.antt =====
-- Texts as lists of bytes, and what the shell uses of string.h.
use simulating_the_functioni.Base.{
  ℕ, Bool, true, false, ◌&&◌, Option, none, some, List, [], ◌∷◌, ◌==◌, if◌then◌else◌,
}

abbrev pub Text : Type 0
Text = List ℕ

-- `strcmp(a, b) == 0`
unfoldable pub eq_text : Text → Text → Bool
eq_text [] [] = true
eq_text [] (y ∷ ys) = false
eq_text (x ∷ xs) [] = false
eq_text (x ∷ xs) (y ∷ ys) = (x == y) && eq_text xs ys

-- `strtok` with a set of delimiters, on what is left of the text: the next token and what is left
-- behind it.
module _ (is_delim : ℕ → Bool) where
  unfoldable pub skip : Text → Text
  skip [] = []
  skip (c ∷ s) = let rest = skip s in if is_delim c then rest else c ∷ s

  -- The bytes up to the next delimiter, and those behind it.
  unfoldable pub span : Text → Text × Text
  span [] = ([], [])
  span (c ∷ s) = let (t, rest) = span s in if is_delim c then ([], s) else (c ∷ t, rest)

  abbrev pub token_of : Text → Option (Text × Text)
  token_of [] = none
  token_of (c ∷ s) = some (span (c ∷ s))

  unfoldable pub strtok : Text → Option (Text × Text)
  strtok s = token_of (skip s)
