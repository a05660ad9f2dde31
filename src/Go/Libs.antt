-- ===== src/Go/Libs.antt =====
-- What the repository takes from Go's `regexp` and `unicode` packages, as an interface: the matching
-- algorithm and the Unicode tables are not modelled.
use maga.Base.{ℕ, List, [], ◌∷◌, Option, some, ◌≡◌, Bool, Str, length, Result, ok}

-- A compiled `*regexp.Regexp`, by the methods that are called.
pub record Regexp : Type 0 where
  pub subexp_names : List Str
  pub find_string_submatch : Str → Option (List Str)
  pub replace_all_string : Str → Str → Str

pub record Libs : Type 0 where
  -- `regexp.Compile`; an error is its message
  pub compile : Str → Result Str Regexp
  -- `unicode.IsLetter`, `IsDigit`, `ToUpper`, `ToLower`
  pub is_letter : ℕ → Bool
  pub is_digit : ℕ → Bool
  pub to_upper : ℕ → ℕ
  pub to_lower : ℕ → ℕ

-- Documented of `regexp`: a match has an entry for the whole and one for each group, as the names do,
-- and the first name, that of the whole, is empty.
pub record MatchesNames (l : Libs) : Type 0 where
  pub same_length :
      (p s : Str) (re : Regexp) (m : List Str)
      → l.compile p ≡ ok re
      → re.find_string_submatch s ≡ some m
      → length m ≡ length re.subexp_names
  pub first_unnamed :
      (p : Str) (re : Regexp)
      → l.compile p ≡ ok re
      → (names : List Str) × (re.subexp_names ≡ [] ∷ names)
