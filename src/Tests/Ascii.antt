-- ===== src/Tests/Ascii.antt =====
-- A concrete `Libs`: the ASCII letters and digits, and patterns that are a literal prefix with the
-- rest of the text as the group `site`.
use maga.Base.{
  ℕ, ◌+◌, ◌-◌, Bool, ◌||◌, ◌&&◌, List, [], ◌∷◌, ◌≡◌, refl, none, some, Str, codes, length, drop,
  ◌∙◌, ap, arith, leb, if◌then◌else◌, Result, ok, err,
}
use maga.Go.Libs.{Regexp, Libs, MatchesNames}
use maga.Go.Strings

abbrev is_upper : ℕ → Bool
is_upper c = leb b'A' c && leb c b'Z'

abbrev is_lower : ℕ → Bool
is_lower c = leb b'a' c && leb c b'z'

abbrev pub prefix_regexp : Str → Regexp
prefix_regexp p = record {
  subexp_names = [] ∷ codes "site" ∷ [];
  find_string_submatch =
      λ s. if Strings.has_prefix s p then some (s ∷ drop (length p) s ∷ []) else none;
  replace_all_string = λ s repl. Strings.replace_all s p repl;
}

abbrev prefix_compile : Str → Result Str Regexp
prefix_compile [] = err (codes "empty")
prefix_compile (c ∷ p) = ok (prefix_regexp (c ∷ p))

abbrev pub ascii : Libs
ascii = record {
  compile = prefix_compile;
  is_letter = λ c. is_upper c || is_lower c;
  is_digit = λ c. leb b'0' c && leb c b'9';
  to_upper = λ c. if is_lower c then c - 32 else c;
  to_lower = λ c. if is_upper c then c + 32 else c;
}

prefix_length :
    (p s : Str) (re : Regexp) (m : List Str)
    → prefix_compile p ≡ ok re
    → re.find_string_submatch s ≡ some m
    → length m ≡ length re.subexp_names
prefix_length [] s re m h e = cc
prefix_length (c ∷ p) s re m h e =
    let same : prefix_regexp (c ∷ p) ≡ re = ground arith in
    let run : (if Strings.has_prefix s (c ∷ p)
          then some (s ∷ drop (length (c ∷ p)) s ∷ [])
          else none)
        ≡ some m =
      ap (λ (r : Regexp). r.find_string_submatch s) same ∙ e in
    rw (← same) (ground arith)

prefix_names :
    (p : Str) (re : Regexp)
    → prefix_compile p ≡ ok re
    → (names : List Str) × (re.subexp_names ≡ [] ∷ names)
prefix_names [] re h = cc
prefix_names (c ∷ p) re h =
    let same : prefix_regexp (c ∷ p) ≡ re = ground arith in (codes "site" ∷ [], rw (← same) refl)

pub ascii-MatchesNames : MatchesNames ascii
ascii-MatchesNames = record { same_length = prefix_length; first_unnamed = prefix_names }
