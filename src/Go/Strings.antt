-- ===== src/Go/Strings.antt =====
-- `strings.TrimSpace`, `TrimLeft`, `TrimRight`, `Replace`, `HasPrefix` and `unicode.IsSpace`, on code points.
pub mod Cut
use maga.Base.{
  ℕ, Option, none, some, zero, suc, ◌+◌, ◌-◌, Bool, true, false, ◌||◌, ◌&&◌, [], ◌∷◌, ◌++◌, Str,
  length, is_empty, leb, ◌==◌, if◌then◌else◌, ℤ, pos, negsuc,
}

abbrev pub prepend : ℕ → Option (Str × Str) → Option (Str × Str)
prepend d none = none
prepend d (some (b, a)) = some (d ∷ b, a)

-- `strings.IndexByte`, as what stands before the byte and what behind it.
unfoldable pub cut_at : ℕ → Str → Option (Str × Str)
cut_at c [] = none
cut_at c (d ∷ s) = let rest = prepend d (cut_at c s) in if d == c then some ([], s) else rest

-- `unicode.IsSpace`
unfoldable pub is_space : ℕ → Bool
is_space c =
    (leb 0x9 c && leb c 0xd)
    || c == 0x20
    || c == 0x85
    || c == 0xa0
    || c == 0x1680
    || (leb 0x2000 c && leb c 0x200a)
    || c == 0x2028
    || c == 0x2029
    || c == 0x202f
    || c == 0x205f
    || c == 0x3000

unfoldable pub contains_rune : Str → ℕ → Bool
contains_rune [] c = false
contains_rune (d ∷ s) c = d == c || contains_rune s c

-- `strings.TrimLeftFunc`
unfoldable pub trim_left_func : (ℕ → Bool) → Str → Str
trim_left_func p [] = []
trim_left_func p (c ∷ s) = if p c then trim_left_func p s else c ∷ s

trim_end : Bool → ℕ → Str → Str
trim_end true c [] = []
trim_end false c [] = c ∷ []
trim_end b c (d ∷ t) = c ∷ d ∷ t

-- `strings.TrimRightFunc`
unfoldable pub trim_right_func : (ℕ → Bool) → Str → Str
unfolding trim_end
trim_right_func p [] = []
trim_right_func p (c ∷ s) = trim_end (p c) c (trim_right_func p s)

unfoldable pub trim_left : Str → Str → Str
unfolding trim_left_func contains_rune
trim_left s cutset = trim_left_func (contains_rune cutset) s

unfoldable pub trim_right : Str → Str → Str
unfolding trim_right_func contains_rune
trim_right s cutset = trim_right_func (contains_rune cutset) s

unfoldable pub trim_space : Str → Str
unfolding trim_left_func trim_right_func is_space
trim_space s = trim_right_func is_space (trim_left_func is_space s)

unfoldable pub has_prefix : Str → Str → Bool
has_prefix s [] = true
has_prefix [] (d ∷ p) = false
has_prefix (c ∷ s) (d ∷ p) = c == d && has_prefix s p

-- The loop of `strings.Replace` for a nonempty `old`: `skip` code points of a match are still to be
-- passed over, and at most `n` replacements are left.
unfoldable pub replace_from : Str → Str → ℕ → ℕ → Str → Str
unfolding has_prefix
replace_from old new n skip [] = []
replace_from old new n (suc skip) (c ∷ s) = replace_from old new n skip s
replace_from old new zero zero (c ∷ s) = c ∷ s
replace_from old new (suc n) zero (c ∷ s) =
    let hit = replace_from old new n (length old - 1) s in
    let miss = replace_from old new (suc n) zero s in
    if has_prefix (c ∷ s) old then new ++ hit else c ∷ miss

-- For an empty `old` it matches before each code point and at the end.
unfoldable pub intersperse : Str → ℕ → Str → Str
intersperse new zero s = s
intersperse new (suc n) [] = new
intersperse new (suc n) (c ∷ s) = new ++ c ∷ intersperse new n s

-- There are never more than `len(s) + 1` matches, which is the bound where `n < 0`.
replace_limit : Str → ℤ → ℕ
replace_limit s (pos n) = n
replace_limit s (negsuc n) = length s + 1

unfoldable pub replace : Str → Str → Str → ℤ → Str
unfolding replace_limit replace_from intersperse
replace s [] new n = intersperse new (replace_limit s n) s
replace s (d ∷ old) new n = replace_from (d ∷ old) new (replace_limit s n) zero s

unfoldable pub replace_all : Str → Str → Str → Str
unfolding replace
replace_all s old new = replace s old new (negsuc 0)

-- `strings.Contains`
unfoldable pub contains : Str → Str → Bool
unfolding has_prefix
contains [] sub = is_empty sub
contains (c ∷ s) sub = has_prefix (c ∷ s) sub || contains s sub
