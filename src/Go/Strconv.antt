-- ===== src/Go/Strconv.antt =====
-- `strconv.Atoi` with a 64-bit `int`.
use maga.Base.{
  ℕ, zero, suc, ◌+◌, ◌-◌, ◌*◌, ◌/◌, ◌%◌, ◌^◌, Bool, true, false, ◌&&◌, [], ◌∷◌, Option, none, some,
  Str, leb, ltb, ◌==◌, if◌then◌else◌, ℤ, pos, negsuc,
}

abbrev pub is_ascii_digit : ℕ → Bool
is_ascii_digit c = leb b'0' c && leb c b'9'

-- The number that ASCII digits spell behind `n`; `none` at any other code point.
unfoldable pub digits_value : ℕ → Str → Option ℕ
digits_value n [] = some n
digits_value n (c ∷ s) = if is_ascii_digit c then digits_value (n * 10 + (c - b'0')) s else none

-- At least one digit.
unfoldable pub unsigned : Str → Option ℕ
unfolding digits_value
unsigned [] = none
unsigned (c ∷ s) = digits_value 0 (c ∷ s)

abbrev pub in_int64 : Bool → Option ℕ → Option ℤ
in_int64 negative none = none
in_int64 false (some n) = if ltb n (2 ^ 63) then some (pos n) else none
in_int64 true (some n) =
    if leb n (2 ^ 63) then some (if n == 0 then pos 0 else negsuc (n - 1)) else none

-- `none` is a syntax error or a number out of range.
unfoldable pub atoi : Str → Option ℤ
unfolding unsigned
atoi [] = none
atoi (c ∷ s) =
    if c == b'-'
    then in_int64 true (unsigned s)
    else if c == b'+'
    then in_int64 false (unsigned s)
    else in_int64 false (unsigned (c ∷ s))

itoa_from : ℕ → ℕ → Str → Str
itoa_from zero n out = out
itoa_from (suc fuel) n out =
    let digit = b'0' + n % 10 in
    let more = itoa_from fuel (n / 10) (digit ∷ out) in if n / 10 == 0 then digit ∷ out else more

-- `%d` of a number that is not negative; it has at most `n + 1` digits.
unfoldable pub itoa : ℕ → Str
unfolding itoa_from
itoa n = itoa_from (suc n) n []

abbrev below : ℕ → Option ℕ → Option ℕ
below bound none = none
below bound (some n) = if ltb n bound then some n else none

-- `strconv.ParseUint` with the base 10 and a number of bits
unfoldable pub parse_uint : Str → ℕ → Option ℕ
unfolding unsigned
parse_uint s bits = below (2 ^ bits) (unsigned s)

-- `%v` of an `int`
abbrev pub format_int : ℤ → Str
format_int (pos n) = itoa n
format_int (negsuc n) = b'-' ∷ itoa (n + 1)
