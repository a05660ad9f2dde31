-- ===== src/Dsl/Ops/Args.antt =====
-- internal/dsl/ops.go: `argString`, `argInt`, `runeRange`.
use maga.Base.{
  ℕ, ℤ, pos, pos_part, ltb_ℤ, ◌||◌, List, Option, none, some, Str, length, get_elem?, if◌then◌else◌,
  Result, ok, err, ◌>>=◌,
}
use maga.Dsl.Types.{Arg, OpError, not_string, not_integer, range_out_of_bounds}

or_not_string : ℕ → Option Str → Result OpError Str
or_not_string i none = err (not_string i)
or_not_string i (some t) = ok t

string_field : ℕ → Option Arg → Result OpError Str
unfolding or_not_string
string_field i none = err (not_string i)
string_field i (some a) = or_not_string i a.s

unfoldable pub arg_string : List Arg → ℕ → Result OpError Str
unfolding string_field
arg_string args i = string_field i (get_elem? args i)

or_not_integer : ℕ → Option ℤ → Result OpError ℤ
or_not_integer i none = err (not_integer i)
or_not_integer i (some n) = ok n

int_field : ℕ → Option Arg → Result OpError ℤ
unfolding or_not_integer
int_field i none = err (not_integer i)
int_field i (some a) = or_not_integer i a.i

unfoldable pub arg_int : List Arg → ℕ → Result OpError ℤ
unfolding int_field
arg_int args i = int_field i (get_elem? args i)

-- The bounds that come back are not negative, so they are numbers.
unfoldable pub rune_range : List Arg → Str → Result OpError (ℕ × ℕ)
unfolding arg_int
rune_range args value = do
  start ← arg_int args 0
  end ← arg_int args 1
  if ltb_ℤ start (pos 0) || ltb_ℤ (pos (length value)) end || ltb_ℤ end start
      then err (range_out_of_bounds start end (length value))
      else ok (pos_part start, pos_part end)
