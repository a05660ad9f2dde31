-- ===== src/Dsl/Ops/Pad.antt =====
-- internal/dsl/ops.go: `pad`. `b.Len()` and `len(current)` count bytes, the rest counts code points.
pub mod Lengths
use maga.Base.{
  ℕ, zero, suc, ◌+◌, ◌-◌, ℤ, pos, negsuc, Bool, true, false, ◌&&◌, List, ◌++◌, [], ◌∷◌, Str, length,
  take, byte_len, ltb, leb, if◌then◌else◌, Result, ok, err, ◌>>=◌,
}
use maga.Dsl.Types.{Arg, OpError, empty_pad}
use maga.Dsl.Ops.Args.{arg_string, arg_int}

-- The loop that fills `b`. Each round adds at least a byte, so `length` rounds of fuel are enough.
pad_loop : ℕ → ℕ → Str → Str → Str → Str
unfolding byte_len
pad_loop zero n current pad_str b = b
pad_loop (suc fuel) n current pad_str b =
    let more = pad_loop fuel n current pad_str (b ++ pad_str) in
    if ltb (byte_len b + byte_len current) n && ltb (length b + length current) n then more else b

-- `padding`, cut to `needed`; `take` leaves a shorter list as it is
padding : ℕ → Str → Str → Str
unfolding pad_loop
padding n current pad_str = take (n - length current) (pad_loop n n current pad_str [])

put_padding : Bool → Str → Str → Str
put_padding true p current = p ++ current
put_padding false p current = current ++ p

-- A negative length is below every length.
pad_to : ℤ → Str → Str → Bool → Str
unfolding padding put_padding
pad_to (negsuc k) current pad_str left = current
pad_to (pos n) current pad_str left =
    if leb n (length current) then current else put_padding left (padding n current pad_str) current

unfoldable pub nonempty_pad : ℤ → Str → Str → Bool → Result OpError Str
unfolding pad_to
nonempty_pad n current [] left = err empty_pad
nonempty_pad n current (c ∷ p) left = ok (pad_to n current (c ∷ p) left)

unfoldable pub pad : Str → List Arg → Bool → Result OpError Str
unfolding nonempty_pad arg_int arg_string
pad current args left = do
  n ← arg_int args 0
  pad_str ← arg_string args 1
  nonempty_pad n current pad_str left
