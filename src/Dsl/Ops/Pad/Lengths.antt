-- ===== src/Dsl/Ops/Pad/Lengths.antt =====
-- internal/dsl/ops.go: what `pad` returns.
use maga.Base.{
  ℕ, zero, suc, ◌+◌, ◌-◌, ◌≤◌, ◌<◌, ◌≡◌, refl, arith, max, pos, Bool, true, false, ◌&&◌, ◌++◌, [],
  ◌∷◌, Str, length, take, byte_len, ltb, ok, All, All-append, inl, inr, length-append, length-take,
  Bool-cases, append-nil, ap, ◌∙◌,
}
use maga.Dsl.Types.{str_arg, int_arg}
use maga.Dsl.Ops.Pad.{pad_loop, padding, put_padding, pad_to, pad}

abbrev pub IsAscii : Str → Type 0
IsAscii = All (λ c. c < 0x80)

byte_len_ascii : (s : Str) → IsAscii s → byte_len s ≡ length s
unfolding byte_len
byte_len_ascii [] h = refl
byte_len_ascii (c ∷ s) h = ground (arith, byte_len_ascii s h.1)

le-byte_len : (s : Str) → length s ≤ byte_len s
unfolding byte_len
le-byte_len [] = omega arith
le-byte_len (c ∷ s) = ground (arith, le-byte_len s)

byte_len-append : (s t : Str) → byte_len (s ++ t) ≡ byte_len s + byte_len t
unfolding byte_len
byte_len-append [] t = omega arith
byte_len-append (c ∷ s) t = omega (arith, byte_len-append s t)

-- The loop stops only when there is enough padding, counted in bytes.
pad_loop_enough :
    (fuel n : ℕ) (current p b : Str)
    → 0 < length p
    → n ≤ fuel + byte_len b + byte_len current
    → n ≤ byte_len (pad_loop fuel n current p b) + byte_len current
unfolding pad_loop
pad_loop_enough zero n current p b h f = omega arith
pad_loop_enough (suc fuel) n current p b h f =
    elim (Bool-cases (ltb (byte_len b + byte_len current) n && ltb (length b + length current) n)) [
      | inl go ↦ rw go (
          pad_loop_enough fuel n current p (b ++ p) h
            (omega (arith, byte_len-append b p, le-byte_len p)))
      | inr stop ↦ rw stop (ground (arith, le-byte_len b, le-byte_len current))
    ]

pad_loop-IsAscii :
    (fuel n : ℕ) (current p b : Str) → IsAscii p → IsAscii b → IsAscii (pad_loop fuel n current p b)
unfolding pad_loop
pad_loop-IsAscii zero n current p b hp hb = hb
pad_loop-IsAscii (suc fuel) n current p b hp hb =
    elim (Bool-cases (ltb (byte_len b + byte_len current) n && ltb (length b + length current) n)) [
      | inl go ↦ rw go (pad_loop-IsAscii fuel n current p (b ++ p) hp (All-append _ b p hb hp))
      | inr stop ↦ rw stop hb
    ]

-- On ASCII the bytes are the code points, so there is as much padding as is needed.
length-padding :
    (n : ℕ) (current p : Str)
    → 0 < length p
    → IsAscii current
    → IsAscii p
    → length (padding n current p) ≡ n - length current
unfolding padding
length-padding n current p h hc hp = omega (
  arith,
  length-take (n - length current) (pad_loop n n current p []),
  byte_len_ascii (pad_loop n n current p []) (pad_loop-IsAscii n n current p [] hp tt),
  byte_len_ascii current hc,
  pad_loop_enough n n current p [] h (omega arith),
)

-- Where the padding goes.
abbrev pub beside : Bool → Str → Str → Str
beside true q current = q ++ current
beside false q current = current ++ q

length-beside :
    (left : Bool) (q current : Str) → length (beside left q current) ≡ length q + length current
length-beside true q current = length-append q current
length-beside false q current = omega (arith, length-append {0} current q)

beside-nil : (left : Bool) (current : Str) → beside left [] current ≡ current
beside-nil true current = refl
beside-nil false current = append-nil current

no_padding : (n : ℕ) (current p : Str) → n ≤ length current → padding n current p ≡ []
unfolding padding
no_padding n current p h = let e : n - length current ≡ 0 = omega arith in rw e

pad-padding :
    (current p : Str) (c n : ℕ) (left : Bool)
    → pad current (int_arg (pos n) ∷ str_arg (c ∷ p) ∷ []) left
      ≡ ok (beside left (padding n current (c ∷ p)) current)
unfolding pad pad_to put_padding
pad-padding current p c n true = ground (arith, no_padding n current (c ∷ p))
pad-padding current p c n false = ground (arith, no_padding n current (c ∷ p), append-nil current)

-- What the two operations do with a length `n` and a nonempty pad: the text is kept whole on its side,
-- and what is put beside it fills the text up to `n` code points at most.
pub pad_keeps :
    (current p : Str) (c n : ℕ) (left : Bool)
    → (q : Str) × (pad current (int_arg (pos n) ∷ str_arg (c ∷ p) ∷ []) left
        ≡ ok (beside left q current))
      × (length q ≤ n - length current)
pad_keeps current p c n left = (
  padding n current (c ∷ p),
  pad-padding current p c n left,
  unfold padding in
      omega (arith, length-take (n - length current) (pad_loop n n current (c ∷ p) [])),
)

-- If the text and the pad are ASCII, the result has exactly the length asked for, or that of the text if
-- this is longer.
pub pad_exact :
    (current p : Str) (c n : ℕ) (left : Bool)
    → IsAscii current
    → IsAscii (c ∷ p)
    → (r : Str) × (pad current (int_arg (pos n) ∷ str_arg (c ∷ p) ∷ []) left ≡ ok r)
      × (length r ≡ max n (length current))
pad_exact current p c n left hc hp = (
  beside left (padding n current (c ∷ p)) current,
  pad-padding current p c n left,
  omega (
    arith,
    length-beside left (padding n current (c ∷ p)) current,
    length-padding n current (c ∷ p) (omega arith) hc hp,
  ),
)

take-nil : (k : ℕ) → take {A = ℕ} k [] ≡ []
take-nil zero = refl
take-nil (suc k) = refl

pad_loop_full :
    (fuel n : ℕ) (current p : Str) → n ≤ byte_len current → pad_loop fuel n current p [] ≡ []
unfolding pad_loop
pad_loop_full zero n current p h = refl
pad_loop_full (suc fuel) n current p h = ground arith

padding_full : (n : ℕ) (current p : Str) → n ≤ byte_len current → padding n current p ≡ []
unfolding padding
padding_full n current p h = rw (pad_loop_full n n current p h) (take-nil (n - length current))

-- A text that has `n` bytes or more is returned as it is, also where it has fewer than `n` code points.
pub pad_multibyte :
    (current p : Str) (c n : ℕ) (left : Bool)
    → n ≤ byte_len current
    → pad current (int_arg (pos n) ∷ str_arg (c ∷ p) ∷ []) left ≡ ok current
pad_multibyte current p c n left bytes =
    pad-padding current p c n left
    ∙ rw (padding_full n current (c ∷ p) bytes) (ap ok (beside-nil left current))
