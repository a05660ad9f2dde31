-- ===== src/Dsl/Parser/Moves.antt =====
-- internal/dsl/parser.go: the parser of identifiers, strings, integers and arguments moves forward
-- inside the input.
use maga.Base.{
  ℕ, suc, ◌+◌, ◌≤◌, ◌<◌, ◌||◌, Bool, true, false, [], ◌∷◌, ◌++◌, ◌≡◌, arith, Option-cases, Str,
  length, ok, err, ◌>>=◌, inl, inr, Bool-cases, ◌==◌,
}
use maga.Go.Libs.{Libs}
use maga.Go.Strconv
use maga.Dsl.Parser.{
  ParseError, expected_ident, expected_pipe, bad_arg_char, expected_digits, out_of_fuel, Cursor,
  Parsed, is_ident_part, skip_space, span, parse_ident, parse_chars, parse_digits, parse_int,
  parse_arg,
}

-- The position that a message names is one of an input of `n` code points.
abbrev pub IsWithin : ℕ → ParseError → Type 0
IsWithin n (expected_pipe c p) = p < n
IsWithin n (expected_ident p) = p ≤ n
IsWithin n (bad_arg_char c p) = p < n
IsWithin n (expected_digits p) = p ≤ n
IsWithin n out_of_fuel = ⊥
IsWithin n _ = Unit

-- The cursor is where the input of `n` code points has at most `k` left.
abbrev pub IsAt : ℕ → ℕ → Cursor → Type 0
IsAt n k c = (c.pos + length c.rest ≡ n) × (length c.rest ≤ k)

-- A parser's result: a cursor with at most `k` code points left, or an error within the input.
abbrev pub Moves : {A : Type 0} → ℕ → ℕ → Parsed A → Type 0
Moves n k (ok (a, c)) = IsAt n k c
Moves n k (err e) = IsWithin n e

pub skip_space-IsAt : (s : Str) (p : ℕ) → IsAt (p + length s) (length s) (skip_space s p)
unfolding skip_space
skip_space-IsAt [] p = omega arith
skip_space-IsAt (c ∷ s) p = ground (arith, skip_space-IsAt s (p + 1))

span-IsAt : (test : ℕ → Bool) (s : Str) (p : ℕ) → IsAt (p + length s) (length s) (span test s p).1
unfolding span
span-IsAt test [] p = omega arith
span-IsAt test (c ∷ s) p = ground (arith, span-IsAt test s (p + 1))

pub parse_ident-Moves :
    (l : Libs) (s : Str) (p n k : ℕ)
    → p + length s ≡ n
    → length s ≤ suc k
    → Moves n k (parse_ident l s p)
unfolding parse_ident
parse_ident-Moves l [] p n k h b = omega arith
parse_ident-Moves l (c ∷ s) p n k h b = ground (arith, span-IsAt (is_ident_part l) s (p + 1))

parse_chars-Moves :
    (quote : ℕ) (escaped : Bool) (s : Str) (p n k : ℕ) (b : Str)
    → p + length s ≡ n
    → length s ≤ k
    → Moves n k (parse_chars quote escaped s p b)
unfolding parse_chars
parse_chars-Moves quote true [] p n k b h le = tt
parse_chars-Moves quote false [] p n k b h le = tt
parse_chars-Moves quote true (c ∷ s) p n k b h le =
    parse_chars-Moves quote false s (p + 1) n k (b ++ c ∷ []) (omega arith) (omega arith)
parse_chars-Moves quote false (c ∷ s) p n k b h le = ground (
  arith,
  parse_chars-Moves quote true s (p + 1) n k b (omega arith) (omega arith),
  parse_chars-Moves quote false s (p + 1) n k (b ++ c ∷ []) (omega arith) (omega arith),
)

parse_digits-Moves :
    (start : Str) (p n k : ℕ) (r : Str × Cursor)
    → p ≤ n
    → IsAt n k r.1
    → Moves n k (parse_digits start p r)
parse_digits-Moves start p n k ([], c) h m = h
parse_digits-Moves start p n k (d ∷ ds, c) h m =
    elim (Option-cases (Strconv.atoi (start ++ d ∷ ds))) [ inl e ↦ rw e tt | inr (i, e) ↦ rw e m ]

parse_int-Moves :
    (l : Libs) (c : ℕ) (s : Str) (p n k : ℕ)
    → p + length (c ∷ s) ≡ n
    → length s ≤ k
    → ((c == b'-') ≡ false → l.is_digit c ≡ true)
    → Moves n k (parse_int l c s p)
unfolding parse_int
parse_int-Moves l c s p n k h b digit = elim (Bool-cases (c == b'-')) [
  | inl minus ↦ rw minus (
      parse_digits-Moves (b'-' ∷ []) (p + 1) n k (span l.is_digit s (p + 1)) (omega arith)
        (omega (arith, span-IsAt l.is_digit s (p + 1))))
  | inr plus ↦
      rw (plus, digit plus)
        (parse_digits-Moves [] p n k
          (c ∷ (span l.is_digit s (p + 1)).0, (span l.is_digit s (p + 1)).1) (omega arith)
          (omega (arith, span-IsAt l.is_digit s (p + 1))))
]

-- The rule for sequencing.
pub Moves-bind :
    {A B : Type 0} (n j k : ℕ) (m : Parsed A) (f : A × Cursor → Parsed B)
    → Moves n j m
    → ((a : A) (c : Cursor) → IsAt n j c → Moves n k (f (a, c)))
    → Moves n k (m >>= f)
Moves-bind n j k (ok (a, c)) f h step = step a c h
Moves-bind n j k (err e) f h step = h

pub Moves-weaken : {A : Type 0} (n j k : ℕ) (r : Parsed A) → j ≤ k → Moves n j r → Moves n k r
Moves-weaken n j k (ok (a, c)) le h = omega arith
Moves-weaken n j k (err e) le h = h

pub skip_rest-IsAt : (n k : ℕ) (c : Cursor) → IsAt n k c → IsAt n k (skip_space c.rest c.pos)
skip_rest-IsAt n k c h = omega (arith, skip_space-IsAt c.rest c.pos)

pub parse_arg-Moves :
    (l : Libs) (s : Str) (p n k : ℕ)
    → p + length s ≡ n
    → length s ≤ suc k
    → Moves n k (parse_arg l s p)
unfolding parse_arg
parse_arg-Moves l [] p n k h b = tt
parse_arg-Moves l (c ∷ s) p n k h b = elim (Bool-cases (c == b'"' || c == b'\'')) [
  | inl quote ↦ rw quote (
      Moves-bind n k k (parse_chars c false s (p + 1) []) _
        (parse_chars-Moves c false s (p + 1) n k [] (omega arith) (omega arith)) (λ a c' m. m))
  | inr other ↦ elim (Bool-cases (c == b'-' || l.is_digit c)) [
    | inl number ↦
        rw (other, number)
          (Moves-bind n k k (parse_int l c s p) _
            (parse_int-Moves l c s p n k h (omega arith) (ground arith)) (λ a c' m. m))
    | inr bad ↦ rw (other, bad) (omega arith)
  ]
]
