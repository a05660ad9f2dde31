-- ===== src/Dsl/Parser.antt =====
-- internal/dsl/parser.go: the text syntax of a pipeline. The parser's state `(input, pos)` is kept as
-- a `Cursor`: what is left of the input, `input[pos:]`, and the position.
mod Moves
pub mod Bounds
use maga.Base.{
  ℕ, zero, suc, ◌+◌, ℤ, Bool, true, false, ◌||◌, List, [], ◌∷◌, ◌++◌, Option, none, some, Str,
  length, ltb, ◌==◌, if◌then◌else◌, Result, ok, err, ◌>>=◌,
}
use maga.Go.Libs.{Libs}
use maga.Go.Strings
use maga.Go.Strconv
use maga.Dsl.Types.{Arg, Op, Pipeline, str_arg, int_arg}

-- One constructor for each message. `out_of_fuel` is no error of the program.
pub data ParseError : Type 0 where
  too_many_steps : ℕ → ParseError
  expected_pipe : ℕ → ℕ → ParseError
  expected_open : Str → ParseError
  unterminated_args : Str → ParseError
  expected_close : Str → ParseError
  expected_ident : ℕ → ParseError
  eof_in_args : ParseError
  bad_arg_char : ℕ → ℕ → ParseError
  unterminated_string : ParseError
  unterminated_escape : ParseError
  expected_digits : ℕ → ParseError
  invalid_integer : Str → ParseError
  out_of_fuel : ParseError

pub record Cursor : Type 0 where
  pub rest : Str
  pub pos : ℕ

abbrev pub at : Str → ℕ → Cursor
at s p = record { rest = s; pos = p }

abbrev pub Parsed : Type 0 → Type 0
Parsed A = Result ParseError (A × Cursor)

-- `maxPipelineLength`
abbrev pub max_pipeline_length : ℕ
max_pipeline_length = 20

-- `isIdentStart`, `isIdentPart`
abbrev pub is_ident_start : Libs → ℕ → Bool
is_ident_start l c = l.is_letter c || c == b'_'

abbrev pub is_ident_part : Libs → ℕ → Bool
is_ident_part l c = l.is_letter c || l.is_digit c || c == b'_'

unfoldable pub skip_space : Str → ℕ → Cursor
unfolding Strings.is_space
skip_space [] p = at [] p
skip_space (c ∷ s) p = if Strings.is_space c then skip_space s (p + 1) else at (c ∷ s) p

-- A loop `for p.pos < len(p.input) && test(p.input[p.pos]) { p.pos++ }`, with what it passed.
unfoldable pub span : (ℕ → Bool) → Str → ℕ → Str × Cursor
span test [] p = ([], at [] p)
span test (c ∷ s) p =
    let r = span test s (p + 1) in if test c then (c ∷ r.0, r.1) else ([], at (c ∷ s) p)

unfoldable pub parse_ident : Libs → Str → ℕ → Parsed Str
unfolding span
parse_ident l [] p = err (expected_ident p)
parse_ident l (c ∷ s) p =
    let r = span (is_ident_part l) s (p + 1) in
    if is_ident_start l c then ok (c ∷ r.0, r.1) else err (expected_ident p)

-- The loop of `parseString` behind the opening quote; `escaped` says that a backslash was read.
unfoldable pub parse_chars : ℕ → Bool → Str → ℕ → Str → Parsed Str
parse_chars quote true [] p b = err unterminated_escape
parse_chars quote false [] p b = err unterminated_string
parse_chars quote true (c ∷ s) p b = parse_chars quote false s (p + 1) (b ++ c ∷ [])
parse_chars quote false (c ∷ s) p b =
    let escape = parse_chars quote true s (p + 1) b in
    let plain = parse_chars quote false s (p + 1) (b ++ c ∷ []) in
    if c == b'\\' then escape else if c == quote then ok (b, at s (p + 1)) else plain

abbrev or_invalid_integer : Str → Cursor → Option ℤ → Parsed ℤ
or_invalid_integer t c none = err (invalid_integer t)
or_invalid_integer t c (some n) = ok (n, c)

-- The digits behind the sign; `start` is the sign, if there was one, and `p` is `digitsStart`.
abbrev parse_digits : Str → ℕ → Str × Cursor → Parsed ℤ
parse_digits start p ([], c) = err (expected_digits p)
parse_digits start p (d ∷ ds, c) =
    or_invalid_integer (start ++ d ∷ ds) c (Strconv.atoi (start ++ d ∷ ds))

-- Called where the input begins with a minus sign or a digit.
unfoldable pub parse_int : Libs → ℕ → Str → ℕ → Parsed ℤ
unfolding span Strconv.atoi
parse_int l c s p =
    if c == b'-'
    then parse_digits (b'-' ∷ []) (p + 1) (span l.is_digit s (p + 1))
    else parse_digits [] p (span l.is_digit (c ∷ s) p)

unfoldable pub parse_arg : Libs → Str → ℕ → Parsed Arg
unfolding parse_chars parse_int
parse_arg l [] p = err eof_in_args
parse_arg l (c ∷ s) p =
    if c == b'"' || c == b'\''
    then (do r ← parse_chars c false s (p + 1) []; ok (str_arg r.0, r.1))
    else if c == b'-' || l.is_digit c
    then (do r ← parse_int l c s p; ok (int_arg r.0, r.1))
    else err (bad_arg_char c p)

-- What follows an argument: a comma and the next one, or the end of the list.
abbrev after_arg : (Str → ℕ → Parsed (List Arg)) → Str → List Arg → Cursor → Parsed (List Arg)
after_arg next name args c = elim c.rest [
  | [] ↦ err (unterminated_args name)
  | d ∷ s ↦
      let c' = skip_space s (c.pos + 1) in if d == b',' then next c'.rest c'.pos else ok (args, c)
]

-- The loop over arguments. Each round reads an argument, so `len(input)` rounds are enough.
unfoldable pub parse_args : ℕ → Libs → Str → List Arg → Str → ℕ → Parsed (List Arg)
unfolding parse_arg skip_space
parse_args zero l name args s p = err out_of_fuel
parse_args (suc fuel) l name args s p = do
  r ← parse_arg l s p
  after_arg (parse_args fuel l name (args ++ r.0 ∷ [])) name (args ++ r.0 ∷ [])
      (skip_space r.1.rest r.1.pos)

abbrev close_paren : Str → List Arg → Str → ℕ → Parsed Op
close_paren name args [] p = err (expected_close name)
close_paren name args (c ∷ s) p =
    if c == b')'
    then ok (record { name = name; args = args }, at s (p + 1))
    else err (expected_close name)

abbrev open_args : Libs → Str → Str → ℕ → Parsed (List Arg)
open_args l name [] p = ok ([], at [] p)
open_args l name (c ∷ s) p =
    if c == b')' then ok ([], at (c ∷ s) p) else parse_args (suc (length s)) l name [] (c ∷ s) p

abbrev open_paren : Libs → Str → Str → ℕ → Parsed Op
open_paren l name [] p = err (expected_open name)
open_paren l name (c ∷ s) p =
    if c == b'('
    then (do
      let c' = skip_space s (p + 1)
      r ← open_args l name c'.rest c'.pos
      close_paren name r.0 r.1.rest r.1.pos)
    else err (expected_open name)

unfoldable pub parse_step : Libs → Str → ℕ → Parsed Op
unfolding parse_ident parse_args skip_space
parse_step l s p = do
  r ← parse_ident l s p
  let c = skip_space r.1.rest r.1.pos
  open_paren l r.0 c.rest c.pos

abbrev after_step :
    (Str → ℕ → Result ParseError Pipeline) → Pipeline → Cursor → Result ParseError Pipeline
after_step next p c = elim c.rest [
  | [] ↦ ok p
  | d ∷ s ↦
      let c' = skip_space s (c.pos + 1) in
      if d == b'|' then next c'.rest c'.pos else err (expected_pipe d c.pos)
]

-- The loop over steps. Each round reads a step, so `len(input)` rounds are enough.
unfoldable pub parse_steps : ℕ → Libs → Pipeline → Str → ℕ → Result ParseError Pipeline
unfolding parse_step skip_space
parse_steps zero l pipeline s p = err out_of_fuel
parse_steps (suc fuel) l pipeline s p = do
  r ← parse_step l s p
  after_step (parse_steps fuel l (pipeline ++ r.0 ∷ [])) (pipeline ++ r.0 ∷ [])
      (skip_space r.1.rest r.1.pos)

abbrev start_steps : Libs → Str → ℕ → Result ParseError Pipeline
start_steps l [] p = ok []
start_steps l (c ∷ s) p = parse_steps (suc (length s)) l [] (c ∷ s) p

unfoldable pub parse_pipeline : Libs → Str → Result ParseError Pipeline
unfolding parse_steps skip_space
parse_pipeline l src = let c = skip_space src 0 in start_steps l c.rest c.pos

unfoldable pub parse : Libs → Str → Result ParseError Pipeline
unfolding parse_pipeline
parse l src = do
  pipeline ← parse_pipeline l src
  if ltb max_pipeline_length (length pipeline)
      then err (too_many_steps (length pipeline))
      else ok pipeline
