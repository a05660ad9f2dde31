-- ===== src/Dsl/Parser/Bounds.antt =====
-- internal/dsl/parser.go: the positions of the parser. Each function moves forward inside the input,
-- so the fuel suffices, and a position that an error reports lies in the input.
use maga.Base.{
  ℕ, zero, suc, ◌+◌, ◌≤◌, ◌<◌, ◌-◌, ltb, List, [], ◌∷◌, ◌++◌, ◌≡◌, arith, Str, length, Result, ok,
  err, ◌>>=◌, inl, inr, Bool-cases, ◌==◌, if◌then◌else◌,
}
use maga.Go.Libs.{Libs}
use maga.Dsl.Types.{Arg, Pipeline}
use maga.Dsl.Parser.{
  ParseError, Cursor, at, Parsed, skip_space, parse_ident, parse_arg, after_arg, parse_args,
  close_paren, open_args, open_paren, parse_step, after_step, parse_steps, start_steps,
  parse_pipeline, parse, max_pipeline_length, too_many_steps,
}
use maga.Dsl.Parser.Moves.{
  IsWithin, IsAt, Moves, skip_space-IsAt, parse_ident-Moves, Moves-bind, Moves-weaken,
  skip_rest-IsAt, parse_arg-Moves,
}

-- What follows an argument or a step is read behind a delimiter, so with less fuel.
after_arg-Moves :
    (next : Str → ℕ → Parsed (List Arg)) (name : Str) (args : List Arg) (n k : ℕ) (c : Cursor)
    → IsAt n k c
    → ((s : Str) (p : ℕ) → p + length s ≡ n → length s < k → Moves n k (next s p))
    → Moves n k (after_arg next name args c)
after_arg-Moves next name args n k c h step = go c.rest c.pos h
  where
    go : (s : Str) (p : ℕ) → IsAt n k (at s p) → Moves n k (after_arg next name args (at s p))
    go [] p h = tt
    go (d ∷ s) p h = elim (Bool-cases (d == b',')) [
      | inl comma ↦ rw comma (
          step (skip_space s (p + 1)).rest (skip_space s (p + 1)).pos
            (omega (arith, skip_space-IsAt s (p + 1))) (omega (arith, skip_space-IsAt s (p + 1))))
      | inr end ↦ rw end h
    ]

-- With fuel for the code points that are left, the fuel does not run out.
parse_args-Moves :
    (fuel : ℕ) (l : Libs) (name : Str) (args : List Arg) (s : Str) (p n k : ℕ)
    → p + length s ≡ n
    → k < fuel
    → length s ≤ suc k
    → Moves n k (parse_args fuel l name args s p)
unfolding parse_args
parse_args-Moves zero l name args s p n k h f b = absurd (omega arith)
parse_args-Moves (suc fuel) l name args s p n k h f b =
    Moves-bind n k k (parse_arg l s p) _ (parse_arg-Moves l s p n k h b) λ a c m.
      after_arg-Moves (parse_args fuel l name (args ++ a ∷ [])) name (args ++ a ∷ []) n k
        (skip_space c.rest c.pos) (skip_rest-IsAt n k c m)
        λ t q e lt.
          Moves-weaken n (k - 1) k (parse_args fuel l name (args ++ a ∷ []) t q) (omega arith) (
            parse_args-Moves fuel l name (args ++ a ∷ []) t q n (k - 1) e (omega arith)
              (omega arith))

open_args-Moves :
    (l : Libs) (name : Str) (s : Str) (p n k : ℕ)
    → p + length s ≡ n
    → length s ≤ k
    → Moves n k (open_args l name s p)
open_args-Moves l name [] p n k h b = omega arith
open_args-Moves l name (c ∷ s) p n k h b = elim (Bool-cases (c == b')')) [
  | inl close ↦ rw close (omega arith)
  | inr arg ↦ rw arg (
      Moves-weaken n (length s) k (parse_args (suc (length s)) l name [] (c ∷ s) p) (omega arith) (
        parse_args-Moves (suc (length s)) l name [] (c ∷ s) p n (length s) h (omega arith)
          (omega arith)))
]

close_paren-Moves :
    (name : Str) (args : List Arg) (c : Cursor) (n k : ℕ)
    → IsAt n k c
    → Moves n k (close_paren name args c.rest c.pos)
close_paren-Moves name args c n k h = go c.rest c.pos h
  where
    go : (s : Str) (p : ℕ) → IsAt n k (at s p) → Moves n k (close_paren name args s p)
    go [] p h = tt
    go (d ∷ s) p h = ground arith

open_paren-Moves :
    (l : Libs) (name : Str) (s : Str) (p n k : ℕ)
    → p + length s ≡ n
    → length s ≤ k
    → Moves n k (open_paren l name s p)
open_paren-Moves l name [] p n k h b = tt
open_paren-Moves l name (c ∷ s) p n k h b = elim (Bool-cases (c == b'(')) [
  | inl bracket ↦ rw bracket (
      Moves-bind n k k (open_args l name (skip_space s (p + 1)).rest (skip_space s (p + 1)).pos) _
        (open_args-Moves l name (skip_space s (p + 1)).rest (skip_space s (p + 1)).pos n k
          (omega (arith, skip_space-IsAt s (p + 1))) (omega (arith, skip_space-IsAt s (p + 1))))
        (λ args c' m. close_paren-Moves name args c' n k m))
  | inr other ↦ rw other tt
]

parse_step-Moves :
    (l : Libs) (s : Str) (p n k : ℕ)
    → p + length s ≡ n
    → length s ≤ suc k
    → Moves n k (parse_step l s p)
unfolding parse_step
parse_step-Moves l s p n k h b =
    Moves-bind n k k (parse_ident l s p) _ (parse_ident-Moves l s p n k h b) λ name c m.
      let c' = skip_space c.rest c.pos in
      open_paren-Moves l name c'.rest c'.pos n k (skip_rest-IsAt n k c m).0
        (skip_rest-IsAt n k c m).1

-- The result of the loop: an error within the input, never of the fuel.
abbrev pub IsWithinResult : ℕ → Result ParseError Pipeline → Type 0
IsWithinResult n (ok p) = Unit
IsWithinResult n (err e) = IsWithin n e

IsWithinResult-bind :
    {A : Type 0} (n k : ℕ) (m : Parsed A) (f : A × Cursor → Result ParseError Pipeline)
    → Moves n k m
    → ((a : A) (c : Cursor) → IsAt n k c → IsWithinResult n (f (a, c)))
    → IsWithinResult n (m >>= f)
IsWithinResult-bind n k (ok (a, c)) f h step = step a c h
IsWithinResult-bind n k (err e) f h step = h

after_step-IsWithin :
    (next : Str → ℕ → Result ParseError Pipeline) (pipeline : Pipeline) (n k : ℕ) (c : Cursor)
    → IsAt n k c
    → ((s : Str) (p : ℕ) → p + length s ≡ n → length s < k → IsWithinResult n (next s p))
    → IsWithinResult n (after_step next pipeline c)
after_step-IsWithin next pipeline n k c h step = go c.rest c.pos h
  where
    go :
        (s : Str) (p : ℕ) → IsAt n k (at s p) → IsWithinResult n (after_step next pipeline (at s p))
    go [] p h = tt
    go (d ∷ s) p h = elim (Bool-cases (d == b'|')) [
      | inl pipe ↦ rw pipe (
          step (skip_space s (p + 1)).rest (skip_space s (p + 1)).pos
            (omega (arith, skip_space-IsAt s (p + 1))) (omega (arith, skip_space-IsAt s (p + 1))))
      | inr other ↦ rw other (omega arith)
    ]

parse_steps-IsWithin :
    (fuel : ℕ) (l : Libs) (pipeline : Pipeline) (s : Str) (p n k : ℕ)
    → p + length s ≡ n
    → k < fuel
    → length s ≤ suc k
    → IsWithinResult n (parse_steps fuel l pipeline s p)
unfolding parse_steps
parse_steps-IsWithin zero l pipeline s p n k h f b = absurd (omega arith)
parse_steps-IsWithin (suc fuel) l pipeline s p n k h f b =
    IsWithinResult-bind n k (parse_step l s p) _ (parse_step-Moves l s p n k h b) λ op c m.
      after_step-IsWithin (parse_steps fuel l (pipeline ++ op ∷ [])) (pipeline ++ op ∷ []) n k
        (skip_space c.rest c.pos) (skip_rest-IsAt n k c m)
        λ t q e lt.
          parse_steps-IsWithin fuel l (pipeline ++ op ∷ []) t q n (k - 1) e (omega arith)
            (omega arith)

start_steps-IsWithin :
    (l : Libs) (s : Str) (p n : ℕ) → p + length s ≡ n → IsWithinResult n (start_steps l s p)
start_steps-IsWithin l [] p n h = tt
start_steps-IsWithin l (c ∷ s) p n h =
    parse_steps-IsWithin (suc (length s)) l [] (c ∷ s) p n (length s) h (omega arith) (omega arith)

-- What a caller of `Parse` may rely on.
abbrev pub IsParseResult : ℕ → Result ParseError Pipeline → Type 0
IsParseResult n (ok p) = length p ≤ max_pipeline_length
IsParseResult n (err e) = IsWithin n e

cap-IsParseResult :
    (n : ℕ) (r : Result ParseError Pipeline)
    → IsWithinResult n r
    → IsParseResult n (
        r >>= λ p.
        if ltb max_pipeline_length (length p) then err (too_many_steps (length p)) else ok p)
cap-IsParseResult n (ok p) h = ground arith
cap-IsParseResult n (err e) h = h

-- For every text, `Parse` ends: its loops make at most one round for each code point. It returns a
-- pipeline of at most 20 steps, or an error whose position, if it names one, lies in the text.
pub parse_total : (l : Libs) (src : Str) → IsParseResult (length src) (parse l src)
unfolding parse parse_pipeline
parse_total l src = cap-IsParseResult (length src) (parse_pipeline l src) (
    start_steps-IsWithin l (skip_space src 0).rest (skip_space src 0).pos (length src)
      (omega (arith, skip_space-IsAt src 0)))
