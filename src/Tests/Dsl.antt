-- ===== src/Tests/Dsl.antt =====
-- internal/dsl: tests and applied theorems.
use maga.Base.{
  ◌≡◌, refl, arith, true, max, pos, negsuc, List, [], ◌∷◌, Str, codes, length, byte_len, lookup,
  All, ok, err, ◌>>=◌,
}
use maga.Dsl.Types.{
  Pipeline, str_arg, int_arg, unknown_op, op_failed, not_string, position_out_of_range,
}
use maga.Dsl.Pipeline.Typing.{is_typed}
use maga.Dsl.Pipeline.Safety.{IsValueError, apply-is_typed}
use maga.Go.Strings.{trim_space}
use maga.Dsl.Ops.Args.{arg_int, arg_string}
use maga.Dsl.Ops.Pad.{pad}
use maga.Dsl.Ops.Pad.Lengths.{pad_exact, pad_multibyte}
use maga.Dsl.Ops.Registry.{registry}
use maga.Dsl.Pipeline.{apply_op, apply}
use maga.Dsl.Pipeline.Laws.{IsCallable}
use maga.Dsl.Pipeline.Ranges.{call, insert_at}
use maga.Dsl.Parser.{parse}
use maga.Dsl.Parser.Bounds.{IsParseResult, parse_total}
use maga.Dsl.Json.{JsonOp, marshal_json, from_json, str, int}
use maga.Dsl.Json.Values.{is_string, is_int}
use maga.Dsl.Json.RoundTrip.{IsStep, from_json-marshal_json, from_json-IsCallable}
use maga.Tests.Ascii.{ascii}

abbrev two_steps : Pipeline
two_steps = call "trim" [] ∷ insert_at 1 (codes "-") ∷ []

parse_two :
    parse ascii (codes " trim() | insertAt(-12, \"x\\\"y\") ")
    ≡ ok (
        record { name = codes "trim"; args = [] }
        ∷ record {
          name = codes "insertAt";
          args = int_arg (negsuc 11) ∷ str_arg (codes "x\"y") ∷ [];
        }
        ∷ [])
unfolding parse
parse_two = refl

parse_total_example : IsParseResult 15 (parse ascii (codes "trim() | upper("))
parse_total_example = parse_total ascii (codes "trim() | upper(")

two_steps-IsCallable : All (IsStep ascii) two_steps
unfolding registry lookup
two_steps-IsCallable = (
  ((_, refl, omega arith, omega arith), tt),
  (
    (
      (_, refl, omega arith, omega arith),
      (is_int (pos 1) refl refl, (is_string (codes "-") refl, tt)),
    ),
    tt,
  ),
)

from_json-marshal_json_example :
    (ops : List JsonOp) × (marshal_json ascii two_steps ≡ ok ops)
    × (from_json ascii ops ≡ ok two_steps)
from_json-marshal_json_example = from_json-marshal_json ascii two_steps two_steps-IsCallable

abbrev json_steps : List JsonOp
json_steps =
    record {
      op = codes "insertAt";
      args = (codes "pos", int (pos 1)) ∷ (codes "text", str (codes "-")) ∷ [];
    }
    ∷ []

read_steps : from_json ascii json_steps ≡ ok (insert_at 1 (codes "-") ∷ [])
unfolding from_json lookup
read_steps = refl

from_json-IsCallable_example : All (IsCallable ascii) (insert_at 1 (codes "-") ∷ [])
from_json-IsCallable_example =
    from_json-IsCallable ascii json_steps (insert_at 1 (codes "-") ∷ []) read_steps

run_steps : apply ascii two_steps (codes " ab ") ≡ ok (codes "a-b")
unfolding apply apply_op lookup registry arg_int arg_string trim_space
run_steps = refl

run_unknown :
    apply ascii (call "trim" [] ∷ call "nope" [] ∷ []) (codes " ab ")
    ≡ err (unknown_op (codes "nope"))
unfolding apply apply_op lookup registry
run_unknown = refl

pad_exact_example :
    (r : Str) × (pad (codes "7") (int_arg (pos 3) ∷ str_arg (codes "0") ∷ []) true ≡ ok r)
    × (length r ≡ max 3 1)
pad_exact_example = pad_exact (codes "7") [] b'0' 3 true (omega arith, tt) (omega arith, tt)

-- The text of one letter `é` has two bytes.
pad_multibyte_example :
    pad (0xe9 ∷ []) (int_arg (pos 2) ∷ str_arg (codes "0") ∷ []) true ≡ ok (0xe9 ∷ [])
unfolding byte_len
pad_multibyte_example = pad_multibyte (0xe9 ∷ []) [] b'0' 2 true (omega arith)

abbrev typed_steps : Pipeline
typed_steps = call "trim" [] ∷ insert_at 9 (codes "-") ∷ []

typed_steps_typed : All (λ op. is_typed ascii op ≡ true) typed_steps
unfolding is_typed registry lookup
typed_steps_typed = (refl, (refl, tt))

typed_steps_error :
    apply ascii typed_steps (codes " ab ")
    ≡ err (op_failed (codes "insertAt") (position_out_of_range (pos 9) 2))
unfolding apply apply_op registry lookup arg_int arg_string trim_space
typed_steps_error = refl

apply-is_typed_example :
    IsValueError (op_failed (codes "insertAt") (position_out_of_range (pos 9) 2))
apply-is_typed_example =
    apply-is_typed ascii typed_steps (codes " ab ") typed_steps_typed typed_steps_error

-- A text that parses may have an argument of another kind, which is found when it is applied.
parse_untyped :
    (parse ascii (codes "prefix(3)") >>= λ p. ok (apply ascii p (codes "a")))
    ≡ ok (err (op_failed (codes "prefix") (not_string 0)))
unfolding parse apply apply_op registry lookup arg_string
parse_untyped = refl
