-- ===== src/Dsl/Pipeline/Typing.antt =====
-- internal/dsl: types for steps. No code of the repository checks them: the kind of an argument is read off
-- the name that `registry` gives it.
use maga.Base.{
  Bool, true, false, ◌&&◌, ◌||◌, not, List, [], ◌∷◌, map, Option, none, some, Str, codes, str_eq,
  length, ltb, is_some, lookup, if◌then◌else◌,
}
use maga.Go.Libs.{Libs}
use maga.Dsl.Types.{
  Arg, Op, OpError, OpSpec, not_string, not_integer, invalid_regex, position_out_of_range,
  range_out_of_bounds, empty_pad, no_table,
}
use maga.Dsl.Ops.Registry.{registry}

pub data Kind : Type 0 where
  text : Kind
  integer : Kind
  table : Kind

unfoldable pub kind_named : Str → Kind
unfolding str_eq
kind_named n =
    if str_eq n (codes "n")
      || str_eq n (codes "start")
      || str_eq n (codes "end")
      || str_eq n (codes "pos")
      || str_eq n (codes "length")
    then integer
    else if str_eq n (codes "table")
    then table
    else text

unfoldable pub fits : Kind → Arg → Bool
fits text a = is_some a.s
fits integer a = is_some a.i
fits table a = is_some a.m

-- A list of arguments may end early, and not go on.
unfoldable pub all_fit : List Kind → List Arg → Bool
unfolding fits
all_fit ks [] = true
all_fit [] (a ∷ as') = false
all_fit (k ∷ ks) (a ∷ as') = fits k a && all_fit ks as'

unfoldable pub fits_spec : OpSpec → List Arg → Bool
unfolding all_fit kind_named
fits_spec spec args =
    not (ltb (length args) spec.min_args)
    && not (ltb spec.max_args (length args))
    && all_fit (map kind_named spec.arg_names) args

abbrev pub fits_found : Option OpSpec → List Arg → Bool
fits_found none args = false
fits_found (some spec) args = fits_spec spec args

-- The operation is registered, and takes as many arguments, of these kinds.
unfoldable pub is_typed : Libs → Op → Bool
unfolding fits_spec
is_typed l op = fits_found (lookup op.name (registry l)) op.args

-- The errors that depend on the values of arguments and of the input, not on the kinds of arguments.
unfoldable pub is_value_error : OpError → Bool
is_value_error (not_string _) = false
is_value_error (not_integer _) = false
is_value_error no_table = false
is_value_error (invalid_regex _ _) = true
is_value_error (position_out_of_range _ _) = true
is_value_error (range_out_of_bounds _ _ _) = true
is_value_error empty_pad = true
