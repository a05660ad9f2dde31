-- ===== src/Dsl/Ops/Registry.antt =====
-- internal/dsl/ops.go: `registry`.
pub mod Names
use maga.Base.{
  ℕ, ◌+◌, ◌-◌, ℤ, pos, pos_part, ltb_ℤ, Bool, true, false, ◌||◌, List, [], ◌∷◌, ◌++◌, map, Option,
  none, some, Str, codes, length, take, drop, ◌==◌, if◌then◌else◌, is_empty, Dict, lookup, Result,
  ok, err, ◌>>=◌,
}
use maga.Go.Libs.{Regexp, Libs}
use maga.Go.Strings
use maga.Dsl.Types.{Arg, OpError, OpFunc, OpSpec, invalid_regex, position_out_of_range, no_table}
use maga.Dsl.Ops.Args.{arg_string, arg_int, rune_range}
use maga.Dsl.Ops.Pad.{pad}

abbrev op_trim : OpFunc
op_trim current _ = ok (Strings.trim_space current)

abbrev op_trim_left : OpFunc
op_trim_left current args = do cutset ← arg_string args 0; ok (Strings.trim_left current cutset)

abbrev op_trim_right : OpFunc
op_trim_right current args = do cutset ← arg_string args 0; ok (Strings.trim_right current cutset)

abbrev op_replace : OpFunc
op_replace current args = do
  old ← arg_string args 0
  next ← arg_string args 1
  ok (Strings.replace_all current old next)

abbrev op_replace_n : OpFunc
op_replace_n current args = do
  old ← arg_string args 0
  next ← arg_string args 1
  n ← arg_int args 2
  ok (Strings.replace current old next n)

abbrev op_delete_substring : OpFunc
op_delete_substring current args = do
  substr ← arg_string args 0
  ok (Strings.replace_all current substr [])

abbrev op_delete_range : OpFunc
op_delete_range current args = do
  bounds ← rune_range args current
  ok (take bounds.0 current ++ drop bounds.1 current)

abbrev op_insert_at : OpFunc
op_insert_at current args = do
  p ← arg_int args 0
  text ← arg_string args 1
  if ltb_ℤ p (pos 0) || ltb_ℤ (pos (length current)) p
      then err (position_out_of_range p (length current))
      else ok (take (pos_part p) current ++ text ++ drop (pos_part p) current)

abbrev op_slice : OpFunc
op_slice current args = do
  bounds ← rune_range args current
  ok (take (bounds.1 - bounds.0) (drop bounds.0 current))

abbrev op_prefix : OpFunc
op_prefix current args = do text ← arg_string args 0; ok (text ++ current)

abbrev op_suffix : OpFunc
op_suffix current args = do text ← arg_string args 0; ok (current ++ text)

abbrev op_pad_left : OpFunc
op_pad_left current args = pad current args true

abbrev op_pad_right : OpFunc
op_pad_right current args = pad current args false

abbrev pub op_default : OpFunc
op_default [] args = arg_string args 0
op_default (c ∷ s) args = ok (c ∷ s)

-- `args[0].M`, of which nil and a missing argument are treated alike
abbrev table_arg : List Arg → Option (Dict Str)
table_arg [] = none
table_arg (a ∷ _) = a.m

-- a key that the table lacks: the fallback, if a second argument is given
abbrev pub or_fallback : Option Str → Str → List Arg → Result OpError Str
or_fallback (some v) current args = ok v
or_fallback none current args = if length args == 2 then arg_string args 1 else ok current

abbrev pub map_values_in : Option (Dict Str) → Str → List Arg → Result OpError Str
map_values_in none current args = err no_table
map_values_in (some m) current args = or_fallback (lookup current m) current args

abbrev pub op_map_values : OpFunc
op_map_values current args = map_values_in (table_arg args) current args

module _ (l : Libs) where
  abbrev op_upper : OpFunc
  op_upper current _ = ok (map l.to_upper current)

  abbrev op_lower : OpFunc
  op_lower current _ = ok (map l.to_lower current)

  abbrev pub replace_compiled : Str → Result Str Regexp → Str → Str → Result OpError Str
  replace_compiled pattern (err e) repl current = err (invalid_regex pattern e)
  replace_compiled pattern (ok re) repl current = ok (re.replace_all_string current repl)

  abbrev op_replace_regex : OpFunc
  op_replace_regex current args = do
    pattern ← arg_string args 0
    repl ← arg_string args 1
    replace_compiled pattern (l.compile pattern) repl current

abbrev spec : ℕ → ℕ → List Str → OpFunc → OpSpec
spec lo hi names f = record { min_args = lo; max_args = hi; arg_names = names; fn = f }

-- A name that is not in the map has no entry.
unfoldable pub registry : Libs → Dict OpSpec
registry l =
    (codes "trim", spec 0 0 [] op_trim)
    ∷ (codes "trimLeft", spec 1 1 (codes "cutset" ∷ []) op_trim_left)
    ∷ (codes "trimRight", spec 1 1 (codes "cutset" ∷ []) op_trim_right)
    ∷ (codes "upper", spec 0 0 [] (op_upper l))
    ∷ (codes "lower", spec 0 0 [] (op_lower l))
    ∷ (codes "replace", spec 2 2 (codes "old" ∷ codes "new" ∷ []) op_replace)
    ∷ (codes "replaceN", spec 3 3 (codes "old" ∷ codes "new" ∷ codes "n" ∷ []) op_replace_n)
    ∷ (codes "replaceRegex", spec 2 2 (codes "pattern" ∷ codes "repl" ∷ []) (op_replace_regex l))
    ∷ (codes "deleteSubstring", spec 1 1 (codes "substr" ∷ []) op_delete_substring)
    ∷ (codes "deleteRange", spec 2 2 (codes "start" ∷ codes "end" ∷ []) op_delete_range)
    ∷ (codes "insertAt", spec 2 2 (codes "pos" ∷ codes "text" ∷ []) op_insert_at)
    ∷ (codes "slice", spec 2 2 (codes "start" ∷ codes "end" ∷ []) op_slice)
    ∷ (codes "prefix", spec 1 1 (codes "text" ∷ []) op_prefix)
    ∷ (codes "suffix", spec 1 1 (codes "text" ∷ []) op_suffix)
    ∷ (codes "padLeft", spec 2 2 (codes "length" ∷ codes "pad" ∷ []) op_pad_left)
    ∷ (codes "padRight", spec 2 2 (codes "length" ∷ codes "pad" ∷ []) op_pad_right)
    ∷ (codes "default", spec 1 1 (codes "value" ∷ []) op_default)
    ∷ (codes "mapValues", spec 1 2 (codes "table" ∷ codes "fallback" ∷ []) op_map_values)
    ∷ []
