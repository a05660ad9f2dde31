-- ===== src/Dsl/Types.antt =====
-- internal/dsl/pipeline.go and ops.go: the data. An error keeps what its message is made of.
use maga.Base.{ℕ, ℤ, List, Option, none, some, Str, Dict, Result}

-- `Arg`: each field is a pointer or a map that may be nil.
pub record Arg : Type 0 where
  pub s : Option Str
  pub i : Option ℤ
  pub m : Option (Dict Str)

abbrev pub str_arg : Str → Arg
str_arg t = record { s = some t; i = none; m = none }

abbrev pub int_arg : ℤ → Arg
int_arg n = record { s = none; i = some n; m = none }

-- `MapArg`
abbrev pub map_arg : Dict Str → Arg
map_arg d = record { s = none; i = none; m = some d }

pub record Op : Type 0 where
  pub name : Str
  pub args : List Arg

abbrev pub Pipeline : Type 0
Pipeline = List Op

-- The errors of the functions in the registry.
pub data OpError : Type 0 where
  not_string : ℕ → OpError
  not_integer : ℕ → OpError
  invalid_regex : Str → Str → OpError
  position_out_of_range : ℤ → ℕ → OpError
  range_out_of_bounds : ℤ → ℤ → ℕ → OpError
  empty_pad : OpError
  no_table : OpError

-- `OpFunc` and `OpSpec`
abbrev pub OpFunc : Type 0
OpFunc = Str → List Arg → Result OpError Str

pub record OpSpec : Type 0 where
  pub min_args : ℕ
  pub max_args : ℕ
  pub arg_names : List Str
  pub fn : OpFunc

-- The errors of `Apply`.
pub data ApplyError : Type 0 where
  unknown_op : Str → ApplyError
  bad_arity : Str → ℕ → ℕ → ℕ → ApplyError
  op_failed : Str → OpError → ApplyError
