-- ===== src/Dsl/Json.antt =====
-- internal/dsl/json.go: the structured form of a pipeline. `encoding/json` itself, between bytes and
-- values, is not modelled: a `json.RawMessage` is a `Json` value, and the bytes of a pipeline are the
-- list of `jsonOp` that they decode to.
pub mod Values
mod Arguments
pub mod RoundTrip
pub mod Maps
mod Held
pub mod ReadBack
use maga.Base.{
  ℕ, ◌+◌, ◌^◌, ℤ, pos, negsuc, Bool, List, [], ◌∷◌, ◌++◌, Option, none, some, Str, codes, get_elem?,
  ltb, if◌then◌else◌, Dict, lookup, insert, Result, ok, err, ◌>>=◌,
}
use maga.Go.Libs.{Libs}
use maga.Go.Strconv
use maga.Dsl.Types.{Arg, Op, Pipeline, OpSpec, str_arg, int_arg}
use maga.Dsl.Ops.Registry.{registry}

mutual
  pub data Json : Type 0 where
    null : Json
    bool : Bool → Json
    int : ℤ → Json
    -- a number with a fraction or an exponent
    float : Str → Json
    str : Str → Json
    arr : Items → Json
    obj : Fields → Json

  pub data Items : Type 0 where
    nil : Items
    cons : Json → Items → Items

  pub data Fields : Type 0 where
    end : Fields
    field : Str → Json → Fields → Fields

-- `jsonOp`
pub record JsonOp : Type 0 where
  pub op : Str
  pub args : Dict Json

pub data JsonError : Type 0 where
  unknown_op : Str → JsonError
  missing_arg : Str → Str → JsonError
  bad_arg : Str → Str → JsonError
  no_value : Str → Str → JsonError

-- What `json.Marshal` makes of a `map[string]string`.
unfoldable pub table_fields : Dict Str → Fields
table_fields [] = end
table_fields ((k, v) ∷ m) = field k (str v) (table_fields m)

marshal_table : Option (Dict Str) → Option Json
marshal_table none = none
marshal_table (some m) = some (obj (table_fields m))

marshal_int : Option ℤ → Option (Dict Str) → Option Json
marshal_int (some n) m = some (int n)
marshal_int none m = marshal_table m

marshal_string : Option Str → Option ℤ → Option (Dict Str) → Option Json
marshal_string (some t) i m = some (str t)
marshal_string none i m = marshal_int i m

-- `marshalArg`; `none` is its error.
pub marshal_arg : Arg → Option Json
unfolding marshal_string marshal_int marshal_table table_fields
marshal_arg a = marshal_string a.s a.i a.m

-- `json.Unmarshal` of an object into a `map[string]string`: a null value leaves the empty string.
string_fields : Dict Str → Fields → Option (Dict Str)
string_fields m end = some m
string_fields m (field k (str t) fs) = string_fields (insert k t m) fs
string_fields m (field k null fs) = string_fields (insert k [] m) fs
string_fields m (field k _ fs) = none

abbrev is_int64 : ℤ → Bool
is_int64 (pos n) = ltb n (2 ^ 63)
is_int64 (negsuc n) = ltb n (2 ^ 63)

table_or_error : Option (Dict Str) → Option Arg
table_or_error none = none
table_or_error (some m) = some (record { s = none; i = none; m = some m })

-- `unmarshalArg`; null decodes into a nil map, so it is taken by the first attempt.
pub unmarshal_arg : Json → Option Arg
unfolding string_fields table_or_error
unmarshal_arg null = some (record { s = none; i = none; m = none })
unmarshal_arg (obj fs) = table_or_error (string_fields [] fs)
unmarshal_arg (int n) = if is_int64 n then some (int_arg n) else none
unmarshal_arg (str t) = some (str_arg t)
unmarshal_arg _ = none

name_or_position : ℕ → Option Str → Str
name_or_position i (some name) = name
name_or_position i none = codes "arg" ++ Strconv.itoa i

-- `argNameFor`
pub arg_name_for : List Str → ℕ → Str
unfolding name_or_position Strconv.itoa
arg_name_for names i = name_or_position i (get_elem? names i)

abbrev put_arg : Str → Str → Option Json → Dict Json → Result JsonError (Dict Json)
put_arg op name none d = err (no_value op name)
put_arg op name (some raw) d = ok (insert name raw d)

-- The loop over the arguments in `MarshalJSON`, from the `j`-th on.
pub marshal_args : Str → List Str → ℕ → List Arg → Dict Json → Result JsonError (Dict Json)
unfolding marshal_arg arg_name_for
marshal_args op names j [] d = ok d
marshal_args op names j (a ∷ args) d = do
  d' ← put_arg op (arg_name_for names j) (marshal_arg a) d
  marshal_args op names (j + 1) args d'

abbrev marshal_op : Op → Option OpSpec → Result JsonError JsonOp
marshal_op op none = err (unknown_op op.name)
marshal_op op (some spec) = do
  d ← marshal_args op.name spec.arg_names 0 op.args []
  ok (record { op = op.name; args = d })

-- `MarshalJSON`
unfoldable pub marshal_json : Libs → Pipeline → Result JsonError (List JsonOp)
unfolding marshal_args registry
marshal_json l [] = ok []
marshal_json l (op ∷ p) = do
  jo ← marshal_op op (lookup op.name (registry l))
  rest ← marshal_json l p
  ok (jo ∷ rest)

abbrev or_bad_arg : Str → Str → Option Arg → Result JsonError Arg
or_bad_arg op name none = err (bad_arg op name)
or_bad_arg op name (some a) = ok a

abbrev present_arg :
    Str → Str → ℕ → ℕ → Option Json → Result JsonError (List Arg) → Result JsonError (List Arg)
present_arg op name min_args j none rest =
    if ltb j min_args then err (missing_arg op name) else ok []
present_arg op name min_args j (some raw) rest = do
  a ← or_bad_arg op name (unmarshal_arg raw)
  args ← rest
  ok (a ∷ args)

-- The loop over the argument names in `FromJSON`, from the `j`-th on; it stops at the first optional one
-- that is absent.
pub unmarshal_args : Str → ℕ → ℕ → List Str → Dict Json → Result JsonError (List Arg)
unfolding unmarshal_arg
unmarshal_args op min_args j [] d = ok []
unmarshal_args op min_args j (name ∷ names) d =
    present_arg op name min_args j (lookup name d) (unmarshal_args op min_args (j + 1) names d)

abbrev unmarshal_op : JsonOp → Option OpSpec → Result JsonError Op
unmarshal_op jo none = err (unknown_op jo.op)
unmarshal_op jo (some spec) = do
  args ← unmarshal_args jo.op spec.min_args 0 spec.arg_names jo.args
  ok (record { name = jo.op; args = args })

-- `FromJSON`
unfoldable pub from_json : Libs → List JsonOp → Result JsonError Pipeline
unfolding unmarshal_args registry
from_json l [] = ok []
from_json l (jo ∷ ops) = do
  op ← unmarshal_op jo (lookup jo.op (registry l))
  p ← from_json l ops
  ok (op ∷ p)
