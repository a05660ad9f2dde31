-- ===== src/Dsl/Pipeline.antt =====
-- internal/dsl/pipeline.go: `Pipeline.Apply`.
pub mod Laws
pub mod Ranges
pub mod Typing
pub mod Safety
use maga.Base.{
  ◌||◌, [], ◌∷◌, Option, none, some, Str, length, ltb, if◌then◌else◌, lookup, Result, ok, err,
  ◌>>=◌,
}
use maga.Go.Libs.{Libs}
use maga.Dsl.Types.{Op, Pipeline, OpError, OpSpec, ApplyError, unknown_op, bad_arity, op_failed}
use maga.Dsl.Ops.Registry.{registry}

abbrev or_op_failed : Str → Result OpError Str → Result ApplyError Str
or_op_failed name (ok next) = ok next
or_op_failed name (err e) = err (op_failed name e)

abbrev call_op : Op → Option OpSpec → Str → Result ApplyError Str
call_op op none value = err (unknown_op op.name)
call_op op (some spec) value =
    if ltb (length op.args) spec.min_args || ltb spec.max_args (length op.args)
    then err (bad_arity op.name spec.min_args spec.max_args (length op.args))
    else or_op_failed op.name (spec.fn value op.args)

-- One round of the loop of `Apply`.
unfoldable pub apply_op : Libs → Op → Str → Result ApplyError Str
apply_op l op value = call_op op (lookup op.name (registry l)) value

unfoldable pub apply : Libs → Pipeline → Str → Result ApplyError Str
apply l [] value = ok value
apply l (op ∷ p) value = do next ← apply_op l op value; apply l p next
