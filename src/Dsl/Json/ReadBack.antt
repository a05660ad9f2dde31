-- ===== src/Dsl/Json/ReadBack.antt =====
-- internal/dsl/json.go: what `FromJSON` accepted and `MarshalJSON` can write is read back unchanged.
use maga.Base.{
  ◌≡◌, ap, ◌∙◌, arith, List, [], ◌∷◌, Option, none, some, lookup, All, ok, ◌>>=◌, >>=-eq-ok,
}
use maga.Go.Libs.{Libs}
use maga.Dsl.Types.{Op, Pipeline, OpSpec}
use maga.Dsl.Ops.Registry.{registry}
use maga.Dsl.Json.{
  JsonOp, marshal_op, marshal_json, marshal_args, unmarshal_args, unmarshal_op, from_json,
}
use maga.Dsl.Json.Held.{
  WasRead, WasWritten, unmarshal_args-WasRead, marshal_args-WasWritten, All-IsValue,
}
use maga.Dsl.Json.RoundTrip.{IsStep, unmarshal_op-IsCallable, from_json-marshal_json}

unmarshal_op-WasRead :
    (jo : JsonOp) (found : Option OpSpec) (op : Op)
    → unmarshal_op jo found ≡ ok op
    → All WasRead op.args
unmarshal_op-WasRead jo none op e = cc
unmarshal_op-WasRead jo (some spec) op e =
    let (args, read, made) =
      >>=-eq-ok (unmarshal_args jo.op spec.min_args 0 spec.arg_names jo.args)
        (λ args. ok (record { name = jo.op; args = args })) {out = op} e in
    let args_eq : args ≡ op.args = ground arith in
    rw (← args_eq) (unmarshal_args-WasRead jo.op spec.min_args 0 spec.arg_names jo.args args read)

marshal_op-WasWritten :
    (op : Op) (found : Option OpSpec) {jo : JsonOp}
    → marshal_op op found ≡ ok jo
    → All WasWritten op.args
marshal_op-WasWritten op none e = cc
marshal_op-WasWritten op (some spec) {jo} e =
    let (d, written, made) =
      >>=-eq-ok (marshal_args op.name spec.arg_names 0 op.args [])
        (λ d. ok (record { op = op.name; args = d })) {out = jo} e in
    marshal_args-WasWritten op.name spec.arg_names 0 op.args [] written

pub All-IsStep :
    (l : Libs) (ops : List JsonOp) (p : Pipeline) {out : List JsonOp}
    → from_json l ops ≡ ok p
    → marshal_json l p ≡ ok out
    → All (IsStep l) p
unfolding from_json marshal_json
All-IsStep l [] p r w = let none_left : [] ≡ p = ground arith in rw (← none_left) tt
All-IsStep l (jo ∷ ops) p {out} r w =
    let (op, read, r') =
      >>=-eq-ok (unmarshal_op jo (lookup jo.op (registry l)))
        (λ op. from_json l ops >>= λ p. ok (op ∷ p)) {out = p} r in
    let (q, rest, made) = >>=-eq-ok (from_json l ops) (λ p. ok (op ∷ p)) {out = p} r' in
    let split : op ∷ q ≡ p = ground arith in
    let w' : marshal_json l (op ∷ q) ≡ ok out = ap (marshal_json l) split ∙ w in
    let (jo', written, w'') =
      >>=-eq-ok (marshal_op op (lookup op.name (registry l)))
        (λ jo'. marshal_json l q >>= λ js. ok (jo' ∷ js)) {out = out} w' in
    let (js, more, _) = >>=-eq-ok (marshal_json l q) (λ js. ok (jo' ∷ js)) {out = out} w'' in
    rw (← split) (
      (
        unmarshal_op-IsCallable l jo op read,
        All-IsValue op.args (unmarshal_op-WasRead jo (lookup jo.op (registry l)) op read)
            (marshal_op-WasWritten op (lookup op.name (registry l)) written),
      ),
      All-IsStep l ops q rest more,
    )

-- A pipeline that `FromJSON` accepted is read back unchanged from what `MarshalJSON` writes, if that can write
-- it: only an argument that was null in the JSON holds no value, and cannot be written.
pub from_json-read_back :
    (l : Libs) (ops : List JsonOp) (p : Pipeline) {out : List JsonOp}
    → from_json l ops ≡ ok p
    → marshal_json l p ≡ ok out
    → from_json l out ≡ ok p
from_json-read_back l ops p {out} r w =
    let (out', written, read) = from_json-marshal_json l p (All-IsStep l ops p r w) in
    let same : out' ≡ out = cc in rw (← same) read
