-- ===== src/Dsl/Json/RoundTrip.antt =====
-- internal/dsl/json.go: `FromJSON` reads back what `MarshalJSON` writes, and what it accepts can be run.
use maga.Base.{
  ℕ, ◌+◌, ◌≤◌, ◌≡◌, refl, ap, arith, List, [], ◌∷◌, Option, none, some, Str, Dict, lookup, All,
  length, get_elem?, Result, ok, ◌>>=◌, >>=-eq-ok, Option-cases, inl, inr, ◌⊎◌,
}
use maga.Go.Libs.{Libs}
use maga.Dsl.Types.{Arg, Op, Pipeline}
use maga.Dsl.Ops.Registry.{registry}
use maga.Dsl.Ops.Registry.Names.{lookup-IsWellNamed}
use maga.Dsl.Pipeline.Laws.{IsCallable}
use maga.Dsl.Json.{
  Json, JsonOp, JsonError, marshal_op, marshal_json, unmarshal_arg, unmarshal_args, unmarshal_op,
  present_arg, or_bad_arg, from_json,
}
use maga.Dsl.Json.Values.{IsValue}
use maga.Dsl.Json.Arguments.{zip_args, marshal_args-zip_args, unmarshal_args-zip_args}

-- A step that the registry can call, with arguments that hold one value each.
abbrev pub IsStep : Libs → Op → Type 0
IsStep l op = IsCallable l op × All IsValue op.args

fresh-nil : (ns : List Str) → All (λ n. lookup {V = Json} n [] ≡ none) ns
unfolding lookup
fresh-nil [] = tt
fresh-nil (n ∷ ns) = (refl, fresh-nil ns)

step_round_trip :
    (l : Libs) (op : Op)
    → IsStep l op
    → (jo : JsonOp) × (marshal_op op (lookup op.name (registry l)) ≡ ok jo)
      × (unmarshal_op jo (lookup jo.op (registry l)) ≡ ok op)
step_round_trip l op ((spec, found, lo, hi), values) =
    let (ordered, named, dist) = lookup-IsWellNamed l op.name found in
    let (js, dec, written) =
      marshal_args-zip_args op.name spec.arg_names spec.arg_names 0 op.args []
        (λ i. ap (get_elem? spec.arg_names) (omega arith)) values (omega arith) in
    let read =
      unmarshal_args-zip_args op.name spec.min_args 0 spec.arg_names js op.args [] dist
        (fresh-nil spec.arg_names) dec (omega arith) (omega arith) in
    (
      record { op = op.name; args = zip_args spec.arg_names js [] },
      rw (found, written),
      rw (found, read),
    )

-- A pipeline whose steps are registered operations with as many arguments as these take, each of one
-- value, is read back from its JSON.
pub from_json-marshal_json :
    (l : Libs) (p : Pipeline)
    → All (IsStep l) p
    → (ops : List JsonOp) × (marshal_json l p ≡ ok ops) × (from_json l ops ≡ ok p)
unfolding marshal_json from_json
from_json-marshal_json l [] h = ([], refl, refl)
from_json-marshal_json l (op ∷ p) (step, h) =
    let (jo, w, r) = step_round_trip l op step in
    let (ops, ws, rs) = from_json-marshal_json l p h in (jo ∷ ops, rw (w, ws), rw (r, rs))

-- An absent argument ends the list, and is optional; a present one is the next of the list.
present_arg-cases :
    (op n : Str) (lo j : ℕ) (raw : Option Json) (rest : Result JsonError (List Arg))
    (args : List Arg)
    → present_arg op n lo j raw rest ≡ ok args
    → ((args ≡ []) × (lo ≤ j))
      ⊎ ((a : Arg) × (more : List Arg) × (rest ≡ ok more) × (args ≡ a ∷ more))
present_arg-cases op n lo j none rest args e = inl (ground arith, ground arith)
present_arg-cases op n lo j (some raw) rest args e =
    let (a, _, e') =
      >>=-eq-ok (or_bad_arg op n (unmarshal_arg raw)) (λ a. rest >>= λ more. ok (a ∷ more))
        {out = args} e in
    let (more, r, e'') = >>=-eq-ok rest (λ more. ok (a ∷ more)) {out = args} e' in
    inr (a, more, r, cc)

-- The number of arguments that come back is between the bounds.
unmarshal_args-length :
    (op : Str) (lo j : ℕ) (names : List Str) (d : Dict Json) (args : List Arg)
    → unmarshal_args op lo j names d ≡ ok args
    → lo ≤ j + length names
    → (lo ≤ j + length args) × (length args ≤ length names)
unfolding unmarshal_args
unmarshal_args-length op lo j [] d args e h = ground arith
unmarshal_args-length op lo j (n ∷ ns) d args e h =
    elim (present_arg-cases op n lo j (lookup n d) (unmarshal_args op lo (j + 1) ns d) args e) [
      | inl (nothing, optional) ↦ rw nothing (omega arith)
      | inr (a, more, rest, split) ↦
          rw split (omega (arith, unmarshal_args-length op lo (j + 1) ns d more rest (omega arith)))
    ]

pub unmarshal_op-IsCallable :
    (l : Libs) (jo : JsonOp) (op : Op)
    → unmarshal_op jo (lookup jo.op (registry l)) ≡ ok op
    → IsCallable l op
unmarshal_op-IsCallable l jo op e = elim (Option-cases (lookup jo.op (registry l))) [
  | inl missing ↦ let no_spec : unmarshal_op jo none ≡ ok op = rw missing at e in cc
  | inr (spec, found) ↦
      let known : unmarshal_op jo (some spec) ≡ ok op = rw found at e in
      let (args, read, made) =
        >>=-eq-ok (unmarshal_args jo.op spec.min_args 0 spec.arg_names jo.args)
          (λ args. ok (record { name = jo.op; args = args })) {out = op} known in
      let (ordered, named, dist) = lookup-IsWellNamed l jo.op found in
      let (lo, hi) =
        unmarshal_args-length jo.op spec.min_args 0 spec.arg_names jo.args args read
          (omega arith) in
      let name_eq : jo.op ≡ op.name = ground arith in
      let args_eq : args ≡ op.args = ground arith in
      (spec, rw (← name_eq) found, rw (← args_eq) (omega arith), rw (← args_eq) (omega arith))
]

-- Whatever `FromJSON` accepts is a pipeline of registered operations with as many arguments as these take.
pub from_json-IsCallable :
    (l : Libs) (ops : List JsonOp) (p : Pipeline) → from_json l ops ≡ ok p → All (IsCallable l) p
unfolding from_json
from_json-IsCallable l [] p e = let none_left : [] ≡ p = ground arith in rw (← none_left) tt
from_json-IsCallable l (jo ∷ ops) p e =
    let (op, read, e') =
      >>=-eq-ok (unmarshal_op jo (lookup jo.op (registry l)))
        (λ op. from_json l ops >>= λ p. ok (op ∷ p)) {out = p} e in
    let (q, rest, made) = >>=-eq-ok (from_json l ops) (λ p. ok (op ∷ p)) {out = p} e' in
    let split : op ∷ q ≡ p = ground arith in
    rw (← split) (unmarshal_op-IsCallable l jo op read, from_json-IsCallable l ops q rest)
