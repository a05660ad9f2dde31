-- ===== src/Dsl/Pipeline/Laws.antt =====
-- internal/dsl/pipeline.go: what `Apply` does with whole pipelines.
use maga.Base.{
  ◌≤◌, ◌≡◌, refl, ap, ◌∙◌, arith, [], ◌∷◌, ◌++◌, Option, none, some, Str, length, ok, err, ◌>>=◌,
  lookup, All, >>=-eq-ok, inl, inr, Result-cases,
}
use maga.Go.Libs.{Libs}
use maga.Dsl.Types.{Op, Pipeline, OpSpec, ApplyError}
use maga.Dsl.Ops.Registry.{registry}
use maga.Dsl.Pipeline.{apply_op, apply, call_op}

-- Two pipelines in a row are the second one on the result of the first, and an error of the first is the
-- error of both.
pub apply-append :
    (l : Libs) (p q : Pipeline) (s : Str) → apply l (p ++ q) s ≡ (apply l p s >>= apply l q)
unfolding apply
apply-append l [] q s = refl
apply-append l (op ∷ p) q s = elim (Result-cases (apply_op l op s)) [
  | inl (v, e) ↦ rw e (apply-append l p q v)
  | inr (x, e) ↦ rw e
]

-- The operation is registered, and takes that many arguments.
abbrev pub IsCallable : Libs → Op → Type 0
IsCallable l op =
    (spec : OpSpec) × (lookup op.name (registry l) ≡ some spec)
    × (spec.min_args ≤ length op.args)
    × (length op.args ≤ spec.max_args)

call_op-IsCallable :
    (l : Libs) (op : Op) (found : Option OpSpec) (s r : Str)
    → lookup op.name (registry l) ≡ found
    → call_op op found s ≡ ok r
    → IsCallable l op
call_op-IsCallable l op none s r e h = cc
call_op-IsCallable l op (some spec) s r e h = (spec, e, ground arith, ground arith)

-- If `Apply` returns a value, each step of the pipeline is a registered operation with as many arguments
-- as that takes.
pub apply-IsCallable :
    (l : Libs) (p : Pipeline) (s : Str) {r : Str} → apply l p s ≡ ok r → All (IsCallable l) p
unfolding apply apply_op
apply-IsCallable l [] s h = tt
apply-IsCallable l (op ∷ p) s {r} h =
    let (v, step, more) = >>=-eq-ok (apply_op l op s) (apply l p) {out = r} h in
    (
      call_op-IsCallable l op (lookup op.name (registry l)) s v refl step,
      apply-IsCallable l p v more,
    )

-- If `Apply` returns an error, it is that of one step, and the steps before it have all succeeded.
pub apply_failed :
    (l : Libs) (p : Pipeline) (s : Str) {e : ApplyError}
    → apply l p s ≡ err e
    → (before : Pipeline) × (op : Op) × (after : Pipeline) × (v : Str) × (p ≡ before ++ op ∷ after)
      × (apply l before s ≡ ok v)
      × (apply_op l op v ≡ err e)
unfolding apply
apply_failed l [] s h = cc
apply_failed l (op ∷ p) s {e} h = elim (Result-cases (apply_op l op s)) [
  | inl (v, step) ↦
      let more : apply l p v ≡ err e = rw step at h in
      let (before, bad, after, w, split, ran, failed) = apply_failed l p v more in
      (op ∷ before, bad, after, w, ap (λ r. op ∷ r) split, rw step ran, failed)
  | inr (x, step) ↦ ([], op, p, s, refl, refl, step ∙ (rw step at h))
]
