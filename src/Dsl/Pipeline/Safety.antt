-- ===== src/Dsl/Pipeline/Safety.antt =====
-- internal/dsl/pipeline.go and ops.go: which errors `Apply` has left on typed pipelines.
mod Arguments
use maga.Base.{
  ◌≤◌, ◌≡◌, refl, ◌∙◌, arith, pos, ltb_ℤ, ◌||◌, ◌==◌, true, false, List, [], ◌∷◌, map, Option, none,
  some, Str, Dict, length, lookup, is_some, All, Result, ok, err, Result-cases, Bool-cases, inl,
  inr,
}
use maga.Go.Libs.{Regexp, Libs}
use maga.Dsl.Types.{Arg, Op, Pipeline, OpError, OpSpec, ApplyError, op_failed}
use maga.Dsl.Ops.Args.{arg_int, rune_range}
use maga.Dsl.Ops.Registry.{
  registry, replace_compiled, or_fallback, map_values_in, op_map_values, op_default,
}
use maga.Dsl.Ops.Registry.Names.{AllValues, value_of_lookup}
use maga.Dsl.Pipeline.{apply_op, apply, call_op, or_op_failed}
use maga.Dsl.Pipeline.Typing.{
  text, table, fits, all_fit, fits_spec, fits_found, is_typed, is_value_error, kind_named,
}
use maga.Dsl.Pipeline.Safety.Arguments.{
  IsSafe, IsSafe-bind, IsSafe-if, arg_string-IsSafe, arg_int-IsSafe, text_first, text_second,
  rune_range-IsSafe, pad-IsSafe,
}

-- The contract of an entry of the registry.
IsSound : OpSpec → Type 0
IsSound spec = (s : Str) (args : List Arg) → fits_spec spec args ≡ true → IsSafe (spec.fn s args)

is_sound :
    (spec : OpSpec)
    → ((s : Str) (args : List Arg)
        → all_fit (map kind_named spec.arg_names) args ≡ true
        → spec.min_args ≤ length args
        → length args ≤ spec.max_args
        → IsSafe (spec.fn s args))
    → IsSound spec
unfolding IsSound fits_spec
is_sound spec h s args f = h s args (ground arith) (ground arith) (ground arith)

-- the error of a step whose arguments have the right kinds
abbrev pub IsValueError : ApplyError → Type 0
IsValueError e = (name : Str) × (o : OpError) × (e ≡ op_failed name o) × (is_value_error o ≡ true)

module _ (l : Libs) where
  replace_compiled-IsSafe :
      (p : Str) (r : Result Str Regexp) (t s : Str) → IsSafe (replace_compiled l p r t s)
  unfolding is_value_error
  replace_compiled-IsSafe p (ok re) t s = tt
  replace_compiled-IsSafe p (err e) t s = refl

  or_fallback-IsSafe :
      (found : Option Str) (s : Str) (args : List Arg)
      → all_fit (table ∷ text ∷ []) args ≡ true
      → IsSafe (or_fallback found s args)
  or_fallback-IsSafe (some v) s args h = tt
  or_fallback-IsSafe none s args h = elim (Bool-cases (length args == 2)) [
    | inl two ↦ rw two (arg_string-IsSafe _ args 1 h refl (ground arith))
    | inr more ↦ rw more tt
  ]

  map_values_in-IsSafe :
      (m : Option (Dict Str)) (s : Str) (args : List Arg)
      → is_some m ≡ true
      → all_fit (table ∷ text ∷ []) args ≡ true
      → IsSafe (map_values_in m s args)
  map_values_in-IsSafe none s args h k = cc
  map_values_in-IsSafe (some m) s args h k = or_fallback-IsSafe (lookup s m) s args k

  op_map_values-IsSafe :
      (s : Str) (args : List Arg)
      → all_fit (table ∷ text ∷ []) args ≡ true
      → 1 ≤ length args
      → IsSafe (op_map_values s args)
  unfolding all_fit fits
  op_map_values-IsSafe s [] h n = ground arith
  op_map_values-IsSafe s (a ∷ args) h n = map_values_in-IsSafe a.m s (a ∷ args) (ground arith) h

  op_default-IsSafe :
      (s : Str) (args : List Arg)
      → all_fit (text ∷ []) args ≡ true
      → 1 ≤ length args
      → IsSafe (op_default s args)
  op_default-IsSafe [] args h n = arg_string-IsSafe _ args 0 h refl n
  op_default-IsSafe (c ∷ s) args h n = tt

  registry-IsSound : AllValues IsSound (registry l)
  unfolding AllValues registry kind_named is_value_error
  registry-IsSound = (
    is_sound _ λ s args h lo hi. tt,
    (
      is_sound _ λ s args h lo hi. text_first _ args _ h lo λ t. tt,
      (
        is_sound _ λ s args h lo hi. text_first _ args _ h lo λ t. tt,
        (
          is_sound _ λ s args h lo hi. tt,
          (
            is_sound _ λ s args h lo hi. tt,
            (
              is_sound _ λ s args h lo hi.
                  text_first _ args _ h (omega arith) λ t. text_second _ _ args _ h lo λ u. tt,
              (
                is_sound _ λ s args h lo hi. text_first _ args _ h (omega arith) λ t.
                    text_second _ _ args _ h (omega arith) λ u.
                      IsSafe-bind (arg_int args 2) _ (arg_int-IsSafe _ args 2 h refl lo) λ n. tt,
                (
                  is_sound _ λ s args h lo hi. text_first _ args _ h (omega arith) λ t.
                      text_second _ _ args _ h lo λ u. replace_compiled-IsSafe t (l.compile t) u s,
                  (
                    is_sound _ λ s args h lo hi. text_first _ args _ h lo λ t. tt,
                    (
                      is_sound _ λ s args h lo hi.
                          IsSafe-bind (rune_range args s) _ (rune_range-IsSafe _ args s h lo)
                            λ b. tt,
                      (
                        is_sound _ λ s args h lo hi.
                            IsSafe-bind (arg_int args 0) _
                              (arg_int-IsSafe _ args 0 h refl (omega arith))
                              λ p. text_second _ _ args _ h lo λ t.
                                IsSafe-if (ltb_ℤ p (pos 0) || ltb_ℤ (pos (length s)) p) _ _ refl,
                        (
                          is_sound _ λ s args h lo hi.
                              IsSafe-bind (rune_range args s) _ (rune_range-IsSafe _ args s h lo)
                                λ b. tt,
                          (
                            is_sound _ λ s args h lo hi. text_first _ args _ h lo λ t. tt,
                            (
                              is_sound _ λ s args h lo hi. text_first _ args _ h lo λ t. tt,
                              (
                                is_sound _ λ s args h lo hi. pad-IsSafe _ args s true h lo,
                                (
                                  is_sound _ λ s args h lo hi. pad-IsSafe _ args s false h lo,
                                  (
                                    is_sound _ λ s args h lo hi. op_default-IsSafe s args h lo,
                                    (
                                      is_sound _ λ s args h lo hi. op_map_values-IsSafe s args h lo,
                                      tt,
                                    ),
                                  ),
                                ),
                              ),
                            ),
                          ),
                        ),
                      ),
                    ),
                  ),
                ),
              ),
            ),
          ),
        ),
      ),
    ),
  )

  or_op_failed-IsSafe :
      (name : Str) (r : Result OpError Str) {e : ApplyError}
      → IsSafe r
      → or_op_failed name r ≡ err e
      → IsValueError e
  or_op_failed-IsSafe name (ok v) h f = cc
  or_op_failed-IsSafe name (err o) h f = (name, o, cc, h)

  call_op-IsSafe :
      (op : Op) (found : Option OpSpec) (s : Str) {e : ApplyError}
      → lookup op.name (registry l) ≡ found
      → fits_found found op.args ≡ true
      → call_op op found s ≡ err e
      → IsValueError e
  unfolding fits_spec IsSound
  call_op-IsSafe op none s at h f = cc
  call_op-IsSafe op (some spec) s at h f =
      or_op_failed-IsSafe op.name (spec.fn s op.args)
        (value_of_lookup IsSound (registry l) op.name registry-IsSound at s op.args h)
        (ground arith)

  -- `Apply` on a pipeline of typed steps returns a value, or the error of one of its steps, which is an
  -- invalid regular expression, a position or range outside the text, or an empty padding: never an unknown
  -- operation, a wrong number of arguments, or an argument that is not a string, an integer or a table.
  pub apply-is_typed :
      (p : Pipeline) (s : Str) {e : ApplyError}
      → All (λ op. is_typed l op ≡ true) p
      → apply l p s ≡ err e
      → IsValueError e
  unfolding apply apply_op is_typed
  apply-is_typed [] s h f = cc
  apply-is_typed (op ∷ p) s {e} (h, hs) f = elim (Result-cases (apply_op l op s)) [
    | inl (v, step) ↦ apply-is_typed p v hs (rw step at f)
    | inr (x, step) ↦
        call_op-IsSafe op (lookup op.name (registry l)) s refl h (step ∙ (rw step at f))
  ]
