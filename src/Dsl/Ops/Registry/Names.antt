-- ===== src/Dsl/Ops/Registry/Names.antt =====
-- internal/dsl/ops.go: the entries of `registry` are consistent.
use maga.Base.{
  ◌≤◌, ◌≡◌, arith, false, List, [], ◌∷◌, some, Str, str_eq, length, Dict, lookup, All, Bool-cases,
  inl, inr,
}
use maga.Go.Libs.{Libs}
use maga.Dsl.Types.{OpSpec}
use maga.Dsl.Ops.Registry.{registry}

abbrev pub Distinct : List Str → Type 0
Distinct [] = Unit
Distinct (n ∷ ns) = All (λ m. str_eq m n ≡ false) ns × Distinct ns

-- An entry names each argument that it takes, and no two alike.
abbrev pub IsWellNamed : OpSpec → Type 0
IsWellNamed s = (s.min_args ≤ s.max_args) × (length s.arg_names ≡ s.max_args) × Distinct s.arg_names

unfoldable pub AllValues : (OpSpec → Type 0) → Dict OpSpec → Type 0
AllValues P [] = Unit
AllValues P ((k, v) ∷ d) = P v × AllValues P d

pub value_of_lookup :
    (P : OpSpec → Type 0) (d : Dict OpSpec) (k : Str) {v : OpSpec}
    → AllValues P d
    → lookup k d ≡ some v
    → P v
unfolding AllValues lookup
value_of_lookup P [] k h e = cc
value_of_lookup P ((j, w) ∷ d) k {v} h e = elim (Bool-cases (str_eq j k)) [
  | inl same ↦ let f : w ≡ v = ground arith in rw (← f) h.0
  | inr other ↦ value_of_lookup P d k h.1 (ground arith)
]

registry_names : (l : Libs) → AllValues IsWellNamed (registry l)
unfolding AllValues registry str_eq
registry_names l = ground arith

pub lookup-IsWellNamed :
    (l : Libs) (k : Str) {s : OpSpec} → lookup k (registry l) ≡ some s → IsWellNamed s
lookup-IsWellNamed l k e = value_of_lookup IsWellNamed (registry l) k (registry_names l) e
