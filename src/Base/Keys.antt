-- ===== src/Base/Keys.antt =====
-- The keys of a map, and what `range` over a map visits.
use mathlib.Core.Path.{◌≡◌, refl}
use mathlib.Core.Bool.{Bool, true, false, ◌||◌}
use mathlib.Core.Logic.{inl, inr}
use mathlib.Core.Option.{Option, none, some}
use mathlib.Core.List.{List, [], ◌∷◌}
use native.Mathlib.Omega.{arith}
use maga.Base.Tests.{Bool-cases}
use maga.Base.Texts.{Str, str_eq, str_eq_iff}
use maga.Base.Lists.{All}
use maga.Base.Maps.{Dict, lookup, keys}

unfoldable pub str_mem : Str → List Str → Bool
str_mem k [] = false
str_mem k (n ∷ ns) = str_eq n k || str_mem k ns

abbrev pub is_some {ℓ} : {A : Type ℓ} → Option A → Bool
is_some none = false
is_some (some a) = true

pub str_mem-keys {ℓ} :
    {V : Type ℓ} (k : Str) (d : Dict V) → str_mem k (keys d) ≡ is_some (lookup k d)
unfolding str_mem lookup
str_mem-keys k [] = refl
str_mem-keys k ((j, v) ∷ d) = ground (arith, str_mem-keys k d)

-- Go visits the keys of a map in an order of its own, each of them and no other. `order` is that order
-- for a given list of keys.
pub record IsIteration (order : List Str → List Str) : Type 0 where
  pub same_keys : (ks : List Str) (k : Str) → str_mem k (order ks) ≡ str_mem k ks

pub All-str_mem {κ} :
    (P : Str → Type κ) (ks : List Str) → All P ks → (k : Str) → str_mem k ks ≡ true → P k
unfolding str_mem
All-str_mem P [] h k m = cc
All-str_mem P (n ∷ ns) h k m = elim (Bool-cases (str_eq n k)) [
  | inl same ↦ let e : n ≡ k = (str_eq_iff n k).0 same in rw (← e) h.0
  | inr other ↦ All-str_mem P ns h.1 k (ground arith)
]
