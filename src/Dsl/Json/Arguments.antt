-- ===== src/Dsl/Json/Arguments.antt =====
-- internal/dsl/json.go: the loops over the arguments of one operation.
use maga.Base.{
  ℕ, suc, ◌+◌, ◌≤◌, ◌≡◌, refl, ap, ◌∙◌, arith, false, List, [], ◌∷◌, none, some, Str, str_eq,
  str_eq_iff, str_eq_refl, Dict, lookup, insert, All, lookup-insert, length, get_elem?, ok,
}
use maga.Dsl.Types.{Arg}
use maga.Dsl.Ops.Registry.Names.{Distinct}
use maga.Dsl.Json.{Json, unmarshal_arg, arg_name_for, marshal_args, unmarshal_args}
use maga.Dsl.Json.Values.{IsValue, unmarshal_arg-marshal_arg}

-- The map that `MarshalJSON` builds: the values under the first names.
pub zip_args : List Str → List Json → Dict Json → Dict Json
zip_args [] js d = d
zip_args (n ∷ ns) [] d = d
zip_args (n ∷ ns) (j ∷ js) d = zip_args ns js (insert n j d)

abbrev pub DecodesTo : List Json → List Arg → Type 0
DecodesTo [] [] = Unit
DecodesTo (j ∷ js) (a ∷ args) = (unmarshal_arg j ≡ some a) × DecodesTo js args
DecodesTo [] (a ∷ args) = ⊥
DecodesTo (j ∷ js) [] = ⊥

lookup-zip_args :
    (ns : List Str) (js : List Json) (d : Dict Json) (k : Str)
    → All (λ m. str_eq m k ≡ false) ns
    → lookup k (zip_args ns js d) ≡ lookup k d
unfolding zip_args
lookup-zip_args [] js d k h = refl
lookup-zip_args (n ∷ ns) [] d k h = refl
lookup-zip_args (n ∷ ns) (j ∷ js) d k h =
    lookup-zip_args ns js (insert n j d) k h.1 ∙ rw (lookup-insert, h.0)

-- Marshalling puts each value under the name of its position.
pub marshal_args-zip_args :
    (op : Str) (names ns : List Str) (j : ℕ) (args : List Arg) (d : Dict Json)
    → ((i : ℕ) → get_elem? names (j + i) ≡ get_elem? ns i)
    → All IsValue args
    → length args ≤ length ns
    → (js : List Json) × DecodesTo js args
      × (marshal_args op names j args d ≡ ok (zip_args ns js d))
unfolding marshal_args zip_args arg_name_for
marshal_args-zip_args op names [] j [] d at h le = ([], tt, refl)
marshal_args-zip_args op names (n ∷ ns) j [] d at h le = ([], tt, refl)
marshal_args-zip_args op names [] j (a ∷ args) d at h le = absurd (omega arith)
marshal_args-zip_args op names (n ∷ ns) j (a ∷ args) d at (va, h) le =
    let (x, to, from) = unmarshal_arg-marshal_arg a va in
    let shift : (i : ℕ) → get_elem? names (j + 1 + i) ≡ get_elem? ns i =
      λ i. ap (get_elem? names) (omega arith) ∙ at (suc i) in
    let (js, decodes, rest) =
      marshal_args-zip_args op names ns (j + 1) args (insert n x d) shift h (omega arith) in
    let here : get_elem? names j ≡ some n = ap (get_elem? names) (omega arith) ∙ at 0 in
    (x ∷ js, (from, decodes), rw (to, here) rest)

fresh-insert :
    (ns : List Str) (n : Str) (x : Json) (d : Dict Json)
    → All (λ m. str_eq m n ≡ false) ns
    → All (λ m. lookup m d ≡ none) ns
    → All (λ m. lookup m (insert n x d) ≡ none) ns
fresh-insert [] n x d h f = tt
fresh-insert (m ∷ ns) n x d h f = (
  ground (arith, lookup-insert n m x d, str_eq_iff n m, str_eq_iff m n),
  fresh-insert ns n x d h.1 f.1,
)

-- Unmarshalling by the same names gives the arguments back.
pub unmarshal_args-zip_args :
    (op : Str) (min_args j : ℕ) (ns : List Str) (js : List Json) (args : List Arg) (d : Dict Json)
    → Distinct ns
    → All (λ n. lookup n d ≡ none) ns
    → DecodesTo js args
    → length args ≤ length ns
    → min_args ≤ j + length args
    → unmarshal_args op min_args j ns (zip_args ns js d) ≡ ok args
unfolding unmarshal_args zip_args
unmarshal_args-zip_args op lo j [] [] [] d dist fresh dec le enough = refl
unmarshal_args-zip_args op lo j [] (x ∷ js) (a ∷ args) d dist fresh dec le enough =
    absurd (omega arith)
unmarshal_args-zip_args op lo j (n ∷ ns) [] [] d dist fresh dec le enough = ground arith
unmarshal_args-zip_args op lo j (n ∷ ns) (x ∷ js) (a ∷ args) d dist fresh dec le enough = rw (
  lookup-zip_args ns js (insert n x d) n dist.0,
  lookup-insert,
  str_eq_refl,
  dec.0,
  unmarshal_args-zip_args op lo (j + 1) ns js args (insert n x d) dist.1
      (fresh-insert ns n x d dist.0 fresh.1) dec.1 (omega arith) (omega arith),
)
unmarshal_args-zip_args op lo j ns [] (a ∷ args) d dist fresh dec le enough = absurd dec
unmarshal_args-zip_args op lo j ns (x ∷ js) [] d dist fresh dec le enough = absurd dec
