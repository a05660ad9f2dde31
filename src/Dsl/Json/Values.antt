-- ===== src/Dsl/Json/Values.antt =====
-- internal/dsl/json.go: `marshalArg` and `unmarshalArg` on one argument.
use maga.Base.{
  ℤ, ◌≡◌, refl, ap, ◌∙◌, arith, true, [], ◌∷◌, ◌++◌, none, some, Str, str_eq_iff, Dict, lookup,
  insert, append-nil, append_assoc, lookup-insert, sym,
}
use maga.Dsl.Types.{Arg, str_arg, int_arg, map_arg}
use maga.Dsl.Json.{
  Json, str, int, obj, table_fields, string_fields, marshal_arg, unmarshal_arg, is_int64,
}

abbrev pub DistinctKeys : Dict Str → Type 0
DistinctKeys [] = Unit
DistinctKeys ((k, v) ∷ m) = (lookup k m ≡ none) × DistinctKeys m

-- Exactly one of the fields of an `Arg` holds a value, an integer is one of 64 bits, and a table is a map.
pub data IsValue (a : Arg) : Type 0 where
  is_string : (t : Str) → a ≡ str_arg t → IsValue a
  is_int : (n : ℤ) → a ≡ int_arg n → is_int64 n ≡ true → IsValue a
  is_table : (m : Dict Str) → a ≡ map_arg m → DistinctKeys m → IsValue a

insert_fresh : (k v : Str) (d : Dict Str) → lookup k d ≡ none → insert k v d ≡ d ++ (k, v) ∷ []
unfolding insert lookup
insert_fresh k v [] h = refl
insert_fresh k v ((j, w) ∷ d) h = ground (arith, insert_fresh k v d)

-- No key of `m` is in `d`.
abbrev Apart : Dict Str → Dict Str → Type 0
Apart [] d = Unit
Apart ((k, v) ∷ m) d = (lookup k d ≡ none) × Apart m d

Apart-insert : (m d : Dict Str) (k v : Str) → lookup k m ≡ none → Apart m d → Apart m (insert k v d)
unfolding lookup
Apart-insert [] d k v h a = tt
Apart-insert ((j, w) ∷ m) d k v h (fresh, a) = (
  ground (arith, lookup-insert k j v d, str_eq_iff k j, str_eq_iff j k),
  Apart-insert m d k v (ground arith) a,
)

string_fields-table_fields :
    (m d : Dict Str) → DistinctKeys m → Apart m d → string_fields d (table_fields m) ≡ some (d ++ m)
unfolding string_fields table_fields
string_fields-table_fields [] d h a = ap some (sym (append-nil d))
string_fields-table_fields ((k, v) ∷ m) d (new, h) (fresh, a) =
    string_fields-table_fields m (insert k v d) h (Apart-insert m d k v new a)
    ∙ ap some (ap (λ e. e ++ m) (insert_fresh k v d fresh) ∙ append_assoc d ((k, v) ∷ []) m)

Apart-nil : (m : Dict Str) → Apart m []
unfolding lookup
Apart-nil [] = tt
Apart-nil ((k, v) ∷ m) = (refl, Apart-nil m)

-- An argument with one value is read back from its JSON.
pub unmarshal_arg-marshal_arg :
    (a : Arg) → IsValue a → (j : Json) × (marshal_arg a ≡ some j) × (unmarshal_arg j ≡ some a)
unfolding marshal_arg unmarshal_arg
unmarshal_arg-marshal_arg a (is_string t e) = (str t, rw e, rw e)
unmarshal_arg-marshal_arg a (is_int n e h) = (int n, rw e, rw (e, h))
unmarshal_arg-marshal_arg a (is_table m e h) =
    (obj (table_fields m), rw e, rw (e, string_fields-table_fields m [] h (Apart-nil m)))
