-- ===== src/Dsl/Json/Held.antt =====
-- internal/dsl/json.go: the arguments that were read from JSON and can be written to it.
use maga.Base.{
  ℕ, ◌+◌, ◌≡◌, refl, arith, ℤ, false, List, [], ◌∷◌, Option, none, some, Str, str_eq, str_eq_iff,
  Dict, lookup, insert, lookup-insert, All, Result, ok, ◌>>=◌, >>=-eq-ok, Bool-cases, inl, inr,
}
use maga.Dsl.Types.{Arg, int_arg, map_arg}
use maga.Dsl.Json.{
  marshal_string, marshal_int, marshal_table, Json, Fields, end, field, null, bool, int, float, str,
  arr, obj, JsonError, marshal_args, put_arg, marshal_arg, arg_name_for, unmarshal_arg,
  unmarshal_args, present_arg, or_bad_arg, string_fields, table_or_error, is_int64,
}
use maga.Dsl.Json.Values.{IsValue, is_string, is_int, is_table, DistinctKeys}

lookup_other :
    (j k : Str) (v : Str) (d : Dict Str)
    → str_eq k j ≡ false
    → lookup j d ≡ none
    → lookup j (insert k v d) ≡ none
lookup_other j k v d differ h = rw (lookup-insert, differ) h

DistinctKeys-insert : (k v : Str) (d : Dict Str) → DistinctKeys d → DistinctKeys (insert k v d)
unfolding insert lookup
DistinctKeys-insert k v [] h = (refl, tt)
DistinctKeys-insert k v ((j, w) ∷ d) (fresh, h) = elim (Bool-cases (str_eq j k)) [
  | inl same ↦ let e : j ≡ k = (str_eq_iff j k).0 same in rw (same, ← e) (fresh, h)
  | inr differ ↦
      let more = DistinctKeys-insert k v d h in
      rw differ (lookup_other j k v d (ground (arith, str_eq_iff j k, str_eq_iff k j)) fresh, more)
]

string_fields-DistinctKeys :
    (d : Dict Str) (fs : Fields) {m : Dict Str}
    → DistinctKeys d
    → string_fields d fs ≡ some m
    → DistinctKeys m
unfolding string_fields
string_fields-DistinctKeys d end {m} h e = let same : d ≡ m = ground arith in rw (← same) h
string_fields-DistinctKeys d (field k (str t) fs) h e =
    string_fields-DistinctKeys (insert k t d) fs (DistinctKeys-insert k t d h) e
string_fields-DistinctKeys d (field k null fs) h e =
    string_fields-DistinctKeys (insert k [] d) fs (DistinctKeys-insert k [] d h) e
string_fields-DistinctKeys d (field k (bool b) fs) h e = cc
string_fields-DistinctKeys d (field k (int n) fs) h e = cc
string_fields-DistinctKeys d (field k (float t) fs) h e = cc
string_fields-DistinctKeys d (field k (arr xs) fs) h e = cc
string_fields-DistinctKeys d (field k (obj xs) fs) h e = cc

table-IsValue :
    (fs : Fields) (found : Option (Dict Str)) (a : Arg)
    → string_fields [] fs ≡ found
    → table_or_error found ≡ some a
    → IsValue a
unfolding table_or_error
table-IsValue fs none a s e = cc
table-IsValue fs (some m) a s e =
    let made : a ≡ map_arg m = cc in is_table m made (string_fields-DistinctKeys [] fs tt s)

int-IsValue : (n : ℤ) (a : Arg) → unmarshal_arg (int n) ≡ some a → IsValue a
unfolding unmarshal_arg
int-IsValue n a e = elim (Bool-cases (is_int64 n)) [
  | inl small ↦ is_int n (let e' : some (int_arg n) ≡ some a = rw small at e in cc) small
  | inr large ↦ let e' : ◌≡◌ {A = Option Arg} none (some a) = rw large at e in cc
]

-- An argument that was read and can be written holds a value.
unmarshal_arg-IsValue :
    (j x : Json) (a : Arg) → unmarshal_arg j ≡ some a → marshal_arg a ≡ some x → IsValue a
unfolding unmarshal_arg marshal_arg marshal_string marshal_int marshal_table
unmarshal_arg-IsValue null x a e w =
    let e' : record { s = none; i = none; m = none } ≡ a = cc in
    let none_left : ◌≡◌ {A = Option Json} none (some x) = rw (← e') at w in cc
unmarshal_arg-IsValue (obj fs) x a e w = table-IsValue fs (string_fields [] fs) a refl e
unmarshal_arg-IsValue (int n) x a e w = int-IsValue n a e
unmarshal_arg-IsValue (str t) x a e w = is_string t cc
unmarshal_arg-IsValue (bool b) x a e w = cc
unmarshal_arg-IsValue (float t) x a e w = cc
unmarshal_arg-IsValue (arr xs) x a e w = cc

abbrev pub WasRead : Arg → Type 0
WasRead a = (j : Json) × (unmarshal_arg j ≡ some a)

abbrev pub WasWritten : Arg → Type 0
WasWritten a = (j : Json) × (marshal_arg a ≡ some j)

or_bad_arg-ok :
    (op n : Str) (found : Option Arg) (a : Arg) → or_bad_arg op n found ≡ ok a → found ≡ some a
or_bad_arg-ok op n none a e = cc
or_bad_arg-ok op n (some b) a e = cc

present_arg-WasRead :
    (op n : Str) (lo j : ℕ) (raw : Option Json) (rest : Result JsonError (List Arg))
    (args : List Arg)
    → present_arg op n lo j raw rest ≡ ok args
    → ((more : List Arg) → rest ≡ ok more → All WasRead more)
    → All WasRead args
present_arg-WasRead op n lo j none rest args e h = let stop : args ≡ [] = ground arith in rw stop tt
present_arg-WasRead op n lo j (some raw) rest args e h =
    let (a, read, e') =
      >>=-eq-ok (or_bad_arg op n (unmarshal_arg raw)) (λ a. rest >>= λ more. ok (a ∷ more))
        {out = args} e in
    let (more, r, e'') = >>=-eq-ok rest (λ more. ok (a ∷ more)) {out = args} e' in
    let split : a ∷ more ≡ args = cc in
    rw (← split) ((raw, or_bad_arg-ok op n (unmarshal_arg raw) a read), h more r)

pub unmarshal_args-WasRead :
    (op : Str) (lo j : ℕ) (names : List Str) (d : Dict Json) (args : List Arg)
    → unmarshal_args op lo j names d ≡ ok args
    → All WasRead args
unfolding unmarshal_args
unmarshal_args-WasRead op lo j [] d args e = let stop : [] ≡ args = cc in rw (← stop) tt
unmarshal_args-WasRead op lo j (n ∷ ns) d args e =
    present_arg-WasRead op n lo j (lookup n d) (unmarshal_args op lo (j + 1) ns d) args e
      (unmarshal_args-WasRead op lo (j + 1) ns d)

put_arg-WasWritten :
    (op name : Str) (a : Arg) (found : Option Json) (d : Dict Json) {d' : Dict Json}
    → marshal_arg a ≡ found
    → put_arg op name found d ≡ ok d'
    → WasWritten a
put_arg-WasWritten op name a none d m e = cc
put_arg-WasWritten op name a (some j) d m e = (j, m)

pub marshal_args-WasWritten :
    (op : Str) (names : List Str) (j : ℕ) (args : List Arg) (d : Dict Json) {d' : Dict Json}
    → marshal_args op names j args d ≡ ok d'
    → All WasWritten args
unfolding marshal_args
marshal_args-WasWritten op names j [] d e = tt
marshal_args-WasWritten op names j (a ∷ args) d {d'} e =
    let (more, put, rest) =
      >>=-eq-ok (put_arg op (arg_name_for names j) (marshal_arg a) d)
        (marshal_args op names (j + 1) args) {out = d'} e in
    (
      put_arg-WasWritten op (arg_name_for names j) a (marshal_arg a) d refl put,
      marshal_args-WasWritten op names (j + 1) args more rest,
    )

pub All-IsValue : (args : List Arg) → All WasRead args → All WasWritten args → All IsValue args
All-IsValue [] r w = tt
All-IsValue (a ∷ args) ((j, read), r) ((x, written), w) =
    (unmarshal_arg-IsValue j x a read written, All-IsValue args r w)
