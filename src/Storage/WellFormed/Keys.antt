-- ===== src/Storage/WellFormed/Keys.antt =====
-- internal/storage/postgres/cluster_repo.go: the lookup keys stay unique.
use maga.Base.{
  ◌≡◌, refl, arith, Bool, true, false, ◌||◌, List, [], ◌∷◌, ◌++◌, Option, Str, str_eq, str_eq_iff,
  is_some,
}
use maga.Domain.{Uuid, Cluster}
use maga.Storage.Tables.{cluster_by_key}
use maga.Storage.Clusters.{rename_rows, remove_rows}
use maga.Storage.WellFormed.{unique_keys}

-- Whether a key is in use.
abbrev pub in_use : Str → List Cluster → Bool
in_use k cs = is_some (cluster_by_key k cs)

in_use-append :
    (k : Str) (cs : List Cluster) (c : Cluster)
    → in_use k (cs ++ c ∷ []) ≡ (in_use k cs || str_eq c.lookup_key k)
unfolding cluster_by_key
in_use-append k [] c = ground arith
in_use-append k (d ∷ cs) c = ground (arith, in_use-append k cs c)

in_use-rename_rows :
    (k : Str) (id : Uuid) (name : Str) (d : Option Str) (cs : List Cluster)
    → in_use k (rename_rows id name d cs) ≡ in_use k cs
unfolding cluster_by_key rename_rows
in_use-rename_rows k id name d [] = refl
in_use-rename_rows k id name d (c ∷ cs) = ground (arith, in_use-rename_rows k id name d cs)

in_use-remove_rows :
    (k : Str) (id : Uuid) (cs : List Cluster)
    → in_use k (remove_rows id cs) ≡ true
    → in_use k cs ≡ true
unfolding cluster_by_key remove_rows
in_use-remove_rows k id [] h = h
in_use-remove_rows k id (c ∷ cs) h = ground (arith, in_use-remove_rows k id cs)

str_eq_comm : (s t : Str) → str_eq s t ≡ str_eq t s
str_eq_comm s t = ground (arith, str_eq_iff s t, str_eq_iff t s)

pub unique_keys-append :
    (cs : List Cluster) (c : Cluster)
    → in_use c.lookup_key cs ≡ false
    → unique_keys cs ≡ true
    → unique_keys (cs ++ c ∷ []) ≡ true
unfolding unique_keys cluster_by_key
unique_keys-append [] c fresh h = refl
unique_keys-append (d ∷ cs) c fresh h = ground (
  arith,
  in_use-append d.lookup_key cs c,
  str_eq_comm c.lookup_key d.lookup_key,
  unique_keys-append cs c,
)

pub unique_keys-rename_rows :
    (id : Uuid) (name : Str) (d : Option Str) (cs : List Cluster)
    → unique_keys (rename_rows id name d cs) ≡ unique_keys cs
unfolding unique_keys rename_rows
unique_keys-rename_rows id name d [] = refl
unique_keys-rename_rows id name d (c ∷ cs) =
    ground
      (arith, in_use-rename_rows c.lookup_key id name d cs, unique_keys-rename_rows id name d cs)

pub unique_keys-remove_rows :
    (id : Uuid) (cs : List Cluster) → unique_keys cs ≡ true → unique_keys (remove_rows id cs) ≡ true
unfolding unique_keys remove_rows
unique_keys-remove_rows id [] h = refl
unique_keys-remove_rows id (c ∷ cs) h =
    ground (arith, in_use-remove_rows c.lookup_key id cs, unique_keys-remove_rows id cs)
