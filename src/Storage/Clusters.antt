-- ===== src/Storage/Clusters.antt =====
-- internal/storage/postgres/cluster_repo.go
pub mod Keys
use maga.Base.{
  ℕ, ◌+◌, Bool, true, false, ◌||◌, ◌&&◌, List, [], ◌∷◌, ◌++◌, Option, none, some, Str,
  if◌then◌else◌, ◌==◌, Result, ok, err, is_some,
}
use maga.Domain.{Uuid, Cluster, NetworkElement, RepoError, not_found, cluster_not_empty, other}
use maga.Base.{codes, is_empty, not, ◌&&◌, ℕ}
use maga.Assignment.{AssignmentHistory, Action}
use maga.Storage.Tables.{Db, refers_to, cluster_by_key, cluster_by_id, has_cluster}

abbrev pub new_cluster : Uuid → Str → Cluster
new_cluster id key = record { id = id; lookup_key = key; display_name = key; description = [] }

abbrev pub insert_or_keep : Str → Option Cluster → Action Db Cluster
insert_or_keep key (some c) db = (ok c, db)
insert_or_keep key none db =
    let c = new_cluster db.next_id key in
    (ok c, record db { next_id = db.next_id + 1; clusters = db.clusters ++ c ∷ [] })

-- `GetOrCreateByLookupKey`: the upsert leaves a row that is there as it is.
unfoldable pub get_or_create_by_lookup_key : Str → Action Db Cluster
unfolding cluster_by_key
get_or_create_by_lookup_key key db = insert_or_keep key (cluster_by_key key db.clusters) db

-- `ExistsClusterByLookupKey`
unfoldable pub exists_cluster_by_lookup_key : Str → Db → Bool
unfolding cluster_by_key
exists_cluster_by_lookup_key key db = is_some (cluster_by_key key db.clusters)

abbrev pub or_not_found : Option Cluster → Result RepoError Cluster
or_not_found none = err not_found
or_not_found (some c) = ok c

-- `Get`
unfoldable pub get : Uuid → Db → Result RepoError Cluster
unfolding cluster_by_id
get id db = or_not_found (cluster_by_id id db.clusters)

-- A null description keeps the old one.
abbrev pub coalesce : Option Str → Str → Str
coalesce none old = old
coalesce (some new) old = new

unfoldable pub rename_rows : Uuid → Str → Option Str → List Cluster → List Cluster
rename_rows id name description [] = []
rename_rows id name description (c ∷ cs) =
    (if c.id == id
      then record c { display_name = name; description = coalesce description c.description }
      else c)
    ∷ rename_rows id name description cs

-- `Rename`
unfoldable pub rename : Uuid → Str → Option Str → Action Db Cluster
unfolding rename_rows cluster_by_id
rename id name description db =
    let cs = rename_rows id name description db.clusters in
    (or_not_found (cluster_by_id id cs), record db { clusters = cs })

unfoldable pub element_refers : Uuid → List NetworkElement → Bool
element_refers id [] = false
element_refers id (e ∷ es) = refers_to id e.cluster_id || element_refers id es

unfoldable pub history_refers : Uuid → List AssignmentHistory → Bool
history_refers id [] = false
history_refers id (h ∷ hs) = refers_to id h.cluster_id || history_refers id hs

unfoldable pub remove_rows : Uuid → List Cluster → List Cluster
remove_rows id [] = []
remove_rows id (c ∷ cs) = let rest = remove_rows id cs in if c.id == id then rest else c ∷ rest

-- `Delete`: the foreign keys of `network_elements` and of `assignment_history` refuse it, code 23503.
unfoldable pub delete : Uuid → Action Db Unit
unfolding has_cluster element_refers history_refers remove_rows
delete id db =
    if has_cluster id db.clusters
    then (if element_refers id db.elements || history_refers id db.history
        then (err cluster_not_empty, db)
        else (ok tt, record db { clusters = remove_rows id db.clusters }))
    else (err not_found, db)

unfoldable pub member_count : Uuid → List NetworkElement → ℕ
member_count id [] = 0
member_count id (e ∷ es) =
    let rest = member_count id es in
    if refers_to id e.cluster_id && not e.deleted then rest + 1 else rest

with_counts : List NetworkElement → List Cluster → List (Cluster × ℕ)
unfolding member_count
with_counts es [] = []
with_counts es (c ∷ cs) = (c, member_count c.id es) ∷ with_counts es cs

-- `List`, where `by_name` orders by the display name as the collation of the database does.
unfoldable pub list : (List (Cluster × ℕ) → List (Cluster × ℕ)) → Db → List (Cluster × ℕ)
unfolding with_counts
list by_name db = by_name (with_counts db.elements db.clusters)

-- internal/clusters/clusters.go: `GetOrCreate`
unfoldable pub get_or_create : Str → Action Db Cluster
unfolding get_or_create_by_lookup_key
get_or_create key db =
    if is_empty key
    then (err (other (codes "lookup key must not be empty")), db)
    else get_or_create_by_lookup_key key db
