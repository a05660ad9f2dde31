-- ===== src/Storage/ClusterNames.antt =====
-- internal/storage/postgres/cluster_repo.go: what the repository promises of the clusters, as a map from the
-- lookup keys to the ids, and that its statements keep the promise.
use maga.Base.{
  ◌≡◌, refl, ◌∙◌, arith, Bool, true, false, not, ◌||◌, List, [], ◌∷◌, ◌++◌, Option, none, some, Str,
  str_eq, str_eq_iff, is_some, ◌==◌, if◌then◌else◌, Result, ok, err, Bool-cases, Option-cases, inl,
  inr,
}
use maga.Domain.{Uuid, Cluster, RepoError}
use maga.Storage.Tables.{Db, cluster_by_key, has_cluster}
use maga.Storage.Clusters.{
  new_cluster, get_or_create_by_lookup_key, rename, rename_rows, delete, remove_rows,
  element_refers, history_refers,
}
use maga.Storage.WellFormed.{IsWellFormed, unique_keys}

-- The ids that the keys stand for.
abbrev pub Names : Type 0
Names = Str → Option Uuid

-- The promises: a key that stands for nothing gets the fresh id, and a deletion frees the keys of an id.
abbrev pub id_or : Uuid → Option Uuid → Uuid
id_or fresh none = fresh
id_or fresh (some id) = id

abbrev pub bind_key : Uuid → Str → Names → Names
bind_key fresh key m k = if str_eq key k then some (id_or fresh (m key)) else m k

abbrev pub without_id : Uuid → Option Uuid → Option Uuid
without_id id none = none
without_id id (some x) = if x == id then none else some x

abbrev pub free_id : Uuid → Names → Names
free_id id m k = without_id id (m k)

-- What the tables show of the clusters: the display names and descriptions, and the order of the rows, are
-- forgotten.
abbrev id_of : Option Cluster → Option Uuid
id_of none = none
id_of (some c) = some c.id

abbrev pub names_of : Db → Names
names_of db k = id_of (cluster_by_key k db.clusters)

abbrev pub is_ok : {A : Type 0} → Result RepoError A → Bool
is_ok (ok a) = true
is_ok (err e) = false

found-append :
    (k : Str) (cs : List Cluster) (c : Cluster)
    → id_of (cluster_by_key k (cs ++ c ∷ [])) ≡ (elim (cluster_by_key k cs) [
      | some d ↦ some d.id
      | none ↦ if str_eq c.lookup_key k then some c.id else none
    ])
unfolding cluster_by_key
found-append k [] c = ground arith
found-append k (d ∷ cs) c = ground (arith, found-append k cs c)

names-rename_rows :
    (id : Uuid) (name : Str) (d : Option Str) (k : Str) (cs : List Cluster)
    → id_of (cluster_by_key k (rename_rows id name d cs)) ≡ id_of (cluster_by_key k cs)
unfolding cluster_by_key rename_rows
names-rename_rows id name d k [] = refl
names-rename_rows id name d k (c ∷ cs) = ground (arith, names-rename_rows id name d k cs)

unused :
    (k : Str) (cs : List Cluster)
    → not (is_some (cluster_by_key k cs)) ≡ true
    → cluster_by_key k cs ≡ none
unused k cs h = elim (Option-cases (cluster_by_key k cs)) [
  | inl e ↦ e
  | inr (c, e) ↦ let bad : false ≡ true = rw e at h in absurd cc
]

names-remove_rows :
    (id : Uuid) (k : Str) (cs : List Cluster)
    → unique_keys cs ≡ true
    → id_of (cluster_by_key k (remove_rows id cs)) ≡ without_id id (id_of (cluster_by_key k cs))
unfolding cluster_by_key remove_rows unique_keys
names-remove_rows id k [] h = refl
names-remove_rows id k (c ∷ cs) h =
    let more = names-remove_rows id k cs (ground arith) in
    elim (Bool-cases (str_eq c.lookup_key k)) [
      | inr differ ↦ elim (Bool-cases (c.id == id)) [
        | inl gone ↦ rw (gone, differ) more
        | inr stays ↦ rw (stays, differ) more
      ]
      | inl same ↦
          let e : c.lookup_key ≡ k = (str_eq_iff c.lookup_key k).0 same in
          let alone : cluster_by_key k cs ≡ none =
            rw (← e) (unused c.lookup_key cs (ground arith)) in
          elim (Bool-cases (c.id == id)) [
            | inl gone ↦ rw (gone, same) (rw gone (rw alone at more))
            | inr stays ↦ rw (stays, same) (rw stays refl)
          ]
    ]

get_or_create_names :
    (key k : Str) (db : Db)
    → names_of (get_or_create_by_lookup_key key db).1 k ≡ bind_key db.next_id key (names_of db) k
unfolding get_or_create_by_lookup_key
get_or_create_names key k db = elim (Option-cases (cluster_by_key key db.clusters)) [
  | inr (c, e) ↦ elim (Bool-cases (str_eq key k)) [
    | inl same ↦
        let here : key ≡ k = (str_eq_iff key k).0 same in rw (e, same) (rw (← here, e) refl)
    | inr differ ↦ rw (e, differ) refl
  ]
  | inl e ↦
      let added = found-append k db.clusters (new_cluster db.next_id key) in
      elim (Bool-cases (str_eq key k)) [
        | inl same ↦
            let here : key ≡ k = (str_eq_iff key k).0 same in
            let fresh : cluster_by_key k db.clusters ≡ none = rw (← here) e in
            rw (e, same) (rw (fresh, same) at added)
        | inr differ ↦
            rw (e, differ)
              (added ∙ elim (Option-cases (cluster_by_key k db.clusters)) [
                | inl fresh ↦ rw (fresh, differ) refl
                | inr (d, found) ↦ rw found refl
              ])
      ]
]

delete_names :
    (id : Uuid) (k : Str) (db : Db)
    → unique_keys db.clusters ≡ true
    → names_of (delete id db).1 k
      ≡ (if is_ok (delete id db).0 then free_id id (names_of db) k else names_of db k)
unfolding delete
delete_names id k db u = elim (Bool-cases (has_cluster id db.clusters)) [
  | inr missing ↦ rw missing refl
  | inl there ↦ elim (Bool-cases (element_refers id db.elements || history_refers id db.history)) [
    | inl used ↦ rw (there, used) refl
    | inr unused_id ↦ rw (there, unused_id) (names-remove_rows id k db.clusters u)
  ]
]

answer_id :
    (key : Str) (db : Db)
    → (c : Cluster) × ((get_or_create_by_lookup_key key db).0 ≡ ok c)
      × (c.id ≡ id_or db.next_id (names_of db key))
unfolding get_or_create_by_lookup_key
answer_id key db = elim (Option-cases (cluster_by_key key db.clusters)) [
  | inl e ↦ (new_cluster db.next_id key, rw e refl, rw e refl)
  | inr (c, e) ↦ (c, rw e refl, rw e refl)
]

-- The repository of the clusters implements a map from the lookup keys to the ids. `GetOrCreateByLookupKey`
-- answers the id of the key, binds the key to a fresh id if it had none, and changes no other key; `Rename`
-- changes no key; and `Delete` frees the keys of its id if it succeeds, and changes none if it fails.
pub clusters_refine :
    (db : Db)
    → IsWellFormed db
    → ((key : Str)
        → ((c : Cluster) × ((get_or_create_by_lookup_key key db).0 ≡ ok c)
            × (c.id ≡ id_or db.next_id (names_of db key)))
          × ((k : Str)
              → names_of (get_or_create_by_lookup_key key db).1 k
                ≡ bind_key db.next_id key (names_of db) k))
      × ((id : Uuid) (name : Str) (d : Option Str) (k : Str)
          → names_of (rename id name d db).1 k ≡ names_of db k)
      × ((id : Uuid) (k : Str)
          → names_of (delete id db).1 k
            ≡ (if is_ok (delete id db).0 then free_id id (names_of db) k else names_of db k))
unfolding rename
clusters_refine db w = (
  λ key. (answer_id key db, λ k. get_or_create_names key k db),
  λ id name d k. names-rename_rows id name d k db.clusters,
  λ id k. delete_names id k db w.keys_unique,
)
