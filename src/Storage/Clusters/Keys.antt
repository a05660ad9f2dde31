-- ===== src/Storage/Clusters/Keys.antt =====
-- internal/storage/postgres/cluster_repo.go: one row for each lookup key, through upserts in any order and
-- renames.
use maga.Base.{
  ◌≡◌, refl, ap, ◌∙◌, arith, List, [], ◌∷◌, ◌++◌, Option, none, some, Str, str_eq, str_eq_iff, ◌==◌,
  ok, Bool-cases, Option-cases, inl, inr,
}
use maga.Domain.{Uuid, Cluster}
use maga.Storage.Tables.{Db, cluster_by_key}
use maga.Storage.Clusters.{new_cluster, get_or_create_by_lookup_key, rename_rows, rename, coalesce}

-- Other callers that upsert keys of their own, one statement after the other.
abbrev pub upsert_all : List Str → Db → Db
upsert_all [] db = db
upsert_all (k ∷ ks) db = upsert_all ks (get_or_create_by_lookup_key k db).1

found-append :
    (key : Str) (cs ds : List Cluster) {c : Cluster}
    → cluster_by_key key cs ≡ some c
    → cluster_by_key key (cs ++ ds) ≡ some c
unfolding cluster_by_key
found-append key [] ds h = cc
found-append key (d ∷ cs) ds {c} h = ground (arith, found-append key cs ds {c = c})

found-upsert :
    (key k : Str) (db : Db) {c : Cluster}
    → cluster_by_key key db.clusters ≡ some c
    → cluster_by_key key (get_or_create_by_lookup_key k db).1.clusters ≡ some c
unfolding get_or_create_by_lookup_key
found-upsert key k db {c} h = elim (Option-cases (cluster_by_key k db.clusters)) [
  | inl e ↦ rw e (found-append key db.clusters (new_cluster db.next_id k ∷ []) h)
  | inr (d, e) ↦ rw e h
]

found-upsert_all :
    (key : Str) (ks : List Str) (db : Db) {c : Cluster}
    → cluster_by_key key db.clusters ≡ some c
    → cluster_by_key key (upsert_all ks db).clusters ≡ some c
found-upsert_all key [] db h = h
found-upsert_all key (k ∷ ks) db {c} h =
    found-upsert_all key ks (get_or_create_by_lookup_key k db).1 (found-upsert key k db h)

found_new :
    (key : Str) (c : Cluster) (cs : List Cluster)
    → cluster_by_key key cs ≡ none
    → c.lookup_key ≡ key
    → cluster_by_key key (cs ++ c ∷ []) ≡ some c
unfolding cluster_by_key
found_new key c [] h e = ground (arith, str_eq_iff c.lookup_key key)
found_new key c (d ∷ cs) h e = ground (arith, found_new key c cs)

key_of_found :
    (key : Str) (cs : List Cluster) (c : Cluster)
    → cluster_by_key key cs ≡ some c
    → c.lookup_key ≡ key
unfolding cluster_by_key
key_of_found key [] c h = cc
key_of_found key (d ∷ cs) c h = elim (Bool-cases (str_eq d.lookup_key key)) [
  | inl same ↦ let e : d ≡ c = ground arith in rw (← e) ((str_eq_iff d.lookup_key key).0 same)
  | inr differ ↦ key_of_found key cs c (ground arith)
]

-- The row that an upsert returns is the one that the table then has for the key.
pub upsert_finds :
    (key : Str) (db : Db)
    → (c : Cluster) × ((get_or_create_by_lookup_key key db).0 ≡ ok c)
      × (c.lookup_key ≡ key)
      × (cluster_by_key key (get_or_create_by_lookup_key key db).1.clusters ≡ some c)
unfolding get_or_create_by_lookup_key
upsert_finds key db = elim (Option-cases (cluster_by_key key db.clusters)) [
  | inl e ↦
      let c = new_cluster db.next_id key in
      (c, rw e, refl, rw e (found_new key c db.clusters e refl))
  | inr (c, e) ↦ (c, rw e, key_of_found key db.clusters c e, rw e e)
]

keeps_found :
    (key : Str) (db : Db) (c : Cluster)
    → cluster_by_key key db.clusters ≡ some c
    → get_or_create_by_lookup_key key db ≡ (ok c, db)
unfolding get_or_create_by_lookup_key
keeps_found key db c h = rw h

-- However many upserts, of this key and of others, come after the first one of a key, the next one of that
-- key returns the same cluster, with that key, and changes nothing.
pub get_or_create_agrees :
    (key : Str) (ks : List Str) (db : Db)
    → let later = upsert_all ks (get_or_create_by_lookup_key key db).1 in
      (c : Cluster) × ((get_or_create_by_lookup_key key db).0 ≡ ok c)
      × (c.lookup_key ≡ key)
      × (get_or_create_by_lookup_key key later ≡ (ok c, later))
get_or_create_agrees key ks db =
    let (c, first, keyed, found) = upsert_finds key db in
    (
      c,
      first,
      keyed,
      keeps_found key (upsert_all ks (get_or_create_by_lookup_key key db).1) c
          (found-upsert_all key ks (get_or_create_by_lookup_key key db).1 found),
    )

found-rename_rows :
    (key : Str) (id : Uuid) (name : Str) (description : Option Str) (cs : List Cluster)
    (c : Cluster)
    → cluster_by_key key cs ≡ some c
    → (c' : Cluster) × (cluster_by_key key (rename_rows id name description cs) ≡ some c')
      × (c'.id ≡ c.id)
      × (c'.lookup_key ≡ c.lookup_key)
unfolding cluster_by_key rename_rows
found-rename_rows key id name description [] c h = cc
found-rename_rows key id name description (d ∷ cs) c h =
    elim (Bool-cases (str_eq d.lookup_key key)) [
      | inr differ ↦
          let (c', e, same_id, same_key) =
            found-rename_rows key id name description cs c (ground arith) in
          (c', ground arith, same_id, same_key)
      | inl same ↦
          let e : d ≡ c = ground arith in
          elim (Bool-cases (d.id == id)) [
            | inl hit ↦ (
              record d { display_name = name; description = coalesce description d.description },
              rw (hit, same),
              ap (λ (x : Cluster). x.id) e,
              ap (λ (x : Cluster). x.lookup_key) e,
            )
            | inr miss ↦ (
              d,
              rw (miss, same),
              ap (λ (x : Cluster). x.id) e,
              ap (λ (x : Cluster). x.lookup_key) e,
            )
          ]
    ]

-- To rename any cluster does not change what a key that is in use stands for: the next upsert of the key
-- finds the cluster of the same id and adds none.
pub rename_keeps_key :
    (key : Str) (id : Uuid) (name : Str) (description : Option Str) (db : Db) (c : Cluster)
    → cluster_by_key key db.clusters ≡ some c
    → let renamed = (rename id name description db).1 in
      (c' : Cluster) × (get_or_create_by_lookup_key key renamed ≡ (ok c', renamed))
      × (c'.id ≡ c.id)
      × (c'.lookup_key ≡ key)
unfolding rename
rename_keeps_key key id name description db c h =
    let (c', found, same_id, same_key) =
      found-rename_rows key id name description db.clusters c h in
    (
      c',
      keeps_found key (record db { clusters = rename_rows id name description db.clusters }) c'
          found,
      same_id,
      same_key ∙ key_of_found key db.clusters c h,
    )
