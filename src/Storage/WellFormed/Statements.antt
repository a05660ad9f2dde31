-- ===== src/Storage/WellFormed/Statements.antt =====
-- internal/storage/postgres: each statement on the clusters, the elements and the history keeps the tables
-- well-formed.
use maga.Base.{
  ℕ, ◌+◌, ◌≡◌, refl, ap, ◌∙◌, arith, true, ◌&&◌, List, [], ◌∷◌, ◌++◌, Option, Str, Bool-cases,
  Option-cases, inl, inr, is_some, ◌≤◌,
}
use maga.Domain.{Uuid, Cluster, NetworkElement, AssignmentStatus}
use maga.Assignment.{AssignmentHistory}
use maga.Storage.Tables.{Db, has_cluster, cluster_exists, rule_exists, cluster_by_key}
use maga.Storage.Clusters
use maga.Storage.Elements
use maga.Storage.Elements.{has_element, live_element, element_by_ip}
use maga.Storage.Assigning.{insert_history}
use maga.Storage.Assigning.Succeeds.{has_element-assign_rows}
use maga.Storage.WellFormed.{IsWellFormed, unique_keys, element_references, history_references}
use maga.Storage.WellFormed.References.{
  KeepsClusters, KeepsElements, element_references-keep, history_references-keep,
  has_cluster-append, has_cluster-rename_rows, has_element-append, has_element-refresh_rows,
  has_element-delete_rows, element_references-append, element_references-refresh_rows,
  element_references-delete_rows, element_references-assign_rows, history_references-append,
}
use maga.Storage.WellFormed.Removed.{
  element_references-remove_cluster, history_references-remove_cluster,
}
use maga.Storage.WellFormed.Keys.{
  unique_keys-append, unique_keys-rename_rows, unique_keys-remove_rows,
}
use maga.Storage.WellFormed.Priorities.{unique_ids_mono}

-- A table of clusters, or of elements, in place of the one that was there.
with_clusters :
    (db : Db) (n : ℕ) (cs : List Cluster)
    → IsWellFormed db
    → db.next_id ≤ n
    → KeepsClusters db.clusters cs
    → unique_keys cs ≡ true
    → IsWellFormed (record db { next_id = n; clusters = cs })
with_clusters db n cs w le keep keys = record {
  elements_refer =
      element_references-keep db.clusters cs db.rules db.rules db.elements keep (λ id h. h)
        w.elements_refer;
  history_refers =
      history_references-keep db.clusters cs db.rules db.rules db.elements db.elements db.history
        keep (λ id h. h) (λ id h. h) w.history_refers;
  keys_unique = keys;
  priorities_unique = w.priorities_unique;
  ids_unique = unique_ids_mono db.next_id n db.rules le w.ids_unique;
}

with_elements :
    (db : Db) (n : ℕ) (es : List NetworkElement)
    → IsWellFormed db
    → db.next_id ≤ n
    → KeepsElements db.elements es
    → element_references db.clusters db.rules es ≡ true
    → IsWellFormed (record db { next_id = n; elements = es })
with_elements db n es w le keep refer = record {
  elements_refer = refer;
  history_refers =
      history_references-keep db.clusters db.clusters db.rules db.rules db.elements es db.history
        (λ id h. h) (λ id h. h) keep w.history_refers;
  keys_unique = w.keys_unique;
  priorities_unique = w.priorities_unique;
  ids_unique = unique_ids_mono db.next_id n db.rules le w.ids_unique;
}

pub get_or_create-IsWellFormed :
    (key : Str) (db : Db)
    → IsWellFormed db
    → IsWellFormed (Clusters.get_or_create_by_lookup_key key db).1
unfolding Clusters.get_or_create_by_lookup_key
get_or_create-IsWellFormed key db w = elim (Option-cases (cluster_by_key key db.clusters)) [
  | inr (c, e) ↦ rw e w
  | inl e ↦
      let c = Clusters.new_cluster db.next_id key in
      rw e (
        with_clusters db (db.next_id + 1) (db.clusters ++ c ∷ []) w (omega arith)
          (λ id h. ground (arith, h, has_cluster-append id db.clusters (c ∷ [])))
          (unique_keys-append db.clusters c (ap is_some e) w.keys_unique))
]

pub rename-IsWellFormed :
    (id : Uuid) (name : Str) (d : Option Str) (db : Db)
    → IsWellFormed db
    → IsWellFormed (Clusters.rename id name d db).1
unfolding Clusters.rename
rename-IsWellFormed id name d db w =
    with_clusters db db.next_id (Clusters.rename_rows id name d db.clusters) w (omega arith)
      (λ k h. has_cluster-rename_rows k id name d db.clusters ∙ h)
      (unique_keys-rename_rows id name d db.clusters ∙ w.keys_unique)

pub delete_cluster-IsWellFormed :
    (id : Uuid) (db : Db) → IsWellFormed db → IsWellFormed (Clusters.delete id db).1
unfolding Clusters.delete
delete_cluster-IsWellFormed id db w = elim (Bool-cases (has_cluster id db.clusters)) [
  | inr missing ↦ rw missing w
  | inl there ↦ elim (Bool-cases (Clusters.element_refers id db.elements)) [
    | inl used ↦ rw (there, used) w
    | inr unused ↦ elim (Bool-cases (Clusters.history_refers id db.history)) [
      | inl used ↦ rw (there, unused, used) w
      | inr unused' ↦
          rw (there, unused, unused')
            (record {
              elements_refer =
                  element_references-remove_cluster id db.clusters db.rules db.elements unused
                    w.elements_refer;
              history_refers =
                  history_references-remove_cluster id db.clusters db.rules db.elements db.history
                    unused' w.history_refers;
              keys_unique = unique_keys-remove_rows id db.clusters w.keys_unique;
              priorities_unique = w.priorities_unique;
              ids_unique = w.ids_unique;
            })
    ]
  ]
]

-- A new element refers to nothing.
append_element :
    (ip name : Str) (db : Db)
    → IsWellFormed db
    → IsWellFormed (record db {
      next_id = db.next_id + 1;
      elements = db.elements ++ Elements.new_element db.next_id ip name ∷ [];
    })
append_element ip name db w =
    let e = Elements.new_element db.next_id ip name in
    with_elements db (db.next_id + 1) (db.elements ++ e ∷ []) w (omega arith)
      (λ id h. ground (arith, h, has_element-append id db.elements (e ∷ [])))
      (let alone : element_references db.clusters db.rules (e ∷ []) ≡ true =
          unfold element_references in refl in
        let split = element_references-append db.clusters db.rules db.elements (e ∷ []) in
        ground (arith, alone, split, w.elements_refer))

pub create_element-IsWellFormed :
    (ip name : Str) (db : Db) → IsWellFormed db → IsWellFormed (Elements.create ip name db).1
unfolding Elements.create
create_element-IsWellFormed ip name db w = elim (Option-cases (element_by_ip ip db.elements)) [
  | inr (e, found) ↦ rw found w
  | inl fresh ↦ rw fresh (append_element ip name db w)
]

pub upsert_discovered-IsWellFormed :
    (ip name : Str) (db : Db)
    → IsWellFormed db
    → IsWellFormed (Elements.upsert_discovered ip name db).1
unfolding Elements.upsert_discovered
upsert_discovered-IsWellFormed ip name db w = elim (Option-cases (element_by_ip ip db.elements)) [
  | inl fresh ↦ rw fresh (append_element ip name db w)
  | inr (e, found) ↦ rw found (
      with_elements db db.next_id (Elements.refresh_rows ip name db.elements) w (omega arith)
        (λ k h. has_element-refresh_rows k ip name db.elements ∙ h)
        (element_references-refresh_rows db.clusters db.rules ip name db.elements
          ∙ w.elements_refer))
]

pub soft_delete-IsWellFormed :
    (id : Uuid) (db : Db) → IsWellFormed db → IsWellFormed (Elements.soft_delete id db).1
unfolding Elements.soft_delete
soft_delete-IsWellFormed id db w = elim (Option-cases (live_element id db.elements)) [
  | inl missing ↦ rw missing w
  | inr (e, found) ↦ rw found (
      with_elements db db.next_id (Elements.delete_rows id db.elements) w (omega arith)
        (λ k h. has_element-delete_rows k id db.elements ∙ h)
        (element_references-delete_rows db.clusters db.rules id db.elements ∙ w.elements_refer))
]

pub update_assignment-IsWellFormed :
    (id : Uuid) (c r : Option Uuid) (st : AssignmentStatus) (db : Db)
    → IsWellFormed db
    → IsWellFormed (Elements.update_assignment id c r st db).1
unfolding Elements.update_assignment
update_assignment-IsWellFormed id c r st db w = elim (Bool-cases (has_element id db.elements)) [
  | inr missing ↦ rw missing w
  | inl there ↦ elim (Bool-cases (cluster_exists c db.clusters)) [
    | inr dangling ↦ rw (there, dangling) w
    | inl cluster ↦ elim (Bool-cases (rule_exists r db.rules)) [
      | inr dangling ↦ rw (there, cluster, dangling) w
      | inl rule ↦
          rw (there, cluster, rule)
            (with_elements db db.next_id (Elements.assign_rows id c r st db.elements) w
              (omega arith) (λ k h. has_element-assign_rows k id c r st db.elements ∙ h)
              (element_references-assign_rows db.clusters db.rules id c r st db.elements cluster
                rule w.elements_refer))
    ]
  ]
]

pub insert_history-IsWellFormed :
    (h : AssignmentHistory) (db : Db) → IsWellFormed db → IsWellFormed (insert_history h db).1
unfolding insert_history
insert_history-IsWellFormed h db w =
    elim (Bool-cases (
      has_element h.element_id db.elements
      && cluster_exists h.cluster_id db.clusters
      && rule_exists h.rule_id db.rules)) [
        | inr dangling ↦ rw dangling w
        | inl refs ↦
            let split =
              history_references-append db.clusters db.rules db.elements db.history (h ∷ []) in
            let alone : history_references db.clusters db.rules db.elements (h ∷ []) ≡ true =
              unfold history_references in ground (arith, refs) in
            rw refs (record {
              elements_refer = w.elements_refer;
              history_refers = ground (arith, split, alone, w.history_refers);
              keys_unique = w.keys_unique;
              priorities_unique = w.priorities_unique;
              ids_unique = w.ids_unique;
            })
      ]
