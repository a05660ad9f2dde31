-- ===== src/Service/RuleTable.antt =====
-- cmd/apiserver/main.go: a predicate of the rules in the table, from what `Create` and `Update` keep of it.
use maga.Base.{ℤ, Option, Str, ◌&&◌, ◌||◌, All, Bool-cases, Option-cases, inl, inr}
use maga.Domain.{Uuid, Rule, AssignmentStatus}
use maga.Assignment.{AssignmentHistory}
use maga.Storage
use maga.Storage.Tables.{Db, has_cluster, cluster_exists, rule_exists}
use maga.Storage.Assigning.Succeeds.{upsert_keeps}
use maga.Storage.Elements.{live_element, element_by_ip, has_element}
use maga.Storage.Assigning.{insert_history}
use maga.Storage.RuleRows.{All-delete, All-reorder}
use maga.Service.{Outside}
use maga.Service.Reached.{IsValid, IsDecoded, StatementsKeep}

-- The statements on the other tables leave the rules as they are.
module _ (P : Rule → Type 0) (db : Db) (h : All P db.rules) where
  keeps_rename :
      (id : Uuid) (name : Str) (d : Option Str)
      → All P (Storage.Clusters.rename id name d db).1.rules
  unfolding Storage.Clusters.rename
  keeps_rename id name d = h

  keeps_cluster_delete : (id : Uuid) → All P (Storage.Clusters.delete id db).1.rules
  unfolding Storage.Clusters.delete
  keeps_cluster_delete id = elim (Bool-cases (has_cluster id db.clusters)) [
    | inr missing ↦ rw missing h
    | inl there ↦
        elim (Bool-cases (
          Storage.Clusters.element_refers id db.elements
          || Storage.Clusters.history_refers id db.history)) [
            | inl used ↦ rw (there, used) h
            | inr unused ↦ rw (there, unused) h
          ]
  ]

  keeps_soft_delete : (id : Uuid) → All P (Storage.Elements.soft_delete id db).1.rules
  unfolding Storage.Elements.soft_delete
  keeps_soft_delete id = elim (Option-cases (live_element id db.elements)) [
    | inl e ↦ rw e h
    | inr (x, e) ↦ rw e h
  ]

  keeps_upsert : (ip name : Str) → All P (Storage.Elements.upsert_discovered ip name db).1.rules
  unfolding Storage.Elements.upsert_discovered
  keeps_upsert ip name = elim (Option-cases (element_by_ip ip db.elements)) [
    | inl e ↦ rw e h
    | inr (x, e) ↦ rw e h
  ]

  keeps_get_or_create :
      (key : Str) → All P (Storage.Clusters.get_or_create_by_lookup_key key db).1.rules
  keeps_get_or_create key = rw ((upsert_keeps key db).1) h

  keeps_update_assignment :
      (id : Uuid) (c r : Option Uuid) (status : AssignmentStatus)
      → All P (Storage.Elements.update_assignment id c r status db).1.rules
  unfolding Storage.Elements.update_assignment
  keeps_update_assignment id c r status = elim (Bool-cases (has_element id db.elements)) [
    | inr missing ↦ rw missing h
    | inl there ↦ elim (Bool-cases (cluster_exists c db.clusters && rule_exists r db.rules)) [
      | inl refs ↦ rw (there, refs) h
      | inr dangling ↦ rw (there, dangling) h
    ]
  ]

  keeps_insert_history : (e : AssignmentHistory) → All P (insert_history e db).1.rules
  unfolding insert_history
  keeps_insert_history e =
      elim (Bool-cases (
        has_element e.element_id db.elements
        && cluster_exists e.cluster_id db.clusters
        && rule_exists e.rule_id db.rules)) [ inl refs ↦ rw refs h | inr dangling ↦ rw dangling h ]

module _ (o : Outside) (P : Rule → Type 0)
    (same_priority : (r : Rule) (p : ℤ) → P r → P (record r { priority = p }))
    (same_id : (r : Rule) (id : Uuid) → P r → P (record r { id = id }))
    (creates : (r : Rule) (db : Db)
      → IsValid o r
      → IsDecoded o r
      → All P db.rules
      → All P (Storage.Rules.create o.libs r db).1.rules)
    (updates : (r : Rule) (db : Db)
      → IsValid o r
      → IsDecoded o r
      → All P db.rules
      → All P (Storage.Rules.update o.libs r db).1.rules) where
  pub rules_keep : StatementsKeep o (λ db. All P db.rules)
  rules_keep = record {
    created = creates;
    updated = updates;
    deleted = All-delete P same_priority same_id;
    reordered = All-reorder P same_priority same_id;
    renamed = λ id name d x h. keeps_rename P x h id name d;
    cluster_deleted = λ id x h. keeps_cluster_delete P x h id;
    soft_deleted = λ id x h. keeps_soft_delete P x h id;
    upserted = λ ip name x h. keeps_upsert P x h ip name;
    got_or_created = λ key x h. keeps_get_or_create P x h key;
    assigned_to = λ id c a status x h. keeps_update_assignment P x h id c a status;
    inserted = λ e x h. keeps_insert_history P x h e;
  }
