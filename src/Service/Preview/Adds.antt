-- ===== src/Service/Preview/Adds.antt =====
-- internal/storage/postgres: the clusters behind a stored assignment.
use maga.Base.{
  ◌≡◌, refl, arith, Bool, not, ◌&&◌, List, [], ◌∷◌, ◌++◌, Option, none, Str, is_empty,
  if◌then◌else◌, Bool-cases, inl, inr,
}
use maga.Domain.{Uuid, Cluster, AssignmentStatus, unassigned}
use maga.Assignment.{AssignmentHistory, Request, persist}
use maga.Assignment.Keeps.{WritesKeep, update_keeps, after_get_or_create_keeps}
use maga.RuleEngine.Evaluate.{MatchResult}
use maga.Storage
use maga.Storage.Clusters.{new_cluster}
use maga.Storage.Tables.{Db}
use maga.Storage.Elements.{has_element}
use maga.Storage.Assigning.{postgres, insert_history}

-- The clusters, behind the writes that come last.
update_stays :
    (cs : List Cluster) (id : Uuid) (c r : Option Uuid) (status : AssignmentStatus) (db : Db)
    → db.clusters ≡ cs
    → (Storage.Elements.update_assignment id c r status db).1.clusters ≡ cs
unfolding Storage.Elements.update_assignment
update_stays cs id c r status db h = ground arith

insert_stays :
    (cs : List Cluster) (e : AssignmentHistory) (db : Db)
    → db.clusters ≡ cs
    → (insert_history e db).1.clusters ≡ cs
unfolding insert_history
insert_stays cs e db h = ground arith

clusters_stay : (cs : List Cluster) → WritesKeep postgres (λ db. db.clusters ≡ cs)
clusters_stay cs = record { updates = update_stays cs; inserts = insert_stays cs }

-- The clusters behind the upsert of a key, which adds one exactly if there is none of the key.
abbrev pub clusters_with : Str → Bool → Db → List Cluster
clusters_with key creates db =
    if creates then db.clusters ++ new_cluster db.next_id key ∷ [] else db.clusters

upsert_clusters :
    (key : Str) (db : Db)
    → (Storage.Clusters.get_or_create_by_lookup_key key db).1.clusters
      ≡ clusters_with key (not (Storage.Clusters.exists_cluster_by_lookup_key key db)) db
unfolding Storage.Clusters.get_or_create_by_lookup_key Storage.Clusters.exists_cluster_by_lookup_key
upsert_clusters key db = ground arith

abbrev pub creates_cluster : MatchResult → Db → Bool
creates_cluster r db =
    not (is_empty r.rendered_cluster_key)
    && not (Storage.Clusters.exists_cluster_by_lookup_key r.rendered_cluster_key db)

pub persist_clusters :
    (a : Request) (r : MatchResult) (db : Db)
    → (persist postgres a r db).1.clusters
      ≡ clusters_with r.rendered_cluster_key (creates_cluster r db) db
unfolding persist
persist_clusters a r db = elim (Bool-cases (is_empty r.rendered_cluster_key)) [
  | inl blank ↦
      rw (persist, blank)
        (update_keeps postgres (λ x. x.clusters ≡ db.clusters) (clusters_stay db.clusters) a none
          unassigned r db refl)
  | inr filled ↦
      let key = r.rendered_cluster_key in
      let cs = clusters_with key (not (Storage.Clusters.exists_cluster_by_lookup_key key db)) db in
      rw (persist, filled)
        (after_get_or_create_keeps postgres (λ x. x.clusters ≡ cs) (clusters_stay cs) a r
          (Storage.Clusters.get_or_create_by_lookup_key key db) (upsert_clusters key db))
]
