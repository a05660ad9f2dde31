-- ===== src/Storage/Assigning.antt =====
-- internal/assignment over internal/storage/postgres: the tables behind `Assign`.
pub mod Succeeds
use maga.Base.{
  ◌≡◌, ◌⊎◌, sym, Result-cases, Option-cases, refl, ap, ◌∙◌, true, false, ◌&&◌, List, [], ◌∷◌, ◌++◌,
  Option, none, some, Str, codes, is_empty, if◌then◌else◌, ◌==◌, Result, ok, err, Bool-cases, inl,
  inr, All,
}
use maga.Domain.{
  Uuid, Rule, Cluster, NetworkElement, AssignmentStatus, RepoError, not_found, other, assigned,
  unassigned,
}
use maga.Go.Libs.{Libs}
use maga.RuleEngine.Evaluate.{MatchResult, evaluate}
use maga.Assignment.{
  AssignmentHistory, Action, Repos, AssignError, Request, history_of, after_insert, update,
  after_update, after_get_or_create, persist, persist_evaluated, assign,
}
use maga.Storage.Tables.{Db, cluster_exists, rule_exists, cluster_by_key}
use maga.Storage.Clusters
use maga.Storage.Clusters.Keys.{upsert_finds}
use maga.Storage.Elements

-- `Insert` of history_repo.go; its references must be to rows.
unfoldable pub insert_history : AssignmentHistory → Action Db Unit
unfolding Elements.has_element
insert_history h db =
    if Elements.has_element h.element_id db.elements
      && cluster_exists h.cluster_id db.clusters
      && rule_exists h.rule_id db.rules
    then (ok tt, record db { history = db.history ++ h ∷ [] })
    else (err (other (codes "23503")), db)

-- `ListByElement`: the newest first, where the rows stand in the order of their insertion
unfoldable pub list_by_element : Uuid → List AssignmentHistory → List AssignmentHistory
list_by_element id [] = []
list_by_element id (h ∷ hs) =
    let rest = list_by_element id hs in if h.element_id == id then rest ++ h ∷ [] else rest

abbrev pub postgres : Repos Db
postgres = record {
  update_assignment = Elements.update_assignment;
  get_or_create_by_lookup_key = Clusters.get_or_create_by_lookup_key;
  insert_history = insert_history;
}

upsert_keeps_history :
    (key : Str) (db : Db) → (Clusters.get_or_create_by_lookup_key key db).1.history ≡ db.history
unfolding Clusters.get_or_create_by_lookup_key
upsert_keeps_history key db = elim (Option-cases (cluster_by_key key db.clusters)) [
  | inl e ↦ rw e
  | inr (c, e) ↦ rw e
]

-- A row of the element, if it is one, has this assignment.
abbrev pub IsAssigned :
    Uuid → Option Uuid → Option Uuid → AssignmentStatus → NetworkElement → Type 0
IsAssigned id c r status e =
    (e.id == id) ≡ true → (e.cluster_id ≡ c) × (e.last_rule_id ≡ r) × (e.assignment_status ≡ status)

assign_rows-IsAssigned :
    (id : Uuid) (c r : Option Uuid) (status : AssignmentStatus) (es : List NetworkElement)
    → All (IsAssigned id c r status) (Elements.assign_rows id c r status es)
unfolding Elements.assign_rows
assign_rows-IsAssigned id c r status [] = tt
assign_rows-IsAssigned id c r status (e ∷ es) = elim (Bool-cases (e.id == id)) [
  | inl same ↦
      let more = assign_rows-IsAssigned id c r status es in
      rw same ((λ h. (refl, refl, refl)), more)
  | inr differ ↦ let more = assign_rows-IsAssigned id c r status es in rw differ ((λ h. cc), more)
]

-- What a successful `Assign` has written for the cluster id `c`.
abbrev Wrote : Request → Option Uuid → AssignmentStatus → MatchResult → Db → Db → Type 0
Wrote q c status r db db' =
    (db'.history ≡ db.history ++ history_of q c r ∷ [])
    × (db'.clusters ≡ db.clusters)
    × (Elements.has_element q.element_id db.elements ≡ true)
    × All (IsAssigned q.element_id c r.rule_id status) db'.elements

-- The entry of the history says the same as the row and the result.
abbrev pub Says : Request → Option Uuid → MatchResult → AssignmentHistory → Type 0
Says q c r h =
    (h.id ≡ q.history_id)
    × (h.element_id ≡ q.element_id)
    × (h.cluster_id ≡ c)
    × (h.rule_id ≡ r.rule_id)
    × (h.matched_pattern ≡ r.matched_pattern)
    × (h.raw_captures ≡ r.raw_captures)
    × (h.transformed_captures ≡ r.transformed_captures)
    × (h.rendered_cluster_key ≡ r.rendered_cluster_key)
    × (h.trigger_source ≡ q.trigger)
    × (h.warnings ≡ r.warnings)

history_of-Says : (q : Request) (c : Option Uuid) (r : MatchResult) → Says q c r (history_of q c r)
history_of-Says q c r = (refl, refl, refl, refl, refl, refl, refl, refl, refl, refl)

-- What is stored with a result: the row of the element has its rule, and a cluster and the status
-- `assigned` exactly if the rendered key is not empty; that cluster is the one of the key; and the history
-- has one more entry, which says the same.
abbrev pub Stored : Request → MatchResult → Db → Db → Type 0
Stored q r db db' =
    (c : Option Uuid) × (h : AssignmentHistory) × Says q c r h
    × (db'.history ≡ db.history ++ h ∷ [])
    × (((is_empty r.rendered_cluster_key ≡ true)
          × (c ≡ none)
          × (db'.clusters ≡ db.clusters)
          × All (IsAssigned q.element_id none r.rule_id unassigned) db'.elements)
        ⊎ ((is_empty r.rendered_cluster_key ≡ false)
            × (cluster : Cluster) × (c ≡ some cluster.id)
            × (cluster.lookup_key ≡ r.rendered_cluster_key)
            × (cluster_by_key r.rendered_cluster_key db'.clusters ≡ some cluster)
            × All (IsAssigned q.element_id c r.rule_id assigned) db'.elements))

inserted_lem :
    (q : Request) (c : Option Uuid) (r r' : MatchResult) (db db' : Db)
    → after_insert postgres r (insert_history (history_of q c r) db) ≡ (ok r', db')
    → (r' ≡ r)
      × (db'.history ≡ db.history ++ history_of q c r ∷ [])
      × (db'.clusters ≡ db.clusters)
      × (db'.elements ≡ db.elements)
unfolding insert_history
inserted_lem q c r r' db db' h =
    elim (Bool-cases (
      Elements.has_element q.element_id db.elements
      && cluster_exists c db.clusters
      && rule_exists r.rule_id db.rules)) [
        | inl refs ↦
            let done : (ok r, record db { history = db.history ++ history_of q c r ∷ [] })
                ≡ (ok r', db') =
              rw refs at h in
            let rows = ap (λ (x : Result AssignError MatchResult × Db). x.1) done in
            (
              cc,
              sym (ap (λ (x : Db). x.history) rows),
              sym (ap (λ (x : Db). x.clusters) rows),
              sym (ap (λ (x : Db). x.elements) rows),
            )
        | inr dangling ↦
            let bad : after_insert postgres r (err (other (codes "23503")), db) ≡ (ok r', db') =
              rw dangling at h in
            cc
      ]

update_lem :
    (q : Request) (c : Option Uuid) (status : AssignmentStatus) (r r' : MatchResult) (db db' : Db)
    → update postgres q c status r db ≡ (ok r', db')
    → (r' ≡ r) × Wrote q c status r db db'
unfolding insert_history Elements.update_assignment
update_lem q c status r r' db db' h =
    elim (Bool-cases (Elements.has_element q.element_id db.elements)) [
      | inr missing ↦
          let bad : after_update postgres q c r (err not_found, db) ≡ (ok r', db') =
            rw missing at h in
          cc
      | inl there ↦
          elim (Bool-cases (cluster_exists c db.clusters && rule_exists r.rule_id db.rules)) [
            | inr dangling ↦
                let bad : after_update postgres q c r (err (other (codes "23503")), db)
                    ≡ (ok r', db') =
                  rw (there, dangling) at h in
                cc
            | inl refs ↦
                let written = Elements.assign_rows q.element_id c r.rule_id status db.elements in
                let go : after_insert postgres r
                      (insert_history (history_of q c r) (record db { elements = written }))
                    ≡ (ok r', db') =
                  rw (there, refs) at h in
                let (same, history, clusters, elements) =
                  inserted_lem q c r r' (record db { elements = written }) db' go in
                (
                  same,
                  (
                    history,
                    clusters,
                    there,
                    rw elements
                        (assign_rows-IsAssigned q.element_id c r.rule_id status db.elements),
                  ),
                )
          ]
    ]

pub persist_lem :
    (q : Request) (r r' : MatchResult) (db db' : Db)
    → persist postgres q r db ≡ (ok r', db')
    → (r' ≡ r) × Stored q r db db'
unfolding persist
persist_lem q r r' db db' h = elim (Bool-cases (is_empty r.rendered_cluster_key)) [
  | inl blank ↦
      let go : update postgres q none unassigned r db ≡ (ok r', db') = rw blank at h in
      let (same, (history, clusters, there, elements)) =
        update_lem q none unassigned r r' db db' go in
      (
        same,
        (
          none,
          history_of q none r,
          history_of-Says q none r,
          history,
          inl (blank, refl, clusters, elements),
        ),
      )
  | inr filled ↦
      let key = r.rendered_cluster_key in
      let (c, made, keyed, found) = upsert_finds key db in
      let db1 = (Clusters.get_or_create_by_lookup_key key db).1 in
      let go : update postgres q (some c.id) assigned r db1 ≡ (ok r', db') =
        ap (λ (x : Result RepoError Cluster). after_get_or_create postgres q r (x, db1)) (sym made)
        ∙ rw filled at h in
      let (same, (history, clusters, there, elements)) =
        update_lem q (some c.id) assigned r r' db1 db' go in
      (
        same,
        (
          some c.id,
          history_of q (some c.id) r,
          history_of-Says q (some c.id) r,
          history ∙ ap (λ hs. hs ++ history_of q (some c.id) r ∷ []) (upsert_keeps_history key db),
          inr (filled, c, refl, keyed, rw clusters found, elements),
        ),
      )
]

-- If `Assign` succeeds, the element, the clusters and the history agree: the row of the element has the
-- rule of the result, and a cluster and the status `assigned` exactly if the rendered key is not empty;
-- that cluster is the one of the key; and the history has one more entry, which says the same. The result
-- is that of `Evaluate`.
pub assign_lem :
    (l : Libs) (order : List Str → List Str) (q : Request) (hostname : Str) (rules : List Rule)
    → (db db' : Db) (r : MatchResult) → assign postgres l order q hostname rules db ≡ (ok r, db')
    → (evaluate l order hostname rules ≡ ok r) × Stored q r db db'
unfolding assign
assign_lem l order q hostname rules db db' r h =
    elim (Result-cases (evaluate l order hostname rules)) [
      | inr (p, e) ↦
          let bad : persist_evaluated postgres q (err p) db ≡ (ok r, db') = rw e at h in cc
      | inl (r0, e) ↦
          let go : persist postgres q r0 db ≡ (ok r, db') = rw e at h in
          let (same, more) = persist_lem q r0 r db db' go in (e ∙ ap ok (sym same), rw same more)
    ]
