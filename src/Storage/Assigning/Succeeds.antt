-- ===== src/Storage/Assigning/Succeeds.antt =====
-- internal/assignment over internal/storage/postgres: where `Assign` cannot fail.
use maga.Base.{
  ◌≡◌, refl, ap, ◌∙◌, arith, true, List, [], ◌∷◌, Option, none, some, Str, str_eq, is_empty,
  ==_refl, Result, ok, Bool-cases, Option-cases, inl, inr,
}
use maga.Domain.{
  Uuid, Rule, Cluster, NetworkElement, AssignmentStatus, RepoError, assigned, unassigned,
}
use maga.Go.Libs.{Libs}
use maga.RuleEngine.Evaluate.{MatchResult, evaluate}
use maga.Assignment.{Request, after_get_or_create, update, persist, assign}
use maga.Storage.Tables.{Db, cluster_exists, has_cluster, rule_exists, cluster_by_key}
use maga.Storage.Clusters
use maga.Storage.Clusters.Keys.{upsert_finds}
use maga.Storage.Elements
use maga.Storage.Assigning.{postgres, insert_history}

pub has_element-assign_rows :
    (k id : Uuid) (c r : Option Uuid) (status : AssignmentStatus) (es : List NetworkElement)
    → Elements.has_element k (Elements.assign_rows id c r status es) ≡ Elements.has_element k es
unfolding Elements.has_element Elements.assign_rows
has_element-assign_rows k id c r status [] = refl
has_element-assign_rows k id c r status (e ∷ es) =
    ground (arith, has_element-assign_rows k id c r status es)

pub found-has_cluster :
    (key : Str) (cs : List Cluster) (c : Cluster)
    → cluster_by_key key cs ≡ some c
    → has_cluster c.id cs ≡ true
unfolding cluster_by_key has_cluster
found-has_cluster key [] c h = cc
found-has_cluster key (d ∷ cs) c h = elim (Bool-cases (str_eq d.lookup_key key)) [
  | inl same ↦ let e : d ≡ c = ground arith in rw (← e) (ground (arith, ==_refl d.id))
  | inr differ ↦ ground (arith, found-has_cluster key cs c)
]

pub upsert_keeps :
    (key : Str) (db : Db)
    → ((Clusters.get_or_create_by_lookup_key key db).1.elements ≡ db.elements)
      × ((Clusters.get_or_create_by_lookup_key key db).1.rules ≡ db.rules)
unfolding Clusters.get_or_create_by_lookup_key
upsert_keeps key db = elim (Option-cases (cluster_by_key key db.clusters)) [
  | inl e ↦ rw e (refl, refl)
  | inr (c, e) ↦ rw e (refl, refl)
]

update_succeeds :
    (q : Request) (c : Option Uuid) (status : AssignmentStatus) (r : MatchResult) (db : Db)
    → Elements.has_element q.element_id db.elements ≡ true
    → cluster_exists c db.clusters ≡ true
    → rule_exists r.rule_id db.rules ≡ true
    → (update postgres q c status r db).0 ≡ ok r
unfolding Elements.update_assignment insert_history
update_succeeds q c status r db there cluster rule =
    rw (there, cluster, rule)
      (rw
        (
          has_element-assign_rows q.element_id q.element_id c r.rule_id status db.elements,
          there,
          cluster,
          rule,
        )
        refl)

persist_succeeds :
    (q : Request) (r : MatchResult) (db : Db)
    → Elements.has_element q.element_id db.elements ≡ true
    → rule_exists r.rule_id db.rules ≡ true
    → (persist postgres q r db).0 ≡ ok r
unfolding persist
persist_succeeds q r db there rule = elim (Bool-cases (is_empty r.rendered_cluster_key)) [
  | inl blank ↦ rw blank (update_succeeds q none unassigned r db there refl rule)
  | inr filled ↦
      let key = r.rendered_cluster_key in
      let (c, made, keyed, found) = upsert_finds key db in
      let (elements, rules) = upsert_keeps key db in
      let db1 = (Clusters.get_or_create_by_lookup_key key db).1 in
      rw filled (
        ap (λ (x : Result RepoError Cluster). (after_get_or_create postgres q r (x, db1)).0) made
        ∙ update_succeeds q (some c.id) assigned r db1
            (ap (Elements.has_element q.element_id) elements ∙ there)
            (found-has_cluster key db1.clusters c found) (ap (rule_exists r.rule_id) rules ∙ rule))
]

-- If the element and the rule that `Evaluate` chose, if it chose one, have rows, `Assign` succeeds and
-- returns the result of `Evaluate`.
pub assign_succeeds :
    (l : Libs) (order : List Str → List Str) (q : Request) (hostname : Str) (rules : List Rule)
    (db : Db)
    → (r : MatchResult) → evaluate l order hostname rules ≡ ok r
    → Elements.has_element q.element_id db.elements ≡ true
    → rule_exists r.rule_id db.rules ≡ true
    → (assign postgres l order q hostname rules db).0 ≡ ok r
unfolding assign
assign_succeeds l order q hostname rules db r e there rule =
    rw e (persist_succeeds q r db there rule)
