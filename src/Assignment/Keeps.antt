-- ===== src/Assignment/Keeps.antt =====
-- internal/assignment/assignment.go: what `Assign` keeps of the state, from what the repositories keep.
use maga.Base.{
  List, Option, none, some, Str, is_empty, Result, ok, err, Bool-cases, Result-cases, inl, inr,
}
use maga.Go.Libs.{Libs}
use maga.Domain.{Uuid, Rule, Cluster, RepoError, AssignmentStatus, assigned, unassigned}
use maga.RuleEngine.Evaluate.{MatchResult, evaluate}
use maga.Assignment.{
  Repos, AssignmentHistory, Request, history_of, after_insert, after_update, after_get_or_create,
  update, persist, assign,
}

-- The writes that come last, of the element and of the history.
pub record WritesKeep {S : Type 0} (repos : Repos S) (I : S → Type 0) : Type 0 where
  pub updates :
      (id : Uuid) (c r : Option Uuid) (status : AssignmentStatus) (s : S)
      → I s
      → I (repos.update_assignment id c r status s).1
  pub inserts : (h : AssignmentHistory) (s : S) → I s → I (repos.insert_history h s).1

pub record ReposKeep {S : Type 0} (repos : Repos S) (I : S → Type 0) : Type 0 where
  pub writes : WritesKeep repos I
  pub upserts : (key : Str) (s : S) → I s → I (repos.get_or_create_by_lookup_key key s).1

module _ {S : Type 0} (repos : Repos S) (I : S → Type 0) (writes : WritesKeep repos I) where
  after_insert_keeps :
      (r : MatchResult) (x : Result RepoError Unit × S) → I x.1 → I (after_insert repos r x).1
  after_insert_keeps r (err e, s) h = h
  after_insert_keeps r (ok u, s) h = h

  after_update_keeps :
      (q : Request) (c : Option Uuid) (r : MatchResult) (x : Result RepoError Unit × S)
      → I x.1
      → I (after_update repos q c r x).1
  after_update_keeps q c r (err e, s) h = h
  after_update_keeps q c r (ok u, s) h =
      after_insert_keeps r (repos.insert_history (history_of q c r) s)
        (writes.inserts (history_of q c r) s h)

  pub update_keeps :
      (q : Request) (c : Option Uuid) (status : AssignmentStatus) (r : MatchResult) (s : S)
      → I s
      → I (update repos q c status r s).1
  update_keeps q c status r s h =
      after_update_keeps q c r (repos.update_assignment q.element_id c r.rule_id status s)
        (writes.updates q.element_id c r.rule_id status s h)

  pub after_get_or_create_keeps :
      (q : Request) (r : MatchResult) (x : Result RepoError Cluster × S)
      → I x.1
      → I (after_get_or_create repos q r x).1
  after_get_or_create_keeps q r (err e, s) h = h
  after_get_or_create_keeps q r (ok c, s) h = update_keeps q (some c.id) assigned r s h

module _ {S : Type 0} (repos : Repos S) (I : S → Type 0) (keep : ReposKeep repos I) where
  persist_keeps : (q : Request) (r : MatchResult) (s : S) → I s → I (persist repos q r s).1
  unfolding persist
  persist_keeps q r s h = elim (Bool-cases (is_empty r.rendered_cluster_key)) [
    | inl blank ↦ rw (persist, blank) (update_keeps repos I keep.writes q none unassigned r s h)
    | inr filled ↦
        rw (persist, filled)
          (after_get_or_create_keeps repos I keep.writes q r
            (repos.get_or_create_by_lookup_key r.rendered_cluster_key s)
            (keep.upserts r.rendered_cluster_key s h))
  ]

  pub assign_keeps :
      (l : Libs) (order : List Str → List Str) (q : Request) (hostname : Str) (rules : List Rule)
      (s : S)
      → I s
      → I (assign repos l order q hostname rules s).1
  unfolding assign
  assign_keeps l order q hostname rules s h =
      elim (Result-cases (evaluate l order hostname rules)) [
        | inl (r, e) ↦ rw (assign, e) (persist_keeps q r s h)
        | inr (p, e) ↦ rw (assign, e) h
      ]
