-- ===== src/Assignment.antt =====
-- internal/assignment/assignment.go: `Service.Assign`, over the repositories that it is given.
pub mod Keeps
use maga.Base.{List, Option, none, some, Str, is_empty, if◌then◌else◌, Dict, Result, ok, err}
use maga.Go.Libs.{Libs}
use maga.Domain.{
  Uuid, Rule, Cluster, RepoError, AssignmentStatus, assigned, unassigned, TriggerSource,
}
use maga.RuleEngine.Evaluate.{MatchResult, Warning, Panic, evaluate}

-- internal/domain/assignment_history.go; the warnings are kept as a list and not joined by "; ", and the
-- time that the database fills in is left out.
pub record AssignmentHistory : Type 0 where
  pub id : Uuid
  pub element_id : Uuid
  pub cluster_id : Option Uuid
  pub rule_id : Option Uuid
  pub matched_pattern : Str
  pub raw_captures : Dict Str
  pub transformed_captures : Dict Str
  pub rendered_cluster_key : Str
  pub trigger_source : TriggerSource
  pub warnings : List Warning

-- A method of a repository that may fail, and may have changed the database all the same.
abbrev pub Action : Type 0 → Type 0 → Type 0
Action S A = S → Result RepoError A × S

-- The interfaces `ElementRepo`, `ClusterRepo` and `HistoryRepo`.
pub record Repos (S : Type 0) : Type 0 where
  pub update_assignment : Uuid → Option Uuid → Option Uuid → AssignmentStatus → Action S Unit
  pub get_or_create_by_lookup_key : Str → Action S Cluster
  pub insert_history : AssignmentHistory → Action S Unit

pub data AssignError : Type 0 where
  panicked : Panic → AssignError
  get_or_create_failed : RepoError → AssignError
  update_failed : RepoError → AssignError
  history_failed : RepoError → AssignError

-- The request: the element, what started the assignment, and the id that `uuid.New()` returns.
pub record Request : Type 0 where
  pub element_id : Uuid
  pub trigger : TriggerSource
  pub history_id : Uuid

abbrev pub history_of : Request → Option Uuid → MatchResult → AssignmentHistory
history_of q cluster_id r = record {
  id = q.history_id;
  element_id = q.element_id;
  cluster_id = cluster_id;
  rule_id = r.rule_id;
  matched_pattern = r.matched_pattern;
  raw_captures = r.raw_captures;
  transformed_captures = r.transformed_captures;
  rendered_cluster_key = r.rendered_cluster_key;
  trigger_source = q.trigger;
  warnings = r.warnings;
}

module _ {S : Type 0} (repos : Repos S) where
  abbrev pub after_insert :
      MatchResult → Result RepoError Unit × S → Result AssignError MatchResult × S
  after_insert r (err e, s) = (err (history_failed e), s)
  after_insert r (ok _, s) = (ok r, s)

  abbrev pub after_update :
      Request
      → Option Uuid
      → MatchResult
      → Result RepoError Unit × S
      → Result AssignError MatchResult × S
  after_update q c r (err e, s) = (err (update_failed e), s)
  after_update q c r (ok _, s) = after_insert r (repos.insert_history (history_of q c r) s)

  abbrev pub update :
      Request
      → Option Uuid
      → AssignmentStatus
      → MatchResult
      → S
      → Result AssignError MatchResult × S
  update q c status r s =
      after_update q c r (repos.update_assignment q.element_id c r.rule_id status s)

  abbrev pub after_get_or_create :
      Request → MatchResult → Result RepoError Cluster × S → Result AssignError MatchResult × S
  after_get_or_create q r (err e, s) = (err (get_or_create_failed e), s)
  after_get_or_create q r (ok cluster, s) = update q (some cluster.id) assigned r s

  -- What follows the evaluation.
  unfoldable pub persist : Request → MatchResult → S → Result AssignError MatchResult × S
  persist q r s =
      if is_empty r.rendered_cluster_key
      then update q none unassigned r s
      else after_get_or_create q r (repos.get_or_create_by_lookup_key r.rendered_cluster_key s)

  abbrev pub persist_evaluated :
      Request → Result Panic MatchResult → S → Result AssignError MatchResult × S
  persist_evaluated q (err p) s = (err (panicked p), s)
  persist_evaluated q (ok r) s = persist q r s

  -- `Assign`
  unfoldable pub assign :
      Libs
      → (List Str → List Str)
      → Request
      → Str
      → List Rule
      → S
      → Result AssignError MatchResult × S
  unfolding persist
  assign l order q hostname rules s = persist_evaluated q (evaluate l order hostname rules) s
