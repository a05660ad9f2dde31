-- ===== src/Domain.antt =====
-- internal/domain: the shared structs. A `uuid.UUID` is a number: only its identity is used. The string
-- constants of a status are the constructors of a type.
use maga.Base.{ℕ, ℤ, Bool, Option, Str, Dict}
use maga.Dsl.Types.{Pipeline}

abbrev pub Uuid : Type 0
Uuid = ℕ

-- rule.go
pub record Rule : Type 0 where
  pub id : Uuid
  pub name : Str
  pub description : Str
  pub pattern : Str
  pub capture_transforms : Dict Pipeline
  pub cluster_key_template : Str
  pub priority : ℤ
  pub is_enabled : Bool

-- cluster.go
pub record Cluster : Type 0 where
  pub id : Uuid
  pub lookup_key : Str
  pub display_name : Str
  pub description : Str

-- errors.go, and any other error of a repository by its message
pub data RepoError : Type 0 where
  not_found : RepoError
  cluster_not_empty : RepoError
  other : Str → RepoError

-- element.go
pub data AssignmentStatus : Type 0 where
  unassigned assigned : AssignmentStatus

-- assignment_history.go
pub data TriggerSource : Type 0 where
  discovery manual_redistribute_single manual_redistribute_bulk : TriggerSource

-- element.go: the columns that the assignment reads or writes, and whether the row is soft-deleted
pub record NetworkElement : Type 0 where
  pub id : Uuid
  pub ip_address : Str
  pub sys_name : Str
  pub cluster_id : Option Uuid
  pub assignment_status : AssignmentStatus
  pub last_rule_id : Option Uuid
  pub deleted : Bool
