-- ===== src/Storage/Tables.antt =====
-- migrations/0001_init.up.sql: the tables, as lists of rows.
use maga.Base.{
  if◌then◌else◌, ℕ, Bool, true, false, List, [], ◌∷◌, Option, none, some, ◌==◌, ◌||◌, Str, str_eq,
}
use maga.Domain.{Uuid, Rule, Cluster, NetworkElement}
use maga.Assignment.{AssignmentHistory}

-- `next_id` stands for `gen_random_uuid()`: the ids in the tables are below it.
pub record Db : Type 0 where
  pub next_id : ℕ
  pub clusters : List Cluster
  pub elements : List NetworkElement
  pub history : List AssignmentHistory
  pub rules : List Rule

-- A reference that is null or to the given row.
abbrev pub refers_to : Uuid → Option Uuid → Bool
refers_to id none = false
refers_to id (some x) = x == id

unfoldable pub has_rule : Uuid → List Rule → Bool
has_rule id [] = false
has_rule id (r ∷ rs) = r.id == id || has_rule id rs

unfoldable pub has_cluster : Uuid → List Cluster → Bool
has_cluster id [] = false
has_cluster id (c ∷ cs) = c.id == id || has_cluster id cs

-- A foreign key: null, or the id of a row.
abbrev pub rule_exists : Option Uuid → List Rule → Bool
rule_exists none rs = true
rule_exists (some id) rs = has_rule id rs

abbrev pub cluster_exists : Option Uuid → List Cluster → Bool
cluster_exists none cs = true
cluster_exists (some id) cs = has_cluster id cs

-- `SELECT ... FROM clusters WHERE lookup_key = $1`
unfoldable pub cluster_by_key : Str → List Cluster → Option Cluster
unfolding str_eq
cluster_by_key key [] = none
cluster_by_key key (c ∷ cs) = if str_eq c.lookup_key key then some c else cluster_by_key key cs

unfoldable pub cluster_by_id : Uuid → List Cluster → Option Cluster
cluster_by_id id [] = none
cluster_by_id id (c ∷ cs) = if c.id == id then some c else cluster_by_id id cs
