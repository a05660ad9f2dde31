-- ===== src/Storage/WellFormed.antt =====
-- migrations/0001_init.up.sql: what the constraints of the schema say of the tables, as tests.
pub mod References
pub mod Removed
pub mod Keys
pub mod Priorities
pub mod RuleStatements
pub mod Statements
use maga.Base.{
  ℕ, ◌≡◌, Bool, true, false, not, ◌&&◌, ◌||◌, List, [], ◌∷◌, Option, none, some, Str, str_eq, ltb,
  ◌==◌, is_some,
}
use maga.Domain.{Uuid, Rule, Cluster, NetworkElement}
use maga.Assignment.{AssignmentHistory}
use maga.Storage.Tables.{Db, has_cluster, has_rule, cluster_exists, rule_exists, cluster_by_key}
use maga.Storage.Elements.{has_element}
use maga.Storage.Rules.{taken}

-- `network_elements`: `REFERENCES clusters(id)` and `REFERENCES rules(id)`
unfoldable pub element_references : List Cluster → List Rule → List NetworkElement → Bool
unfolding has_cluster has_rule
element_references cs rs [] = true
element_references cs rs (e ∷ es) =
    cluster_exists e.cluster_id cs && rule_exists e.last_rule_id rs && element_references cs rs es

-- `assignment_history`: the same, and `REFERENCES network_elements(id)`
unfoldable pub history_references :
    List Cluster → List Rule → List NetworkElement → List AssignmentHistory → Bool
unfolding has_cluster has_rule has_element
history_references cs rs es [] = true
history_references cs rs es (h ∷ hs) =
    has_element h.element_id es
    && cluster_exists h.cluster_id cs
    && rule_exists h.rule_id rs
    && history_references cs rs es hs

-- `clusters`: `UNIQUE (lookup_key)`
unfoldable pub unique_keys : List Cluster → Bool
unfolding cluster_by_key
unique_keys [] = true
unique_keys (c ∷ cs) = not (is_some (cluster_by_key c.lookup_key cs)) && unique_keys cs

-- `rules`: `UNIQUE (priority)`
unfoldable pub unique_priorities : List Rule → Bool
unfolding taken
unique_priorities [] = true
unique_priorities (r ∷ rs) = not (taken r.id r.priority rs) && unique_priorities rs

-- `rules`: the primary key, and the ids that are given out so far
unfoldable pub unique_ids : ℕ → List Rule → Bool
unfolding has_rule
unique_ids n [] = true
unique_ids n (r ∷ rs) = ltb r.id n && not (has_rule r.id rs) && unique_ids n rs

pub record IsWellFormed (db : Db) : Type 0 where
  pub elements_refer : element_references db.clusters db.rules db.elements ≡ true
  pub history_refers : history_references db.clusters db.rules db.elements db.history ≡ true
  pub keys_unique : unique_keys db.clusters ≡ true
  pub priorities_unique : unique_priorities db.rules ≡ true
  pub ids_unique : unique_ids db.next_id db.rules ≡ true
