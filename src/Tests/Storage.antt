-- ===== src/Tests/Storage.antt =====
-- internal/storage/postgres: applied theorems.
use maga.Base.{
  ◌≡◌, refl, ap, ◌+◌, ◌*◌, true, false, pos, negsuc, [], ◌∷◌, none, some, codes, insert, All,
  Result, ok, err,
}
use maga.Domain.{Uuid, Rule, Cluster, NetworkElement, not_found, unassigned, discovery}
use maga.Go.Strings.{has_prefix}
use maga.Dsl.Pipeline.{apply}
use maga.RuleEngine.Template.{render_template}
use maga.RuleEngine.Evaluate.{MatchResult, evaluate, match_result}
use maga.Assignment.{Request, AssignError, assign}
use maga.Storage.Tables.{Db, has_cluster, has_rule}
use maga.Storage.Clusters.{get_or_create_by_lookup_key}
use maga.Storage.Elements
use maga.Storage.Elements.{element_by_ip, upsert_discovered, soft_delete}
use maga.Storage.Elements.Deleted.{rediscovered_stays_deleted}
use maga.Storage.Rules.{reorder, list_enabled_ordered}
use maga.Storage.Rules.Reorder.{
  HasPriority, IsOrdered, has_enabled, distinct, reorder_sets, list_enabled_ordered_lem,
}
use maga.Storage.Assigning.Succeeds.{assign_succeeds}
use maga.Storage.Jobs
use maga.Storage.Jobs.{JobRow, JobDb}
use maga.Discovery.Orchestrator.{pending}
use maga.Storage.Assigning.{postgres, insert_history, Stored, assign_lem}
use maga.Tests.Ascii.{ascii}
use maga.Tests.RuleEngine.{in_order, site_rule, rule_of}

abbrev cluster : Cluster
cluster = record { id = 1; lookup_key = codes "B"; display_name = codes "B"; description = [] }

abbrev element : NetworkElement
element = record {
  id = 2;
  ip_address = codes "10.0.0.1";
  sys_name = codes "sw-ber";
  cluster_id = none;
  assignment_status = unassigned;
  last_rule_id = none;
  deleted = false;
}

abbrev other_rule : Rule
other_rule = record (rule_of (codes "rt-") (codes "R")) { id = 8; priority = negsuc 0 }

abbrev pub tables : Db
tables = record {
  next_id = 9;
  clusters = cluster ∷ [];
  elements = element ∷ [];
  history = [];
  rules = site_rule ∷ other_rule ∷ [];
}

abbrev deleted_tables : Db
deleted_tables = record tables { elements = record element { deleted = true } ∷ [] }

deleted_element : soft_delete 2 tables ≡ (ok tt, deleted_tables)
unfolding soft_delete
deleted_element = refl

found_element :
    element_by_ip (codes "10.0.0.1") deleted_tables.elements
    ≡ some (record element { deleted = true })
unfolding element_by_ip
found_element = refl

rediscovered_stays_deleted_example :
    ((upsert_discovered (codes "10.0.0.1") (codes "sw-muc") deleted_tables).0
      ≡ ok (record element { deleted = true; sys_name = codes "sw-muc" }))
    × (Elements.get 2 (upsert_discovered (codes "10.0.0.1") (codes "sw-muc") deleted_tables).1
        ≡ err not_found)
rediscovered_stays_deleted_example =
    rediscovered_stays_deleted 2 (codes "10.0.0.1") (codes "sw-muc") tables deleted_tables
      (record element { deleted = true }) deleted_element found_element refl

abbrev reordered : Db
reordered = record tables {
  rules = record site_rule { priority = pos 20 } ∷ record other_rule { priority = pos 10 } ∷ [];
}

reorder_two : reorder (8 ∷ 7 ∷ []) tables ≡ (ok tt, reordered)
unfolding reorder
reorder_two = refl

distinct_two : distinct (8 ∷ 7 ∷ []) ≡ true
unfolding distinct
distinct_two = refl

reorder_sets_example : All (HasPriority 7 (pos ((1 + 1) * 10))) reordered.rules
reorder_sets_example = reorder_sets (8 ∷ 7 ∷ []) tables reordered 1 7 distinct_two reorder_two refl

has_seven : has_rule 7 tables.rules ≡ true
unfolding has_rule
has_seven = refl

list_enabled_ordered_lem_example :
    IsOrdered (list_enabled_ordered tables)
    × ((id : Uuid) → has_rule id (list_enabled_ordered tables) ≡ has_enabled id tables.rules)
list_enabled_ordered_lem_example = list_enabled_ordered_lem tables

abbrev request : Request
request = record { element_id = 2; trigger = discovery; history_id = 5 }

abbrev result : MatchResult
result = match_result ascii in_order site_rule ((codes "site", codes "ber") ∷ [])

abbrev assigned_tables : Db
assigned_tables =
    (assign postgres ascii in_order request (codes "sw-ber") (site_rule ∷ []) tables).1

first_assignment :
    (assign postgres ascii in_order request (codes "sw-ber") (site_rule ∷ []) tables).0 ≡ ok result
unfolding assign evaluate has_prefix render_template get_or_create_by_lookup_key
    Elements.update_assignment has_cluster has_rule insert_history insert apply
first_assignment = refl

assign_lem_example :
    (evaluate ascii in_order (codes "sw-ber") (site_rule ∷ []) ≡ ok result)
    × Stored request result tables assigned_tables
assign_lem_example =
    assign_lem ascii in_order request (codes "sw-ber") (site_rule ∷ []) tables assigned_tables
      result (ap (λ (x : Result AssignError MatchResult). (x, assigned_tables)) first_assignment)

evaluated : evaluate ascii in_order (codes "sw-ber") (site_rule ∷ []) ≡ ok result
unfolding evaluate has_prefix render_template insert apply
evaluated = refl

has_two : Elements.has_element 2 tables.elements ≡ true
unfolding Elements.has_element
has_two = refl

assign_succeeds_example :
    (assign postgres ascii in_order request (codes "sw-ber") (site_rule ∷ []) tables).0 ≡ ok result
assign_succeeds_example =
    assign_succeeds ascii in_order request (codes "sw-ber") (site_rule ∷ []) tables result evaluated
      has_two has_seven

abbrev job : JobRow
job = record {
  id = 4;
  job_type = codes "snmp_discovery";
  input_spec = codes "10.0.0.1";
  target_ips = codes "10.0.0.1" ∷ [];
  snmp_version = codes "v2c";
  snmp_community = codes "public";
  status = pending;
  total_targets = 1;
  started_at = none;
  completed_at = none;
  error_message = none;
}

abbrev job_tables : JobDb
job_tables = record { next_id = 5; jobs = job ∷ []; results = [] }

found_job : Jobs.get 4 job_tables ≡ ok job
unfolding Jobs.get
found_job = refl
