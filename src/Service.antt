-- ===== src/Service.antt =====
-- cmd/apiserver/main.go: the handlers and the services over the repositories of internal/storage/postgres, and
-- the tables that any sequence of their calls leads to.
pub mod Reached
pub mod Evaluated
pub mod Bulk
pub mod Preview
pub mod Scanning
pub mod RuleTable
pub mod Stored
use maga.Base.{ℕ, List, [], Option, Str, Result, ok}
use maga.Go.Libs.{Libs}
use maga.Domain.{Uuid, Cluster, RepoError, AssignmentStatus}
use maga.Assignment.{Action, AssignmentHistory, assign}
use maga.Storage
use maga.Storage.Tables.{Db}
use maga.Storage.Jobs.{JobRow, JobDb}
use maga.Discovery.Orchestrator.{DiscoveryJobResult}
use maga.Storage.Elements.Listing.{Sql}
use maga.Storage.Assigning.{postgres, insert_history, list_by_element}
use maga.Api
use maga.Api.Respond.{Texts}
use maga.Dsl.Json.{JsonError}
use maga.Api.Dto.{RuleJson, decode_rule, ClusterRenameRequest}

-- A query that leaves the tables as they are.
abbrev pub reading : {A : Type 0} → (Db → Result RepoError A) → Action Db A
reading query db = (query db, db)

abbrev pub postgres_rules : Libs → Api.Rules.RuleRepo Db
postgres_rules l = record {
  create = Storage.Rules.create l;
  get = λ id. reading (Storage.Rules.get id);
  update = Storage.Rules.update l;
  delete = Storage.Rules.delete;
  list_all_ordered = reading (λ db. ok (Storage.Rules.list_all_ordered db));
  reorder = Storage.Rules.reorder;
  exists_cluster_by_lookup_key =
      λ key. reading (λ db. ok (Storage.Clusters.exists_cluster_by_lookup_key key db));
}

-- `by_name` is the order of `List`.
abbrev pub postgres_clusters :
    (List (Cluster × ℕ) → List (Cluster × ℕ)) → Api.Clusters.ClusterRepo Db
postgres_clusters by_name = record {
  get = λ id. reading (Storage.Clusters.get id);
  list = reading (λ db. ok (Storage.Clusters.list by_name db));
  rename = Storage.Clusters.rename;
  delete = Storage.Clusters.delete;
}

-- The `ElementAssigner` is `Assign` over the same tables; `new_uuid` is `uuid.New()`.
abbrev pub postgres_elements :
    Libs → (List Str → List Str) → Sql → (Db → Uuid) → Api.Elements.ElementRepos Db
postgres_elements l order sql new_uuid = record {
  get = λ id. reading (Storage.Elements.get id);
  list = λ f. reading (λ db. ok (Storage.Elements.Listing.list sql f db));
  soft_delete = Storage.Elements.soft_delete;
  list_by_element = λ id. reading (λ db. ok (list_by_element id db.history));
  list_enabled_ordered = reading (λ db. ok (Storage.Rules.list_enabled_ordered db));
  assign = λ id hostname rules trigger db.
      assign postgres l order
        (record { element_id = id; trigger = trigger; history_id = new_uuid db }) hostname rules db;
}

-- `by_ip` and `newest_first` are the orders of the two lists.
abbrev pub postgres_jobs :
    (List DiscoveryJobResult → List DiscoveryJobResult)
    → (List JobRow → List JobRow)
    → Api.Discovery.JobRepos JobDb
postgres_jobs by_ip newest_first = record {
  create = λ j. Storage.Jobs.create [] j.input_spec j.target_ips j.snmp_version j.snmp_community;
  get = λ id db. (Storage.Jobs.get id db, db);
  list = λ db. (ok (Storage.Jobs.list newest_first db), db);
  list_by_job = λ id limit offset db. (ok (Storage.Jobs.list_by_job by_ip id limit offset db), db);
}

-- The calls that write: those of the handlers, and the statements of
-- `Assign` and of the scans one by one, since other calls come between them.
pub data Call : Type 0 where
  create_rule : Result Str RuleJson → Call
  update_rule : Str → Result Str RuleJson → Call
  delete_rule : Str → Call
  reorder_rules : Result Str (List Uuid) → Call
  rename_cluster : Str → Result Str ClusterRenameRequest → Call
  delete_cluster : Str → Call
  delete_element : Str → Call
  upsert_discovered : Str → Str → Call
  get_or_create_cluster : Str → Call
  update_assignment : Uuid → Option Uuid → Option Uuid → AssignmentStatus → Call
  insert_assignment_history : AssignmentHistory → Call

-- What the service takes from outside: the texts of ids and errors, the libraries, the order in which Go ranges
-- over maps, the collation of the database, its text functions, and `uuid.New()`.
pub record Outside : Type 0 where
  pub texts : Texts
  pub json_error : JsonError → Str
  pub libs : Libs
  pub order : List Str → List Str
  pub by_name : List (Cluster × ℕ) → List (Cluster × ℕ)
  pub sql : Sql
  pub new_uuid : Db → Uuid

-- The tables behind a call.
unfoldable pub step : Outside → Call → Db → Db
step o (create_rule body) db =
    (Api.Rules.create o.texts o.libs o.order (postgres_rules o.libs)
      (decode_rule o.libs o.json_error body) db).1
step o (update_rule raw body) db =
    (Api.Rules.update o.texts o.libs o.order (postgres_rules o.libs) raw
      (decode_rule o.libs o.json_error body) db).1
step o (delete_rule raw) db =
    (Api.Rules.delete o.texts o.libs o.order (postgres_rules o.libs) raw db).1
step o (reorder_rules body) db =
    (Api.Rules.reorder o.texts o.libs o.order (postgres_rules o.libs) body db).1
step o (rename_cluster raw body) db =
    (Api.Clusters.rename o.texts (postgres_clusters o.by_name) raw body db).1
step o (delete_cluster raw) db =
    (Api.Clusters.delete o.texts (postgres_clusters o.by_name) raw db).1
step o (delete_element raw) db =
    (Api.Elements.delete o.texts (postgres_elements o.libs o.order o.sql o.new_uuid) raw db).1
step o (upsert_discovered ip sys_name) db = (Storage.Elements.upsert_discovered ip sys_name db).1
step o (get_or_create_cluster key) db = (Storage.Clusters.get_or_create_by_lookup_key key db).1
step o (update_assignment id c r status) db =
    (Storage.Elements.update_assignment id c r status db).1
step o (insert_assignment_history h) db = (insert_history h db).1

-- The tables behind the migrations.
abbrev pub empty_tables : Db
empty_tables = record { next_id = 0; clusters = []; elements = []; history = []; rules = [] }

-- The tables that some sequence of calls leads to, whoever makes them.
pub data Reachable (o : Outside) : Db → Type 0 where
  start : Reachable o empty_tables
  after : {db : Db} → (c : Call) → Reachable o db → Reachable o (step o c db)
