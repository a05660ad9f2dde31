-- ===== src/Storage/Jobs.antt =====
-- internal/storage/postgres/discovery_job_repo.go and discovery_result_repo.go: the tables of the discovery
-- jobs. `now()` is an argument; `created_at`, and the id and `responded_at` of a result, are left out,
-- and so is a text that a column cannot hold.
pub mod Times
pub mod Kept
pub mod Reached
use maga.Base.{
  ℕ, ◌+◌, Bool, true, false, ◌||◌, List, [], ◌∷◌, ◌++◌, Option, none, some, Str, codes, is_empty,
  length, take, drop, ◌==◌, if◌then◌else◌, Result, ok, err,
}
use maga.Domain.{Uuid, RepoError, not_found, other}
use maga.Assignment.{Action}
use maga.Discovery.Orchestrator.{
  JobStatus, pending, running, completed, failed, cancelled, DiscoveryJobResult,
}

pub record JobRow : Type 0 where
  pub id : Uuid
  pub job_type : Str
  pub input_spec : Str
  pub target_ips : List Str
  pub snmp_version : Str
  pub snmp_community : Str
  pub status : JobStatus
  pub total_targets : ℕ
  pub started_at : Option ℕ
  pub completed_at : Option ℕ
  pub error_message : Option Str

pub record JobDb : Type 0 where
  pub next_id : ℕ
  pub jobs : List JobRow
  pub results : List DiscoveryJobResult

abbrev job_type_or_default : Str → Str
job_type_or_default [] = codes "snmp_discovery"
job_type_or_default (c ∷ s) = c ∷ s

-- The row of a new job.
abbrev pub new_job : Uuid → Str → Str → List Str → Str → Str → JobRow
new_job id job_type input_spec ips version community = record {
  id = id;
  job_type = job_type_or_default job_type;
  input_spec = input_spec;
  target_ips = ips;
  snmp_version = version;
  snmp_community = community;
  status = pending;
  total_targets = length ips;
  started_at = none;
  completed_at = none;
  error_message = none;
}

-- `Create`
unfoldable pub create : Str → Str → List Str → Str → Str → Action JobDb JobRow
create job_type input_spec ips version community db =
    let job = new_job db.next_id job_type input_spec ips version community in
    (ok job, record db { next_id = db.next_id + 1; jobs = db.jobs ++ job ∷ [] })

-- `NULLIF($3, '')`
abbrev pub null_if_empty : Str → Option Str
null_if_empty [] = none
null_if_empty (c ∷ s) = some (c ∷ s)

-- The three queries of `UpdateStatus`
abbrev pub with_status : ℕ → JobStatus → Str → JobRow → JobRow
with_status now running m job = record job {
  status = running;
  started_at = some now;
  error_message = null_if_empty m;
}
with_status now completed m job = record job {
  status = completed;
  completed_at = some now;
  error_message = null_if_empty m;
}
with_status now failed m job = record job {
  status = failed;
  completed_at = some now;
  error_message = null_if_empty m;
}
with_status now cancelled m job = record job {
  status = cancelled;
  completed_at = some now;
  error_message = null_if_empty m;
}
with_status now pending m job = record job { status = pending; error_message = null_if_empty m }

unfoldable pub update_rows : (JobRow → JobRow) → Uuid → List JobRow → List JobRow
update_rows f id [] = []
update_rows f id (j ∷ js) = (if j.id == id then f j else j) ∷ update_rows f id js

unfoldable pub job_by_id : Uuid → List JobRow → Option JobRow
job_by_id id [] = none
job_by_id id (j ∷ js) = if j.id == id then some j else job_by_id id js

abbrev pub update_found : ℕ → Uuid → JobStatus → Str → Option JobRow → Action JobDb Unit
update_found now id status m none db = (err not_found, db)
update_found now id status m (some j) db =
    (ok tt, record db { jobs = update_rows (with_status now status m) id db.jobs })

-- `UpdateStatus`
unfoldable pub update_status : ℕ → Uuid → JobStatus → Str → Action JobDb Unit
unfolding update_rows job_by_id
update_status now id status m db = update_found now id status m (job_by_id id db.jobs) db

abbrev or_not_found : Option JobRow → Result RepoError JobRow
or_not_found none = err not_found
or_not_found (some j) = ok j

-- `Get`
unfoldable pub get : Uuid → JobDb → Result RepoError JobRow
unfolding job_by_id
get id db = or_not_found (job_by_id id db.jobs)

-- `List`, where `newest_first` orders by the time of creation
unfoldable pub list : (List JobRow → List JobRow) → JobDb → List JobRow
list newest_first db = newest_first db.jobs

-- the row of the job that the result refers to
abbrev pub insert_found : DiscoveryJobResult → Option JobRow → Action JobDb Unit
insert_found r none db = (err (other (codes "insert discovery result")), db)
insert_found r (some j) db = (ok tt, record db { results = db.results ++ r ∷ [] })

-- `InsertResult`: the job must be a row.
unfoldable pub insert_result : DiscoveryJobResult → Action JobDb Unit
unfolding job_by_id
insert_result r db = insert_found r (job_by_id r.job_id db.jobs) db

results_of : Uuid → List DiscoveryJobResult → List DiscoveryJobResult
results_of id [] = []
results_of id (r ∷ rs) = let rest = results_of id rs in if r.job_id == id then r ∷ rest else rest

-- No `LIMIT` and no `OFFSET` for 0
abbrev page : ℕ → ℕ → List DiscoveryJobResult → List DiscoveryJobResult
page limit offset rs = if limit == 0 then drop offset rs else take limit (drop offset rs)

-- `ListByJob`, where `by_ip` is the order of the type `inet`
unfoldable pub list_by_job :
    (List DiscoveryJobResult → List DiscoveryJobResult)
    → Uuid
    → ℕ
    → ℕ
    → JobDb
    → List DiscoveryJobResult
unfolding results_of
list_by_job by_ip id limit offset db = page limit offset (by_ip (results_of id db.results))
