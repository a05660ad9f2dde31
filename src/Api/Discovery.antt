-- ===== src/Api/Discovery.antt =====
-- internal/api/http/discovery.go: `DiscoveryHandler`. Its requests and the goroutines that run the jobs take
-- turns: the state has the jobs whose goroutine is started but has not registered its `cancel`, and the map
-- `cancels`, and a step is a request or a part of `runInBackground`.
pub mod Cancels
pub mod Created
use maga.Base.{
  ℕ, Bool, true, false, not, ◌||◌, ◌&&◌, List, [], ◌∷◌, ◌++◌, map, Option, none, some, Str, codes,
  str_eq, is_empty, if◌then◌else◌, ◌==◌, Result, ok, err,
}
use maga.Go.Net.{Ipv6}
use maga.Domain.{Uuid, RepoError, not_found, cluster_not_empty, other}
use maga.Assignment.{Action}
use maga.Discovery.Targets.{TargetError, expand_targets}
use maga.Discovery.Orchestrator.{DiscoveryJobResult}
use maga.Api.Respond.{
  Response, json, Texts, FieldError, targets_field, snmp_version_field, snmp_community_field,
  write_error, write_validation_error, write_not_found, not_found_or_internal, internal, with_id_or,
  with_body, with_result,
}
use maga.Api.Pagination.{PageError, parse_pagination}
use maga.Storage.Jobs.{JobRow}
use maga.Api.Dto.{
  DiscoveryJobRequest, DiscoveryJobResponse, discovery_job_from_domain, DiscoveryJobResultResponse,
  discovery_job_result_from_domain,
}

-- The job that `Create` hands to its repository.
pub record NewJob : Type 0 where
  pub input_spec : Str
  pub target_ips : List Str
  pub snmp_version : Str
  pub snmp_community : Str

-- `DiscoveryJobRepo` and `DiscoveryResultRepo`
pub record JobRepos (S : Type 0) : Type 0 where
  pub create : NewJob → Action S JobRow
  pub get : Uuid → Action S JobRow
  pub list : Action S (List JobRow)
  pub list_by_job : Uuid → ℕ → ℕ → Action S (List DiscoveryJobResult)

-- The goroutines: `started` have been launched by `Create`, `registered` stand in `cancels`, and
-- `cancelled` are those whose context was cancelled.
pub record Runs : Type 0 where
  pub started : List Uuid
  pub registered : List Uuid
  pub cancelled : List Uuid

unfoldable pub has_id : Uuid → List Uuid → Bool
has_id id [] = false
has_id id (x ∷ xs) = x == id || has_id id xs

unfoldable pub without : Uuid → List Uuid → List Uuid
without id [] = []
without id (x ∷ xs) = let rest = without id xs in if x == id then rest else x ∷ rest

-- The first part of `runInBackground`: `h.cancels[job.ID] = cancel`.
unfoldable pub register : Uuid → Runs → Runs
unfolding has_id without
register id g =
    if has_id id g.started
    then record g { started = without id g.started; registered = id ∷ without id g.registered }
    else g

-- The deferred function: `delete(h.cancels, job.ID)`, and `cancel()`.
unfoldable pub finish : Uuid → Runs → Runs
unfolding has_id without
finish id g =
    if has_id id g.registered
    then record g { registered = without id g.registered; cancelled = id ∷ g.cancelled }
    else g

abbrev version_or_default : Str → Str
version_or_default [] = codes "v2c"
version_or_default (c ∷ s) = c ∷ s

abbrev is_version : Str → Bool
is_version v = str_eq v (codes "v1") || str_eq v (codes "v2c")

module _ {S : Type 0} (t : Texts) (v6 : Ipv6) (repos : JobRepos S) where
  abbrev pub job_response : JobRow → DiscoveryJobResponse
  job_response = discovery_job_from_domain t.format_uuid

  -- `go h.runInBackground(job)`: the goroutine is started, and has not registered the job yet.
  abbrev answer_created :
      Runs → Result RepoError JobRow × S → Response DiscoveryJobResponse × S × Runs
  answer_created g (err e, s) = (internal t e, s, g)
  answer_created g (ok job, s) =
      (json 202 (job_response job), s, record g { started = job.id ∷ g.started })

  abbrev create_job : NewJob → S → Runs → Response DiscoveryJobResponse × S × Runs
  create_job j s g = answer_created g (repos.create j s)

  abbrev create_checked :
      DiscoveryJobRequest → List Str → S → Runs → Response DiscoveryJobResponse × S × Runs
  create_checked q targets s g =
      let version = version_or_default q.snmp_version in
      if not (is_version version)
      then (write_validation_error (snmp_version_field ∷ []), s, g)
      else if is_empty q.snmp_community
      then (write_validation_error (snmp_community_field ∷ []), s, g)
      else create_job
          (record {
            input_spec = q.targets;
            target_ips = targets;
            snmp_version = version;
            snmp_community = q.snmp_community;
          })
          s g

  abbrev create_expanded :
      DiscoveryJobRequest
      → Result TargetError (List Str)
      → S
      → Runs
      → Response DiscoveryJobResponse × S × Runs
  create_expanded q (err e) s g = (write_validation_error (targets_field e ∷ []), s, g)
  create_expanded q (ok targets) s g = create_checked q targets s g

  -- `Create`; `go h.runInBackground(job)` only starts the goroutine.
  unfoldable pub create :
      Result Str DiscoveryJobRequest → S → Runs → Response DiscoveryJobResponse × S × Runs
  create (err m) s g = (write_error 400 (codes "invalid_body") m [], s, g)
  create (ok q) s g = create_expanded q (expand_targets v6 q.targets) s g

  abbrev pub invalid_job_id : {B : Type 0} → Response B
  invalid_job_id = write_error 400 (codes "invalid_id") (codes "jobId must be a UUID") []

  -- `List` and `Get`
  unfoldable pub list : S → Response (List DiscoveryJobResponse) × S
  list s = with_result (internal t) (repos.list s) λ js s'. (json 200 (map job_response js), s')

  unfoldable pub get : Str → S → Response DiscoveryJobResponse × S
  get raw s = with_id_or invalid_job_id t raw s λ id.
      with_result (not_found_or_internal t (codes "discovery job not found")) (repos.get id s)
        λ job s'. (json 200 (job_response job), s')

  abbrev results_page :
      (PageError → Str)
      → Uuid
      → Result PageError (ℕ × ℕ)
      → S
      → Response (List DiscoveryJobResultResponse) × S
  results_page page_error id (err e) s =
      (write_error 400 (codes "invalid_pagination") (page_error e) [], s)
  results_page page_error id (ok (limit, offset)) s =
      with_result (internal t) (repos.list_by_job id limit offset s)
        λ rs s'. (json 200 (map (discovery_job_result_from_domain t.format_uuid) rs), s')

  unfoldable pub results :
      (PageError → Str) → Str → Str → Str → S → Response (List DiscoveryJobResultResponse) × S
  results page_error raw limit offset s =
      with_id_or invalid_job_id t raw s
        λ id. results_page page_error id (parse_pagination limit offset) s

  -- `cancel()` of a job that stands in the map.
  abbrev pub cancel_registered : Uuid → Runs → Response Str × Runs
  cancel_registered id g =
      if has_id id g.registered
      then (json 200 (codes "cancelling"), record g { cancelled = id ∷ g.cancelled })
      else (json 200 (codes "not_running"), g)

  -- Of the errors of `Get`, `Cancel` looks at `ErrNotFound` alone.
  abbrev pub cancel_found : Uuid → Result RepoError JobRow → Runs → Response Str × Runs
  cancel_found id (err not_found) g = (write_not_found (codes "discovery job not found"), g)
  cancel_found id (err cluster_not_empty) g = cancel_registered id g
  cancel_found id (err (other m)) g = cancel_registered id g
  cancel_found id (ok job) g = cancel_registered id g

  -- `Cancel`
  unfoldable pub cancel : Str → S → Runs → Response Str × S × Runs
  unfolding has_id
  cancel raw s g = elim (t.parse_uuid raw) [
    | none ↦ (invalid_job_id, s, g)
    | some id ↦
        let found = repos.get id s in let r = cancel_found id found.0 g in (r.0, found.1, r.1)
  ]
