-- ===== src/Tests/Api.antt =====
-- internal/api/http: applied theorems.
use maga.Base.{
  ◌≡◌, ◌≤◌, refl, length, true, false, List, [], ◌∷◌, some, none, Str, str_eq, codes, Option, ok,
}
use maga.Go.Net.{parse_ip, parse_ipv4, ip_string}
use maga.Go.Strings.{trim_space}
use maga.Domain.{Uuid}
use maga.Discovery.Orchestrator.{pending}
use maga.Discovery.Targets.{expand_targets}
use maga.Storage.Jobs
use maga.Storage.Jobs.{JobRow, JobDb}
use maga.Api.Respond.{Texts, json}
use maga.Api.Dto.{DiscoveryJobRequest, DiscoveryJobResponse, discovery_job_from_domain}
use maga.Api.Discovery.{Runs, has_id, register, create, cancel}
use maga.Api.Discovery.Cancels.{lost_cancel}
use maga.Api.Router.{get, new_router}
use maga.Api.Router.Unique.{matching, new_router_is_unambiguous}
use maga.Service.{postgres_jobs}
use maga.Tests.Outside.{numbers}
use maga.Tests.Discovery.{no_ipv6}

-- An id is written as one code point.
abbrev parse_code : Str → Option Uuid
parse_code [] = none
parse_code (c ∷ []) = some c
parse_code (c ∷ d ∷ s) = none

abbrev pub coded : Texts
coded = record numbers { parse_uuid = parse_code; format_uuid = λ x. x ∷ [] }

abbrev pub scan_request : DiscoveryJobRequest
scan_request = record {
  targets = codes "10.0.0.1";
  snmp_version = [];
  snmp_community = codes "public";
}

abbrev pub no_jobs : JobDb
no_jobs = record { next_id = 5; jobs = []; results = [] }

abbrev pub scan_job : JobRow
scan_job = record {
  id = 5;
  job_type = codes "snmp_discovery";
  input_spec = codes "10.0.0.1";
  target_ips = codes "10.0.0.1" ∷ [];
  snmp_version = codes "v2c";
  snmp_community = codes "public";
  status = pending;
  total_targets = 1;
  started_at = none;
  completed_at = none;
  error_message = none;
}

abbrev pub one_job : JobDb
one_job = record { next_id = 6; jobs = scan_job ∷ []; results = [] }

abbrev pub no_runs : Runs
no_runs = record { started = []; registered = []; cancelled = [] }

abbrev pub one_run : Runs
one_run = record no_runs { started = 5 ∷ [] }

abbrev pub scan_answer : DiscoveryJobResponse
scan_answer = discovery_job_from_domain coded.format_uuid scan_job

pub scan_created :
    create coded no_ipv6 (postgres_jobs (λ rs. rs) (λ js. js)) (ok scan_request) no_jobs no_runs
    ≡ (json 202 scan_answer, one_job, one_run)
unfolding create expand_targets Jobs.create parse_ip trim_space parse_ipv4 str_eq ip_string
scan_created = refl

scan_stored : (Jobs.get 5 one_job) ≡ ok scan_job
unfolding Jobs.get
scan_stored = refl

not_there : has_id 5 [] ≡ false
unfolding has_id
not_there = refl

lost_cancel_example :
    let (response, s2, g2) =
      cancel coded no_ipv6 (postgres_jobs (λ rs. rs) (λ js. js)) (5 ∷ []) one_job one_run in
    (response ≡ json 200 (codes "not_running"))
    × (has_id 5 (register 5 g2).registered ≡ true)
    × (has_id 5 (register 5 g2).cancelled ≡ false)
lost_cancel_example =
    lost_cancel coded no_ipv6 (postgres_jobs (λ rs. rs) (λ js. js)) (λ x. refl) scan_request no_jobs
      one_job no_runs one_run scan_answer 5 scan_job scan_created refl scan_stored not_there
      not_there

abbrev reorder_path : List Str
reorder_path = codes "api" ∷ codes "v1" ∷ codes "rules" ∷ codes "reorder" ∷ []

new_router_is_unambiguous_example : length (matching get reorder_path new_router) ≤ 1
new_router_is_unambiguous_example = new_router_is_unambiguous get reorder_path
