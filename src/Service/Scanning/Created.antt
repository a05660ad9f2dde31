-- ===== src/Service/Scanning/Created.antt =====
-- cmd/apiserver/main.go: the handler that creates discovery jobs, and the run of a job that it has created.
use maga.Discovery.Orchestrator.{DiscoveryJob}
use maga.Storage
use maga.Storage.Jobs.{JobRow}
use maga.Api
use maga.Api.Discovery.{NewJob}

-- The job that the goroutine is given.
abbrev pub job_of : JobRow → DiscoveryJob
job_of j = record {
  id = j.id;
  target_ips = j.target_ips;
  snmp_version = j.snmp_version;
  snmp_community = j.snmp_community;
}
