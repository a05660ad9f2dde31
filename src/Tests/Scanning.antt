-- ===== src/Tests/Scanning.antt =====
-- cmd/apiserver: a discovery job over the tables, and its theorems applied.
use maga.Base.{
  err, ltb, ℕ, ◌+◌, ◌≤◌, ◌≡◌, ◌⊎◌, refl, Bool, false, List, [], ◌∷◌, ◌++◌, map, none, some, Str,
  codes, ok,
}
use maga.Service.Scanning.{Scanner, World, CancelLasts, context_cancelled, scanning}
use maga.Service.Scanning.Completes.{run_completes, uncancelled_run_completes}
use maga.Discovery.Orchestrator.{
  DiscoveryJob, DiscoveryJobResult, JobStatus, launch, advance, host_only, run, pending, completed,
  cancelled, running,
}
use maga.Service.Scanning.Stuck.{run_leaves_running}
use maga.Discovery.Orchestrator.Records.{tally}
use maga.Storage.Jobs.{JobDb, JobRow, get}
use maga.Tests.Snmp.{to_device}
use maga.Tests.Api.{no_jobs}
use maga.Tests.Outside.{outside}
use maga.Tests.Service.{second_tables}

abbrev scanner : Scanner Unit
scanner = record {
  gosnmp = to_device;
  client_text = λ e. codes "snmp";
  now = λ jobs. 7;
  is_cancelled = λ n. false;
  elapse = λ n. n;
  concurrency = 2;
}

cancel_lasts : CancelLasts scanner
cancel_lasts = record { elapses = λ x gone. gone; fetches = λ t c v x gone. gone }

abbrev one_target : DiscoveryJob
one_target = record {
  id = 4;
  target_ips = codes "10.0.0.1" ∷ [];
  snmp_version = codes "v2c";
  snmp_community = codes "public";
}

abbrev pending_row : JobRow
pending_row = record {
  id = 4;
  job_type = codes "snmp_discovery";
  input_spec = codes "10.0.0.1";
  target_ips = one_target.target_ips;
  snmp_version = codes "v2c";
  snmp_community = codes "public";
  status = pending;
  total_targets = 1;
  started_at = none;
  completed_at = none;
  error_message = none;
}

abbrev pending_job : JobDb
pending_job = record { next_id = 5; jobs = pending_row ∷ []; results = [] }

abbrev before_scan : World Unit
before_scan = record { db = second_tables; jobs = pending_job; network = tt }

found_pending : get one_target.id before_scan.jobs ≡ ok pending_row
unfolding get
found_pending = refl

run_completes_example :
    let o = scanning outside scanner in
    let r = run o one_target (launch ∷ launch ∷ advance 0 ∷ []) before_scan in
    (status : JobStatus) × (stop : ℕ) × (rs : List DiscoveryJobResult) × (dropped : List Str) × (r.0
      ≡ ok tt)
    × ((status ≡ completed) ⊎ (status ≡ cancelled))
    × (get 4 r.1.jobs
        ≡ ok (record pending_row {
          status = status;
          started_at = some 7;
          completed_at = some stop;
          error_message = none;
        }))
    × (map (λ q. q.ip_address) rs ++ map (host_only o one_target []) dropped
        ≡ map (host_only o one_target []) one_target.target_ips)
    × ((f : DiscoveryJobResult → Bool)
        → (tally f [] ≤ tally f r.1.jobs.results)
          × (tally f r.1.jobs.results ≤ tally f [] + tally f rs))
    × (status ≡ completed
        → (dropped ≡ [])
          × ((f : DiscoveryJobResult → Bool) → tally f r.1.jobs.results ≡ tally f [] + tally f rs))
run_completes_example =
    run_completes outside scanner one_target (launch ∷ launch ∷ advance 0 ∷ []) before_scan
      cancel_lasts (refl, refl) found_pending

uncancelled_run_completes_example :
    let o = scanning outside scanner in
    let r = run o one_target (launch ∷ launch ∷ advance 0 ∷ []) before_scan in
    (stop : ℕ) × (rs : List DiscoveryJobResult) × (r.0 ≡ ok tt)
    × (get 4 r.1.jobs
        ≡ ok (record pending_row {
          status = completed;
          started_at = some 7;
          completed_at = some stop;
          error_message = none;
        }))
    × (map (λ q. q.ip_address) rs ≡ map (host_only o one_target []) one_target.target_ips)
    × ((f : DiscoveryJobResult → Bool) → tally f r.1.jobs.results ≡ tally f [] + tally f rs)
uncancelled_run_completes_example =
    uncancelled_run_completes outside scanner one_target (launch ∷ launch ∷ advance 0 ∷ [])
      before_scan (λ x. refl) found_pending

abbrev before_create : World Unit
before_create = record { db = second_tables; jobs = no_jobs; network = tt }

-- A context that is cancelled at the second query.
abbrev cancelled_second : Scanner ℕ
cancelled_second = record {
  gosnmp = record {
    split_host_port = λ s. none;
    connect = λ c x. (ok tt, x);
    get = λ c oids x. (err (codes "timeout"), x);
  };
  client_text = λ e. codes "snmp";
  now = λ jobs. 7;
  is_cancelled = λ x. ltb 1 x;
  elapse = λ x. x + 1;
  concurrency = 2;
}

abbrev before_stop : World ℕ
before_stop = record { db = second_tables; jobs = pending_job; network = 0 }

run_leaves_running_example :
    let r = run (scanning outside cancelled_second) one_target [] before_stop in
    (r.0 ≡ err context_cancelled)
    × (get 4 r.1.jobs
        ≡ ok (record pending_row { status = running; started_at = some 7; error_message = none }))
    × (r.1.jobs.results ≡ [])
run_leaves_running_example =
    run_leaves_running outside cancelled_second one_target [] before_stop (refl, refl, refl)
      found_pending
