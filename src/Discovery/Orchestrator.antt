-- ===== src/Discovery/Orchestrator.antt =====
-- internal/discovery/orchestrator.go: `Run`. Its scans run at once: a scan is a small state machine whose
-- steps are the calls of `scanOne`, one each, and a schedule says which scan moves next. The id and the time
-- of a result are left out, and so is what is only logged.
pub mod Scans
pub mod Ends
pub mod Limit
pub mod Keeps
pub mod Records
use maga.Base.{
  ℕ, zero, suc, ◌+◌, Bool, true, false, List, [], ◌∷◌, ◌++◌, Option, none, some, Str, codes, ltb,
  if◌then◌else◌, max, Result, ok, err,
}
use maga.Domain.{Uuid, Rule, NetworkElement, RepoError, TriggerSource, discovery}
use maga.Assignment.{Action}

-- `snmp.Identity`, and an error of the client: `ErrTimeout` or another one, by its message
pub record Identity : Type 0 where
  pub sys_descr : Str
  pub sys_object_id : Str
  pub sys_up_time : ℕ
  pub sys_name : Str

pub data SnmpError : Type 0 where
  timeout : Str → SnmpError
  failure : Str → SnmpError

pub data JobStatus : Type 0 where
  pending running completed failed cancelled : JobStatus

pub data ResultStatus : Type 0 where
  success no_response snmp_error : ResultStatus

pub record DiscoveryJob : Type 0 where
  pub id : Uuid
  pub target_ips : List Str
  pub snmp_version : Str
  pub snmp_community : Str

pub record DiscoveryJobResult : Type 0 where
  pub job_id : Uuid
  pub ip_address : Str
  pub status : ResultStatus
  pub sys_name : Str
  pub sys_descr : Str
  pub sys_object_id : Str
  pub error_message : Str
  pub element_id : Option Uuid

-- The context of a call: that of the job, or `context.Background()`, which nothing cancels.
pub data Context : Type 0 where
  of_job background : Context

-- What `Run` is given; the calls that take no context here take that of the job, and may look at whether it is
-- cancelled. These are: the SNMP client, the repositories, the assigner, whether its context is cancelled,
-- `err.Error()`, and the host of `net.SplitHostPort`.
pub record Deps (S : Type 0) : Type 0 where
  pub get_identity : Str → Str → Str → S → Result SnmpError Identity × S
  pub update_status : Context → Uuid → JobStatus → Str → Action S Unit
  pub insert_result : DiscoveryJobResult → Action S Unit
  pub upsert_discovered : Str → Identity → Action S NetworkElement
  pub list_enabled_ordered : Action S (List Rule)
  pub assign : Uuid → Str → List Rule → TriggerSource → Action S Unit
  pub is_cancelled : S → Bool
  pub error_text : RepoError → Str
  pub split_host_port : Str → Option Str
  pub concurrency : ℕ

abbrev host_or : Str → Option Str → Str
host_or target none = target
host_or target (some host) = host

abbrev new_result : Uuid → Str → ResultStatus → Str → DiscoveryJobResult
new_result id host status message = record {
  job_id = id;
  ip_address = host;
  status = status;
  sys_name = [];
  sys_descr = [];
  sys_object_id = [];
  error_message = message;
  element_id = none;
}

abbrev identified : Uuid → Str → Identity → DiscoveryJobResult
identified id host i = record (new_result id host success []) {
  sys_name = i.sys_name;
  sys_descr = i.sys_descr;
  sys_object_id = i.sys_object_id;
}

-- The calls that a scan has before it: of the client, of the upsert, of the insert of a result, and of the
-- assigner. The insert knows the element to assign next, if there is one.
pub data Scan : Type 0 where
  fetching : Str → Scan
  upserting : Str → Identity → Scan
  recording : DiscoveryJobResult → Option (Uuid × Str) → Scan
  assigning : DiscoveryJobResult → Uuid → Str → Scan
  done : DiscoveryJobResult → Scan

-- A move of the schedule: the loop goes on, or the scan of that index makes its next call.
pub data Move : Type 0 where
  launch : Move
  advance : ℕ → Move

-- The state of the loop over the targets: those not launched, those it gave up, whether the context was
-- looked at for the next one, and the scans.
pub record Progress (S : Type 0) : Type 0 where
  pub targets : List Str
  pub dropped : List Str
  pub checked : Bool
  pub scans : List Scan
  pub state : S

module _ {S : Type 0} (o : Deps S) (job : DiscoveryJob) (rules : List Rule) where
  -- `hostOnly`
  abbrev pub host_only : Str → Str
  host_only target = host_or target (o.split_host_port target)

  abbrev pub fetched : Str → Result SnmpError Identity → Scan
  fetched host (ok i) = upserting host i
  fetched host (err (timeout m)) = recording (new_result job.id host no_response m) none
  fetched host (err (failure m)) = recording (new_result job.id host snmp_error m) none

  abbrev pub upserted : Str → Identity → Result RepoError NetworkElement → Scan
  upserted host i (err e) =
      recording
        (record (identified job.id host i) {
          error_message = codes "responded but failed to persist: " ++ o.error_text e;
        })
        none
  upserted host i (ok element) =
      recording (record (identified job.id host i) { element_id = some element.id })
        (some (element.id, i.sys_name))

  abbrev pub recorded : DiscoveryJobResult → Option (Uuid × Str) → Scan
  recorded r none = done r
  recorded r (some (id, name)) = assigning r id name

  -- One call of `scanOne`; a failed insert or assignment is logged and changes nothing else.
  unfoldable pub step : Scan → S → Scan × S
  step (fetching target) s =
      let r = o.get_identity target job.snmp_community job.snmp_version s in
      (fetched (host_only target) r.0, r.1)
  step (upserting host i) s = let r = o.upsert_discovered host i s in (upserted host i r.0, r.1)
  step (recording r next) s = (recorded r next, (o.insert_result r s).1)
  step (assigning r id name) s = (done r, (o.assign id name rules discovery s).1)
  step (done r) s = (done r, s)

  abbrev pub is_running : Scan → Bool
  is_running (done r) = false
  is_running _ = true

  unfoldable pub running_scans : List Scan → ℕ
  running_scans [] = 0
  running_scans (x ∷ xs) = if is_running x then suc (running_scans xs) else running_scans xs

  unfoldable pub step_at : ℕ → List Scan → S → List Scan × S
  unfolding step
  step_at n [] s = ([], s)
  step_at zero (x ∷ xs) s = let r = step x s in (r.0 ∷ xs, r.1)
  step_at (suc n) (x ∷ xs) s = let r = step_at n xs s in (x ∷ r.0, r.1)

  -- `g.Go`, which waits while the group is full.
  abbrev pub launch_in_group : Str → List Str → Progress S → Progress S
  launch_in_group t ts p =
      if ltb (running_scans p.scans) (max o.concurrency 1)
      then record p { targets = ts; checked = false; scans = p.scans ++ fetching t ∷ [] }
      else p

  -- The loop looks at the context once for each target, before it waits for a place.
  abbrev pub launch_next : List Str → Progress S → Progress S
  launch_next [] p = p
  launch_next (t ∷ ts) p =
      if p.checked
      then launch_in_group t ts p
      else if o.is_cancelled p.state
      then record p { targets = []; dropped = t ∷ ts ++ p.dropped }
      else record p { checked = true }

  unfoldable pub move : Move → Progress S → Progress S
  unfolding running_scans step_at
  move launch p = launch_next p.targets p
  move (advance n) p = let r = step_at n p.scans p.state in record p { scans = r.0; state = r.1 }

  unfoldable pub moves : List Move → Progress S → Progress S
  unfolding move
  moves [] p = p
  moves (m ∷ ms) p = moves ms (move m p)

  -- A scan has at most four calls to make.
  unfoldable pub finish_scan : Scan → S → Scan × S
  unfolding step
  finish_scan x s = let a = step x s in let b = step a.0 a.1 in let c = step b.0 b.1 in step c.0 c.1

  unfoldable pub finish_scans : List Scan → S → List Scan × S
  unfolding finish_scan
  finish_scans [] s = ([], s)
  finish_scans (x ∷ xs) s =
      let r = finish_scan x s in let rs = finish_scans xs r.1 in (r.0 ∷ rs.0, rs.1)

  abbrev pub wait_scans : Progress S → Progress S
  wait_scans p = let r = finish_scans p.scans p.state in record p { scans = r.0; state = r.1 }

  -- The targets that the schedule has left, one after the other.
  unfoldable pub finish_targets : List Str → Progress S → Progress S
  unfolding move finish_scans
  finish_targets [] p = wait_scans p
  finish_targets (t ∷ ts) p =
      finish_targets ts (wait_scans (move launch (move launch (wait_scans p))))

  -- The loop and `g.Wait()`: any schedule, and then what it has left.
  unfoldable pub scan_all : List Move → S → Progress S
  unfolding moves finish_targets
  scan_all ms s =
      let p = moves ms (record {
        targets = job.target_ips;
        dropped = [];
        checked = false;
        scans = [];
        state = s;
      }) in
      finish_targets p.targets p

module _ {S : Type 0} (o : Deps S) (job : DiscoveryJob) (ms : List Move) where
  abbrev pub final_status : Bool → JobStatus
  final_status true = cancelled
  final_status false = completed

  abbrev pub after_rules : Result RepoError (List Rule) × S → Result RepoError Unit × S
  after_rules (err e, s) = (err e, (o.update_status of_job job.id failed (o.error_text e) s).1)
  after_rules (ok rules, s) =
      let p = scan_all o job rules ms s in
      o.update_status background job.id (final_status (o.is_cancelled p.state)) [] p.state

  abbrev pub after_running : Result RepoError Unit × S → Result RepoError Unit × S
  after_running (err e, s) = (err e, s)
  after_running (ok u, s) = after_rules (o.list_enabled_ordered s)

  -- `Run`
  unfoldable pub run : S → Result RepoError Unit × S
  unfolding scan_all
  run s = after_running (o.update_status of_job job.id running [] s)
