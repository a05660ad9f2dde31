-- ===== src/Discovery/Orchestrator/Keeps.antt =====
-- internal/discovery/orchestrator.go: what `Run` keeps of the state under any schedule, from what its calls keep.
use maga.Base.{
  ℕ, zero, suc, max, ltb, false, List, [], ◌∷◌, Str, Result, ok, err, Bool-cases, inl, inr,
}
use maga.Domain.{Uuid, Rule, RepoError, TriggerSource, discovery}
use maga.Discovery.Orchestrator.{
  Context, of_job, background, Deps, DiscoveryJob, DiscoveryJobResult, Identity, JobStatus, Scan,
  fetching, upserting, recording, assigning, done, Move, launch, advance, Progress, step, step_at,
  running_scans, launch_next, move, moves, finish_scan, finish_scans, wait_scans, finish_targets,
  scan_all, after_rules, after_running, run,
}

-- What the calls of a scan keep, and with them the other two of `Run`.
pub record ScansKeep {S : Type 0} (o : Deps S) (I : S → Type 0) : Type 0 where
  pub fetches :
      (t community version : Str) (s : S) → I s → I (o.get_identity t community version s).1
  pub inserts : (r : DiscoveryJobResult) (s : S) → I s → I (o.insert_result r s).1
  pub upserts : (host : Str) (i : Identity) (s : S) → I s → I (o.upsert_discovered host i s).1
  pub assigns :
      (id : Uuid) (name : Str) (rules : List Rule) (trigger : TriggerSource) (s : S)
      → I s
      → I (o.assign id name rules trigger s).1

pub record DepsKeep {S : Type 0} (o : Deps S) (I : S → Type 0) : Type 0 where
  pub scans : ScansKeep o I
  pub updates :
      (c : Context) (id : Uuid) (st : JobStatus) (m : Str) (s : S)
      → I s
      → I (o.update_status c id st m s).1
  pub lists : (s : S) → I s → I (o.list_enabled_ordered s).1

module _ {S : Type 0} (o : Deps S) (I : S → Type 0) where
  module _ (keep : ScansKeep o I) (job : DiscoveryJob) (rules : List Rule) where
    pub step_keeps : (x : Scan) (s : S) → I s → I (step o job rules x s).1
    unfolding step
    step_keeps (fetching t) s h = keep.fetches t job.snmp_community job.snmp_version s h
    step_keeps (upserting host i) s h = keep.upserts host i s h
    step_keeps (recording r next) s h = keep.inserts r s h
    step_keeps (assigning r id name) s h = keep.assigns id name rules discovery s h
    step_keeps (done r) s h = h

    step_at_keeps : (n : ℕ) (xs : List Scan) (s : S) → I s → I (step_at o job rules n xs s).1
    unfolding step_at
    step_at_keeps n [] s h = h
    step_at_keeps zero (x ∷ xs) s h = step_keeps x s h
    step_at_keeps (suc n) (x ∷ xs) s h = step_at_keeps n xs s h

    launch_next_keeps :
        (ts : List Str) (p : Progress S) → I p.state → I (launch_next o job rules ts p).state
    launch_next_keeps [] p h = h
    launch_next_keeps (t ∷ ts) p h = elim (Bool-cases p.checked) [
      | inl waiting ↦
          elim (Bool-cases (ltb (running_scans o job rules p.scans) (max o.concurrency 1))) [
            | inl room ↦ rw (waiting, room) h
            | inr full ↦ rw (waiting, full) h
          ]
      | inr unchecked ↦ elim (Bool-cases (o.is_cancelled p.state)) [
        | inl gone ↦ rw (unchecked, gone) h
        | inr on ↦ rw (unchecked, on) h
      ]
    ]

    move_keeps : (m : Move) (p : Progress S) → I p.state → I (move o job rules m p).state
    unfolding move
    move_keeps launch p h = launch_next_keeps p.targets p h
    move_keeps (advance n) p h = step_at_keeps n p.scans p.state h

    moves_keeps : (ms : List Move) (p : Progress S) → I p.state → I (moves o job rules ms p).state
    unfolding moves
    moves_keeps [] p h = h
    moves_keeps (m ∷ ms) p h = moves_keeps ms (move o job rules m p) (move_keeps m p h)

    finish_scan_keeps : (x : Scan) (s : S) → I s → I (finish_scan o job rules x s).1
    unfolding finish_scan
    finish_scan_keeps x s h =
        let a = step o job rules x s in
        let b = step o job rules a.0 a.1 in
        let c = step o job rules b.0 b.1 in
        step_keeps c.0 c.1 (step_keeps b.0 b.1 (step_keeps a.0 a.1 (step_keeps x s h)))

    finish_scans_keeps : (xs : List Scan) (s : S) → I s → I (finish_scans o job rules xs s).1
    unfolding finish_scans
    finish_scans_keeps [] s h = h
    finish_scans_keeps (x ∷ xs) s h =
        finish_scans_keeps xs (finish_scan o job rules x s).1 (finish_scan_keeps x s h)

    wait_scans_keeps : (p : Progress S) → I p.state → I (wait_scans o job rules p).state
    wait_scans_keeps p h = finish_scans_keeps p.scans p.state h

    finish_targets_keeps :
        (ts : List Str) (p : Progress S) → I p.state → I (finish_targets o job rules ts p).state
    unfolding finish_targets
    finish_targets_keeps [] p h = wait_scans_keeps p h
    finish_targets_keeps (t ∷ ts) p h =
        let a = wait_scans o job rules p in
        let b = move o job rules launch a in
        let c = move o job rules launch b in
        finish_targets_keeps ts (wait_scans o job rules c)
          (wait_scans_keeps c (move_keeps launch b (move_keeps launch a (wait_scans_keeps p h))))

    pub scan_all_keeps : (ms : List Move) (s : S) → I s → I (scan_all o job rules ms s).state
    unfolding scan_all
    scan_all_keeps ms s h =
        let start : Progress S = record {
          targets = job.target_ips;
          dropped = [];
          checked = false;
          scans = [];
          state = s;
        } in
        let p = moves o job rules ms start in
        finish_targets_keeps p.targets p (moves_keeps ms start h)

  module _ (keep : DepsKeep o I) (job : DiscoveryJob) (ms : List Move) where
    after_rules_keeps :
        (x : Result RepoError (List Rule) × S) → I x.1 → I (after_rules o job ms x).1
    after_rules_keeps (err e, s) h = keep.updates of_job job.id _ _ s h
    after_rules_keeps (ok rules, s) h =
        let p = scan_all o job rules ms s in
        keep.updates background job.id _ _ p.state (scan_all_keeps keep.scans job rules ms s h)

    after_running_keeps : (x : Result RepoError Unit × S) → I x.1 → I (after_running o job ms x).1
    after_running_keeps (err e, s) h = h
    after_running_keeps (ok u, s) h = after_rules_keeps (o.list_enabled_ordered s) (keep.lists s h)

    pub run_keeps : (s : S) → I s → I (run o job ms s).1
    unfolding run
    run_keeps s h =
        after_running_keeps (o.update_status of_job job.id _ _ s)
          (keep.updates of_job job.id _ _ s h)
