-- ===== src/Service/Scanning/Ended.antt =====
-- cmd/apiserver/main.go: the tables of the jobs behind `Run`.
use maga.Base.{
  false, true, ◌≤◌, Bool-cases, ◌+◌, ◌≡◌, ◌⊎◌, inl, inr, refl, ap, ◌∙◌, arith, Bool, List, [], ◌∷◌,
  ◌++◌, map, none, some, ok,
}
use maga.Domain.{Uuid}
use maga.Discovery.Orchestrator.{
  DiscoveryJob, DiscoveryJobResult, JobStatus, of_job, background, running, completed, cancelled,
  Move, Progress, host_only, scan_all, run,
}
use maga.Discovery.Orchestrator.{final_status, after_rules, after_running}
use maga.Discovery.Orchestrator.Ends.{scan_all_lem}
use maga.Discovery.Orchestrator.Keeps.{ScansKeep, scan_all_keeps}
use maga.Discovery.Orchestrator.Records.{tally, inserted, RowsGrow}
use maga.Discovery.Orchestrator.Records.Runs.{scan_all_moves, map-inserted}
use maga.Storage
use maga.Storage.Jobs.{JobRow, job_by_id, insert_result, with_status, update_status}
use maga.Storage.Jobs.Times.{IsFinal, final_times, job_by_id-update_status}
use maga.Service.{Outside}
use maga.Service.Scanning.{
  World, Scanner, CancelLasts, on_db, scanning, elapsed, in_context_keeps, assign_keeps_world,
  scanning_keeps,
}
use maga.Storage.Jobs.Kept.{insert_found-jobs, update_found_ok, update_results}

module _ {N : Type 0} (o : Outside) (n : Scanner N) (lasts : CancelLasts n) where
  cancel_lasts : ScansKeep (scanning o n) (λ (x : World N). n.is_cancelled x.network ≡ true)
  cancel_lasts =
      scanning_keeps o n (λ (x : World N). n.is_cancelled x.network ≡ true)
        (λ x. lasts.elapses x.network) (λ x db g. g) (λ t c v x. lasts.fetches t c v x.network)
        (λ r x g. g)

  module _ (id : Uuid) (js : List JobRow) {j : JobRow} (found : job_by_id id js ≡ some j) where
    -- a scan leaves the rows of the jobs as they are, and appends its results
    rows_grow :
        RowsGrow
          (scanning o n)
          id
          (λ (x : World N). x.jobs.jobs ≡ js)
          (λ (x : World N). x.jobs.results)
    unfolding insert_result
    rows_grow = record {
      keep =
          scanning_keeps o n (λ (x : World N). x.jobs.jobs ≡ js) (λ x h. h) (λ x db h. h)
            (λ t c v x h. h)
            (λ r x h. insert_found-jobs r (job_by_id r.job_id x.jobs.jobs) x.jobs ∙ h);
      lasts = cancel_lasts;
      fetches = λ t c v x. refl;
      upserts = λ host i x.
          in_context_keeps o n (λ (y : World N). y.jobs.results ≡ x.jobs.results)
            (on_db o n (Storage.Elements.upsert_discovered host i.sys_name)) x refl (λ k. k);
      assigns = λ e name rules t x.
          assign_keeps_world o n (λ (y : World N). y.jobs.results ≡ x.jobs.results) (λ y h. h)
            (λ y db h. h) e name rules t x refl;
      inserts = λ r x h own. elim (Bool-cases (n.is_cancelled (n.elapse x.network))) [
        | inl gone ↦ inl (rw gone gone, rw gone refl)
        | inr on ↦
            let added : ((scanning o n).insert_result r x).1.jobs.results
                ≡ x.jobs.results ++ r ∷ [] =
              rw (on, h, own, found) refl in
            inr added
      ];
    }

module _ {N : Type 0} (o : Outside) (n : Scanner N) (job : DiscoveryJob) (ms : List Move)
    (w : World N) where
  -- the tables once the job runs, and once its rules are listed
  abbrev pub started : World N
  started = record (elapsed o n w) {
    jobs = (update_status (n.now w.jobs) job.id running [] w.jobs).1;
  }

  abbrev pub listed : World N
  listed = elapsed o n started

  abbrev pub scanned : Progress (World N)
  scanned = scan_all (scanning o n) job (Storage.Rules.list_enabled_ordered w.db) ms listed

  abbrev pub ended : JobStatus
  ended = final_status (scanning o n) job ms (n.is_cancelled scanned.state.network)

  -- The queries before the scans are made while the context is not cancelled.
  abbrev pub Opens : Type 0
  Opens =
      (n.is_cancelled (n.elapse w.network) ≡ false)
      × (n.is_cancelled (n.elapse (n.elapse w.network)) ≡ false)

  run_scanned :
      {j : JobRow}
      → Opens
      → job_by_id job.id w.jobs.jobs ≡ some j
      → run (scanning o n) job ms w
        ≡ (scanning o n).update_status background job.id ended [] scanned.state
  unfolding run
  run_scanned (first, second) h =
      let starts : (scanning o n).update_status of_job job.id running [] w ≡ (ok tt, started) =
        rw first
          (ap (λ x. (x, started)) (update_found_ok (n.now w.jobs) job.id running [] w.jobs h)) in
      let lists : (scanning o n).list_enabled_ordered started
          ≡ (ok (Storage.Rules.list_enabled_ordered w.db), listed) =
        rw second refl in
      ap (after_running (scanning o n) job ms) starts ∙ ap (after_rules (scanning o n) job ms) lists

  pub ended_cases : (ended ≡ completed) ⊎ (ended ≡ cancelled)
  ended_cases = elim (Bool-cases (n.is_cancelled scanned.state.network)) [
    | inl gone ↦ inr (rw gone refl)
    | inr on ↦ inl (rw on refl)
  ]

  pub completed_uncancelled : ended ≡ completed → n.is_cancelled scanned.state.network ≡ false
  completed_uncancelled h = elim (Bool-cases (n.is_cancelled scanned.state.network)) [
    | inl gone ↦ let bad : cancelled ≡ completed = rw gone at h in cc
    | inr on ↦ on
  ]

  is_final : IsFinal ended
  is_final = elim ended_cases [ inl e ↦ rw e tt | inr e ↦ rw e tt ]

  module _ (lasts : CancelLasts n) (opens : Opens) {j : JobRow}
      (found : job_by_id job.id w.jobs.jobs ≡ some j) where
    started_found :
        job_by_id job.id started.jobs.jobs ≡ some (with_status (n.now w.jobs) running [] j)
    started_found = job_by_id-update_status (n.now w.jobs) running [] job.id w.jobs j found

    scanned_jobs : scanned.state.jobs.jobs ≡ started.jobs.jobs
    scanned_jobs =
        scan_all_keeps (scanning o n) (λ (x : World N). x.jobs.jobs ≡ started.jobs.jobs)
          (rows_grow o n lasts job.id started.jobs.jobs started_found).keep job
          (Storage.Rules.list_enabled_ordered w.db) ms listed refl

    pub ended_found :
        job_by_id job.id (run (scanning o n) job ms w).1.jobs.jobs
        ≡ some (record j {
          status = ended;
          started_at = some (n.now w.jobs);
          completed_at = some (n.now scanned.state.jobs);
          error_message = none;
        })
    ended_found =
        ap (λ r. job_by_id job.id r.1.jobs.jobs) (run_scanned opens found)
        ∙ job_by_id-update_status (n.now scanned.state.jobs) ended [] job.id scanned.state.jobs
            (with_status (n.now w.jobs) running [] j)
            (ap (job_by_id job.id) scanned_jobs ∙ started_found)
        ∙ ap some (final_times (n.now w.jobs) (n.now scanned.state.jobs) ended [] j is_final)

    pub run_ok : (run (scanning o n) job ms w).0 ≡ ok tt
    run_ok =
        ap (λ r. r.0) (run_scanned opens found)
        ∙ update_found_ok (n.now scanned.state.jobs) job.id ended [] scanned.state.jobs
            (ap (job_by_id job.id) scanned_jobs ∙ started_found)

    -- The table of results has lost no row and gained at most the results that the scans end with, and all of
    -- these, with no target given up, if the context is not cancelled at the end.
    pub run_rows :
        (f : DiscoveryJobResult → Bool)
        → let before = tally f w.jobs.results in
          let after = tally f (run (scanning o n) job ms w).1.jobs.results in
          let ends = tally f (inserted scanned.scans) in
          (before ≤ after)
          × (after ≤ before + ends)
          × (n.is_cancelled scanned.state.network ≡ false
              → (after ≡ before + ends) × (scanned.dropped ≡ []))
    unfolding tally inserted
    run_rows f =
        let ((own, same_jobs, lo, hi, on), kept) =
          scan_all_moves (scanning o n) job (Storage.Rules.list_enabled_ordered w.db)
            (λ (x : World N). x.jobs.jobs ≡ started.jobs.jobs) (λ (x : World N). x.jobs.results)
            (rows_grow o n lasts job.id started.jobs.jobs started_found) f ms listed refl in
        let first : tally f started.jobs.results ≡ tally f w.jobs.results =
          ap (tally f) (update_results (n.now w.jobs) job.id running [] w.jobs) in
        let last : tally f (run (scanning o n) job ms w).1.jobs.results
            ≡ tally f scanned.state.jobs.results =
          ap (λ r. tally f r.1.jobs.results) (run_scanned opens found)
          ∙ ap (tally f)
              (update_results (n.now scanned.state.jobs) job.id ended [] scanned.state.jobs) in
        (
          omega (arith, first, last, lo),
          omega (arith, first, last, hi),
          λ g. (omega (arith, first, last, (on g).1), kept g),
        )

  -- The results that the scans end with, and the targets given up, are for the targets of the job.
  pub inserted_hosts :
      map (λ q. q.ip_address) (inserted scanned.scans)
        ++ map (host_only (scanning o n) job []) scanned.dropped
      ≡ map (host_only (scanning o n) job []) job.target_ips
  inserted_hosts =
      let rules = Storage.Rules.list_enabled_ordered w.db in
      let (_, idle, covered) = scan_all_lem (scanning o n) job rules ms listed in
      ap (λ hs. hs ++ map (host_only (scanning o n) job rules) scanned.dropped)
        (map-inserted (scanning o n) job rules scanned.scans idle)
      ∙ covered
