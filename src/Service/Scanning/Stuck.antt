-- ===== src/Service/Scanning/Stuck.antt =====
-- internal/discovery/orchestrator.go: a job that is cancelled between the first two queries of its run.
use maga.Base.{◌≡◌, refl, ap, ◌∙◌, arith, true, false, List, [], none, some, ok, err}
use maga.Discovery.Orchestrator.{
  DiscoveryJob, Move, of_job, running, failed, after_running, after_rules, run,
}
use maga.Storage.Jobs.{JobRow, job_by_id, get}
use maga.Storage.Jobs.Times.{job_by_id-update_status}
use maga.Storage.Jobs.Kept.{update_found_ok, update_results}
use maga.Service.{Outside}
use maga.Service.Scanning.{World, Scanner, scanning, elapsed, context_cancelled}
use maga.Service.Scanning.Ended.{started, listed}

module _ {N : Type 0} (o : Outside) (n : Scanner N) (job : DiscoveryJob) (ms : List Move)
    (w : World N) where
  -- The context is cancelled once the job is marked as running, and stays so for the next two queries.
  abbrev pub IsCancelledSecond : Type 0
  IsCancelledSecond =
      (n.is_cancelled (n.elapse w.network) ≡ false)
      × (n.is_cancelled (n.elapse (n.elapse w.network)) ≡ true)
      × (n.is_cancelled (n.elapse (n.elapse (n.elapse w.network))) ≡ true)

  run_stops :
      {j : JobRow}
      → IsCancelledSecond
      → job_by_id job.id w.jobs.jobs ≡ some j
      → run (scanning o n) job ms w ≡ (err context_cancelled, elapsed o n (listed o n job ms w))
  unfolding run
  run_stops (first, second, third) h =
      let run_job = started o n job ms w in
      let starts : (scanning o n).update_status of_job job.id running [] w ≡ (ok tt, run_job) =
        rw first
          (ap (λ x. (x, run_job)) (update_found_ok (n.now w.jobs) job.id running [] w.jobs h)) in
      let lists : (scanning o n).list_enabled_ordered run_job
          ≡ (err context_cancelled, listed o n job ms w) =
        rw second refl in
      let fails : ((scanning o n).update_status of_job job.id failed
            (o.texts.repo_error context_cancelled) (listed o n job ms w)).1
          ≡ elapsed o n (listed o n job ms w) =
        rw third refl in
      ap (after_running (scanning o n) job ms) starts
      ∙ ap (after_rules (scanning o n) job ms) lists
      ∙ ap (λ x. (err context_cancelled, x)) fails

  -- A job that is cancelled after it has been marked as running, and before its rules are listed, stays marked so:
  -- `Run` returns the error of the context, its write of `failed` fails as the listing of the rules did, and the
  -- row of the job, in the table before, is left running, with the time of its start and no end, and with no
  -- result.
  pub run_leaves_running :
      {j : JobRow}
      → IsCancelledSecond
      → get job.id w.jobs ≡ ok j
      → let r = run (scanning o n) job ms w in
        (r.0 ≡ err context_cancelled)
        × (get job.id r.1.jobs
            ≡ ok (record j {
              status = running;
              started_at = some (n.now w.jobs);
              error_message = none;
            }))
        × (r.1.jobs.results ≡ w.jobs.results)
  unfolding get
  run_leaves_running {j} cancels h =
      let found : job_by_id job.id w.jobs.jobs ≡ some j = ground arith in
      let stops = run_stops cancels found in
      let left =
        ap (λ r. job_by_id job.id r.1.jobs.jobs) stops
        ∙ job_by_id-update_status (n.now w.jobs) running [] job.id w.jobs j found in
      (
        ap (λ r. r.0) stops,
        rw left refl,
        ap (λ r. r.1.jobs.results) stops ∙ update_results (n.now w.jobs) job.id running [] w.jobs,
      )
