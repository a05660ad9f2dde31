-- ===== src/Service/Scanning/JobsReached.antt =====
-- cmd/apiserver/main.go: the tables of the jobs behind the run of a job.
use maga.Base.{List, Str}
use maga.Domain.{Uuid}
use maga.Discovery.Orchestrator.{Context, of_job, background, JobStatus, DiscoveryJob, Move, run}
use maga.Discovery.Orchestrator.Keeps.{run_keeps}
use maga.Storage.Jobs.Reached.{JobsReachable, after_update, after_insert}
use maga.Service.{Outside}
use maga.Service.Scanning.{
  World, Scanner, scanning, in_context_keeps, scanning_keeps, set_status, list_rules,
}

updates_reach :
    {N : Type 0}
    → (o : Outside) (n : Scanner N) (c : Context) (id : Uuid) (st : JobStatus) (m : Str)
      (w : World N)
    → JobsReachable w.jobs
    → JobsReachable ((scanning o n).update_status c id st m w).1.jobs
updates_reach {N} o n of_job id st m w h =
    in_context_keeps o n (λ (y : World N). JobsReachable y.jobs) (set_status o n id st m) w h
      (λ k. after_update (n.now w.jobs) id st m k)
updates_reach o n background id st m w h = after_update (n.now w.jobs) id st m h

-- A run writes to the tables of the jobs by their statements alone.
pub run_reaches_jobs :
    {N : Type 0}
    → (o : Outside) (n : Scanner N) (job : DiscoveryJob) (ms : List Move) (w : World N)
    → JobsReachable w.jobs
    → JobsReachable (run (scanning o n) job ms w).1.jobs
run_reaches_jobs {N} o n job ms w r =
    run_keeps (scanning o n) (λ (x : World N). JobsReachable x.jobs)
      (record {
        scans =
            scanning_keeps o n (λ (x : World N). JobsReachable x.jobs) (λ x h. h) (λ x db h. h)
              (λ t c v x h. h) (λ e x h. after_insert e h);
        updates = updates_reach o n;
        lists = λ x h.
            in_context_keeps o n (λ (y : World N). JobsReachable y.jobs) (list_rules o n) x h
              (λ k. k);
      })
      job ms w r
