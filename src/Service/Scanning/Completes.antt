-- ===== src/Service/Scanning/Completes.antt =====
-- cmd/apiserver/main.go: a discovery job ends, and has recorded its targets.
use maga.Base.{
  ℕ, append-nil, ◌+◌, ◌≤◌, ◌≡◌, ◌⊎◌, refl, ap, sym, ◌∙◌, arith, Bool, false, List, [], ◌++◌, map,
  none, some, Str, ok,
}
use maga.Discovery.Orchestrator.{
  DiscoveryJob, DiscoveryJobResult, JobStatus, completed, cancelled, Move, host_only, run,
}
use maga.Discovery.Orchestrator.Records.{tally, inserted}
use maga.Storage.Jobs.{JobRow, job_by_id, get}
use maga.Service.{Outside}
use maga.Service.Scanning.{World, Scanner, CancelLasts, scanning}
use maga.Service.Scanning.Ended.{
  Opens, completed_uncancelled, scanned, ended, ended_cases, ended_found, run_ok, run_rows,
  inserted_hosts,
}

never_lasts : {N : Type 0} → (n : Scanner N) → ((x : N) → n.is_cancelled x ≡ false) → CancelLasts n
never_lasts n never = record {
  elapses = λ x gone. let not_gone = never x in cc;
  fetches = λ t c v x gone. let not_gone = never x in cc;
}

module _ {N : Type 0} (o : Outside) (n : Scanner N) (job : DiscoveryJob) (ms : List Move)
    (w : World N) where
  -- The row of the job at its end.
  abbrev pub ended_row : JobStatus → ℕ → JobRow → JobRow
  ended_row status stop j = record j {
    status = status;
    started_at = some (n.now w.jobs);
    completed_at = some stop;
    error_message = none;
  }

  -- A discovery job whose row is in the table, and whose context is not cancelled until its rules are listed, ends.
  -- Under any schedule of its scans, whatever the devices answer and whenever the context is cancelled then, with
  -- which the queries of the scans fail, `Run` returns no error and leaves the job completed or cancelled, with the
  -- times of its start and its end and no error message, and the rest of its row as it was. Each target that was
  -- launched has one result, for its host; with the targets that were given up these are, in order, the targets of
  -- the job. The table of results, row by row counted, has lost none and has gained none but these results; and if
  -- the job is left completed, it has gained all of them, and no target was given up. A context that is cancelled
  -- stays so.
  pub run_completes :
      {j : JobRow}
      → CancelLasts n
      → Opens o n job ms w
      → get job.id w.jobs ≡ ok j
      → let r = run (scanning o n) job ms w in
        (status : JobStatus) × (stop : ℕ) × (rs : List DiscoveryJobResult) × (dropped : List Str)
        × (r.0 ≡ ok tt)
        × ((status ≡ completed) ⊎ (status ≡ cancelled))
        × (get job.id r.1.jobs ≡ ok (ended_row status stop j))
        × (map (λ q. q.ip_address) rs ++ map (host_only (scanning o n) job []) dropped
            ≡ map (host_only (scanning o n) job []) job.target_ips)
        × ((f : DiscoveryJobResult → Bool)
            → (tally f w.jobs.results ≤ tally f r.1.jobs.results)
              × (tally f r.1.jobs.results ≤ tally f w.jobs.results + tally f rs))
        × (status ≡ completed
            → (dropped ≡ [])
              × ((f : DiscoveryJobResult → Bool)
                  → tally f r.1.jobs.results ≡ tally f w.jobs.results + tally f rs))
  unfolding get
  run_completes {j} lasts opens h =
      let found : job_by_id job.id w.jobs.jobs ≡ some j = ground arith in
      (
        ended o n job ms w,
        n.now (scanned o n job ms w).state.jobs,
        inserted (scanned o n job ms w).scans,
        (scanned o n job ms w).dropped,
        run_ok o n job ms w lasts opens found,
        ended_cases o n job ms w,
        rw (ended_found o n job ms w lasts opens found) refl,
        inserted_hosts o n job ms w,
        λ f. let (lo, hi, all) = run_rows o n job ms w lasts opens found f in (lo, hi),
        λ done.
            let on = completed_uncancelled o n job ms w done in
            (
              ((run_rows o n job ms w lasts opens found (λ q. false)).2 on).1,
              λ f. ((run_rows o n job ms w lasts opens found f).2 on).0,
            ),
      )

  -- If the context is never cancelled, the job ends as completed, and each of its targets, in order, has one new
  -- row in the table of results, for its host.
  pub uncancelled_run_completes :
      {j : JobRow}
      → ((x : N) → n.is_cancelled x ≡ false)
      → get job.id w.jobs ≡ ok j
      → let r = run (scanning o n) job ms w in
        (stop : ℕ) × (rs : List DiscoveryJobResult) × (r.0 ≡ ok tt)
        × (get job.id r.1.jobs ≡ ok (ended_row completed stop j))
        × (map (λ q. q.ip_address) rs ≡ map (host_only (scanning o n) job []) job.target_ips)
        × ((f : DiscoveryJobResult → Bool)
            → tally f r.1.jobs.results ≡ tally f w.jobs.results + tally f rs)
  unfolding get
  uncancelled_run_completes {j} never h =
      let found : job_by_id job.id w.jobs.jobs ≡ some j = ground arith in
      let completes : (ended o n job ms w) ≡ completed =
        rw (never (scanned o n job ms w).state.network) refl in
      let lasts = never_lasts n never in
      let opens : Opens o n job ms w = (never _, never _) in
      let rows = run_rows o n job ms w lasts opens found in
      let on = never (scanned o n job ms w).state.network in
      let kept : (scanned o n job ms w).dropped ≡ [] = ((rows (λ q. false)).2 on).1 in
      let hosts =
        map (λ (q : DiscoveryJobResult). q.ip_address) (inserted (scanned o n job ms w).scans) in
      (
        n.now (scanned o n job ms w).state.jobs,
        inserted (scanned o n job ms w).scans,
        run_ok o n job ms w lasts opens found,
        rw (ended_found o n job ms w lasts opens found) (
            ap (λ status. ok (ended_row status (n.now (scanned o n job ms w).state.jobs) j))
              completes),
        sym (append-nil hosts)
            ∙ ap (λ ts. hosts ++ map (host_only (scanning o n) job []) ts) (sym kept)
            ∙ inserted_hosts o n job ms w,
        λ f. ((rows f).2 on).0,
      )
