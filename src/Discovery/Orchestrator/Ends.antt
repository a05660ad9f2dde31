-- ===== src/Discovery/Orchestrator/Ends.antt =====
-- internal/discovery/orchestrator.go: the scans end, and with them the loop over the targets.
use maga.Base.{
  ℕ, ◌-◌, ◌≤◌, ◌≡◌, ◌⊎◌, refl, ap, sym, ◌∙◌, arith, max, true, false, List, [], ◌∷◌, ◌++◌, map,
  none, some, Str, ltb, ok, err, Bool-cases, inl, inr, append-nil,
}
use maga.Domain.{Rule}
use maga.Discovery.Orchestrator.{
  Deps, DiscoveryJob, Scan, fetching, upserting, recording, assigning, done, timeout, failure, Move,
  launch, Progress, host_only, step, fetched, upserted, recorded, is_running, running_scans,
  launch_next, move, moves, finish_scan, finish_scans, wait_scans, finish_targets, scan_all,
}
use maga.Discovery.Orchestrator.Scans.{host_of, Covers-moves, Covers-finish_targets}

-- How many calls a scan can still make.
calls : Scan → ℕ
calls (fetching t) = 4
calls (upserting h i) = 3
calls (recording r next) = 2
calls (assigning r id name) = 1
calls (done r) = 0

module _ {S : Type 0} (o : Deps S) (job : DiscoveryJob) (rules : List Rule) where
  calls-fetched : (h : Str) (r : _) → calls (fetched o job rules h r) ≤ 3
  unfolding calls
  calls-fetched h (ok i) = omega arith
  calls-fetched h (err (timeout m)) = omega arith
  calls-fetched h (err (failure m)) = omega arith

  calls-upserted : (h : Str) (i : _) (r : _) → calls (upserted o job rules h i r) ≤ 2
  unfolding calls
  calls-upserted h i (ok e) = omega arith
  calls-upserted h i (err e) = omega arith

  calls-recorded : (r : _) (next : _) → calls (recorded o job rules r next) ≤ 1
  unfolding calls
  calls-recorded r none = omega arith
  calls-recorded r (some (id, name)) = omega arith

  calls-step : (x : Scan) (s : S) → calls (step o job rules x s).0 ≤ calls x - 1
  unfolding calls step
  calls-step (fetching t) s =
      let le =
        calls-fetched (host_only o job rules t)
          (o.get_identity t job.snmp_community job.snmp_version s).0 in
      omega (arith, le)
  calls-step (upserting h i) s =
      let le = calls-upserted h i (o.upsert_discovered h i s).0 in omega (arith, le)
  calls-step (recording r next) s = let le = calls-recorded r next in omega (arith, le)
  calls-step (assigning r id name) s = omega arith
  calls-step (done r) s = omega arith

  calls-le-four : (x : Scan) → calls x ≤ 4
  unfolding calls
  calls-le-four (fetching t) = omega arith
  calls-le-four (upserting h i) = omega arith
  calls-le-four (recording r next) = omega arith
  calls-le-four (assigning r id name) = omega arith
  calls-le-four (done r) = omega arith

  no_calls : (x : Scan) → calls x ≤ 0 → is_running o job rules x ≡ false
  unfolding calls
  no_calls (fetching t) h = ground arith
  no_calls (upserting t i) h = ground arith
  no_calls (recording r next) h = ground arith
  no_calls (assigning r id name) h = ground arith
  no_calls (done r) h = refl

  finish_scan_ends :
      (x : Scan) (s : S) → is_running o job rules (finish_scan o job rules x s).0 ≡ false
  unfolding finish_scan
  finish_scan_ends x s =
      let a = step o job rules x s in
      let b = step o job rules a.0 a.1 in
      let c = step o job rules b.0 b.1 in
      let d = step o job rules c.0 c.1 in
      no_calls d.0 (
        omega (
          arith,
          calls-le-four x,
          calls-step x s,
          calls-step a.0 a.1,
          calls-step b.0 b.1,
          calls-step c.0 c.1,
        ))

  finish_scans_end :
      (xs : List Scan) (s : S) → running_scans o job rules (finish_scans o job rules xs s).0 ≡ 0
  unfolding finish_scans running_scans
  finish_scans_end [] s = refl
  finish_scans_end (x ∷ xs) s =
      let r = finish_scan o job rules x s in rw (finish_scan_ends x s) (finish_scans_end xs r.1)

  -- Once the context was looked at, and with no scan running, the loop launches the next target.
  launch_checked :
      (t : Str) (ts : List Str) (p : Progress S)
      → p.targets ≡ t ∷ ts
      → running_scans o job rules p.scans ≡ 0
      → p.checked ≡ true
      → (move o job rules launch p).targets ≡ ts
  unfolding move
  launch_checked t ts p e idle waiting =
      let room : ltb 0 (max o.concurrency 1) ≡ true = ground arith in
      ap (λ us. (launch_next o job rules us p).targets) e ∙ rw (waiting, idle, room) refl

  launch_empty : (p : Progress S) → p.targets ≡ [] → (move o job rules launch p).targets ≡ []
  unfolding move
  launch_empty p e = ap (λ us. (launch_next o job rules us p).targets) e ∙ e

  -- A move that does not launch a scan looks at the context.
  launch_unchecked :
      (t : Str) (ts : List Str) (p : Progress S)
      → p.targets ≡ t ∷ ts
      → p.checked ≡ false
      → ((move o job rules launch p).targets ≡ [])
        ⊎ (move o job rules launch p ≡ record p { checked = true })
  unfolding move
  launch_unchecked t ts p e unchecked = elim (Bool-cases (o.is_cancelled p.state)) [
    | inl gone ↦
        inl (ap (λ us. (launch_next o job rules us p).targets) e ∙ rw (unchecked, gone) refl)
    | inr on ↦ inr (ap (λ us. launch_next o job rules us p) e ∙ rw (unchecked, on) refl)
  ]

  launch_keeps :
      (ts : List Str) (p : Progress S)
      → p.targets ≡ ts
      → p.checked ≡ false
      → ((move o job rules launch p).targets ≡ ts) ⊎ ((move o job rules launch p).targets ≡ [])
  launch_keeps [] p e unchecked = inr (launch_empty p e)
  launch_keeps (t ∷ ts) p e unchecked = elim (launch_unchecked t ts p e unchecked) [
    | inl none_left ↦ inr none_left
    | inr kept ↦ inl (ap (λ (q : Progress S). q.targets) kept ∙ e)
  ]

  launch_unchecks :
      (t : Str) (ts : List Str) (p : Progress S)
      → p.targets ≡ t ∷ ts
      → running_scans o job rules p.scans ≡ 0
      → p.checked ≡ true
      → (move o job rules launch p).checked ≡ false
  unfolding move
  launch_unchecks t ts p e idle waiting =
      let room : ltb 0 (max o.concurrency 1) ≡ true = ground arith in
      ap (λ us. (launch_next o job rules us p).checked) e ∙ rw (waiting, idle, room) refl

  launch_waited :
      (t : Str) (ts : List Str) (p : Progress S)
      → (p.targets ≡ t ∷ ts) ⊎ (p.targets ≡ [])
      → running_scans o job rules p.scans ≡ 0
      → let q = move o job rules launch (move o job rules launch p) in
        (q.targets ≡ ts) ⊎ (q.targets ≡ [])
  launch_waited t ts p (inr e) idle =
      inr (launch_empty (move o job rules launch p) (launch_empty p e))
  launch_waited t ts p (inl e) idle = elim (Bool-cases p.checked) [
    | inl waiting ↦
        launch_keeps ts (move o job rules launch p) (launch_checked t ts p e idle waiting)
          (launch_unchecks t ts p e idle waiting)
    | inr unchecked ↦ elim (launch_unchecked t ts p e unchecked) [
      | inl none_left ↦ inr (launch_empty (move o job rules launch p) none_left)
      | inr kept ↦ inl (
          ap (λ q. (move o job rules launch q).targets) kept
          ∙ launch_checked t ts (record p { checked = true }) e idle refl)
    ]
  ]

  finish_targets_end :
      (ts : List Str) (p : Progress S)
      → (p.targets ≡ ts) ⊎ (p.targets ≡ [])
      → ((finish_targets o job rules ts p).targets ≡ [])
        × (running_scans o job rules (finish_targets o job rules ts p).scans ≡ 0)
  unfolding finish_targets
  finish_targets_end [] p (inl e) = (e, finish_scans_end p.scans p.state)
  finish_targets_end [] p (inr e) = (e, finish_scans_end p.scans p.state)
  finish_targets_end (t ∷ ts) p h =
      let waited = wait_scans o job rules p in
      finish_targets_end ts
        (wait_scans o job rules (move o job rules launch (move o job rules launch waited)))
        (launch_waited t ts waited h (finish_scans_end p.scans p.state))

  -- Under any schedule of the scans, the loop over the targets ends with no target left and no scan
  -- running. The results of its scans and the targets that it gave up are, in order, the targets of the
  -- job: each is scanned once, with a result for its host, or given up.
  pub scan_all_lem :
      (ms : List Move) (s : S)
      → let p = scan_all o job rules ms s in
        (p.targets ≡ [])
        × (running_scans o job rules p.scans ≡ 0)
        × (map (host_of o job rules) p.scans ++ map (host_only o job rules) p.dropped
            ≡ map (host_only o job rules) job.target_ips)
  unfolding scan_all
  scan_all_lem ms s =
      let start : Progress S = record {
        targets = job.target_ips;
        dropped = [];
        checked = false;
        scans = [];
        state = s;
      } in
      let p = moves o job rules ms start in
      let (empty, idle) = finish_targets_end p.targets p (inl refl) in
      let covered = Covers-finish_targets o job rules p.targets p (
        Covers-moves o job rules ms start
          (ap (map (host_only o job rules)) (append-nil job.target_ips))) in
      (
        empty,
        idle,
        ap
              (λ ts.
                map (host_of o job rules) (finish_targets o job rules p.targets p).scans
                ++ map (host_only o job rules)
                    (ts ++ (finish_targets o job rules p.targets p).dropped))
              (sym empty)
            ∙ covered,
      )
