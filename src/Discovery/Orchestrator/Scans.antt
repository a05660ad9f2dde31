-- ===== src/Discovery/Orchestrator/Scans.antt =====
-- internal/discovery/orchestrator.go: under any schedule, each target is scanned once or given up, and no
-- more scans run than allowed.
use maga.Base.{
  ℕ, zero, suc, ◌≡◌, refl, ap, ◌∙◌, max, List, [], ◌∷◌, ◌++◌, map, append_assoc, none, some, Str,
  ltb, ok, err, Bool-cases, inl, inr,
}
use maga.Domain.{Rule}
use maga.Discovery.Orchestrator.{
  Deps, DiscoveryJob, Scan, fetching, upserting, recording, assigning, done, timeout, failure, Move,
  launch, advance, Progress, host_only, step, step_at, fetched, upserted, recorded, running_scans,
  launch_next, move, moves, finish_scan, finish_scans, wait_scans, finish_targets,
}

module _ {S : Type 0} (o : Deps S) (job : DiscoveryJob) (rules : List Rule) where
  -- The host that a scan is about.
  abbrev pub host_of : Scan → Str
  host_of (fetching t) = host_only o job rules t
  host_of (upserting h i) = h
  host_of (recording r next) = r.ip_address
  host_of (assigning r id name) = r.ip_address
  host_of (done r) = r.ip_address

  host_of-fetched : (h : Str) (r : _) → host_of (fetched o job rules h r) ≡ h
  host_of-fetched h (ok i) = refl
  host_of-fetched h (err (timeout m)) = refl
  host_of-fetched h (err (failure m)) = refl

  host_of-upserted : (h : Str) (i : _) (r : _) → host_of (upserted o job rules h i r) ≡ h
  host_of-upserted h i (ok e) = refl
  host_of-upserted h i (err e) = refl

  host_of-recorded : (r : _) (next : _) → host_of (recorded o job rules r next) ≡ r.ip_address
  host_of-recorded r none = refl
  host_of-recorded r (some (id, name)) = refl

  host_of-step : (x : Scan) (s : S) → host_of (step o job rules x s).0 ≡ host_of x
  unfolding step
  host_of-step (fetching t) s =
      host_of-fetched (host_only o job rules t)
        (o.get_identity t job.snmp_community job.snmp_version s).0
  host_of-step (upserting h i) s = host_of-upserted h i (o.upsert_discovered h i s).0
  host_of-step (recording r next) s = host_of-recorded r next
  host_of-step (assigning r id name) s = refl
  host_of-step (done r) s = refl

  map-step_at :
      (n : ℕ) (xs : List Scan) (s : S) → map host_of (step_at o job rules n xs s).0 ≡ map host_of xs
  unfolding step_at
  map-step_at n [] s = refl
  map-step_at zero (x ∷ xs) s = ap (λ h. h ∷ map host_of xs) (host_of-step x s)
  map-step_at (suc n) (x ∷ xs) s = ap (λ hs. host_of x ∷ hs) (map-step_at n xs s)

  map-append : (f : Scan → Str) (xs ys : List Scan) → map f (xs ++ ys) ≡ map f xs ++ map f ys
  map-append f [] ys = refl
  map-append f (x ∷ xs) ys = ap (λ r. f x ∷ r) (map-append f xs ys)

  -- The hosts of the scans, of the targets that are left and of those given up, in the order of the job.
  abbrev pub Covers : Progress S → Type 0
  Covers p =
      map host_of p.scans ++ map (host_only o job rules) (p.targets ++ p.dropped)
      ≡ map (host_only o job rules) job.target_ips

  Covers-launch_next :
      (ts : List Str) (p : Progress S)
      → p.targets ≡ ts
      → Covers p
      → Covers (launch_next o job rules ts p)
  Covers-launch_next [] p e h = h
  Covers-launch_next (t ∷ ts) p e h =
      let h' : map host_of p.scans ++ map (host_only o job rules) (t ∷ ts ++ p.dropped)
          ≡ map (host_only o job rules) job.target_ips =
        rw e at h in
      elim (Bool-cases p.checked) [
        | inl waiting ↦
            elim (Bool-cases (ltb (running_scans o job rules p.scans) (max o.concurrency 1))) [
              | inl room ↦
                  rw (waiting, room)
                    (ap (λ hs. hs ++ map (host_only o job rules) (ts ++ p.dropped))
                        (map-append host_of p.scans (fetching t ∷ []))
                      ∙ append_assoc (map host_of p.scans) (host_only o job rules t ∷ [])
                          (map (host_only o job rules) (ts ++ p.dropped))
                      ∙ h')
              | inr full ↦ rw (waiting, full) h
            ]
        | inr unchecked ↦ elim (Bool-cases (o.is_cancelled p.state)) [
          | inl gone ↦ rw (unchecked, gone) h'
          | inr on ↦ rw (unchecked, on) h
        ]
      ]

  Covers-move : (m : Move) (p : Progress S) → Covers p → Covers (move o job rules m p)
  unfolding move
  Covers-move launch p h = Covers-launch_next p.targets p refl h
  Covers-move (advance n) p h =
      ap (λ hs. hs ++ map (host_only o job rules) (p.targets ++ p.dropped))
        (map-step_at n p.scans p.state)
      ∙ h

  pub Covers-moves : (ms : List Move) (p : Progress S) → Covers p → Covers (moves o job rules ms p)
  unfolding moves
  Covers-moves [] p h = h
  Covers-moves (m ∷ ms) p h = Covers-moves ms (move o job rules m p) (Covers-move m p h)

  host_of-finish_scan : (x : Scan) (s : S) → host_of (finish_scan o job rules x s).0 ≡ host_of x
  unfolding finish_scan
  host_of-finish_scan x s =
      let a = step o job rules x s in
      let b = step o job rules a.0 a.1 in
      let c = step o job rules b.0 b.1 in
      host_of-step c.0 c.1 ∙ host_of-step b.0 b.1 ∙ host_of-step a.0 a.1 ∙ host_of-step x s

  map-finish_scans :
      (xs : List Scan) (s : S) → map host_of (finish_scans o job rules xs s).0 ≡ map host_of xs
  unfolding finish_scans
  map-finish_scans [] s = refl
  map-finish_scans (x ∷ xs) s =
      let r = finish_scan o job rules x s in
      ap (λ h. h ∷ map host_of (finish_scans o job rules xs r.1).0) (host_of-finish_scan x s)
      ∙ ap (λ hs. host_of x ∷ hs) (map-finish_scans xs r.1)

  Covers-wait_scans : (p : Progress S) → Covers p → Covers (wait_scans o job rules p)
  Covers-wait_scans p h =
      ap (λ hs. hs ++ map (host_only o job rules) (p.targets ++ p.dropped))
        (map-finish_scans p.scans p.state)
      ∙ h

  pub Covers-finish_targets :
      (ts : List Str) (p : Progress S) → Covers p → Covers (finish_targets o job rules ts p)
  unfolding finish_targets
  Covers-finish_targets [] p h = Covers-wait_scans p h
  Covers-finish_targets (t ∷ ts) p h =
      let waited = wait_scans o job rules p in
      let looked = move o job rules launch waited in
      Covers-finish_targets ts (wait_scans o job rules (move o job rules launch looked)) (
        Covers-wait_scans (move o job rules launch looked)
          (Covers-move launch looked (Covers-move launch waited (Covers-wait_scans p h))))
