-- ===== src/Discovery/Orchestrator/Records/Runs.antt =====
-- internal/discovery/orchestrator.go: the rows that the loop over the targets inserts.
use maga.Base.{
  ◌≡◌, refl, ap, map, arith, max, Bool, false, List, [], ◌∷◌, Str, ltb, All-append, Bool-cases, inl,
  inr,
}
use maga.Domain.{Rule}
use maga.Discovery.Orchestrator.{
  Deps, DiscoveryJob, DiscoveryJobResult, Scan, fetching, upserting, recording, assigning, done,
  Move, launch, advance, Progress, step_at, running_scans, launch_next, move, moves, finish_scans,
  wait_scans, finish_targets, scan_all,
}
use maga.Discovery.Orchestrator.Records.{
  tally, inserted, tally-inserted_append, IsOwn, RowsGrow, Moved, Moved-trans,
}
use maga.Discovery.Orchestrator.Scans.{host_of}
use maga.Discovery.Orchestrator.Records.Steps.{step_at_moves, finish_scans_move}

module _ {S : Type 0} (o : Deps S) (job : DiscoveryJob) (rules : List Rule) (I : S → Type 0)
    (rows : S → List DiscoveryJobResult) (grow : RowsGrow o job.id I rows)
    (f : DiscoveryJobResult → Bool) where
  -- The rows have the results of the scans more than at the start; a context that is not cancelled has given up no
  -- target.
  abbrev Counts : S → Progress S → Type 0
  Counts s p =
      Moved job.id I rows o.is_cancelled f [] s p.scans p.state
      × (o.is_cancelled p.state ≡ false → p.dropped ≡ [])

  Counts-launch_next :
      (ts : List Str) (s : S) (p : Progress S)
      → Counts s p
      → Counts s (launch_next o job rules ts p)
  unfolding inserted tally IsOwn
  Counts-launch_next [] s p h = h
  Counts-launch_next (t ∷ ts) s p ((own, h, lo, hi, on), kept) = elim (Bool-cases p.checked) [
    | inl waiting ↦
        elim (Bool-cases (ltb (running_scans o job rules p.scans) (max o.concurrency 1))) [
          | inl room ↦
              let none_yet =
                tally-inserted_append job.id I rows o.is_cancelled f p.scans (fetching t ∷ []) in
              rw (waiting, room)
                (
                  (
                    All-append (IsOwn job.id) p.scans (fetching t ∷ []) own (tt, tt),
                    h,
                    lo,
                    omega (arith, hi, none_yet),
                    λ g. let (g', e) = on g in (g', omega (arith, e, none_yet)),
                  ),
                  kept,
                )
          | inr full ↦ rw (waiting, full) ((own, h, lo, hi, on), kept)
        ]
    | inr unchecked ↦ elim (Bool-cases (o.is_cancelled p.state)) [
      | inl gone ↦ rw (unchecked, gone) ((own, h, lo, hi, on), λ g. cc)
      | inr still ↦ rw (unchecked, still) ((own, h, lo, hi, on), kept)
    ]
  ]

  Counts-move : (m : Move) (s : S) (p : Progress S) → Counts s p → Counts s (move o job rules m p)
  unfolding move
  Counts-move launch s p h = Counts-launch_next p.targets s p h
  Counts-move (advance n) s p h =
      let r = step_at o job rules n p.scans p.state in
      let moved = step_at_moves o job rules I rows grow f n p.scans p.state h.0.0 h.0.1 in
      (
        Moved-trans job.id I rows o.is_cancelled f [] p.scans r.0 s p.state r.1 h.0 moved,
        λ g. h.1 (moved.4 g).0,
      )

  Counts-moves :
      (ms : List Move) (s : S) (p : Progress S) → Counts s p → Counts s (moves o job rules ms p)
  unfolding moves
  Counts-moves [] s p h = h
  Counts-moves (m ∷ ms) s p h = Counts-moves ms s (move o job rules m p) (Counts-move m s p h)

  Counts-wait_scans : (s : S) (p : Progress S) → Counts s p → Counts s (wait_scans o job rules p)
  Counts-wait_scans s p h =
      let r = finish_scans o job rules p.scans p.state in
      let moved = finish_scans_move o job rules I rows grow f p.scans p.state h.0.0 h.0.1 in
      (
        Moved-trans job.id I rows o.is_cancelled f [] p.scans r.0 s p.state r.1 h.0 moved,
        λ g. h.1 (moved.4 g).0,
      )

  Counts-finish_targets :
      (ts : List Str) (s : S) (p : Progress S)
      → Counts s p
      → Counts s (finish_targets o job rules ts p)
  unfolding finish_targets
  Counts-finish_targets [] s p h = Counts-wait_scans s p h
  Counts-finish_targets (t ∷ ts) s p h =
      let a = wait_scans o job rules p in
      let b = move o job rules launch a in
      let c = move o job rules launch b in
      Counts-finish_targets ts s (wait_scans o job rules c) (
        Counts-wait_scans s c
          (Counts-move launch s b (Counts-move launch s a (Counts-wait_scans s p h))))

  pub scan_all_moves : (ms : List Move) (s : S) → I s → Counts s (scan_all o job rules ms s)
  unfolding scan_all
  scan_all_moves ms s h =
      let start : Progress S = record {
        targets = job.target_ips;
        dropped = [];
        checked = false;
        scans = [];
        state = s;
      } in
      let p = moves o job rules ms start in
      Counts-finish_targets p.targets s p
        (Counts-moves ms s start ((tt, h, omega arith, omega arith, λ g. (g, refl)), λ g. refl))

module _ {S : Type 0} (o : Deps S) (job : DiscoveryJob) (rules : List Rule) where
  -- Scans that have ended have each inserted a result for its host.
  pub map-inserted :
      (xs : List Scan)
      → running_scans o job rules xs ≡ 0
      → map (λ r. r.ip_address) (inserted xs) ≡ map (host_of o job rules) xs
  unfolding inserted running_scans
  map-inserted [] h = refl
  map-inserted (done r ∷ xs) h = ap (λ hs. r.ip_address ∷ hs) (map-inserted xs h)
  map-inserted (fetching t ∷ xs) h = ground arith
  map-inserted (upserting host i ∷ xs) h = ground arith
  map-inserted (recording r next ∷ xs) h = ground arith
  map-inserted (assigning r id name ∷ xs) h = ground arith
