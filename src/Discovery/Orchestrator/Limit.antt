-- ===== src/Discovery/Orchestrator/Limit.antt =====
-- internal/discovery/orchestrator.go: `g.SetLimit(max(o.concurrency, 1))`.
use maga.Base.{
  ℕ, zero, suc, ◌+◌, ◌≤◌, ◌≡◌, refl, arith, max, List, [], ◌∷◌, ◌++◌, Str, ltb, Bool-cases, inl,
  inr,
}
use maga.Domain.{Rule}
use maga.Discovery.Orchestrator.{
  Deps, DiscoveryJob, Scan, fetching, upserting, recording, assigning, done, Move, launch, advance,
  Progress, step, step_at, running_scans, launch_next, move, moves,
}

module _ {S : Type 0} (o : Deps S) (job : DiscoveryJob) (rules : List Rule) where
  running-append :
      (xs ys : List Scan)
      → running_scans o job rules (xs ++ ys)
        ≡ running_scans o job rules xs + running_scans o job rules ys
  unfolding running_scans
  running-append [] ys = omega arith
  running-append (x ∷ xs) ys = ground (arith, running-append xs ys)

  running-cons-step :
      (x : Scan) (s : S) (xs : List Scan)
      → running_scans o job rules ((step o job rules x s).0 ∷ xs)
        ≤ running_scans o job rules (x ∷ xs)
  unfolding running_scans step
  running-cons-step (fetching t) s xs = ground arith
  running-cons-step (upserting h i) s xs = ground arith
  running-cons-step (recording r next) s xs = ground arith
  running-cons-step (assigning r id name) s xs = ground arith
  running-cons-step (done r) s xs = omega arith

  running-step_at :
      (n : ℕ) (xs : List Scan) (s : S)
      → running_scans o job rules (step_at o job rules n xs s).0 ≤ running_scans o job rules xs
  unfolding step_at running_scans
  running-step_at n [] s = omega arith
  running-step_at zero (x ∷ xs) s = running-cons-step x s xs
  running-step_at (suc n) (x ∷ xs) s = ground (arith, running-step_at n xs s)

  abbrev pub IsLimited : Progress S → Type 0
  IsLimited p = running_scans o job rules p.scans ≤ max o.concurrency 1

  IsLimited-launch_next :
      (ts : List Str) (p : Progress S) → IsLimited p → IsLimited (launch_next o job rules ts p)
  IsLimited-launch_next [] p h = h
  IsLimited-launch_next (t ∷ ts) p h = elim (Bool-cases p.checked) [
    | inl waiting ↦
        elim (Bool-cases (ltb (running_scans o job rules p.scans) (max o.concurrency 1))) [
          | inl room ↦
              let one : running_scans o job rules (fetching t ∷ []) ≡ 1 =
                unfold running_scans in refl in
              rw (waiting, room)
                (ground (arith, room, one, running-append p.scans (fetching t ∷ [])))
          | inr full ↦ rw (waiting, full) h
        ]
    | inr unchecked ↦ elim (Bool-cases (o.is_cancelled p.state)) [
      | inl gone ↦ rw (unchecked, gone) h
      | inr on ↦ rw (unchecked, on) h
    ]
  ]

  -- At every moment of a schedule, no more scans run than the limit of the group.
  pub moves-IsLimited :
      (ms : List Move) (p : Progress S) → IsLimited p → IsLimited (moves o job rules ms p)
  unfolding moves move
  moves-IsLimited [] p h = h
  moves-IsLimited (launch ∷ ms) p h =
      moves-IsLimited ms (move o job rules launch p) (IsLimited-launch_next p.targets p h)
  moves-IsLimited (advance n ∷ ms) p h =
      let le = running-step_at n p.scans p.state in
      moves-IsLimited ms (move o job rules (advance n) p) (omega (arith, le, h))
