-- ===== src/Discovery/Orchestrator/Records/Steps.antt =====
-- internal/discovery/orchestrator.go: a call of a scan inserts the result that the scan goes on with.
use maga.Base.{
  ◌⊎◌, inl, inr, ap, ◌∙◌, ◌++◌, true, false, ℕ, zero, suc, ◌≡◌, refl, arith, Bool, List, [], ◌∷◌,
  Option, none, some, Str, Result, ok, err, All,
}
use maga.Domain.{Uuid, Rule, NetworkElement, RepoError, discovery}
use maga.Discovery.Orchestrator.{
  Deps, DiscoveryJob, DiscoveryJobResult, Identity, SnmpError, timeout, failure, Scan, fetching,
  upserting, recording, assigning, done, host_only, fetched, upserted, recorded, step, step_at,
  finish_scan, finish_scans,
}
use maga.Discovery.Orchestrator.Records.{
  tally, tally-append, inserted, IsOwn, RowsGrow, Moved, Moved-trans, Moved-head, Moved-tail,
}

-- what was not over at the end was not over before
pub still_on : (b c : Bool) → (b ≡ true → c ≡ true) → c ≡ false → b ≡ false
still_on true c lasts h = let bad : c ≡ true = lasts refl in cc
still_on false c lasts h = refl

module _ {S : Type 0} (o : Deps S) (job : DiscoveryJob) (rules : List Rule) (I : S → Type 0)
    (rows : S → List DiscoveryJobResult) (grow : RowsGrow o job.id I rows)
    (f : DiscoveryJobResult → Bool) where
  IsOwn-fetched :
      (host : Str) (r : Result SnmpError Identity) → IsOwn job.id (fetched o job rules host r)
  unfolding IsOwn
  IsOwn-fetched host (ok i) = tt
  IsOwn-fetched host (err (timeout m)) = refl
  IsOwn-fetched host (err (failure m)) = refl

  inserted-fetched :
      (host : Str) (r : Result SnmpError Identity) → inserted (fetched o job rules host r ∷ []) ≡ []
  unfolding inserted
  inserted-fetched host (ok i) = refl
  inserted-fetched host (err (timeout m)) = refl
  inserted-fetched host (err (failure m)) = refl

  IsOwn-upserted :
      (host : Str) (i : Identity) (r : Result RepoError NetworkElement)
      → IsOwn job.id (upserted o job rules host i r)
  unfolding IsOwn
  IsOwn-upserted host i (ok e) = refl
  IsOwn-upserted host i (err e) = refl

  inserted-upserted :
      (host : Str) (i : Identity) (r : Result RepoError NetworkElement)
      → inserted (upserted o job rules host i r ∷ []) ≡ []
  unfolding inserted
  inserted-upserted host i (ok e) = refl
  inserted-upserted host i (err e) = refl

  IsOwn-recorded :
      (r : DiscoveryJobResult) (next : Option (Uuid × Str))
      → IsOwn job.id (recorded o job rules r next)
  unfolding IsOwn
  IsOwn-recorded r none = tt
  IsOwn-recorded r (some (id, name)) = tt

  inserted-recorded :
      (r : DiscoveryJobResult) (next : Option (Uuid × Str))
      → inserted (recorded o job rules r next ∷ []) ≡ r ∷ []
  unfolding inserted
  inserted-recorded r none = refl
  inserted-recorded r (some (id, name)) = refl

  -- a call that leaves the rows and what is inserted as they are
  same_rows :
      (xs ys : List Scan) (s t : S)
      → (o.is_cancelled s ≡ true → o.is_cancelled t ≡ true)
      → rows t ≡ rows s
      → inserted ys ≡ inserted xs
      → All (IsOwn job.id) ys
      → I t
      → Moved job.id I rows o.is_cancelled f xs s ys t
  same_rows xs ys s t lasts same more own h = (
    own,
    h,
    rw same (omega arith),
    rw (same, more) (omega arith),
    λ g. (still_on (o.is_cancelled s) (o.is_cancelled t) lasts g, rw (same, more) refl),
  )

  -- an insert
  inserts_row :
      (r : DiscoveryJobResult) (y : Scan) (s t : S)
      → (o.is_cancelled s ≡ true → o.is_cancelled t ≡ true)
      → ((o.is_cancelled t ≡ true) × (rows t ≡ rows s)) ⊎ (rows t ≡ rows s ++ r ∷ [])
      → inserted (y ∷ []) ≡ r ∷ []
      → IsOwn job.id y
      → I t
      → (next : Option (Uuid × Str))
      → Moved job.id I rows o.is_cancelled f (recording r next ∷ []) s (y ∷ []) t
  unfolding inserted tally
  inserts_row r y s t lasts (inl (gone, same)) one own h next =
      ((own, tt), h, rw same (omega arith), rw (same, one) (omega arith), λ g. cc)
  inserts_row r y s t lasts (inr same) one own h next =
      let grown = ap (tally f) same ∙ tally-append f (rows s) (r ∷ []) in
      let more = ap (tally f) one in
      (
        (own, tt),
        h,
        omega (arith, grown),
        omega (arith, grown, more),
        λ g. (still_on (o.is_cancelled s) (o.is_cancelled t) lasts g, omega (arith, grown, more)),
      )

  step_moves :
      (x : Scan) (s : S)
      → IsOwn job.id x
      → I s
      → let r = step o job rules x s in
        Moved job.id I rows o.is_cancelled f (x ∷ []) s (r.0 ∷ []) r.1
  unfolding step IsOwn inserted
  step_moves (fetching t) s own h =
      let r = o.get_identity t job.snmp_community job.snmp_version s in
      same_rows (fetching t ∷ []) (fetched o job rules (host_only o job rules t) r.0 ∷ []) s r.1
        (grow.lasts.fetches t job.snmp_community job.snmp_version s)
        (grow.fetches t job.snmp_community job.snmp_version s)
        (inserted-fetched (host_only o job rules t) r.0)
        (IsOwn-fetched (host_only o job rules t) r.0, tt)
        (grow.keep.fetches t job.snmp_community job.snmp_version s h)
  step_moves (upserting host i) s own h =
      let r = o.upsert_discovered host i s in
      same_rows (upserting host i ∷ []) (upserted o job rules host i r.0 ∷ []) s r.1
        (grow.lasts.upserts host i s) (grow.upserts host i s) (inserted-upserted host i r.0)
        (IsOwn-upserted host i r.0, tt) (grow.keep.upserts host i s h)
  step_moves (recording r next) s own h =
      inserts_row r (recorded o job rules r next) s (o.insert_result r s).1 (grow.lasts.inserts r s)
        (grow.inserts r s h own) (inserted-recorded r next) (IsOwn-recorded r next)
        (grow.keep.inserts r s h) next
  step_moves (assigning r id name) s own h =
      same_rows (assigning r id name ∷ []) (done r ∷ []) s (o.assign id name rules discovery s).1
        (grow.lasts.assigns id name rules discovery s) (grow.assigns id name rules discovery s) refl
        (tt, tt) (grow.keep.assigns id name rules discovery s h)
  step_moves (done r) s own h =
      same_rows (done r ∷ []) (done r ∷ []) s s (λ g. g) refl refl (tt, tt) h

  pub step_at_moves :
      (n : ℕ) (xs : List Scan) (s : S)
      → All (IsOwn job.id) xs
      → I s
      → let r = step_at o job rules n xs s in Moved job.id I rows o.is_cancelled f xs s r.0 r.1
  unfolding step_at
  step_at_moves n [] s owns h = same_rows [] [] s s (λ g. g) refl refl tt h
  step_at_moves zero (x ∷ xs) s (own, owns) h =
      let r = step o job rules x s in
      Moved-head job.id I rows o.is_cancelled f x r.0 xs s r.1 owns (step_moves x s own h)
  step_at_moves (suc n) (x ∷ xs) s (own, owns) h =
      let r = step_at o job rules n xs s in
      Moved-tail job.id I rows o.is_cancelled f x xs r.0 s r.1 own (step_at_moves n xs s owns h)

  finish_scan_moves :
      (x : Scan) (s : S)
      → IsOwn job.id x
      → I s
      → let r = finish_scan o job rules x s in
        Moved job.id I rows o.is_cancelled f (x ∷ []) s (r.0 ∷ []) r.1
  unfolding finish_scan
  finish_scan_moves x s own h =
      let a = step o job rules x s in
      let b = step o job rules a.0 a.1 in
      let c = step o job rules b.0 b.1 in
      let d = step o job rules c.0 c.1 in
      let m1 = step_moves x s own h in
      let m2 = step_moves a.0 a.1 m1.0.0 m1.1 in
      let m3 = step_moves b.0 b.1 m2.0.0 m2.1 in
      let m4 = step_moves c.0 c.1 m3.0.0 m3.1 in
      let to_b =
        Moved-trans job.id I rows o.is_cancelled f (x ∷ []) (a.0 ∷ []) (b.0 ∷ []) s a.1 b.1 m1 m2 in
      let to_c =
        Moved-trans job.id I rows o.is_cancelled f (x ∷ []) (b.0 ∷ []) (c.0 ∷ []) s b.1 c.1 to_b
          m3 in
      Moved-trans job.id I rows o.is_cancelled f (x ∷ []) (c.0 ∷ []) (d.0 ∷ []) s c.1 d.1 to_c m4

  pub finish_scans_move :
      (xs : List Scan) (s : S)
      → All (IsOwn job.id) xs
      → I s
      → let r = finish_scans o job rules xs s in Moved job.id I rows o.is_cancelled f xs s r.0 r.1
  unfolding finish_scans
  finish_scans_move [] s owns h = same_rows [] [] s s (λ g. g) refl refl tt h
  finish_scans_move (x ∷ xs) s (own, owns) h =
      let r = finish_scan o job rules x s in
      let rs = finish_scans o job rules xs r.1 in
      let first = finish_scan_moves x s own h in
      Moved-trans job.id I rows o.is_cancelled f (x ∷ xs) (r.0 ∷ xs) (r.0 ∷ rs.0) s r.1 rs.1
        (Moved-head job.id I rows o.is_cancelled f x r.0 xs s r.1 owns first)
        (Moved-tail job.id I rows o.is_cancelled f r.0 xs rs.0 r.1 rs.1 first.0.0
          (finish_scans_move xs r.1 owns first.1))
