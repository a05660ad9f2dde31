-- ===== src/Discovery/Orchestrator/Records.antt =====
-- internal/discovery/orchestrator.go: under any schedule, the results that the scans end with are the rows that
-- they insert. Rows are compared by counting those that pass a test.
pub mod Steps
pub mod Runs
use maga.Base.{
  ℕ, suc, ◌+◌, ◌≤◌, ◌⊎◌, true, false, ◌≡◌, arith, Bool, List, [], ◌∷◌, ◌++◌, Str, if◌then◌else◌,
  All,
}
use maga.Domain.{Uuid, Rule, TriggerSource}
use maga.Discovery.Orchestrator.{
  Deps, DiscoveryJobResult, Identity, Scan, fetching, upserting, recording, assigning, done,
}
use maga.Discovery.Orchestrator.Keeps.{ScansKeep}

-- how many results pass the test
unfoldable pub tally : (DiscoveryJobResult → Bool) → List DiscoveryJobResult → ℕ
tally f [] = 0
tally f (r ∷ rs) = let rest = tally f rs in if f r then suc rest else rest

pub tally-append :
    (f : DiscoveryJobResult → Bool) (rs qs : List DiscoveryJobResult)
    → tally f (rs ++ qs) ≡ tally f rs + tally f qs
unfolding tally
tally-append f [] qs = omega arith
tally-append f (r ∷ rs) qs = ground (arith, tally-append f rs qs)

-- The results of the scans that have made their insert.
unfoldable pub inserted : List Scan → List DiscoveryJobResult
inserted [] = []
inserted (assigning r id name ∷ xs) = r ∷ inserted xs
inserted (done r ∷ xs) = r ∷ inserted xs
inserted (fetching t ∷ xs) = inserted xs
inserted (upserting host i ∷ xs) = inserted xs
inserted (recording r next ∷ xs) = inserted xs

-- The result that a scan is about to insert is one of the job.
unfoldable pub IsOwn : Uuid → Scan → Type 0
IsOwn id (recording r next) = r.job_id ≡ id
IsOwn id x = Unit

-- The calls keep `I` and leave the rows as they are, but for an insert, which appends a result of the job, or
-- nothing if the context is cancelled then. A context that is cancelled stays so.
pub record RowsGrow {S : Type 0} (o : Deps S) (id : Uuid) (I : S → Type 0)
    (rows : S → List DiscoveryJobResult) : Type 0 where
  pub keep : ScansKeep o I
  pub lasts : ScansKeep o (λ s. o.is_cancelled s ≡ true)
  pub fetches :
      (t community version : Str) (s : S) → rows (o.get_identity t community version s).1 ≡ rows s
  pub upserts : (host : Str) (i : Identity) (s : S) → rows (o.upsert_discovered host i s).1 ≡ rows s
  pub assigns :
      (element : Uuid) (name : Str) (rules : List Rule) (trigger : TriggerSource) (s : S)
      → rows (o.assign element name rules trigger s).1 ≡ rows s
  pub inserts :
      (r : DiscoveryJobResult) (s : S)
      → I s
      → r.job_id ≡ id
      → ((o.is_cancelled (o.insert_result r s).1 ≡ true) × (rows (o.insert_result r s).1 ≡ rows s))
        ⊎ (rows (o.insert_result r s).1 ≡ rows s ++ r ∷ [])

module _ {S : Type 0} (id : Uuid) (I : S → Type 0) (rows : S → List DiscoveryJobResult)
    (gone : S → Bool) (f : DiscoveryJobResult → Bool) where
  -- From the scans and the state before to those after: no row is lost, and the rows have no more to show for it
  -- than `inserted`; they have as much if the context is not cancelled at the end.
  abbrev pub Moved : List Scan → S → List Scan → S → Type 0
  Moved xs s ys t =
      All (IsOwn id) ys
      × I t
      × (tally f (rows s) ≤ tally f (rows t))
      × (tally f (rows t) + tally f (inserted xs) ≤ tally f (rows s) + tally f (inserted ys))
      × (gone t ≡ false
          → (gone s ≡ false)
            × (tally f (rows t) + tally f (inserted xs) ≡ tally f (rows s) + tally f (inserted ys)))

  tally-inserted :
      (x : Scan) (xs : List Scan)
      → tally f (inserted (x ∷ xs)) ≡ tally f (inserted (x ∷ [])) + tally f (inserted xs)
  unfolding inserted tally
  tally-inserted (fetching t) xs = omega arith
  tally-inserted (upserting host i) xs = omega arith
  tally-inserted (recording r next) xs = omega arith
  tally-inserted (assigning r id name) xs = tally-append f (r ∷ []) (inserted xs)
  tally-inserted (done r) xs = tally-append f (r ∷ []) (inserted xs)

  pub tally-inserted_append :
      (xs ys : List Scan)
      → tally f (inserted (xs ++ ys)) ≡ tally f (inserted xs) + tally f (inserted ys)
  unfolding inserted tally
  tally-inserted_append [] ys = ground arith
  tally-inserted_append (x ∷ xs) ys =
      omega (arith, tally-inserted x (xs ++ ys), tally-inserted x xs, tally-inserted_append xs ys)

  pub Moved-trans :
      (xs ys zs : List Scan) (s t u : S) → Moved xs s ys t → Moved ys t zs u → Moved xs s zs u
  Moved-trans xs ys zs s t u (own, h, lo, hi, on) (own', h', lo', hi', on') = (
    own',
    h',
    omega (arith, lo, lo'),
    omega (arith, hi, hi'),
    λ g. let (g', e') = on' g in let (g'', e) = on g' in (g'', omega (arith, e, e')),
  )

  pub Moved-head :
      (x y : Scan) (xs : List Scan) (s t : S)
      → All (IsOwn id) xs
      → Moved (x ∷ []) s (y ∷ []) t
      → Moved (x ∷ xs) s (y ∷ xs) t
  Moved-head x y xs s t owns (own, h, lo, hi, on) = (
    (own.0, owns),
    h,
    lo,
    omega (arith, hi, tally-inserted x xs, tally-inserted y xs),
    λ g. let (g', e) = on g in (g', omega (arith, e, tally-inserted x xs, tally-inserted y xs)),
  )

  pub Moved-tail :
      (x : Scan) (xs ys : List Scan) (s t : S)
      → IsOwn id x
      → Moved xs s ys t
      → Moved (x ∷ xs) s (x ∷ ys) t
  Moved-tail x xs ys s t own (owns, h, lo, hi, on) = (
    (own, owns),
    h,
    lo,
    omega (arith, hi, tally-inserted x xs, tally-inserted x ys),
    λ g. let (g', e) = on g in (g', omega (arith, e, tally-inserted x xs, tally-inserted x ys)),
  )
