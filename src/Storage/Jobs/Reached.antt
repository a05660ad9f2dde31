-- ===== src/Storage/Jobs/Reached.antt =====
-- internal/storage/postgres/discovery_job_repo.go and discovery_result_repo.go: the tables that the statements
-- on jobs lead to.
use maga.Base.{
  ℕ, ◌+◌, ◌≡◌, refl, ◌∙◌, arith, Bool, true, ◌&&◌, List, [], ◌∷◌, ◌++◌, Option, none, some, Str,
  ltb,
}
use maga.Domain.{Uuid}
use maga.Discovery.Orchestrator.{JobStatus, DiscoveryJobResult}
use maga.Storage.Jobs.{
  JobRow, JobDb, new_job, create, with_status, update_rows, update_found, update_status, job_by_id,
  insert_found, insert_result,
}
use maga.Storage.Jobs.Times.{with_status-id}

-- Any sequence of the statements that write, on tables that were empty.
pub data JobsReachable : JobDb → Type 0 where
  empty_jobs : (first : ℕ) → JobsReachable (record { next_id = first; jobs = []; results = [] })
  after_create :
      {db : JobDb} (job_type spec : Str) (ips : List Str) (version community : Str)
      → JobsReachable db
      → JobsReachable (create job_type spec ips version community db).1
  after_update :
      {db : JobDb} (now : ℕ) (id : Uuid) (status : JobStatus) (m : Str)
      → JobsReachable db
      → JobsReachable (update_status now id status m db).1
  after_insert :
      {db : JobDb} (r : DiscoveryJobResult)
      → JobsReachable db
      → JobsReachable (insert_result r db).1

-- The ids that have been given out.
ids_below : ℕ → List JobRow → Bool
ids_below n [] = true
ids_below n (j ∷ js) = ltb j.id n && ids_below n js

ids_below-append :
    (n : ℕ) (js : List JobRow) (j : JobRow)
    → j.id ≡ n
    → ids_below n js ≡ true
    → ids_below (n + 1) (js ++ j ∷ []) ≡ true
unfolding ids_below
ids_below-append n [] j same h = ground arith
ids_below-append n (k ∷ js) j same h = ground (arith, ids_below-append n js j same)

ids_below-update_rows :
    (n now : ℕ) (status : JobStatus) (m : Str) (id : Uuid) (js : List JobRow)
    → ids_below n (update_rows (with_status now status m) id js) ≡ ids_below n js
unfolding ids_below update_rows
ids_below-update_rows n now status m id [] = refl
ids_below-update_rows n now status m id (j ∷ js) =
    ground (arith, with_status-id now status m j, ids_below-update_rows n now status m id js)

job_by_id-ids_below : (n : ℕ) (js : List JobRow) → ids_below n js ≡ true → job_by_id n js ≡ none
unfolding ids_below job_by_id
job_by_id-ids_below n [] h = refl
job_by_id-ids_below n (j ∷ js) h = ground (arith, job_by_id-ids_below n js)

abbrev AreBelow : JobDb → Type 0
AreBelow db = ids_below db.next_id db.jobs ≡ true

update_found-AreBelow :
    (now : ℕ) (id : Uuid) (status : JobStatus) (m : Str) (found : Option JobRow) (db : JobDb)
    → AreBelow db
    → AreBelow (update_found now id status m found db).1
update_found-AreBelow now id status m none db h = h
update_found-AreBelow now id status m (some j) db h =
    ids_below-update_rows db.next_id now status m id db.jobs ∙ h

insert_found-AreBelow :
    (r : DiscoveryJobResult) (found : Option JobRow) (db : JobDb)
    → AreBelow db
    → AreBelow (insert_found r found db).1
insert_found-AreBelow r none db h = h
insert_found-AreBelow r (some j) db h = h

reached-AreBelow : {db : JobDb} → JobsReachable db → AreBelow db
unfolding create update_status insert_result ids_below
reached-AreBelow (empty_jobs first) = refl
reached-AreBelow (after_create {db} job_type spec ips version community r) =
    ids_below-append db.next_id db.jobs (new_job db.next_id job_type spec ips version community)
      refl (reached-AreBelow r)
reached-AreBelow (after_update {db} now id status m r) =
    update_found-AreBelow now id status m (job_by_id id db.jobs) db (reached-AreBelow r)
reached-AreBelow (after_insert {db} x r) =
    insert_found-AreBelow x (job_by_id x.job_id db.jobs) db (reached-AreBelow r)

-- The next id is that of no job.
pub reached_next_id : {db : JobDb} → JobsReachable db → job_by_id db.next_id db.jobs ≡ none
reached_next_id {db} r = job_by_id-ids_below db.next_id db.jobs (reached-AreBelow r)
