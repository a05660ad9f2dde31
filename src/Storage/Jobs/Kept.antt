-- ===== src/Storage/Jobs/Kept.antt =====
-- internal/storage/postgres/discovery_job_repo.go and discovery_result_repo.go: what the calls of a job leave
-- as it is.
use maga.Base.{ℕ, ◌≡◌, refl, Option, none, some, Str, ok}
use maga.Domain.{Uuid}
use maga.Discovery.Orchestrator.{JobStatus, DiscoveryJobResult}
use maga.Storage.Jobs.{JobRow, JobDb, job_by_id, insert_found, update_found, update_status}

pub insert_found-jobs :
    (r : DiscoveryJobResult) (found : Option JobRow) (db : JobDb)
    → (insert_found r found db).1.jobs ≡ db.jobs
insert_found-jobs r none db = refl
insert_found-jobs r (some j) db = refl

pub update_found_ok :
    (now : ℕ) (id : Uuid) (status : JobStatus) (m : Str) (db : JobDb) {j : JobRow}
    → job_by_id id db.jobs ≡ some j
    → (update_status now id status m db).0 ≡ ok tt
unfolding update_status
update_found_ok now id status m db h = rw h refl

update_found-results :
    (now : ℕ) (id : Uuid) (status : JobStatus) (m : Str) (found : Option JobRow) (db : JobDb)
    → (update_found now id status m found db).1.results ≡ db.results
update_found-results now id status m none db = refl
update_found-results now id status m (some j) db = refl

pub update_results :
    (now : ℕ) (id : Uuid) (status : JobStatus) (m : Str) (db : JobDb)
    → (update_status now id status m db).1.results ≡ db.results
unfolding update_status
update_results now id status m db = update_found-results now id status m (job_by_id id db.jobs) db
