-- ===== src/Storage/Jobs/Times.antt =====
-- internal/storage/postgres/discovery_job_repo.go: a job from its start to its end.
use maga.Base.{ℕ, ◌≡◌, refl, ap, arith, List, [], ◌∷◌, some, Str, ◌==◌, ok, Bool-cases, inl, inr}
use maga.Domain.{Uuid}
use maga.Discovery.Orchestrator.{JobStatus, pending, running, completed, failed, cancelled}
use maga.Storage.Jobs.{
  JobRow, JobDb, with_status, update_rows, job_by_id, update_status, get, null_if_empty,
}

pub with_status-id :
    (now : ℕ) (status : JobStatus) (m : Str) (j : JobRow) → (with_status now status m j).id ≡ j.id
with_status-id now pending m j = refl
with_status-id now running m j = refl
with_status-id now completed m j = refl
with_status-id now failed m j = refl
with_status-id now cancelled m j = refl

job_by_id-update_rows :
    (now : ℕ) (status : JobStatus) (m : Str) (id : Uuid) (js : List JobRow) (j : JobRow)
    → job_by_id id js ≡ some j
    → job_by_id id (update_rows (with_status now status m) id js)
      ≡ some (with_status now status m j)
unfolding job_by_id update_rows
job_by_id-update_rows now status m id [] j h = cc
job_by_id-update_rows now status m id (k ∷ js) j h = elim (Bool-cases (k.id == id)) [
  | inl same ↦
      let e : k ≡ j = ground arith in
      rw (same, with_status-id now status m k, same) (ap (λ x. some (with_status now status m x)) e)
  | inr differ ↦ rw (differ, differ) (job_by_id-update_rows now status m id js j (ground arith))
]

pub job_by_id-update_status :
    (now : ℕ) (status : JobStatus) (m : Str) (id : Uuid) (db : JobDb) (j : JobRow)
    → job_by_id id db.jobs ≡ some j
    → job_by_id id (update_status now id status m db).1.jobs ≡ some (with_status now status m j)
unfolding update_status
job_by_id-update_status now status m id db j h =
    rw h (job_by_id-update_rows now status m id db.jobs j h)

abbrev pub IsFinal : JobStatus → Type 0
IsFinal pending = ⊥
IsFinal running = ⊥
IsFinal _ = Unit

pub final_times :
    (start stop : ℕ) (status : JobStatus) (m : Str) (j : JobRow)
    → IsFinal status
    → with_status stop status m (with_status start running [] j) ≡ record j {
      status = status;
      started_at = some start;
      completed_at = some stop;
      error_message = null_if_empty m;
    }
final_times start stop pending m j h = elim h [ ]
final_times start stop running m j h = elim h [ ]
final_times start stop completed m j h = refl
final_times start stop failed m j h = refl
final_times start stop cancelled m j h = refl

-- A job that was set to running and then to a status that ends it has both times and that status, its
-- error message if there is one, and the rest of its row as it was.
pub get-update_status :
    (start stop : ℕ) (status : JobStatus) (m : Str) (id : Uuid) (db : JobDb) (j : JobRow)
    → IsFinal status
    → get id db ≡ ok j
    → get id (update_status stop id status m (update_status start id running [] db).1).1
      ≡ ok (record j {
        status = status;
        started_at = some start;
        completed_at = some stop;
        error_message = null_if_empty m;
      })
unfolding get
get-update_status start stop status m id db j final h =
    let found : job_by_id id db.jobs ≡ some j = ground arith in
    let after =
      job_by_id-update_status stop status m id (update_status start id running [] db).1
        (with_status start running [] j) (job_by_id-update_status start running [] id db j found) in
    rw after (ap ok (final_times start stop status m j final))
