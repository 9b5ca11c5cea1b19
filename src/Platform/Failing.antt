-- ===== src/Platform/Failing.antt =====
-- What complete_job and fail_job do to the row of a job (services/platform_app/db/repository.py).
use mathlib.Core.Option
use production_cloud_reliabi.Prelude.{
  ℕ, ◌≡◌, refl, ◌∙◌, ap, String, some, List, [], ◌∷◌, Bool-cases, inl, inr, count_if, arith,
}
use production_cloud_reliabi.Errors.{ok}
use production_cloud_reliabi.Codec.{Json}
use production_cloud_reliabi.Database.{Uuid, Timestamp, JobStatus, take_chars, update_where}
use production_cloud_reliabi.Platform.Tables.{
  PlatformJob, PlatformTables, has_id, find, done_at, broken, complete_job,
}

pub find-update :
    (i : Uuid) (f : PlatformJob → PlatformJob) (rows : List PlatformJob)
    → ((r : PlatformJob) → (f r).id ≡ r.id)
    → find i (update_where (has_id i) f rows) ≡ Option.map f (find i rows)
find-update i f [] same = refl
find-update i f (r ∷ rows) same = ground (arith, same r, find-update i f rows same)

complete_job-jobs :
    (now : Timestamp) (uuid : ℕ → Uuid) (i : Uuid) (result : Json) (db db' : PlatformTables)
    → complete_job now uuid i result db ≡ ok (tt, db')
    → (db'.jobs ≡ update_where (has_id i) (done_at now) db.jobs) × (count_if (has_id i) db.jobs ≡ 1)
unfolding complete_job
complete_job-jobs now uuid i result db db' h = ground arith

find-counted :
    (i : Uuid) (rows : List PlatformJob)
    → count_if (has_id i) rows ≡ 1
    → (r : PlatformJob) × (find i rows ≡ some r)
find-counted i [] h = ground arith
find-counted i (r ∷ rows) h = elim (Bool-cases (has_id i r)) [
  | inl y ↦ (r, rw y refl)
  | inr n ↦ let (s, e) = find-counted i rows (ground arith) in (s, rw n e)
]

-- A job as it was, but failed with this error.
pub record IsBroken (error : String) (r : PlatformJob) (r' : PlatformJob) : Type 0 where
  pub id : r'.id ≡ r.id
  pub job_type : r'.job_type ≡ r.job_type
  pub payload : r'.payload ≡ r.payload
  pub attempts : r'.attempts ≡ r.attempts
  pub status : r'.status ≡ JobStatus.failed
  pub last_error : r'.last_error ≡ some (take_chars 1000 error)

pub IsBroken-broken :
    (now : Timestamp) (error : String) (r : PlatformJob) → IsBroken error r (broken now error r)
IsBroken-broken now error r = record {
  id = refl;
  job_type = refl;
  payload = refl;
  attempts = refl;
  status = refl;
  last_error = refl;
}

-- Once complete_job has returned, the job is in the table, and completed.
pub complete_job-completed :
    (now : Timestamp) (uuid : ℕ → Uuid) (i : Uuid) (result : Json) (db db' : PlatformTables)
    → complete_job now uuid i result db ≡ ok (tt, db')
    → (r : PlatformJob) × (find i db'.jobs ≡ some r) × (r.status ≡ JobStatus.completed)
complete_job-completed now uuid i result db db' h =
    let (jobs, one) = complete_job-jobs now uuid i result db db' h in
    let (r, e) = find-counted i db.jobs one in
    (
      done_at now r,
      ap (find i) jobs
          ∙ find-update i (done_at now) db.jobs (λ s. refl)
          ∙ ap (Option.map (done_at now)) e,
      refl,
    )
