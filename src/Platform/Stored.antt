-- ===== src/Platform/Stored.antt =====
-- Results are never lost in the earlier generation of the services
-- (services/platform_app/db/repository.py): what its transactions keep, whoever runs them.
use production_cloud_reliabi.Prelude.{
  ℕ, ◌≡◌, refl, sym, ◌∙◌, ap, String, Bool, true, false, some, List, [], ◌∷◌, ◌++◌, ◌==◌, ◌&&◌, ◌⊎◌,
  inl, inr, Bool-cases, ==→≡, if◌then◌else◌, any_of, arith,
}
use production_cloud_reliabi.Errors.{Result, ok, err}
use production_cloud_reliabi.Codec.{Json}
use production_cloud_reliabi.Database.{Uuid, Timestamp, JobStatus, JobResultRow, update_where}
use production_cloud_reliabi.Repository.Jobs.{result_row}
use production_cloud_reliabi.Platform.Tables.{
  PlatformJob, PlatformTables, has_id, find, may_start, started, done_at, broken, new_platform_job,
  create_customer, create_job, mark_job_processing, complete_job, fail_job,
}
use production_cloud_reliabi.Platform.World.{Change, run_change, run_changes, committed}

abbrev pub has_result : Uuid → List JobResultRow → Bool
has_result i = any_of (λ (r : JobResultRow). r.job_id == i)

abbrev pub is_completed : JobStatus → Bool
is_completed JobStatus.completed = true
is_completed _ = false

-- Some row of the job is completed.
abbrev pub is_done : Uuid → List PlatformJob → Bool
is_done i = any_of (λ (r : PlatformJob). has_id i r && is_completed r.status)

-- A completed job has its result.
abbrev pub IsStored : PlatformTables → Type 0
IsStored db = (i : Uuid) → is_done i db.jobs ≡ true → has_result i db.job_results ≡ true

has_result-append :
    (i : Uuid) (rows : List JobResultRow) (row : JobResultRow)
    → has_result i (rows ++ row ∷ []) ≡ (if has_result i rows then true else row.job_id == i)
has_result-append i [] row = ground arith
has_result-append i (r ∷ rows) row = ground (arith, has_result-append i rows row)

is_done-append :
    (i : Uuid) (rows : List PlatformJob) (row : PlatformJob)
    → row.status ≡ JobStatus.pending
    → is_done i (rows ++ row ∷ []) ≡ is_done i rows
is_done-append i [] row p = ground arith
is_done-append i (r ∷ rows) row p = ground (arith, is_done-append i rows row p)

is_done-started :
    (i j : Uuid) (now : Timestamp) (rows : List PlatformJob)
    → is_done j
        (update_where (λ (r : PlatformJob). has_id i r && may_start r.status) (started now) rows)
      ≡ true
    → is_done j rows ≡ true
is_done-started i j now [] h = h
is_done-started i j now (r ∷ rows) h = ground (arith, is_done-started i j now rows)

is_done-broken :
    (i j : Uuid) (now : Timestamp) (error : String) (rows : List PlatformJob)
    → is_done j (update_where (has_id i) (broken now error) rows) ≡ true
    → is_done j rows ≡ true
is_done-broken i j now error [] h = h
is_done-broken i j now error (r ∷ rows) h = ground (arith, is_done-broken i j now error rows)

is_done-done_at :
    (i j : Uuid) (now : Timestamp) (rows : List PlatformJob)
    → (j == i) ≡ false
    → is_done j (update_where (has_id i) (done_at now) rows) ≡ is_done j rows
is_done-done_at i j now [] h = refl
is_done-done_at i j now (r ∷ rows) h = ground (arith, is_done-done_at i j now rows h)

pub find-is_done :
    (i : Uuid) (rows : List PlatformJob) (r : PlatformJob)
    → find i rows ≡ some r
    → is_completed r.status ≡ true
    → is_done i rows ≡ true
find-is_done i [] r e h = ground arith
find-is_done i (s ∷ rows) r e h = ground (arith, find-is_done i rows r)

module _ (now : Timestamp) (uuid : ℕ → Uuid) (i : Uuid) (result : Json) (db db' : PlatformTables)
    (done : complete_job now uuid i result db ≡ ok (tt, db')) where
  complete_job-jobs : db'.jobs ≡ update_where (has_id i) (done_at now) db.jobs
  unfolding complete_job
  complete_job-jobs = ground arith

  complete_job-results :
      ((has_result i db.job_results ≡ true) × (db'.job_results ≡ db.job_results))
      ⊎ (db'.job_results ≡ db.job_results ++ result_row (uuid 0) i result now ∷ [])
  unfolding complete_job
  complete_job-results = ground arith

  pub complete_job-has_result : has_result i db'.job_results ≡ true
  complete_job-has_result = elim complete_job-results [
    | inl (h, e) ↦ rw e h
    | inr e ↦
        rw (e, has_result-append i db.job_results (result_row (uuid 0) i result now)) (ground arith)
  ]

  complete_job-keeps :
      (j : Uuid) → has_result j db.job_results ≡ true → has_result j db'.job_results ≡ true
  complete_job-keeps j h = elim complete_job-results [
    | inl (_, e) ↦ rw e h
    | inr e ↦ rw (e, has_result-append j db.job_results (result_row (uuid 0) i result now), h) refl
  ]

  complete_job-IsStored : IsStored db → IsStored db'
  complete_job-IsStored s j h = elim (Bool-cases (j == i)) [
    | inl e ↦ rw (==→≡ j i e) complete_job-has_result
    | inr e ↦
        complete_job-keeps j
          (s j (sym (ap (is_done j) complete_job-jobs ∙ is_done-done_at i j now db.jobs e) ∙ h))
  ]

create_job_cases :
    (now : Timestamp) (uuid : ℕ → Uuid) (job_type : String) (payload : Json) (db : PlatformTables)
    → let db' = committed db (create_job now uuid job_type payload db) in
      (db'.job_results ≡ db.job_results)
      × ((db'.jobs ≡ db.jobs)
          ⊎ (db'.jobs ≡ db.jobs ++ new_platform_job (uuid 0) job_type payload now ∷ []))
unfolding create_job
create_job_cases now uuid job_type payload db = ground arith

create_customer_cases :
    (now : Timestamp) (uuid : ℕ → Uuid) (name email : String) (db : PlatformTables)
    → let db' = committed db (create_customer now uuid name email db) in
      (db'.job_results ≡ db.job_results) × (db'.jobs ≡ db.jobs)
unfolding create_customer
create_customer_cases now uuid name email db = ground arith

-- What every transaction keeps.
abbrev pub Kept : (PlatformTables → Type 0) → Type 0
Kept P =
    (now : Timestamp) (uuid : ℕ → Uuid) (c : Change) (db : PlatformTables)
    → P db
    → P (run_change now uuid c db)

complete-Kept :
    (P : PlatformTables → Type 0) (db : PlatformTables) (r : Result (Unit {0} × PlatformTables))
    → ((db' : PlatformTables) → r ≡ ok (tt, db') → P db')
    → P db
    → P (committed db r)
complete-Kept P db (ok (u, db')) f p = f db' refl
complete-Kept P db (err e) f p = p

pub has_result-Kept : (i : Uuid) → Kept (λ db. has_result i db.job_results ≡ true)
unfolding run_change mark_job_processing fail_job
has_result-Kept i now uuid (Change.create_customer name email) db h =
    rw (create_customer_cases now uuid name email db).0 h
has_result-Kept i now uuid (Change.create_job job_type payload) db h =
    rw (create_job_cases now uuid job_type payload db).0 h
has_result-Kept i now uuid (Change.mark_job_processing j) db h = h
has_result-Kept i now uuid (Change.complete_job j result) db h =
    complete-Kept (λ db. has_result i db.job_results ≡ true) db (complete_job now uuid j result db)
      (λ db' e. complete_job-keeps now uuid j result db db' e i h) h
has_result-Kept i now uuid (Change.fail_job j error) db h = h

pub IsStored-Kept : Kept IsStored
unfolding run_change mark_job_processing fail_job
IsStored-Kept now uuid (Change.create_customer name email) db s i h =
    let (results, jobs) = create_customer_cases now uuid name email db in
    rw results (s i (rw jobs at h))
IsStored-Kept now uuid (Change.create_job job_type payload) db s i h =
    let (results, jobs) = create_job_cases now uuid job_type payload db in
    rw results (
      s i (elim jobs [
        | inl e ↦ rw e at h
        | inr e ↦
            sym (is_done-append i db.jobs (new_platform_job (uuid 0) job_type payload now) refl)
            ∙ (rw e at h)
      ]))
IsStored-Kept now uuid (Change.mark_job_processing j) db s i h =
    s i (is_done-started j i now db.jobs h)
IsStored-Kept now uuid (Change.complete_job j result) db s i h =
    complete-Kept IsStored db (complete_job now uuid j result db)
      (λ db' e. complete_job-IsStored now uuid j result db db' e s) s i h
IsStored-Kept now uuid (Change.fail_job j error) db s i h =
    s i (is_done-broken j i now error db.jobs h)

pub run_changes-Kept :
    (P : PlatformTables → Type 0)
    → Kept P
    → (cs : List (Timestamp × (ℕ → Uuid) × Change)) (db : PlatformTables) → P db
    → P (run_changes cs db)
unfolding run_changes
run_changes-Kept P k [] db p = p
run_changes-Kept P k ((now, uuid, c) ∷ cs) db p =
    run_changes-Kept P k cs (run_change now uuid c db) (k now uuid c db p)
