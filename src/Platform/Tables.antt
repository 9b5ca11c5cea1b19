-- ===== src/Platform/Tables.antt =====
-- The repository of jobs of the earlier generation of the services
-- (services/platform_app/db/repository.py), which knows no processing token and no outbox.
use production_cloud_reliabi.Prelude.{
  ℕ, ◌+◌, ◌==◌, ◌&&◌, String, Bool, true, false, Option, none, some, List, [], ◌∷◌, if◌then◌else◌,
  any_of, count_if,
}
use production_cloud_reliabi.Errors.{Exc, Result, ok, err, ◌>>=◌}
use production_cloud_reliabi.Codec.{Json}
use production_cloud_reliabi.Database.Newest.{newest}
use production_cloud_reliabi.Database.{
  Uuid, Timestamp, JobStatus, CustomerRow, JobResultRow, AuditEventRow, EntityType, AuditAction,
  insert, update_where, returning, fetchone, truncate, find_result,
}
use production_cloud_reliabi.Repository.Customers.{
  insert_audit, customer_taken, new_customer, customer_details, as_duplicate,
}
use production_cloud_reliabi.Repository.Jobs.{job_details, result_row}

pub record PlatformJob : Type 0 where
  pub id : Uuid
  pub job_type : String
  pub status : JobStatus
  pub payload : Json
  pub attempts : ℕ
  pub last_error : Option String
  pub created_at : Timestamp
  pub updated_at : Timestamp

pub record PlatformTables : Type 0 where
  pub customers : List CustomerRow
  pub jobs : List PlatformJob
  pub job_results : List JobResultRow
  pub audit_events : List AuditEventRow

abbrev pub has_id : Uuid → PlatformJob → Bool
has_id i r = r.id == i

abbrev pub find : Uuid → List PlatformJob → Option PlatformJob
find i [] = none
find i (r ∷ rows) = if has_id i r then some r else find i rows

abbrev pub new_platform_job : Uuid → String → Json → Timestamp → PlatformJob
new_platform_job i job_type payload now = record {
  id = i;
  job_type = job_type;
  status = JobStatus.pending;
  payload = payload;
  attempts = 0;
  last_error = none;
  created_at = now;
  updated_at = now;
}

unfoldable pub create_job :
    Timestamp → (ℕ → Uuid) → String → Json → PlatformTables → Result (PlatformJob × PlatformTables)
create_job now uuid job_type payload db = do
  let job = new_platform_job (uuid 0) job_type payload now
  jobs ← insert (any_of (has_id (uuid 0)) db.jobs) job db.jobs
  audit_events ←
      insert_audit (uuid 1) EntityType.job (uuid 0) AuditAction.created (job_details job_type) now
        db.audit_events
  ok (job, record db { jobs = jobs; audit_events = audit_events })

-- The job LEFT JOINed with its result.
unfoldable pub get_job : Uuid → PlatformTables → Result (PlatformJob × Option JobResultRow)
get_job job_id db = elim (find job_id db.jobs) [
  | none ↦ err Exc.not_found
  | some r ↦ ok (r, find_result job_id db.job_results)
]

-- status IN ('pending', 'failed')
abbrev pub may_start : JobStatus → Bool
may_start JobStatus.pending = true
may_start JobStatus.failed = true
may_start _ = false

abbrev pub started : Timestamp → PlatformJob → PlatformJob
started now r = record r {
  status = JobStatus.processing;
  attempts = r.attempts + 1;
  updated_at = now;
}

unfoldable pub mark_job_processing :
    Timestamp → Uuid → PlatformTables → Option PlatformJob × PlatformTables
mark_job_processing now job_id db =
    let selects = λ (r : PlatformJob). has_id job_id r && may_start r.status in
    (
      fetchone (returning selects (started now) db.jobs),
      record db { jobs = update_where selects (started now) db.jobs },
    )

abbrev pub done_at : Timestamp → PlatformJob → PlatformJob
done_at now r = record r { status = JobStatus.completed; last_error = none; updated_at = now }

-- INSERT INTO job_results … ON CONFLICT (job_id) DO NOTHING; the job_id REFERENCES jobs.
abbrev pub insert_result :
    Uuid
    → Uuid
    → Json
    → Timestamp
    → List PlatformJob
    → List JobResultRow
    → Result (List JobResultRow)
insert_result i job_id result now jobs rows =
    if any_of (λ (r : JobResultRow). r.job_id == job_id) rows
    then ok rows
    else if any_of (has_id job_id) jobs
    then insert (any_of (λ (r : JobResultRow). r.id == i) rows) (result_row i job_id result now)
        rows
    else err Exc.foreign_key_violation

-- `updated != 1` raises InvalidJobTransitionError.
unfoldable pub complete_job :
    Timestamp → (ℕ → Uuid) → Uuid → Json → PlatformTables → Result (Unit {0} × PlatformTables)
complete_job now uuid job_id result db = do
  job_results ← insert_result (uuid 0) job_id result now db.jobs db.job_results
  _ ←
      if count_if (has_id job_id) db.jobs == 1
      then ok (tt {0})
      else err (Exc.external "InvalidJobTransitionError")
  audit_events ←
      insert_audit (uuid 1) EntityType.job job_id AuditAction.completed result now db.audit_events
  ok (
    tt,
    record db {
      jobs = update_where (has_id job_id) (done_at now) db.jobs;
      job_results = job_results;
      audit_events = audit_events;
    },
  )

abbrev pub broken : Timestamp → String → PlatformJob → PlatformJob
broken now error r = record r {
  status = JobStatus.failed;
  last_error = some (truncate error);
  updated_at = now;
}

-- The UPDATE tests nothing but the id.
unfoldable pub fail_job : Timestamp → Uuid → String → PlatformTables → PlatformTables
fail_job now job_id error db = record db {
  jobs = update_where (has_id job_id) (broken now error) db.jobs;
}

unfoldable pub list_customers : PlatformTables → List CustomerRow
list_customers db = newest (λ (r : CustomerRow). r.created_at) 100 db.customers

unfoldable pub list_jobs : PlatformTables → List PlatformJob
list_jobs db = newest (λ (r : PlatformJob). r.created_at) 100 db.jobs

pub insert_customer :
    Timestamp
    → (ℕ → Uuid)
    → String
    → String
    → PlatformTables
    → Result (CustomerRow × PlatformTables)
insert_customer now uuid name email db = do
  let customer = new_customer (uuid 0) name email now
  customers ← insert (customer_taken (uuid 0) email db.customers) customer db.customers
  audit_events ←
      insert_audit (uuid 1) EntityType.customer (uuid 0) AuditAction.created
        (customer_details email) now db.audit_events
  ok (customer, record db { customers = customers; audit_events = audit_events })

-- `except UniqueViolation as exc: raise DuplicateCustomerError`
unfoldable pub create_customer :
    Timestamp
    → (ℕ → Uuid)
    → String
    → String
    → PlatformTables
    → Result (CustomerRow × PlatformTables)
unfolding insert_customer
create_customer now uuid name email db = as_duplicate (insert_customer now uuid name email db)
