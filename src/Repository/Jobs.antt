-- ===== src/Repository/Jobs.antt =====
-- Jobs: create_job, get_job, mark_job_processing, renew_job_processing_lease,
-- complete_job_with_report and fail_job of application/shared/repository.py.
use production_cloud_reliabi.Prelude.{
  ℕ, ◌+◌, String, Bool, true, false, Option, none, some, List, ◌&&◌, ◌==◌, str_eq, if◌then◌else◌,
  any_of, count_if,
}
use production_cloud_reliabi.Errors.{Exc, Result, ok, err, ◌>>=◌}
use production_cloud_reliabi.Codec.{Json, Fields, Codec, set, truthy, of_optional}
use production_cloud_reliabi.Database.{
  Uuid, Timestamp, JobStatus, JobRow, JobResultRow, ObjectMetadataRow, OutboxStatus, OutboxRow,
  EntityType, AuditAction, Database, eq_null, lease_expired, insert, update_where, returning,
  fetchone, find_job, find_result, find_metadata, truncate,
}
use production_cloud_reliabi.Repository.Customers.{insert_audit}

abbrev pub has_job : Uuid → List JobRow → Bool
has_job i = any_of (λ r. r.id == i)

-- The payload of the job.created event.
abbrev pub outbox_payload : Codec → Uuid → Option String → Json
outbox_payload codec job_id correlation_id =
    let base : Fields = Fields.field "version" (Json.num 1) (
      Fields.field "event_type" (Json.str "job.created")
        (Fields.field "job_id" (Json.str (codec.str_uuid job_id)) Fields.end)) in
    if truthy (of_optional correlation_id)
    then Json.obj (set "correlation_id" (of_optional correlation_id) base)
    else Json.obj base

abbrev pub new_job : Uuid → String → Json → Timestamp → JobRow
new_job i job_type payload now = record {
  id = i;
  job_type = job_type;
  status = JobStatus.pending;
  payload = payload;
  attempts = 0;
  last_error = none;
  processing_token = none;
  processing_started_at = none;
  created_at = now;
  updated_at = now;
}

abbrev pub new_outbox : Uuid → Json → Timestamp → OutboxRow
new_outbox i payload now = record {
  id = i;
  event_type = "job.created";
  version = 1;
  payload = payload;
  status = OutboxStatus.pending;
  attempts = 0;
  locked_at = none;
  claim_token = none;
  published_at = none;
  last_error = none;
  created_at = now;
  updated_at = now;
}

abbrev pub job_details : String → Json
job_details job_type = Json.obj (Fields.field "job_type" (Json.str job_type) Fields.end)

unfoldable pub create_job :
    Codec
    → Timestamp
    → (ℕ → Uuid)
    → String
    → Json
    → Option String
    → Database
    → Result (JobRow × Database)
create_job codec now uuid job_type payload correlation_id db = do
  let job = new_job (uuid 0) job_type payload now
  let event = new_outbox (uuid 1) (outbox_payload codec (uuid 0) correlation_id) now
  jobs ← insert (has_job (uuid 0) db.jobs) job db.jobs
  job_outbox ← insert (any_of (λ r. r.id == uuid 1) db.job_outbox) event db.job_outbox
  audit_events ←
      insert_audit (uuid 2) EntityType.job (uuid 0) AuditAction.created (job_details job_type) now
        db.audit_events
  ok (job, record db { jobs = jobs; job_outbox = job_outbox; audit_events = audit_events })

-- What get_job returns: the job LEFT JOINed with its result and its object.
pub record JobView : Type 0 where
  pub job : JobRow
  pub result : Option JobResultRow
  pub artifact : Option ObjectMetadataRow

unfoldable pub get_job : Uuid → Database → Result JobView
get_job job_id db = elim (find_job job_id db.jobs) [
  | none ↦ err Exc.not_found
  | some r ↦ ok (record {
    job = r;
    result = find_result job_id db.job_results;
    artifact = find_metadata job_id db.object_metadata;
  })
]

-- status IN ('pending', 'failed') OR (status = 'processing' AND the lease has expired)
abbrev pub may_claim : JobStatus → Option Timestamp → Timestamp → ℕ → Bool
may_claim JobStatus.pending started now lease_seconds = true
may_claim JobStatus.failed started now lease_seconds = true
may_claim JobStatus.processing started now lease_seconds = lease_expired started now lease_seconds
may_claim JobStatus.completed started now lease_seconds = false

abbrev pub is_claimable : Timestamp → ℕ → JobRow → Bool
is_claimable now lease_seconds r = may_claim r.status r.processing_started_at now lease_seconds

abbrev pub claimed : Timestamp → Uuid → JobRow → JobRow
claimed now token r = record r {
  status = JobStatus.processing;
  attempts = r.attempts + 1;
  processing_token = some token;
  processing_started_at = some now;
  updated_at = now;
}

unfoldable pub mark_job_processing :
    Timestamp → (ℕ → Uuid) → Uuid → ℕ → Database → Option JobRow × Database
mark_job_processing now uuid job_id lease_seconds db =
    let selects = λ (r : JobRow). r.id == job_id && is_claimable now lease_seconds r in
    let change = claimed now (uuid 0) in
    (
      fetchone (returning selects change db.jobs),
      record db { jobs = update_where selects change db.jobs },
    )

abbrev pub is_processing : JobStatus → Bool
is_processing JobStatus.processing = true
is_processing _ = false

-- status = 'processing' AND processing_token = %s
abbrev pub holds_claim : Uuid → JobRow → Bool
holds_claim token r = is_processing r.status && eq_null r.processing_token token

abbrev pub renewed : Timestamp → JobRow → JobRow
renewed now r = record r { processing_started_at = some now; updated_at = now }

unfoldable pub renew_job_processing_lease : Timestamp → Uuid → Uuid → Database → Bool × Database
renew_job_processing_lease now job_id token db =
    let selects = λ (r : JobRow). r.id == job_id && holds_claim token r in
    (count_if selects db.jobs == 1, record db { jobs = update_where selects (renewed now) db.jobs })

abbrev pub finished : Timestamp → JobRow → JobRow
finished now r = record r {
  status = JobStatus.completed;
  last_error = none;
  processing_token = none;
  processing_started_at = none;
  updated_at = now;
}

abbrev pub result_row : Uuid → Uuid → Json → Timestamp → JobResultRow
result_row i job_id result now = record {
  id = i;
  job_id = job_id;
  result = result;
  created_at = now;
}

-- INSERT INTO job_results … ON CONFLICT (job_id) DO UPDATE SET result = EXCLUDED.result
abbrev pub upsert_result :
    Uuid → Uuid → Json → Timestamp → List JobRow → List JobResultRow → Result (List JobResultRow)
upsert_result i job_id result now jobs rows =
    if any_of (λ r. r.job_id == job_id) rows
    then ok (update_where (λ r. r.job_id == job_id) (λ r. record r { result = result }) rows)
    else if has_job job_id jobs
    then insert (any_of (λ r. r.id == i) rows) (result_row i job_id result now) rows
    else err Exc.foreign_key_violation

abbrev pub metadata_row : Uuid → Uuid → String → String → Timestamp → ObjectMetadataRow
metadata_row i job_id object_key object_type now = record {
  id = i;
  job_id = job_id;
  object_key = object_key;
  object_type = object_type;
  owner_ref = "job";
  created_at = now;
}

-- INSERT INTO object_metadata … ON CONFLICT (job_id, object_key) DO NOTHING
abbrev pub insert_metadata :
    Uuid
    → Uuid
    → String
    → String
    → Timestamp
    → List JobRow
    → List ObjectMetadataRow
    → Result (List ObjectMetadataRow)
insert_metadata i job_id object_key object_type now jobs rows =
    if any_of (λ r. r.job_id == job_id && str_eq r.object_key object_key) rows
    then ok rows
    else if has_job job_id jobs
    then insert (any_of (λ r. r.id == i) rows) (metadata_row i job_id object_key object_type now)
        rows
    else err Exc.foreign_key_violation

-- The statements after the fencing UPDATE.
unfoldable pub record_completion :
    Timestamp → (ℕ → Uuid) → Uuid → Json → String → String → Database → Result (Unit {0} × Database)
record_completion now uuid job_id result object_key object_type db = do
  job_results ← upsert_result (uuid 0) job_id result now db.jobs db.job_results
  object_metadata ←
      insert_metadata (uuid 1) job_id object_key object_type now db.jobs db.object_metadata
  audit_events ←
      insert_audit (uuid 2) EntityType.job job_id AuditAction.completed result now db.audit_events
  ok (
    tt,
    record db {
      job_results = job_results;
      object_metadata = object_metadata;
      audit_events = audit_events;
    },
  )

unfoldable pub complete_job_with_report :
    Timestamp
    → (ℕ → Uuid)
    → Uuid
    → Uuid
    → Json
    → String
    → String
    → Database
    → Result (Unit {0} × Database)
complete_job_with_report now uuid job_id token result object_key object_type db =
    let selects = λ (r : JobRow). r.id == job_id && holds_claim token r in
    elim (fetchone (returning selects (finished now) db.jobs)) [
      | none ↦ err Exc.lost_job_claim
      | some _ ↦
          record_completion now uuid job_id result object_key object_type
            (record db { jobs = update_where selects (finished now) db.jobs })
    ]

abbrev pub failed_with : Timestamp → String → JobRow → JobRow
failed_with now error r = record r {
  status = JobStatus.failed;
  last_error = some (truncate error);
  processing_token = none;
  processing_started_at = none;
  updated_at = now;
}

unfoldable pub fail_job : Timestamp → Uuid → Uuid → String → Database → Bool × Database
fail_job now job_id token error db =
    let selects = λ (r : JobRow). r.id == job_id && holds_claim token r in
    (
      count_if selects db.jobs == 1,
      record db { jobs = update_where selects (failed_with now error) db.jobs },
    )
