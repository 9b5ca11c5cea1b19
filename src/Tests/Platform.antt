-- ===== src/Tests/Platform.antt =====
-- The theorems about services/platform_app/ at concrete tables.
use production_cloud_reliabi.Prelude.{
  ℕ, ◌≡◌, ◌+◌, refl, false, none, some, [], ◌∷◌, ◌==◌, if◌then◌else◌, arith,
}
use production_cloud_reliabi.Errors.{Exc, type_name}
use production_cloud_reliabi.Codec.{Json}
use production_cloud_reliabi.Database.{Uuid, JobStatus, AuditAction, EntityType}
use production_cloud_reliabi.Repository.Customers.{audit_row}
use production_cloud_reliabi.Repository.Jobs.{result_row}
use production_cloud_reliabi.Platform.Tables.{
  PlatformJob, PlatformTables, find, new_platform_job, started, done_at, complete_job,
  mark_job_processing,
}
use production_cloud_reliabi.Platform.World.{PlatformMessage, PlatformWorld}
use production_cloud_reliabi.Platform.Worker.{handle_message, job_result}
use production_cloud_reliabi.Platform.Rules.{Ends}
use production_cloud_reliabi.Platform.Api.{create_job}
use production_cloud_reliabi.Platform.Sending.{Sent, AtMostOne, create_job-Sent}
use production_cloud_reliabi.Platform.Stored.{IsStored}
use production_cloud_reliabi.Platform.Handled.{Handled, handle_message-Handled}
use production_cloud_reliabi.Platform.Duplicates.{handle_message-duplicate}
use production_cloud_reliabi.Tests.Fixtures.{codec, count_letters}
use production_cloud_reliabi.Platform.Failing.{IsBroken}
use production_cloud_reliabi.Platform.Undeleted.{IsUndeleted, handle_message-undeleted}

abbrev draws : ℕ → Uuid
draws n = n + 10

abbrev running : PlatformJob
running = started 60 (new_platform_job 0 "report" Json.null 50)

abbrev running_tables : PlatformTables
running_tables = record { customers = []; jobs = running ∷ []; job_results = []; audit_events = [] }

-- A message of job 0, which some other worker is processing.
abbrev message : PlatformMessage
message = record { body = ""; receipt_handle = "r"; correlation_id = some "c" }

abbrev busy_world : PlatformWorld
busy_world = record {
  db = running_tables;
  queue_url = some "url";
  sent = [];
  deleted = [];
  correlation_id = none;
  calls = 0;
  moments = λ _. record {
    before = [];
    now = 80;
    uuid = draws;
    fault = none;
    took_effect = false;
    messages = message ∷ [];
    created_queue_url = "url";
  };
}

running-IsStored : IsStored running_tables
running-IsStored i h = ground arith

handle_message-Handled_example :
    Handled codec busy_world message (handle_message codec type_name message busy_world).1
handle_message-Handled_example =
    handle_message-Handled codec busy_world message type_name running-IsStored

named : codec.parse_uuid "" ≡ some 0
unfolding count_letters
named = refl

handle_message-duplicate_example :
    let v = (handle_message codec type_name message busy_world).1 in
    ((r' : PlatformJob) × IsBroken (type_name (Exc.external "RuntimeError")) running r'
      × (find 0 v.db.jobs ≡ some r'))
    × (v.deleted ≡ [])
handle_message-duplicate_example =
    handle_message-duplicate codec type_name message busy_world 0 running (λ n. (refl, refl))
      (omega arith) refl refl named

abbrev waiting_tables : PlatformTables
waiting_tables = record running_tables { jobs = new_platform_job 0 "report" Json.null 50 ∷ [] }

-- The job can be claimed and completed, and the third call fails.
abbrev failing_world : PlatformWorld
failing_world = record busy_world {
  db = waiting_tables;
  moments = λ n. record (busy_world.moments n) {
    fault = if n == 2 then some (Exc.external "ClientError") else none;
  };
}

abbrev claimed : PlatformJob
claimed = started 80 (new_platform_job 0 "report" Json.null 50)

abbrev claimed_tables : PlatformTables
claimed_tables = record waiting_tables { jobs = claimed ∷ [] }

abbrev completed_tables : PlatformTables
completed_tables = record {
  customers = [];
  jobs = done_at 80 claimed ∷ [];
  job_results = result_row 10 0 (job_result claimed) 80 ∷ [];
  audit_events = audit_row 11 EntityType.job 0 AuditAction.completed (job_result claimed) 80 ∷ [];
}

undeleted :
    IsUndeleted failing_world 0 claimed claimed_tables completed_tables (Exc.external "ClientError")
unfolding mark_job_processing complete_job
undeleted = record {
  url = "url";
  known = refl;
  named = refl;
  mark_quiet = (refl, refl);
  marked = refl;
  complete_quiet = (refl, refl);
  completed = refl;
  nobody = refl;
  fault = refl;
  no_effect = refl;
  fail_quiet = (refl, refl);
}

handle_message-undeleted_example :
    let v = (handle_message codec type_name message failing_world).1 in
    ((r r' : PlatformJob) × (find 0 completed_tables.jobs ≡ some r)
      × (r.status ≡ JobStatus.completed)
      × IsBroken (type_name (Exc.external "ClientError")) r r'
      × (find 0 v.db.jobs ≡ some r'))
    × (v.db.job_results ≡ completed_tables.job_results)
    × (v.deleted ≡ [])
handle_message-undeleted_example =
    handle_message-undeleted codec type_name message failing_world 0 claimed claimed_tables
      completed_tables (Exc.external "ClientError") named undeleted

create_job-Sent_example :
    Ends
      (Sent codec busy_world)
      (AtMostOne codec busy_world)
      (create_job codec "report" Json.null busy_world)
create_job-Sent_example = create_job-Sent codec busy_world "report" Json.null
