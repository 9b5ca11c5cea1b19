-- ===== src/Tests/Fixtures.antt =====
-- Concrete tables, settings and worlds. A UUID's text has as many letters as the UUID says, and JSON is
-- here only that of the messages of job 0.

use production_cloud_reliabi.Prelude.{
  ℕ, zero, suc, ◌≡◌, ◌+◌, refl, ap, String, true, false, Option, none, some, [], ◌∷◌, str_eq,
  Bool-cases, inl, inr, arith,
}
use production_cloud_reliabi.Codec.{
  Json, Fields, Codec, UuidRoundTrips, LoadsBack, get, set, of_optional,
}
use production_cloud_reliabi.Database.{JobStatus, OutboxStatus, JobRow, OutboxRow, Database}
use production_cloud_reliabi.World.{World, Moment, Event}
use production_cloud_reliabi.Config.{Settings, RuntimeMode, ArtifactBackend}
use production_cloud_reliabi.Adapters.{job_message}
use production_cloud_reliabi.Repository.Consistency.{IsConsistent}
use production_cloud_reliabi.Repository.Announcement.{IsAnnounced}

unfoldable pub unary : ℕ → String
unary zero = ""
unary (suc n) = String.◌∷◌ "x" (unary n)

unfoldable pub count_letters : String → ℕ
count_letters String.[] = 0
count_letters (String.◌∷◌ c s) = suc (count_letters s)

abbrev pub message_of_0 : Option String → Json
message_of_0 correlation_id =
    let message : Fields = Fields.field "version" (Json.num 1) (
      Fields.field "event_type" (Json.str "job.created")
        (Fields.field "job_id" (Json.str "") Fields.end)) in
    elim correlation_id [
      | none ↦ Json.obj message
      | some c ↦ Json.obj (set "correlation_id" (Json.str c) message)
    ]

abbrev write_correlation : Json → String
write_correlation (Json.str c) = String.◌∷◌ "s" c
write_correlation _ = ""

abbrev pub write_json : Json → String
write_json (Json.obj d) = write_correlation (get "correlation_id" d)
write_json _ = ""

abbrev pub read_json : String → Option Json
read_json String.[] = some (message_of_0 none)
read_json (String.◌∷◌ _ s) = some (message_of_0 (some s))

abbrev pub codec : Codec
codec = record {
  dumps = write_json;
  loads = read_json;
  str_uuid = unary;
  parse_uuid = λ s. some (count_letters s);
  str_json = λ v. "1";
}

count_letters-unary : (n : ℕ) → count_letters (unary n) ≡ n
unfolding count_letters unary
count_letters-unary zero = refl
count_letters-unary (suc n) = ap suc (count_letters-unary n)

pub round_trips : UuidRoundTrips codec
round_trips u = ap some (count_letters-unary u)

pub loads_back : (c : Option String) → LoadsBack codec (job_message codec 0 (of_optional c))
unfolding unary
loads_back none = refl
loads_back (some c) = elim (Bool-cases (str_eq c "")) [ inl e ↦ rw e refl | inr e ↦ rw e refl ]

-- Job 0: pending, and processing under token 5 since 100.
abbrev pub pending_job : JobRow
pending_job = record {
  id = 0;
  job_type = "report";
  status = JobStatus.pending;
  payload = Json.null;
  attempts = 0;
  last_error = none;
  processing_token = none;
  processing_started_at = none;
  created_at = 50;
  updated_at = 50;
}

abbrev pub processing_job : JobRow
processing_job = record pending_job {
  status = JobStatus.processing;
  attempts = 1;
  processing_token = some 5;
  processing_started_at = some 100;
  updated_at = 100;
}

-- Its event in the outbox: pending, and publishing under token 6 since 100.
abbrev pub pending_event : OutboxRow
pending_event = record {
  id = 1;
  event_type = "job.created";
  version = 1;
  payload = message_of_0 none;
  status = OutboxStatus.pending;
  attempts = 0;
  locked_at = none;
  claim_token = none;
  published_at = none;
  last_error = none;
  created_at = 50;
  updated_at = 50;
}

abbrev pub publishing_event : OutboxRow
publishing_event = record pending_event {
  status = OutboxStatus.publishing;
  attempts = 1;
  locked_at = some 100;
  claim_token = some 6;
}

abbrev pub tables : JobRow → OutboxRow → Database
tables job event = record {
  customers = [];
  jobs = job ∷ [];
  job_results = [];
  audit_events = [];
  object_metadata = [];
  job_outbox = event ∷ [];
}

abbrev pub pending_tables : Database
pending_tables = tables pending_job pending_event

abbrev pub processing_tables : Database
processing_tables = tables processing_job publishing_event

pub pending-IsConsistent : IsConsistent pending_tables
pending-IsConsistent = record {
  unique = λ i. ground arith;
  claims = λ i r e. ground arith;
  results = λ i. ground arith;
  objects = λ i. ground arith;
  completions = λ i. ground arith;
}

pub processing-IsConsistent : IsConsistent processing_tables
processing-IsConsistent = record {
  unique = λ i. ground arith;
  claims = λ i r e. ground arith;
  results = λ i. ground arith;
  objects = λ i. ground arith;
  completions = λ i. ground arith;
}

pub pending-IsAnnounced : IsAnnounced codec pending_tables
unfolding count_letters
pending-IsAnnounced i = refl

abbrev pub moment : Moment
moment = record {
  before = Event.beat (record { now = 160; renew_fault = none; visibility_fault = none }) ∷ [];
  now = 200;
  uuid = λ n. n + 10;
  fault = none;
  took_effect = false;
  locked = [];
  messages = record { body = ""; receipt_handle = "r" } ∷ [];
}

abbrev pub world : World
world = record {
  db = pending_tables;
  sent = [];
  deleted = [];
  visibility = [];
  reports = [];
  published = [];
  metrics = [];
  heartbeat = none;
  calls = 0;
  moments = λ _. moment;
}

abbrev pub settings : Settings
settings = record {
  runtime_mode = RuntimeMode.cloud;
  database_url = some "postgresql://db";
  database_url_given = true;
  db_host = none;
  db_port = 5432;
  db_name = none;
  db_username = none;
  db_password = none;
  aws_region = "eu-west-1";
  sqs_queue_url = some "queue";
  artifact_backend = ArtifactBackend.s3;
  artifact_bucket_name = some "bucket";
  artifact_prefix = "reports";
  local_artifact_root = "/tmp";
  job_processing_lease_seconds = 120;
  outbox_claim_lease_seconds = 60;
  sqs_visibility_timeout_seconds = 120;
  sqs_visibility_heartbeat_seconds = 30;
  metrics_enabled = false;
  worker_metrics_host = "127.0.0.1";
  worker_metrics_port = 9000;
}
