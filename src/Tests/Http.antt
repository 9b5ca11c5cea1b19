-- ===== src/Tests/Http.antt =====
-- The theorems about application/shared/logging.py and application/shared/metrics.py at concrete
-- requests.
use production_cloud_reliabi.Prelude.{◌≡◌, ◌+◌, refl, String, false, none, some, [], ◌∷◌}
use production_cloud_reliabi.Errors.{Exc, ok, err, type_name}
use production_cloud_reliabi.Codec.{Json, lookup}
use production_cloud_reliabi.Adapters.{JobPublisher}
use production_cloud_reliabi.Adapters.Factories.{create_job_publisher}
use production_cloud_reliabi.Http.{Request, LogRecord, Process, Handler}
use production_cloud_reliabi.Http.Prometheus.{prometheus_dispatch}
use production_cloud_reliabi.Http.Formatter.{log_payload}
use production_cloud_reliabi.Http.Jobs.{serve_job}
use production_cloud_reliabi.Http.Logged.{logged_value, log_payload-lookup}
use production_cloud_reliabi.Http.Counted.{
  is_inc, is_dec, is_request, is_server_error, is_error, total, fails, raises, entered,
  prometheus_dispatch_lem,
}
use production_cloud_reliabi.Http.Traced.{Served, serve_job-Served}
use production_cloud_reliabi.Tests.Fixtures.{codec, round_trips, world, settings}

abbrev request : Request
request = record {
  method = "POST";
  path = "/jobs";
  route = some "/jobs";
  x_request_id = none;
  x_correlation_id = some "c";
}

abbrev process : Process
process = record {
  request_id = none;
  correlation_id = none;
  metrics = [];
  logs = [];
  world = world;
}

-- A handler that forgets the ids and raises.
abbrev raising : Handler
raising _ p = (err Exc.value_error, record p { request_id = none; correlation_id = none })

abbrev entry : LogRecord
entry = record {
  level = "ERROR";
  service = some "worker";
  message = "outbox publish failed";
  extra = ("event_id", Json.str "1") ∷ ("job_id", Json.str "0") ∷ [];
  exc_info = none;
}

log_payload-lookup_example :
    lookup "event_id" (log_payload "12:00" none process entry)
    ≡ logged_value "12:00" none process entry "event_id"
log_payload-lookup_example = log_payload-lookup "12:00" none process entry "event_id"

prometheus_dispatch_lem_example :
    let o = (raising request (entered request process)).0 in
    let (outcome, q) = prometheus_dispatch raising request process in
    (outcome ≡ o)
    × ((method route : String)
        → total (is_inc method route) q + total (is_dec method route) process
          ≡ total (is_inc method route) process + total (is_dec method route) q)
    × (total is_request q ≡ total is_request process + 1)
    × (total is_server_error q ≡ total is_server_error process + fails o)
    × (total is_error q ≡ total is_error process + raises o)
prometheus_dispatch_lem_example = prometheus_dispatch_lem raising request process (λ r p. refl)

no_publisher : create_job_publisher settings false ≡ ok JobPublisher.noop
unfolding create_job_publisher
no_publisher = refl

no_fault : none ≡ some Exc.type_error → ⊥
no_fault e = cc

serve_job-Served_example :
    let (outcome, q) =
      serve_job codec JobPublisher.noop "csv_report" Json.null type_name type_name "u" request
        process in
    Served codec "c" outcome q × (q.correlation_id ≡ process.correlation_id)
serve_job-Served_example =
    serve_job-Served codec round_trips type_name type_name "u" request settings JobPublisher.noop
      "csv_report" Json.null process no_publisher refl no_fault
