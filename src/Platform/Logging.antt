-- ===== src/Platform/Logging.antt =====
-- The formatter and the middleware of the earlier generation of the services
-- (services/platform_app/logging.py).
use production_cloud_reliabi.Prelude.{ℕ, String, Option, none, some, List, [], ◌∷◌}
use production_cloud_reliabi.Errors.{Exc, Result, ok, err}
use production_cloud_reliabi.Codec.{Json, Fields, Codec, of_optional}
use production_cloud_reliabi.Http.{Request, Response, set_header, LogRecord, Process, Handler}
use production_cloud_reliabi.Http.Context.{log}
use production_cloud_reliabi.Http.Formatter.{set_extras, set_exception}

abbrev pub service_of : LogRecord → String
service_of r = elim r.service [ none ↦ "platform-app" | some s ↦ s ]

abbrev pub extra_keys : List String
extra_keys = "endpoint" ∷ "status" ∷ "latency_ms" ∷ "error" ∷ "job_id" ∷ []

abbrev pub base_payload : String → Process → LogRecord → Fields
base_payload time p r = Fields.field "timestamp" (Json.str time) (
    Fields.field "level" (Json.str r.level) (
      Fields.field "service" (Json.str (service_of r)) (
        Fields.field "message" (Json.str r.message) (
          Fields.field "request_id" (of_optional p.request_id)
            (Fields.field "correlation_id" (of_optional p.correlation_id) Fields.end)))))

unfoldable pub log_payload : String → Process → LogRecord → Fields
log_payload time p r =
    set_exception r.exc_info (set_extras extra_keys r.extra (base_payload time p r))

unfoldable pub format : Codec → String → Process → LogRecord → String
unfolding log_payload
format codec time p r = codec.dumps (Json.obj (log_payload time p r))

-- `headers.get(name, default)`: an empty header counts.
abbrev pub header_or : Option String → String → String
header_or none fallback = fallback
header_or (some value) fallback = value

abbrev pub request_id_of : Request → String → String
request_id_of request drawn = header_or request.x_request_id drawn

abbrev pub correlation_id_of : Request → String → String
correlation_id_of request drawn = header_or request.x_correlation_id (request_id_of request drawn)

abbrev pub with_ids : Request → String → Process → Process
with_ids request drawn p = record p {
  request_id = some (request_id_of request drawn);
  correlation_id = some (correlation_id_of request drawn);
}

abbrev pub completed_log : Request → ℕ → LogRecord
completed_log request status_code = record {
  level = "INFO";
  service = none;
  message = "request completed";
  extra = ("endpoint", Json.str request.path) ∷ ("status", Json.num status_code) ∷ [];
  exc_info = none;
}

abbrev pub failed_log : Request → String → LogRecord
failed_log request trace = record {
  level = "ERROR";
  service = none;
  message = "request failed";
  extra = ("endpoint", Json.str request.path) ∷ [];
  exc_info = some trace;
}

abbrev pub with_id_headers : Request → String → Response → Response
with_id_headers request drawn response = record response {
  headers =
      set_header "x-correlation-id" (correlation_id_of request drawn)
        (set_header "x-request-id" (request_id_of request drawn) response.headers);
}

abbrev pub reset_ids : Process → Process → Process
reset_ids before p = record p {
  request_id = before.request_id;
  correlation_id = before.correlation_id;
}

module _ (format_exception : Exc → String) (drawn : String) where
  abbrev pub finish_context :
      Request → Process → Result Response × Process → Result Response × Process
  finish_context request before (ok response, p) = (
    ok (with_id_headers request drawn response),
    reset_ids before (log (completed_log request response.status_code) p),
  )
  finish_context request before (err e, p) =
      (err e, reset_ids before (log (failed_log request (format_exception e)) p))

  unfoldable pub dispatch : Handler → Handler
  dispatch call_next request p =
      finish_context request p (call_next request (with_ids request drawn p))
