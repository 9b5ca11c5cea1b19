-- ===== src/Http/Context.antt =====
-- RequestContextMiddleware of application/shared/logging.py.
use production_cloud_reliabi.Prelude.{
  ℕ, String, Option, none, some, [], ◌∷◌, ◌++◌, str_eq, if◌then◌else◌,
}
use production_cloud_reliabi.Errors.{Exc, Result, ok, err}
use production_cloud_reliabi.Codec.{Json}
use production_cloud_reliabi.Http.{Request, Response, set_header, LogRecord, Process, Handler}

-- `header or fallback`
abbrev pub or_else : Option String → String → String
or_else none fallback = fallback
or_else (some value) fallback = if str_eq value "" then fallback else value

-- The ids of a request, where `drawn` is `str(uuid4())`.
abbrev pub request_id_of : Request → String → String
request_id_of request drawn = or_else request.x_request_id drawn

abbrev pub correlation_id_of : Request → String → String
correlation_id_of request drawn = or_else request.x_correlation_id (request_id_of request drawn)

-- The process as the inner handler finds it.
abbrev pub with_ids : Request → String → Process → Process
with_ids request drawn p = record p {
  request_id = some (request_id_of request drawn);
  correlation_id = some (correlation_id_of request drawn);
}

abbrev pub completed_log : String → Request → ℕ → LogRecord
completed_log service_name request status_code = record {
  level = "INFO";
  service = some service_name;
  message = "request completed";
  extra =
      ("method", Json.str request.method)
      ∷ ("path", Json.str request.path)
      ∷ ("status_code", Json.num status_code)
      ∷ [];
  exc_info = none;
}

-- `text` is `str(exc)`, and `trace` what formatException makes of the exception.
abbrev pub failed_log : String → Request → String → String → LogRecord
failed_log service_name request text trace = record {
  level = "ERROR";
  service = some service_name;
  message = "request failed";
  extra =
      ("method", Json.str request.method)
      ∷ ("path", Json.str request.path)
      ∷ ("error", Json.str text)
      ∷ [];
  exc_info = some trace;
}

abbrev pub log : LogRecord → Process → Process
log entry p = record p { logs = p.logs ++ entry ∷ [] }

-- The two headers that the response gets.
abbrev pub with_id_headers : Request → String → Response → Response
with_id_headers request drawn response = record response {
  headers =
      set_header "x-correlation-id" (correlation_id_of request drawn)
        (set_header "x-request-id" (request_id_of request drawn) response.headers);
}

-- The `finally` clause: reset gives a context variable the value it had.
abbrev pub reset_ids : Process → Process → Process
reset_ids before p = record p {
  request_id = before.request_id;
  correlation_id = before.correlation_id;
}

module _ (str_exc format_exception : Exc → String) (service_name : String) (drawn : String) where
  abbrev pub finish_context :
      Request → Process → Result Response × Process → Result Response × Process
  finish_context request before (ok response, p) = (
    ok (with_id_headers request drawn response),
    reset_ids before (log (completed_log service_name request response.status_code) p),
  )
  finish_context request before (err e, p) = (
    err e,
    reset_ids before (log (failed_log service_name request (str_exc e) (format_exception e)) p),
  )

  unfoldable pub context_dispatch : Handler → Handler
  context_dispatch call_next request p =
      finish_context request p (call_next request (with_ids request drawn p))
