-- ===== src/Http/Formatter.antt =====
-- JsonFormatter of application/shared/logging.py. The payload is a dict; `time` is the ISO text of the
-- clock, and the span is OpenTelemetry's, with its ids as hexadecimal texts, if it is valid.
use production_cloud_reliabi.Prelude.{
  String, Option, none, some, List, [], ◌∷◌, str_eq, if◌then◌else◌,
}
use production_cloud_reliabi.Codec.{Json, Fields, Codec, set, of_optional}
use production_cloud_reliabi.Http.{LogRecord, Process}

-- `getattr(record, key, None)`
abbrev pub attribute : String → List (String × Json) → Json
attribute key [] = Json.null
attribute key ((k, v) ∷ extra) = if str_eq k key then v else attribute key extra

abbrev pub set_given : String → Json → Fields → Fields
set_given key Json.null payload = payload
set_given key v payload = set key v payload

-- The loop over the keys.
abbrev pub set_extras : List String → List (String × Json) → Fields → Fields
set_extras [] extra payload = payload
set_extras (key ∷ keys) extra payload =
    set_extras keys extra (set_given key (attribute key extra) payload)

abbrev pub extra_keys : List String
extra_keys = "method" ∷ "path" ∷ "status_code" ∷ "latency_ms" ∷ "error" ∷ "job_id" ∷ []

abbrev pub service_of : LogRecord → String
service_of r = elim r.service [ none ↦ "api" | some s ↦ s ]

abbrev pub trace_id_of : Option (String × String) → Json
trace_id_of none = Json.null
trace_id_of (some (trace_id, span_id)) = Json.str trace_id

abbrev pub span_id_of : Option (String × String) → Json
span_id_of none = Json.null
span_id_of (some (trace_id, span_id)) = Json.str span_id

abbrev pub base_payload : String → Option (String × String) → Process → LogRecord → Fields
base_payload time span p r = Fields.field "timestamp" (Json.str time) (
    Fields.field "level" (Json.str r.level) (
      Fields.field "service" (Json.str (service_of r)) (
        Fields.field "message" (Json.str r.message) (
          Fields.field "request_id" (of_optional p.request_id) (
            Fields.field "correlation_id" (of_optional p.correlation_id) (
              Fields.field "trace_id" (trace_id_of span)
                (Fields.field "span_id" (span_id_of span) Fields.end)))))))

abbrev pub set_exception : Option String → Fields → Fields
set_exception none payload = payload
set_exception (some trace) payload = set "error" (Json.str trace) payload

unfoldable pub log_payload : String → Option (String × String) → Process → LogRecord → Fields
log_payload time span p r =
    set_exception r.exc_info (set_extras extra_keys r.extra (base_payload time span p r))

unfoldable pub format : Codec → String → Option (String × String) → Process → LogRecord → String
unfolding log_payload
format codec time span p r = codec.dumps (Json.obj (log_payload time span p r))
