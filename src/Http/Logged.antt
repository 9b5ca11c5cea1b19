-- ===== src/Http/Logged.antt =====
-- What a line of the log holds (JsonFormatter of application/shared/logging.py).
use mathlib.Core.Option
use text.Mathlib.TextEquality.{eq_iff}
use production_cloud_reliabi.Prelude.{
  ◌≡◌, refl, String, Bool, true, false, ◌&&◌, ◌||◌, not, Option, none, some, List, [], ◌∷◌, str_eq,
  is_some, if◌then◌else◌, arith,
}
use production_cloud_reliabi.Codec.{Json, Fields, lookup, set, of_optional}
use production_cloud_reliabi.Http.{LogRecord, Process}
use production_cloud_reliabi.Http.Formatter.{
  attribute, set_given, set_extras, extra_keys, base_payload, set_exception, log_payload,
  trace_id_of, span_id_of,
}

lookup-set :
    (j k : String) (v : Json) (d : Fields)
    → lookup j (set k v d) ≡ (if str_eq k j then some v else lookup j d)
lookup-set j k v Fields.end = refl
lookup-set j k v (Fields.field i w d) =
    ground (arith, eq_iff k j, eq_iff i k, eq_iff i j, lookup-set j k v d)

abbrev pub is_null : Json → Bool
is_null Json.null = true
is_null _ = false

abbrev pub is_among : String → List String → Bool
is_among key [] = false
is_among key (k ∷ keys) = str_eq k key || is_among key keys

lookup-set_given :
    (j k : String) (v : Json) (d : Fields)
    → lookup j (set_given k v d) ≡ (if str_eq k j && not (is_null v) then some v else lookup j d)
lookup-set_given j k Json.null d = ground arith
lookup-set_given j k v d = ground (arith, lookup-set j k v d)

lookup-set_extras :
    (j : String) (keys : List String) (extra : List (String × Json)) (d : Fields)
    → lookup j (set_extras keys extra d) ≡ (
        if is_among j keys && not (is_null (attribute j extra))
        then some (attribute j extra)
        else lookup j d)
lookup-set_extras j [] extra d = refl
lookup-set_extras j (k ∷ keys) extra d = ground (
  arith,
  eq_iff k j,
  lookup-set_extras j keys extra (set_given k (attribute k extra) d),
  lookup-set_given j k (attribute k extra) d,
)

-- The value of an attribute of a record, null if the record has none of that name.
abbrev pub attribute_named : String → List (String × Json) → Json
attribute_named key [] = Json.null
attribute_named key ((k, v) ∷ rest) = if str_eq k key then v else attribute_named key rest

-- The six names under which the attributes of a record are logged.
abbrev pub is_extra : String → Bool
is_extra key =
    str_eq "method" key
    || str_eq "path" key
    || str_eq "status_code" key
    || str_eq "latency_ms" key
    || str_eq "error" key
    || str_eq "job_id" key

-- A text, or null for None.
abbrev pub text_or_null : Option String → Json
text_or_null none = Json.null
text_or_null (some s) = Json.str s

-- What the eight fields of every line say.
abbrev pub field_value :
    String → Option (String × String) → Process → LogRecord → String → Option Json
field_value time span p r key =
    if str_eq "timestamp" key
    then some (Json.str time)
    else if str_eq "level" key
    then some (Json.str r.level)
    else if str_eq "service" key
    then some (Json.str (elim r.service [ none ↦ "api" | some s ↦ s ]))
    else if str_eq "message" key
    then some (Json.str r.message)
    else if str_eq "request_id" key
    then some (text_or_null p.request_id)
    else if str_eq "correlation_id" key
    then some (text_or_null p.correlation_id)
    else if str_eq "trace_id" key
    then some (text_or_null (Option.map (λ ids. ids.0) span))
    else if str_eq "span_id" key
    then some (text_or_null (Option.map (λ ids. ids.1) span))
    else none

-- What a key of the line holds.
abbrev pub logged_value :
    String → Option (String × String) → Process → LogRecord → String → Option Json
logged_value time span p r key =
    let value : Json = attribute_named key r.extra in
    if str_eq "error" key && is_some r.exc_info
    then Option.map Json.str r.exc_info
    else if is_extra key && not (is_null value)
    then some value
    else field_value time span p r key

attribute-named :
    (key : String) (extra : List (String × Json)) → attribute key extra ≡ attribute_named key extra
attribute-named key [] = refl
attribute-named key ((k, v) ∷ extra) = rw (attribute-named key extra) refl

among-is_extra : (key : String) → is_among key extra_keys ≡ is_extra key
among-is_extra key = ground arith

of_optional-text : (o : Option String) → of_optional o ≡ text_or_null o
of_optional-text none = refl
of_optional-text (some s) = refl

trace_id_of-text :
    (o : Option (String × String)) → trace_id_of o ≡ text_or_null (Option.map (λ ids. ids.0) o)
trace_id_of-text none = refl
trace_id_of-text (some (t, s)) = refl

span_id_of-text :
    (o : Option (String × String)) → span_id_of o ≡ text_or_null (Option.map (λ ids. ids.1) o)
span_id_of-text none = refl
span_id_of-text (some (t, s)) = refl

base_payload-fields :
    (time : String) (span : Option (String × String)) (p : Process) (r : LogRecord) (key : String)
    → lookup key (base_payload time span p r) ≡ field_value time span p r key
base_payload-fields time span p r key =
    rw
      (
        of_optional-text p.request_id,
        of_optional-text p.correlation_id,
        trace_id_of-text span,
        span_id_of-text span,
      )
      refl

-- A line of the log holds, under each key: the formatted exception under "error", if there is one;
-- otherwise, under one of the six names method, path, status_code, latency_ms, error and job_id, the
-- record's attribute of that name, if it is not None; otherwise what the eight fields timestamp,
-- level, service, message, request_id, correlation_id, trace_id and span_id say; and nothing else.
-- Every further attribute of the record is dropped.
pub log_payload-lookup :
    (time : String) (span : Option (String × String)) (p : Process) (r : LogRecord) (key : String)
    → lookup key (log_payload time span p r) ≡ logged_value time span p r key
unfolding log_payload
log_payload-lookup time span p r key =
    rw
      (
        with_exception r.exc_info,
        attribute-named key r.extra,
        among-is_extra key,
        base_payload-fields time span p r key,
      )
      refl
  where
    d : Fields
    d = set_extras extra_keys r.extra (base_payload time span p r)

    with_exception :
        (o : Option String)
        → lookup key (set_exception o d) ≡ (
            if str_eq "error" key && is_some o
            then Option.map Json.str o
            else if is_among key extra_keys && not (is_null (attribute key r.extra))
            then some (attribute key r.extra)
            else lookup key (base_payload time span p r))
    with_exception none =
        ground (arith, lookup-set_extras key extra_keys r.extra (base_payload time span p r))
    with_exception (some trace) = ground (
      arith,
      lookup-set key "error" (Json.str trace) d,
      lookup-set_extras key extra_keys r.extra (base_payload time span p r),
    )
