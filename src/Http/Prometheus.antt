-- ===== src/Http/Prometheus.antt =====
-- PrometheusMiddleware of application/shared/metrics.py.
use production_cloud_reliabi.Prelude.{
  ℕ, ◌/◌, String, none, some, [], ◌∷◌, ◌++◌, str_eq, if◌then◌else◌,
}
use production_cloud_reliabi.Errors.{Result, ok, err, type_name}
use production_cloud_reliabi.Http.{Request, Response, HttpMetric, Process, Handler}

-- `_route_template`
abbrev pub route_template : Request → String
route_template request = elim request.route [
  | none ↦ "unmatched"
  | some path ↦ if str_eq path "" then "unmatched" else path
]

abbrev pub observe : HttpMetric → Process → Process
observe m p = record p { metrics = p.metrics ++ m ∷ [] }

-- The `finally` clause.
abbrev pub finish_metrics : Request → ℕ → Process → Process
finish_metrics request status_code p =
    let route : String = route_template request in
    observe (HttpMetric.in_flight_dec request.method "unmatched") (
      observe (HttpMetric.duration request.method route)
        (observe (HttpMetric.requests request.method route (status_code / 100)) p))

-- After `call_next`: the response is passed on, or the exception raised again.
abbrev pub finish_request : Request → Result Response × Process → Result Response × Process
finish_request request (ok response, p) =
    (ok response, finish_metrics request response.status_code p)
finish_request request (err e, p) = (
  err e,
  finish_metrics request 500 (observe (HttpMetric.errors (route_template request) (type_name e)) p),
)

unfoldable pub prometheus_dispatch : Handler → Handler
prometheus_dispatch call_next request p =
    finish_request request
      (call_next request (observe (HttpMetric.in_flight_inc request.method "unmatched") p))
