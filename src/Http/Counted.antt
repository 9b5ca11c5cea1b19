-- ===== src/Http/Counted.antt =====
-- What PrometheusMiddleware of application/shared/metrics.py adds to a handler, whatever it does.

use production_cloud_reliabi.Prelude.{
  ℕ, ◌≡◌, ◌+◌, ◌/◌, refl, ap, String, Bool, true, false, ◌&&◌, ◌==◌, [], ◌∷◌, str_eq, if◌then◌else◌,
  count_if, count_if-append, arith,
}
use production_cloud_reliabi.Errors.{Result, ok, err, type_name}
use production_cloud_reliabi.Http.{Request, Response, HttpMetric, Process, Handler}
use production_cloud_reliabi.Http.Prometheus.{
  finish_request, finish_metrics, observe, prometheus_dispatch, route_template,
}

abbrev pub is_inc : String → String → HttpMetric → Bool
is_inc method route (HttpMetric.in_flight_inc m r) = str_eq m method && str_eq r route
is_inc method route _ = false

abbrev pub is_dec : String → String → HttpMetric → Bool
is_dec method route (HttpMetric.in_flight_dec m r) = str_eq m method && str_eq r route
is_dec method route _ = false

abbrev pub is_request : HttpMetric → Bool
is_request (HttpMetric.requests method route status_class) = true
is_request _ = false

abbrev pub is_server_error : HttpMetric → Bool
is_server_error (HttpMetric.requests method route status_class) = status_class == 5
is_server_error _ = false

abbrev pub is_error : HttpMetric → Bool
is_error (HttpMetric.errors route error_type) = true
is_error _ = false

abbrev pub total : (HttpMetric → Bool) → Process → ℕ
total kind p = count_if kind p.metrics

-- A handler after which each gauge of requests in flight stands as it stood before.
abbrev pub IsBalanced : Handler → Type 0
IsBalanced call_next =
    (request : Request) (p : Process) (method route : String)
    → let q = (call_next request p).1 in
      total (is_inc method route) q + total (is_dec method route) p
      ≡ total (is_inc method route) p + total (is_dec method route) q

abbrev pub fails : Result Response → ℕ
fails (ok response) = if response.status_code / 100 == 5 then 1 else 0
fails (err e) = 1

abbrev pub raises : Result Response → ℕ
raises (ok response) = 0
raises (err e) = 1

observed :
    (kind : HttpMetric → Bool) (m : HttpMetric) (p : Process)
    → total kind (observe m p) ≡ total kind p + (if kind m then 1 else 0)
observed kind m p = ground (arith, count_if-append kind p.metrics (m ∷ []))

-- What follows the handler adds to a total.
added : (HttpMetric → Bool) → Request → Result Response → ℕ
added kind request (ok response) =
    (if kind
        (HttpMetric.requests request.method (route_template request) (response.status_code / 100))
      then 1
      else 0)
    + (if kind (HttpMetric.duration request.method (route_template request)) then 1 else 0)
    + (if kind (HttpMetric.in_flight_dec request.method "unmatched") then 1 else 0)
added kind request (err e) =
    (if kind (HttpMetric.errors (route_template request) (type_name e)) then 1 else 0)
    + (if kind (HttpMetric.requests request.method (route_template request) 5) then 1 else 0)
    + (if kind (HttpMetric.duration request.method (route_template request)) then 1 else 0)
    + (if kind (HttpMetric.in_flight_dec request.method "unmatched") then 1 else 0)

finish_metrics-total :
    (kind : HttpMetric → Bool) (request : Request) (status_code : ℕ) (q : Process)
    → total kind (finish_metrics request status_code q)
      ≡ total kind q
        + (if kind (HttpMetric.requests request.method (route_template request) (status_code / 100))
            then 1
            else 0)
        + (if kind (HttpMetric.duration request.method (route_template request)) then 1 else 0)
        + (if kind (HttpMetric.in_flight_dec request.method "unmatched") then 1 else 0)
finish_metrics-total kind request status_code q =
    let r : HttpMetric =
      HttpMetric.requests request.method (route_template request) (status_code / 100) in
    let d : HttpMetric = HttpMetric.duration request.method (route_template request) in
    omega (
      arith,
      observed kind r q,
      observed kind d (observe r q),
      observed kind (HttpMetric.in_flight_dec request.method "unmatched") (observe d (observe r q)),
    )

finish_request-total :
    (kind : HttpMetric → Bool) (request : Request) (o : Result Response) (q : Process)
    → total kind (finish_request request (o, q)).1 ≡ total kind q + added kind request o
unfolding added
finish_request-total kind request (ok response) q =
    omega (arith, finish_metrics-total kind request response.status_code q)
finish_request-total kind request (err e) q =
    let m : HttpMetric = HttpMetric.errors (route_template request) (type_name e) in
    omega (arith, finish_metrics-total kind request 500 (observe m q), observed kind m q)

finish_request-outcome :
    (request : Request) (o : Result Response) (q : Process) → (finish_request request (o, q)).0 ≡ o
finish_request-outcome request (ok response) q = refl
finish_request-outcome request (err e) q = refl

-- The process as the handler finds it.
abbrev pub entered : Request → Process → Process
entered request p = observe (HttpMetric.in_flight_inc request.method "unmatched") p

added-balances :
    (request : Request) (o : Result Response) (method route : String)
    → (added (is_inc method route) request o ≡ 0)
      × (added (is_dec method route) request o ≡ (
          if is_inc method route (HttpMetric.in_flight_inc request.method "unmatched")
          then 1
          else 0))
unfolding added
added-balances request (ok response) method route = (refl, ground arith)
added-balances request (err e) method route = (refl, ground arith)

-- PrometheusMiddleware around any handler that leaves the gauges balanced leaves them balanced, too,
-- whether the handler returns or raises.
pub prometheus_dispatch-IsBalanced :
    (call_next : Handler) → IsBalanced call_next → IsBalanced (prometheus_dispatch call_next)
unfolding prometheus_dispatch
prometheus_dispatch-IsBalanced call_next h request p method route =
    let (o, q) = call_next request (entered request p) in
    let inc : HttpMetric = HttpMetric.in_flight_inc request.method "unmatched" in
    omega (
      arith,
      h request (entered request p) method route,
      observed (is_inc method route) inc p,
      observed (is_dec method route) inc p,
      finish_request-total (is_inc method route) request o q,
      finish_request-total (is_dec method route) request o q,
      (added-balances request o method route).0,
      (added-balances request o method route).1,
    )

added-counts :
    (request : Request) (o : Result Response)
    → (added is_request request o ≡ 1)
      × (added is_server_error request o ≡ fails o)
      × (added is_error request o ≡ raises o)
unfolding added
added-counts request (ok response) = ground arith
added-counts request (err e) = ground arith

-- PrometheusMiddleware around a handler that leaves its metrics alone: the outcome is the handler's;
-- every gauge of requests in flight stands as before; one request more is counted; one request more
-- of class 5xx is counted if the handler raised or answered with a status of that class, and none
-- otherwise; and one error more is counted exactly if it raised.
pub prometheus_dispatch_lem :
    (call_next : Handler) (request : Request) (p : Process)
    → ((request : Request) (p : Process) → (call_next request p).1.metrics ≡ p.metrics)
    → let o = (call_next request (entered request p)).0 in
      let (outcome, q) = prometheus_dispatch call_next request p in
      (outcome ≡ o)
      × ((method route : String)
          → total (is_inc method route) q + total (is_dec method route) p
            ≡ total (is_inc method route) p + total (is_dec method route) q)
      × (total is_request q ≡ total is_request p + 1)
      × (total is_server_error q ≡ total is_server_error p + fails o)
      × (total is_error q ≡ total is_error p + raises o)
unfolding prometheus_dispatch
prometheus_dispatch_lem call_next request p silent =
    let (o, q) = call_next request (entered request p) in
    let inc : HttpMetric = HttpMetric.in_flight_inc request.method "unmatched" in
    let kept =
      λ (kind : HttpMetric → Bool). ap (count_if kind) (silent request (entered request p)) in
    let counts = added-counts request o in
    (
      finish_request-outcome request o q,
      prometheus_dispatch-IsBalanced call_next (λ r p' m t. rw (silent r p') refl) request p,
      omega (
        arith,
        kept is_request,
        observed is_request inc p,
        finish_request-total is_request request o q,
        counts.0,
      ),
      omega (
        arith,
        kept is_server_error,
        observed is_server_error inc p,
        finish_request-total is_server_error request o q,
        counts.1,
      ),
      omega (
        arith,
        kept is_error,
        observed is_error inc p,
        finish_request-total is_error request o q,
        counts.2,
      ),
    )
