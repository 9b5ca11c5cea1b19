-- ===== src/Http.antt =====
-- Requests and responses, what a process of the API keeps beside its tables and queues, and what a
-- handler is, for the middleware of application/shared/logging.py and application/shared/metrics.py.
pub mod Context
pub mod Prometheus
pub mod Formatter
pub mod Jobs
pub mod Observed
pub mod Counted
pub mod Logged
pub mod Traced
use production_cloud_reliabi.Prelude.{
  ℕ, String, Option, List, [], ◌∷◌, ◌++◌, str_eq, if◌then◌else◌, none, some,
}
use production_cloud_reliabi.Errors.{Result}
use production_cloud_reliabi.Codec.{Json}
use production_cloud_reliabi.World.{World}

-- `route` is the path of the route that the router puts into the request's scope.
pub record Request : Type 0 where
  pub method : String
  pub path : String
  pub route : Option String
  pub x_request_id : Option String
  pub x_correlation_id : Option String

pub record Response : Type 0 where
  pub status_code : ℕ
  pub headers : List (String × String)

-- `response.headers[name] = value`
abbrev pub set_header : String → String → List (String × String) → List (String × String)
set_header name value [] = (name, value) ∷ []
set_header name value ((n, v) ∷ headers) =
    if str_eq n name then (n, value) ∷ headers else (n, v) ∷ set_header name value headers

-- The operations on the metrics of HTTP, by the method, the route and the further label. A status class
-- is the digit before "xx"; of the histogram only the fact of an observation is kept.
pub data HttpMetric : Type 0 where
  in_flight_inc in_flight_dec : String → String → HttpMetric
  requests : String → String → ℕ → HttpMetric
  duration : String → String → HttpMetric
  errors : String → String → HttpMetric

-- What a call of a logger hands on; `extra` holds its further fields that are not None, but for the
-- measured latency.
pub record LogRecord : Type 0 where
  pub level : String
  pub service : Option String
  pub message : String
  pub extra : List (String × Json)
  pub exc_info : Option String

pub record Process : Type 0 where
  -- the values of the context variables
  pub request_id : Option String
  pub correlation_id : Option String
  pub metrics : List HttpMetric
  pub logs : List LogRecord
  pub world : World

-- `call_next(request)`
abbrev pub Handler : Type 0
Handler = Request → Process → Result Response × Process
