-- ===== src/Http/Jobs.antt =====
-- POST /jobs of application/api/main.py inside the two middlewares of create_app: the one added last,
-- PrometheusMiddleware, is the outer one.
use production_cloud_reliabi.Prelude.{ℕ, String, []}
use production_cloud_reliabi.Errors.{Exc, Result, ok, err}
use production_cloud_reliabi.Codec.{Json, Codec}
use production_cloud_reliabi.Database.{JobRow}
use production_cloud_reliabi.World.{World}
use production_cloud_reliabi.Adapters.{JobPublisher}
use production_cloud_reliabi.Api.{answered, refused, create_job}
use production_cloud_reliabi.Api
use production_cloud_reliabi.Http.{Response, Process, Handler}
use production_cloud_reliabi.Http.Context.{context_dispatch}
use production_cloud_reliabi.Http.Prometheus.{prometheus_dispatch}

-- The status code of what a handler answers.
abbrev pub status_of_answer : {A : Type 0} → Api.Response A → ℕ
status_of_answer (answered code body) = code
status_of_answer (refused code) = code

abbrev pub respond : Process → Result (Api.Response JobRow) × World → Result Response × Process
respond p (ok answer, w) =
    (ok (record { status_code = status_of_answer answer; headers = [] }), record p { world = w })
respond p (err e, w) = (err e, record p { world = w })

module _ (codec : Codec) (publisher : JobPublisher) (job_type : String) (payload : Json) where
  -- ApplicationService reads the correlation id from the context variable.
  unfoldable pub post_job : Handler
  post_job request p =
      respond p (create_job codec publisher p.correlation_id job_type payload p.world)

  unfoldable pub serve_job : (Exc → String) → (Exc → String) → String → Handler
  unfolding post_job context_dispatch prometheus_dispatch
  serve_job str_exc format_exception drawn =
      prometheus_dispatch (context_dispatch str_exc format_exception "api" drawn post_job)
