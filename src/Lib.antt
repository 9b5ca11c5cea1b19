-- ===== src/Lib.antt =====
-- The reliability core of the platform: a repository of customers, jobs and an outbox on PostgreSQL,
-- and the worker that dispatches the outbox to SQS, claims jobs, writes their reports to S3 and
-- completes them under a lease that a heartbeat renews.
--
-- The API creates customers and jobs in transactions of the repository; a job is written together with
-- an event of the outbox. Workers claim due events, publish each as a message, and mark it published
-- or failed. A worker that receives a message claims its job (a new processing token fences off
-- earlier claims), writes a CSV report, completes the job in one transaction and deletes the message.
--
-- Parts and their files:
--   Errors, Codec       exceptions and results; JSON values, and the text conversions of Python's json
--                       and uuid modules as a parameter with named laws
--   Database            the tables of application/shared/migrations/*.sql (Tables), and SQL's
--                       statements on lists of rows (Sql; ORDER BY created_at DESC LIMIT n in Newest)
--   Repository          application/shared/repository.py: a definition for each method of Repository,
--                       under its name, in Customers, Jobs and Outbox; Actions is the type of all its
--                       writing transactions, for what holds of any of them; Board is the abstract board
--                       of jobs that the tables stand for
--   World               the state around a process (tables, queue, reports, counters, heartbeat), and
--                       methods that call the outside and raise (Monad); VisibilityHeartbeat._run of
--                       application/worker/main.py is run_beat
--   Config              application/shared/config.py: Settings and its checks, under their names
--   Adapters            application/shared/adapters.py: publishers, SqsJobConsumer, the artifact stores
--                       and, in Factories, the functions that create them
--   Worker              application/worker/main.py: claim_job, complete_claimed_job and process_job;
--                       consume_one_message in Consume, dispatch_outbox in Dispatch, run_idle_worker in
--                       Loop (run_worker)
--   Api                 application/api/main.py and application/api/service.py: the handlers
--   Migrations          application/migrations.py: run_migrations
--   Http                the middlewares and the formatter: RequestContextMiddleware (Context) and
--                       JsonFormatter (Formatter) of application/shared/logging.py, PrometheusMiddleware
--                       (Prometheus) of application/shared/metrics.py, and POST /jobs under both (Jobs)
--   Platform            the earlier generation of the services in services/platform_app: db/repository.py
--                       (Tables), queue.py (Queue), worker/main.py (Worker), api/main.py (Api) and
--                       logging.py (Logging), with a world of its own (World)
--   Prelude, Tests      shared names and lemmas; the theorems at concrete inputs
--
-- How the code is modelled:
--   * A UUID is the number it encodes, and a timestamp a number of microseconds. A table is the list of
--     its rows, and a nullable column an Option. Comparisons with NULL are false, as in a WHERE clause.
--   * A transaction is one step: it commits all its statements or, when one of them fails, none. NOW()
--     and the UUIDs that it draws are arguments. FOR UPDATE SKIP LOCKED is the list of rows that other
--     transactions have locked.
--   * A process meets a `Moment` at each call of the outside: the transactions of other processes and
--     the iterations of its heartbeat that come before the call, the time, the UUIDs, the messages in
--     the queue, and possibly a fault, which keeps the call from its effect or only loses its answer.
--     The theorems hold for every sequence of moments, but for those that say which calls fail or
--     that nobody else comes between.
--   * `while not shutdown_requested` is a number of rounds. A theorem about run_worker holds for every
--     number, so nothing depends on how many there are.
--   * JSON numbers are natural numbers: the program writes no others itself, and reads none of those in
--     the payload of a job. A dict is its list of fields.
--   * EmailStr, the classes of psycopg's errors and the execution of SQL scripts are parameters.
--
-- Not modelled: the settings and the assembly of the earlier services, the assembly of the API, its
-- /health and /metrics, configure_logging, the log lines of the worker, tracing, the metrics server, the
-- advisory lock of the migrations, measured times, the connection pool, the bound on how long the
-- heartbeat is joined, signal handlers, and everything that is not Python. The order in which
-- UPDATE … RETURNING gives its rows is that of the selection.
pub mod Prelude
pub mod Errors
pub mod Codec
pub mod Database
pub mod Repository
pub mod World
pub mod Config
pub mod Adapters
pub mod Worker
pub mod Api
pub mod Http
pub mod Migrations
pub mod Platform
pub mod Tests
