-- ===== src/Worker/Dispatch.antt =====
-- dispatch_outbox of application/worker/main.py: the due events are claimed and published one by
-- one, and each is marked published or failed.
use production_cloud_reliabi.Prelude.{
  ℕ, ◌+◌, Bool, true, false, not, none, some, List, [], ◌∷◌, ◌==◌, ◌||◌, ltb, str_eq, if◌then◌else◌,
}
use production_cloud_reliabi.Errors.{Exc, type_name}
use production_cloud_reliabi.Codec.{Json, Codec, get, job_id_of}
use production_cloud_reliabi.Database.{Uuid, OutboxRow}
use production_cloud_reliabi.World.{Metric, Exec, pure, raise, catch, count, lift, ◌>>=◌, ◌>>◌}
use production_cloud_reliabi.Adapters.{JobPublisher, publish}
use production_cloud_reliabi.Worker.{claim_outbox_events, mark_outbox_published, mark_outbox_failed}

abbrev pub claim_token_of : OutboxRow → Uuid
claim_token_of event = elim event.claim_token [ none ↦ 0 | some token ↦ token ]

module _ (codec : Codec) (publisher : JobPublisher) where
  -- The arguments of publish; a payload that is no dict cannot be subscripted.
  unfoldable pub publish_payload : Json → Exec (Unit {0})
  publish_payload (Json.obj d) = do
    job_id ← lift (job_id_of codec d)
    publish codec publisher job_id (get "correlation_id" d)
  publish_payload _ = raise Exc.type_error

  unfoldable pub check_schema : OutboxRow → Exec (Unit {0})
  check_schema event =
      if not (str_eq event.event_type "job.created") || not (event.version == 1)
      then raise Exc.value_error
      else pure tt

  -- 1 if the event counts as dispatched.
  unfoldable pub count_success : Bool → Exec ℕ
  count_success true = count (Metric.outbox_dispatch "success") >> pure 1
  count_success false = pure 0

  -- The body of the `try`.
  unfoldable pub try_dispatch : OutboxRow → Exec ℕ
  unfolding publish_payload check_schema count_success
  try_dispatch event = do
    count (Metric.outbox_dispatch "attempt")
    check_schema event
    publish_payload event.payload
    marked ← mark_outbox_published codec event.id (claim_token_of event)
    count_success marked

  unfoldable pub record_failure : OutboxRow → Exc → Exec ℕ
  record_failure event e = do
    count (Metric.outbox_dispatch "failure")
    mark_outbox_failed codec event.id (claim_token_of event) (type_name e)
    pure 0

  abbrev pub count_reclaim : OutboxRow → Exec (Unit {0})
  count_reclaim event =
      if ltb 1 event.attempts then count (Metric.outbox_reclaims "reclaimed") else pure tt

  unfoldable pub dispatch_event : OutboxRow → Exec ℕ
  unfolding try_dispatch record_failure
  dispatch_event event = count_reclaim event >> catch (try_dispatch event) (record_failure event)

  unfoldable pub dispatch_events : List OutboxRow → ℕ → Exec ℕ
  unfolding dispatch_event
  dispatch_events [] dispatched = pure dispatched
  dispatch_events (event ∷ events) dispatched = do
    n ← dispatch_event event
    dispatch_events events (dispatched + n)

  unfoldable pub dispatch_outbox : ℕ → ℕ → Exec ℕ
  unfolding dispatch_events
  dispatch_outbox limit lease_seconds = do
    events ← claim_outbox_events codec limit lease_seconds
    dispatch_events events 0
