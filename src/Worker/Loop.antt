-- ===== src/Worker/Loop.antt =====
-- run_idle_worker of application/worker/main.py: the checks and adapters of the start, and the loop
-- until shutdown is requested.
use production_cloud_reliabi.Prelude.{ℕ, zero, suc, Bool, true, false}
use production_cloud_reliabi.Codec.{Codec}
use production_cloud_reliabi.World.{Exec, pure, lift, ◌>>=◌, ◌>>◌}
use production_cloud_reliabi.Config.{Settings, is_cloud, validate_worker_runtime, database_conninfo}
use production_cloud_reliabi.Adapters.{JobPublisher, ArtifactStore}
use production_cloud_reliabi.Adapters.Factories.{
  create_job_publisher, create_job_consumer, create_artifact_store,
}
use production_cloud_reliabi.Worker.Consume.{ConsumeOptions, consume_one_message}
use production_cloud_reliabi.Worker.Dispatch.{dispatch_outbox}

abbrev pub options_of : Settings → ConsumeOptions
options_of s = record {
  processing_lease_seconds = s.job_processing_lease_seconds;
  visibility_timeout_seconds = s.sqs_visibility_timeout_seconds;
  visibility_heartbeat_seconds = s.sqs_visibility_heartbeat_seconds;
}

module _ (codec : Codec) (settings : Settings) where
  -- A local worker has no consumer and only sleeps.
  abbrev pub consume_if_cloud : ArtifactStore → Bool → Exec (Unit {0})
  consume_if_cloud store true =
      consume_one_message codec store (options_of settings) >>= λ _. pure tt
  consume_if_cloud store false = pure tt

  unfoldable pub worker_round : JobPublisher → ArtifactStore → Exec (Unit {0})
  worker_round publisher store = do
    dispatch_outbox codec publisher 10 settings.outbox_claim_lease_seconds
    consume_if_cloud store (is_cloud settings)

  -- `rounds` is how often the loop finds that no shutdown is requested.
  unfoldable pub worker_loop : JobPublisher → ArtifactStore → ℕ → Exec (Unit {0})
  unfolding worker_round
  worker_loop publisher store zero = pure tt
  worker_loop publisher store (suc rounds) = do
    worker_round publisher store
    worker_loop publisher store rounds

  -- In the cloud the consumer is made as well, which checks the queue again.
  abbrev pub check_consumer : Bool → Exec (Unit {0})
  check_consumer true = lift (create_job_consumer settings) >>= λ _. pure tt
  check_consumer false = pure tt

  unfoldable pub run_worker : ℕ → Exec (Unit {0})
  unfolding worker_loop
  run_worker rounds = do
    lift (validate_worker_runtime settings)
    lift (database_conninfo settings)
    store ← lift (create_artifact_store settings)
    publisher ← lift (create_job_publisher settings (is_cloud settings))
    check_consumer (is_cloud settings)
    worker_loop publisher store rounds
