-- ===== src/Adapters/Factories.antt =====
-- create_job_publisher, create_job_consumer and create_artifact_store of
-- application/shared/adapters.py. Of a consumer only the queue's URL matters.
use production_cloud_reliabi.Prelude.{String, Bool, Option, none, some, if◌then◌else◌}
use production_cloud_reliabi.Errors.{Result, ok, ◌>>=◌}
use production_cloud_reliabi.Config.{
  Settings, is_cloud, is_s3, validate_queue, validate_artifact_store,
}
use production_cloud_reliabi.Adapters.{JobPublisher, ArtifactStore}

-- `value or ""`
abbrev pub or_empty : Option String → String
or_empty none = ""
or_empty (some s) = s

unfoldable pub create_job_publisher : Settings → Bool → Result JobPublisher
create_job_publisher s direct_cloud_publish =
    if is_cloud s
    then if direct_cloud_publish
      then (do _ ← validate_queue s; ok (JobPublisher.sqs (or_empty s.sqs_queue_url)))
      else ok JobPublisher.noop
    else ok JobPublisher.local

unfoldable pub create_job_consumer : Settings → Result String
create_job_consumer s = do _ ← validate_queue s; ok (or_empty s.sqs_queue_url)

unfoldable pub create_artifact_store : Settings → Result ArtifactStore
create_artifact_store s =
    if is_s3 s
    then (do
      _ ← validate_artifact_store s
      ok (ArtifactStore.s3 (or_empty s.artifact_bucket_name) s.artifact_prefix))
    else ok (ArtifactStore.local s.local_artifact_root s.artifact_prefix)
