-- ===== src/Worker.antt =====
-- The worker (application/worker/main.py): claiming a job, producing its report, completing it,
-- dispatching the outbox, consuming one message, and the loop over these.
pub mod Consume
pub mod Dispatch
pub mod Loop
pub mod Keeping
pub mod Invariants
pub mod Order
pub mod Claims
pub mod Completing
pub mod Deletion
pub mod Acknowledgement
pub mod Delivery
pub mod Quiet
pub mod Progress
pub mod Success
pub mod Counts
pub mod Tally
use production_cloud_reliabi.Prelude.{
  ℕ, zero, suc, ◌+◌, String, Bool, true, false, Option, none, some, List, [], ◌∷◌, ◌==◌, ◌&&◌,
  str_eq, ltb, if◌then◌else◌,
}
use production_cloud_reliabi.Errors.{Exc, Result, ok, err, type_name}
use production_cloud_reliabi.Codec.{Json, Fields, Codec, get, job_id_of}
use production_cloud_reliabi.Database.{Uuid, JobStatus, JobRow, OutboxRow, Database}
use production_cloud_reliabi.Repository.Jobs
use production_cloud_reliabi.Repository.Jobs.{JobView, is_processing}
use production_cloud_reliabi.Repository.Outbox
use production_cloud_reliabi.World.{
  World, Moment, Metric, VisibilityHeartbeat, Exec, pure, raise, catch, modify, count, transaction,
  ◌>>=◌, ◌>>◌,
}
use production_cloud_reliabi.Adapters.{
  JobPublisher, ArtifactStore, publish, receive_job, delete, put_csv_report,
}

pub data JobProcessStatus : Type 0 where
  completed duplicate_completed in_progress_not_owned : JobProcessStatus

-- What claim_job returns: a job, or a JobProcessStatus.
pub data Claim : Type 0 where
  claimed : JobRow → Claim
  refused : JobProcessStatus → Claim

-- `str(job["attempts"])` in the report, and the token in the job: a claimed job has one.
abbrev pub token_of : JobRow → Uuid
token_of job = elim job.processing_token [ none ↦ 0 | some token ↦ token ]

module _ (codec : Codec) where
  -- The calls of the repository, each a transaction.
  unfoldable pub mark_job_processing : Uuid → ℕ → Exec (Option JobRow)
  mark_job_processing job_id lease_seconds =
      transaction codec (λ m db. ok (Jobs.mark_job_processing m.now m.uuid job_id lease_seconds db))

  unfoldable pub get_job : Uuid → Exec JobView
  get_job job_id =
      transaction codec
        (λ m db. elim (Jobs.get_job job_id db) [ ok view ↦ ok (view, db) | err e ↦ err e ])

  unfoldable pub complete_job_with_report : Uuid → Uuid → Json → String → String → Exec (Unit {0})
  complete_job_with_report job_id token result key type =
      transaction codec
        (λ m db. Jobs.complete_job_with_report m.now m.uuid job_id token result key type db)

  unfoldable pub fail_job : Uuid → Uuid → String → Exec Bool
  fail_job job_id token error =
      transaction codec (λ m db. ok (Jobs.fail_job m.now job_id token error db))

  unfoldable pub claim_outbox_events : ℕ → ℕ → Exec (List OutboxRow)
  claim_outbox_events limit lease_seconds =
      transaction codec
        (λ m db. ok (Outbox.claim_outbox_events m.now m.uuid limit lease_seconds m.locked db))

  unfoldable pub mark_outbox_published : Uuid → Uuid → Exec Bool
  mark_outbox_published event_id token =
      transaction codec (λ m db. ok (Outbox.mark_outbox_published m.now event_id token db))

  unfoldable pub mark_outbox_failed : Uuid → Uuid → String → Exec Bool
  mark_outbox_failed event_id token error =
      transaction codec (λ m db. ok (Outbox.mark_outbox_failed m.now event_id token error db))

  -- The answer of claim_job when the job could not be claimed.
  unfoldable pub refuse_claim : JobStatus → Exec Claim
  refuse_claim JobStatus.completed =
      count (Metric.duplicate_jobs "completed")
      >> count (Metric.job_claims "duplicate_completed")
      >> pure (refused duplicate_completed)
  refuse_claim _ =
      count (Metric.job_claims "in_progress_not_owned") >> pure (refused in_progress_not_owned)

  unfoldable pub answer_claim : Uuid → Option JobRow → Exec Claim
  unfolding refuse_claim
  answer_claim job_id none = do existing ← get_job job_id; refuse_claim existing.job.status
  answer_claim job_id (some job) = count (Metric.job_claims "acquired") >> pure (claimed job)

  unfoldable pub claim_job : Uuid → ℕ → Exec Claim
  unfolding answer_claim
  claim_job job_id lease_seconds = do
    job ← mark_job_processing job_id lease_seconds
    answer_claim job_id job

  -- `str` of a number of attempts is taken from JSON's text of it.
  abbrev pub report_rows : JobRow → List (String × String)
  report_rows job =
      ("job_id", codec.str_uuid job.id)
      ∷ ("job_type", job.job_type)
      ∷ ("attempt", codec.str_json (Json.num job.attempts))
      ∷ []

  abbrev pub report_result : String → Json
  report_result key =
      Json.obj
        (Fields.field "report_key" (Json.str key) (Fields.field "rows" (Json.num 3) Fields.end))

  -- The body of the `try` in complete_claimed_job, up to the completion.
  unfoldable pub write_and_complete : ArtifactStore → JobRow → Exec (Unit {0})
  write_and_complete store job = do
    (key, type) ← put_csv_report codec store job.id (report_rows job)
    complete_job_with_report job.id (token_of job) (report_result key) key type

  unfoldable pub complete_claimed_job : ArtifactStore → JobRow → Exec JobProcessStatus
  unfolding write_and_complete
  complete_claimed_job store job =
      catch
        (do
          write_and_complete store job
          count (Metric.jobs_processed job.job_type "success")
          count (Metric.job_duration job.job_type "success")
          pure completed)
        (λ e. do
          count (Metric.jobs_processed job.job_type "failure")
          count (Metric.job_duration job.job_type "failure")
          raise e)

  -- The `except` clauses of process_job: a lost claim is raised as it is, and any other failure is
  -- recorded in the job first.
  unfoldable pub after_failure : JobRow → Exc → Exec JobProcessStatus
  after_failure job Exc.lost_job_claim = raise Exc.lost_job_claim
  after_failure job e = do fail_job job.id (token_of job) "JobProcessingError"; raise e

  unfoldable pub attempt_job : ArtifactStore → Claim → Exec JobProcessStatus
  unfolding complete_claimed_job after_failure
  attempt_job store (refused status) = pure status
  attempt_job store (claimed job) = catch (complete_claimed_job store job) (after_failure job)

  unfoldable pub process_job : ArtifactStore → Uuid → ℕ → Exec JobProcessStatus
  unfolding claim_job attempt_job
  process_job store job_id lease_seconds = do
    claim ← claim_job job_id lease_seconds
    attempt_job store claim
