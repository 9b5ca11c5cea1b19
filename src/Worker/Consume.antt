-- ===== src/Worker/Consume.antt =====
-- consume_one_message of application/worker/main.py: one message is received, its job is claimed and
-- completed under a heartbeat, and the message is deleted.
use production_cloud_reliabi.Prelude.{ℕ, String, Bool, true, false, Option, none, some}
use production_cloud_reliabi.Errors.{Exc, type_name}
use production_cloud_reliabi.Codec.{Codec}
use production_cloud_reliabi.Database.{Uuid, JobRow}
use production_cloud_reliabi.World.{VisibilityHeartbeat, Exec, pure, raise, catch, ◌>>=◌, ◌>>◌}
use production_cloud_reliabi.Adapters.{ArtifactStore, receive_job, delete}
use production_cloud_reliabi.Worker.{
  completed, duplicate_completed, in_progress_not_owned, Claim, claimed, refused, token_of,
  claim_job, complete_claimed_job, fail_job,
}

-- `with VisibilityHeartbeat(...)`: __enter__ starts the thread, and __exit__ stops it whether the
-- body returns or raises.
unfoldable pub with_heartbeat : {A : Type 0} → VisibilityHeartbeat → Exec A → Exec A
with_heartbeat h m w =
    let (r, w') = m (record w { heartbeat = some h }) in (r, record w' { heartbeat = none })

-- The keyword arguments.
pub record ConsumeOptions : Type 0 where
  pub processing_lease_seconds : ℕ
  pub visibility_timeout_seconds : ℕ
  pub visibility_heartbeat_seconds : ℕ

abbrev pub heartbeat_of : ConsumeOptions → JobRow → Uuid → String → VisibilityHeartbeat
heartbeat_of options job job_id receipt_handle = record {
  job_id = job_id;
  processing_token = token_of job;
  receipt_handle = receipt_handle;
  visibility_timeout_seconds = options.visibility_timeout_seconds;
  heartbeat_seconds = options.visibility_heartbeat_seconds;
}

module _ (codec : Codec) where
  -- The `except` clauses: a lost claim is only logged; of any other failure the job is told.
  unfoldable pub give_up : Uuid → JobRow → Exc → Exec Bool
  give_up job_id job Exc.lost_job_claim = pure false
  give_up job_id job e = do fail_job codec job_id (token_of job) (type_name e); pure false

  unfoldable pub complete_and_delete :
      ArtifactStore → ConsumeOptions → Uuid → String → JobRow → Exec Bool
  unfolding with_heartbeat
  complete_and_delete store options job_id receipt_handle job = do
    with_heartbeat (heartbeat_of options job job_id receipt_handle)
        (complete_claimed_job codec store job)
    delete codec receipt_handle
    pure true

  -- What follows the claim.
  unfoldable pub handle_claim : ArtifactStore → ConsumeOptions → Uuid → String → Claim → Exec Bool
  unfolding complete_and_delete give_up
  handle_claim store options job_id receipt_handle (refused duplicate_completed) = do
    delete codec receipt_handle
    pure true
  handle_claim store options job_id receipt_handle (refused in_progress_not_owned) = pure false
  handle_claim store options job_id receipt_handle (refused completed) = raise Exc.type_error
  handle_claim store options job_id receipt_handle (claimed job) =
      catch (complete_and_delete store options job_id receipt_handle job) (give_up job_id job)

  unfoldable pub handle_message :
      ArtifactStore → ConsumeOptions → Option (Uuid × String) → Exec Bool
  unfolding handle_claim
  handle_message store options none = pure false
  handle_message store options (some (job_id, receipt_handle)) = do
    claim ← claim_job codec job_id options.processing_lease_seconds
    handle_claim store options job_id receipt_handle claim

  -- A failure to receive returns False, as does an empty queue.
  unfoldable pub receive_or_none : Exec (Option (Uuid × String))
  receive_or_none = catch (receive_job codec) (λ e. pure none)

  unfoldable pub consume_one_message : ArtifactStore → ConsumeOptions → Exec Bool
  unfolding receive_or_none handle_message
  consume_one_message store options = do
    message ← receive_or_none
    handle_message store options message
