-- ===== src/Platform/Worker.antt =====
-- The earlier generation of the worker (services/platform_app/worker/main.py).
use production_cloud_reliabi.Prelude.{ℕ, zero, suc, String, true, Option, none, some, List, [], ◌∷◌}
use production_cloud_reliabi.Errors.{Exc, Result, ok, err}
use production_cloud_reliabi.Codec.{Json, Fields, Codec}
use production_cloud_reliabi.Database.{Uuid, JobStatus, JobResultRow}
use production_cloud_reliabi.Platform.Tables.{PlatformJob, PlatformTables}
use production_cloud_reliabi.Platform.Tables
use production_cloud_reliabi.Platform.Queue.{receive_messages, delete_message}
use production_cloud_reliabi.Platform.World.{
  PlatformMessage, Exec, pure, raise, catch, transaction, ◌>>=◌, ◌>>◌,
}

-- Repository.mark_job_processing, get_job, complete_job and fail_job
unfoldable pub mark_job_processing : Uuid → Exec (Option PlatformJob)
mark_job_processing job_id = transaction (λ m db. ok (Tables.mark_job_processing m.now job_id db))

-- A transaction that only reads.
abbrev pub read : {A : Type 0} → PlatformTables → Result A → Result (A × PlatformTables)
read db (ok a) = ok (a, db)
read db (err e) = err e

unfoldable pub get_job : Uuid → Exec (PlatformJob × Option JobResultRow)
get_job job_id = transaction (λ m db. read db (Tables.get_job job_id db))

unfoldable pub complete_job : Uuid → Json → Exec (Unit {0})
complete_job job_id result = transaction (λ m db. Tables.complete_job m.now m.uuid job_id result db)

unfoldable pub fail_job : Uuid → String → Exec (Unit {0})
fail_job job_id error = transaction (λ m db. ok (tt, Tables.fail_job m.now job_id error db))

abbrev pub job_result : PlatformJob → Json
job_result job = Json.obj (
    Fields.field "processed" (Json.bool true) (
      Fields.field "job_type" (Json.str job.job_type)
        (Fields.field "attempt" (Json.num job.attempts) Fields.end)))

-- existing["status"] == "completed"
abbrev pub check_duplicate : JobStatus → Exec (Unit {0})
check_duplicate JobStatus.completed = pure tt
check_duplicate _ = raise (Exc.external "RuntimeError")

unfoldable pub process_claimed : Uuid → Option PlatformJob → Exec (Unit {0})
unfolding get_job complete_job
process_claimed job_id none = get_job job_id >>= λ existing. check_duplicate existing.0.status
process_claimed job_id (some job) = complete_job job_id (job_result job)

unfoldable pub process_job : Uuid → Exec (Unit {0})
unfolding mark_job_processing process_claimed
process_job job_id = mark_job_processing job_id >>= process_claimed job_id

module _ (codec : Codec) (str_exc : Exc → String) where
  -- The body of `for message in messages` between setting and resetting the context variable:
  -- `"job_id" in locals()` holds once the body of the message was read as a UUID.
  unfoldable pub try_message : PlatformMessage → Exec (Unit {0})
  unfolding process_job delete_message fail_job
  try_message message = elim (codec.parse_uuid message.body) [
    | none ↦ pure tt
    | some job_id ↦
        catch (do process_job job_id; delete_message message.receipt_handle)
          (λ e. fail_job job_id (str_exc e))
  ]

  -- correlation_id_var is set, and reset in any case.
  unfoldable pub handle_message : PlatformMessage → Exec (Unit {0})
  unfolding try_message
  handle_message message w =
      let (r, w') = try_message message (record w { correlation_id = message.correlation_id }) in
      (r, record w' { correlation_id = w.correlation_id })

  unfoldable pub handle_messages : List PlatformMessage → Exec (Unit {0})
  unfolding handle_message
  handle_messages [] = pure tt
  handle_messages (message ∷ messages) = do handle_message message; handle_messages messages

  -- `rounds` is how often the loop finds that no shutdown is requested.
  unfoldable pub run : ℕ → Exec (Unit {0})
  unfolding receive_messages handle_messages
  run zero = pure tt
  run (suc rounds) = do messages ← receive_messages; handle_messages messages; run rounds
