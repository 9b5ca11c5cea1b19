-- ===== src/Repository/Board.antt =====
-- What the repository of jobs (application/shared/repository.py) promises, without tables: a board
-- that says for each id whether there is a job and what is known of it, and what each transaction
-- does to the board.
use production_cloud_reliabi.Prelude.{
  ℕ, ◌+◌, ◌*◌, String, Bool, true, false, Option, none, some, ◌==◌, ltb, if◌then◌else◌,
}
use production_cloud_reliabi.Errors.{Result, ok, err}
use production_cloud_reliabi.Codec.{Json, Codec}
use production_cloud_reliabi.Database.{
  Uuid, Timestamp, JobStatus, JobRow, JobResultRow, ObjectMetadataRow, Database, find_job,
  find_result, find_metadata, truncate,
}
use production_cloud_reliabi.Repository.Jobs
use production_cloud_reliabi.Repository.Actions.{Action}

-- A job held under a claim has its token and the start of its lease, a completed job its result and
-- its artifact's key and type, a failed job its last error.
pub data JobState : Type 0 where
  pending : JobState
  held : Uuid → Timestamp → JobState
  completed : Json → String → String → JobState
  failed : Option String → JobState

abbrev pub Board : Type 0
Board = Uuid → Option JobState

abbrev pub held_state : Option Uuid → Option Timestamp → Option JobState
held_state (some token) (some started) = some (JobState.held token started)
held_state _ _ = none

abbrev pub completed_state : Option JobResultRow → Option ObjectMetadataRow → Option JobState
completed_state (some r) (some o) = some (JobState.completed r.result o.object_key o.object_type)
completed_state _ _ = none

-- The state that a job's row, its result and its object stand for.
abbrev pub state_by :
    JobStatus → JobRow → Option JobResultRow → Option ObjectMetadataRow → Option JobState
state_by JobStatus.pending r result artifact = some JobState.pending
state_by JobStatus.processing r result artifact =
    held_state r.processing_token r.processing_started_at
state_by JobStatus.completed r result artifact = completed_state result artifact
state_by JobStatus.failed r result artifact = some (JobState.failed r.last_error)

abbrev pub state_of_row :
    Option JobRow → Option JobResultRow → Option ObjectMetadataRow → Option JobState
state_of_row none result artifact = none
state_of_row (some r) result artifact = state_by r.status r result artifact

-- The board that the tables stand for.
abbrev pub board : Database → Board
board db i =
    state_of_row (find_job i db.jobs) (find_result i db.job_results)
      (find_metadata i db.object_metadata)

-- A claim of a job.
abbrev pub claim : Timestamp → ℕ → Uuid → Option JobState → Option JobState
claim now lease_seconds token (some JobState.pending) = some (JobState.held token now)
claim now lease_seconds token (some (JobState.failed e)) = some (JobState.held token now)
claim now lease_seconds token (some (JobState.held t started)) =
    if ltb (started + lease_seconds * 1000000) now
    then some (JobState.held token now)
    else some (JobState.held t started)
claim now lease_seconds token s = s

-- A change that only the holder of the claim can make.
abbrev pub fenced : Uuid → JobState → Option JobState → Option JobState
fenced token new (some (JobState.held t started)) =
    if t == token then some new else some (JobState.held t started)
fenced token new s = s

-- A change of one job.
abbrev pub on : Uuid → (Option JobState → Option JobState) → Board → Board
on i f b j = if j == i then f (b j) else b j

abbrev pub effect : Timestamp → (ℕ → Uuid) → Action → Board → Board
effect now uuid (Action.create_job job_type payload correlation_id) =
    on (uuid 0) (λ s. some JobState.pending)
effect now uuid (Action.mark_job_processing job_id lease_seconds) =
    on job_id (claim now lease_seconds (uuid 0))
effect now uuid (Action.renew_job_processing_lease job_id token) =
    on job_id (fenced token (JobState.held token now))
effect now uuid (Action.complete_job_with_report job_id token result key type) =
    on job_id (fenced token (JobState.completed result key type))
effect now uuid (Action.fail_job job_id token error) =
    on job_id (fenced token (JobState.failed (some (truncate error))))
effect now uuid _ = λ b. b

abbrev pub is_err {ℓ} : {A : Type ℓ} → Result A → Bool
is_err (ok _) = false
is_err (err _) = true

-- Whether a transaction on jobs raises.
abbrev pub raises : Codec → Timestamp → (ℕ → Uuid) → Action → Database → Bool
raises codec now uuid (Action.create_job job_type payload correlation_id) db =
    is_err (Jobs.create_job codec now uuid job_type payload correlation_id db)
raises codec now uuid (Action.complete_job_with_report job_id token result key type) db =
    is_err (Jobs.complete_job_with_report now uuid job_id token result key type db)
raises codec now uuid _ db = false
