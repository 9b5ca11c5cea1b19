-- ===== src/Repository/Refinement.antt =====
-- The transactions of application/shared/repository.py implement the board of jobs.

use production_cloud_reliabi.Prelude.{
  ℕ, ◌≡◌, refl, ◌⊎◌, String, true, false, Option, some, [], ◌∷◌, ◌++◌, inl, inr, if◌then◌else◌,
  arith,
}
use production_cloud_reliabi.Errors.{Result, ok, err}
use production_cloud_reliabi.Codec.{Json, Codec}
use production_cloud_reliabi.Database.{Uuid, Timestamp, Database}
use production_cloud_reliabi.Repository.Jobs.{
  create_job, mark_job_processing, renew_job_processing_lease, complete_job_with_report, fail_job,
  new_job, has_job,
}
use production_cloud_reliabi.Repository.Outbox.{
  claim_outbox_events, mark_outbox_published, mark_outbox_failed,
}
use production_cloud_reliabi.Repository.Actions.{Action, run_action, committed}
use production_cloud_reliabi.Repository.Customers.{create_customer}
use production_cloud_reliabi.Repository.Steps.{Update, find_job-none}
use production_cloud_reliabi.Repository.Consistency.{IsConsistent}
use production_cloud_reliabi.Repository.Board.{JobState, board, fenced, on, effect, is_err, raises}
use production_cloud_reliabi.Repository.BoardSteps.{
  updated-board, appended-board, complete_cases, completed-board,
}

committed-err :
    (db : Database) (r : Result (Unit {0} × Database)) → is_err r ≡ true → committed db r ≡ db
committed-err db (ok (u, v)) h = ground arith
committed-err db (err e) h = refl

-- A creation raises, or adds the job under an id that had none.
create_cases :
    (codec : Codec) (now : Timestamp) (uuid : ℕ → Uuid) (job_type : String) (payload : Json)
    (correlation_id : Option String) (db : Database)
    → let created = create_job codec now uuid job_type payload correlation_id db in
      let db' = committed db created in
      ((is_err created ≡ true) × (db' ≡ db))
      ⊎ ((is_err created ≡ false)
          × (has_job (uuid 0) db.jobs ≡ false)
          × (db'.jobs ≡ db.jobs ++ new_job (uuid 0) job_type payload now ∷ [])
          × (db'.job_results ≡ db.job_results)
          × (db'.object_metadata ≡ db.object_metadata))
unfolding create_job
create_cases codec now uuid job_type payload correlation_id db = ground arith

created-board :
    (codec : Codec) (now : Timestamp) (uuid : ℕ → Uuid) (job_type : String) (payload : Json)
    (correlation_id : Option String) (db : Database) (j : Uuid)
    → let created = create_job codec now uuid job_type payload correlation_id db in
      board (committed db created) j ≡ (
        if is_err created
        then board db j
        else on (uuid 0) (λ s. some JobState.pending) (board db) j)
created-board codec now uuid job_type payload correlation_id db j =
    elim (create_cases codec now uuid job_type payload correlation_id db) [
      | inl (e, same) ↦ rw (e, same) refl
      | inr (e, new, added, f, g) ↦ rw e (
          appended-board (new_job (uuid 0) job_type payload now) db
            (committed db (create_job codec now uuid job_type payload correlation_id db)) j
            (find_job-none (uuid 0) db.jobs new) refl added f g)
    ]

finished-board :
    (now : Timestamp) (uuid : ℕ → Uuid) (i token : Uuid) (result : Json) (key type : String)
    (db : Database) (j : Uuid)
    → IsConsistent db
    → let done = complete_job_with_report now uuid i token result key type db in
      board (committed db done) j ≡ (
        if is_err done
        then board db j
        else on i (fenced token (JobState.completed result key type)) (board db) j)
finished-board now uuid i token result key type db j c =
    elim (complete_cases now uuid i token result key type db c) [
      | inl e ↦
          rw (e, committed-err db (complete_job_with_report now uuid i token result key type db) e)
            refl
      | inr (r, found, held, e) ↦
          rw e (completed-board now uuid i token result key type db c r j found held)
    ]

create_customer-board :
    (now : Timestamp) (uuid : ℕ → Uuid) (name email : String) (db : Database) (j : Uuid)
    → board (committed db (create_customer now uuid name email db)) j ≡ board db j
unfolding create_customer
create_customer-board now uuid name email db j = ground arith

-- The repository implements the board of jobs: on consistent tables every transaction of the platform
-- leaves the board as it is if it raises, and otherwise changes it as its effect says, whatever ids,
-- times and texts it is given. The view forgets attempts, payloads, events and the order of rows.
pub run_action-board :
    (codec : Codec) (now : Timestamp) (uuid : ℕ → Uuid) (a : Action) (db : Database) (j : Uuid)
    → IsConsistent db
    → board (run_action codec now uuid a db) j
      ≡ (if raises codec now uuid a db then board db j else effect now uuid a (board db) j)
unfolding run_action mark_job_processing renew_job_processing_lease fail_job claim_outbox_events
    mark_outbox_published mark_outbox_failed
run_action-board codec now uuid (Action.create_customer name email) db j c =
    create_customer-board now uuid name email db j
run_action-board codec now uuid (Action.create_job job_type payload correlation_id) db j c =
    created-board codec now uuid job_type payload correlation_id db j
run_action-board codec now uuid (Action.mark_job_processing i lease) db j c =
    updated-board (Update.claim now lease (uuid 0)) i db j refl c
run_action-board codec now uuid (Action.renew_job_processing_lease i token) db j c =
    updated-board (Update.renew now token) i db j refl c
run_action-board codec now uuid (Action.complete_job_with_report i token result key type) db j c =
    finished-board now uuid i token result key type db j c
run_action-board codec now uuid (Action.fail_job i token error) db j c =
    updated-board (Update.give_up now token error) i db j refl c
run_action-board codec now uuid (Action.claim_outbox_events limit lease locked) db j c = refl
run_action-board codec now uuid (Action.mark_outbox_published event_id token) db j c = refl
run_action-board codec now uuid (Action.mark_outbox_failed event_id token error) db j c = refl
