-- ===== src/Repository/Steps.antt =====
-- What the transactions of application/shared/repository.py do to the table of jobs.
use production_cloud_reliabi.Prelude.{
  ℕ, ◌≡◌, refl, String, Bool, false, Option, none, List, [], ◌∷◌, ◌++◌, ◌⊎◌, inl, inr, arith,
}
use production_cloud_reliabi.Codec.{Codec, Json}
use production_cloud_reliabi.Database.{
  Uuid, Timestamp, JobStatus, JobRow, Database, find_job, update_where,
}
use production_cloud_reliabi.Repository.Customers.{create_customer}
use production_cloud_reliabi.Repository.Jobs.{
  create_job, mark_job_processing, renew_job_processing_lease, record_completion,
  complete_job_with_report, fail_job, is_claimable, holds_claim, claimed, renewed, finished,
  failed_with, has_job, new_job,
}
use production_cloud_reliabi.Repository.Outbox.{
  claim_outbox_events, mark_outbox_published, mark_outbox_failed,
}
use production_cloud_reliabi.Repository.Actions.{Action, run_action, committed}
use production_cloud_reliabi.Repository.Lookup.{job_where, find_job-has_job}

-- The four UPDATE statements on a job, with the parameters of each.
pub data Update : Type 0 where
  claim : Timestamp → ℕ → Uuid → Update
  renew : Timestamp → Uuid → Update
  finish : Timestamp → Uuid → Update
  give_up : Timestamp → Uuid → String → Update

abbrev pub test : Update → JobRow → Bool
test (Update.claim now lease_seconds token) = is_claimable now lease_seconds
test (Update.renew now token) = holds_claim token
test (Update.finish now token) = holds_claim token
test (Update.give_up now token error) = holds_claim token

abbrev pub change : Update → JobRow → JobRow
change (Update.claim now lease_seconds token) = claimed now token
change (Update.renew now token) = renewed now
change (Update.finish now token) = finished now
change (Update.give_up now token error) = failed_with now error

abbrev pub update : Update → Uuid → List JobRow → List JobRow
update u i = update_where (job_where i (test u)) (change u)

pub change-id : (u : Update) (r : JobRow) → (change u r).id ≡ r.id
change-id (Update.claim now lease_seconds token) r = refl
change-id (Update.renew now token) r = refl
change-id (Update.finish now token) r = refl
change-id (Update.give_up now token error) r = refl

-- What one transaction does to the table of jobs.
pub data JobsStep (rows : List JobRow) (rows' : List JobRow) : Type 0 where
  same : rows' ≡ rows → JobsStep rows rows'
  added :
      (row : JobRow)
      → find_job row.id rows ≡ none
      → row.status ≡ JobStatus.pending
      → rows' ≡ rows ++ row ∷ []
      → JobsStep rows rows'
  updated : (u : Update) (i : Uuid) → rows' ≡ update u i rows → JobsStep rows rows'

pub create_customer-jobs :
    (now : Timestamp) (uuid : ℕ → Uuid) (name email : String) (db : Database)
    → (committed db (create_customer now uuid name email db)).jobs ≡ db.jobs
unfolding create_customer
create_customer-jobs now uuid name email db = ground arith

pub find_job-none :
    (i : Uuid) (rows : List JobRow) → has_job i rows ≡ false → find_job i rows ≡ none
find_job-none i rows h = ground (arith, find_job-has_job i rows)

-- The job is added when its id is new, and otherwise nothing is.
pub create_job-jobs :
    (codec : Codec) (now : Timestamp) (uuid : ℕ → Uuid) (job_type : String) (payload : Json)
    (correlation_id : Option String) (db : Database)
    → let db' = committed db (create_job codec now uuid job_type payload correlation_id db) in
      (db'.jobs ≡ db.jobs)
      ⊎ ((has_job (uuid 0) db.jobs ≡ false)
          × (db'.jobs ≡ db.jobs ++ new_job (uuid 0) job_type payload now ∷ []))
unfolding create_job
create_job-jobs codec now uuid job_type payload correlation_id db = ground arith

pub complete-jobs :
    (now : Timestamp) (uuid : ℕ → Uuid) (i token : Uuid) (result : Json) (key type : String)
    (db : Database)
    → let db' = committed db (complete_job_with_report now uuid i token result key type db) in
      (db'.jobs ≡ db.jobs) ⊎ (db'.jobs ≡ update (Update.finish now token) i db.jobs)
unfolding complete_job_with_report record_completion
complete-jobs now uuid i token result key type db = ground arith

-- Every transaction of the platform leaves the table of jobs, adds a pending job under a new id, or
-- runs one of the four UPDATE statements.
pub run_action-JobsStep :
    (codec : Codec) (now : Timestamp) (uuid : ℕ → Uuid) (a : Action) (db : Database)
    → JobsStep db.jobs (run_action codec now uuid a db).jobs
unfolding run_action mark_job_processing renew_job_processing_lease fail_job claim_outbox_events
    mark_outbox_published mark_outbox_failed
run_action-JobsStep codec now uuid (Action.create_customer name email) db =
    same (create_customer-jobs now uuid name email db)
run_action-JobsStep codec now uuid (Action.create_job job_type payload correlation_id) db =
    elim (create_job-jobs codec now uuid job_type payload correlation_id db) [
      | inl e ↦ same e
      | inr (new, e) ↦
          added (new_job (uuid 0) job_type payload now) (find_job-none (uuid 0) db.jobs new) refl e
    ]
run_action-JobsStep codec now uuid (Action.mark_job_processing i lease_seconds) db =
    updated (Update.claim now lease_seconds (uuid 0)) i refl
run_action-JobsStep codec now uuid (Action.renew_job_processing_lease i token) db =
    updated (Update.renew now token) i refl
run_action-JobsStep codec now uuid (Action.complete_job_with_report i token result key type) db =
    elim (complete-jobs now uuid i token result key type db) [
      | inl e ↦ same e
      | inr e ↦ updated (Update.finish now token) i e
    ]
run_action-JobsStep codec now uuid (Action.fail_job i token error) db =
    updated (Update.give_up now token error) i refl
run_action-JobsStep codec now uuid (Action.claim_outbox_events limit lease_seconds locked) db =
    same refl
run_action-JobsStep codec now uuid (Action.mark_outbox_published event_id token) db = same refl
run_action-JobsStep codec now uuid (Action.mark_outbox_failed event_id token error) db = same refl
