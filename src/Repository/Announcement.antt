-- ===== src/Repository/Announcement.antt =====
-- The transactional outbox: create_job of application/shared/repository.py writes a job and its
-- job.created event in one transaction, so neither exists without the other.
use production_cloud_reliabi.Prelude.{
  ℕ, ◌≡◌, refl, sym, ◌∙◌, String, Bool, false, Option, none, some, List, [], ◌∷◌, ◌&&◌, ◌==◌, inl,
  inr, Bool-cases, str_eq, any_of, any_of-append, contains, arith,
}
use production_cloud_reliabi.Errors.{ok, err}
use production_cloud_reliabi.Codec.{Json, Codec, UuidRoundTrips, job_id_of}
use production_cloud_reliabi.Database.{Uuid, Timestamp, JobRow, OutboxRow, Database, update_where}
use production_cloud_reliabi.Repository.Customers.{create_customer}
use production_cloud_reliabi.Repository.Jobs.{
  create_job, complete_job_with_report, record_completion, has_job, new_job, new_outbox,
  outbox_payload, mark_job_processing, renew_job_processing_lease, fail_job,
}
use production_cloud_reliabi.Repository.Outbox.{
  claim_outbox_events, mark_outbox_published, mark_outbox_failed, publishing_under,
  published_at_time, not_published, holds_event, ids, select_due,
}
use production_cloud_reliabi.Repository.Actions.{Action, run_action, committed}
use production_cloud_reliabi.Repository.Lookup.{has_job-update}
use production_cloud_reliabi.Repository.Steps.{
  Update, test, change, update, change-id, complete-jobs,
}

module _ (codec : Codec) where
  abbrev pub names_job : Uuid → Json → Bool
  names_job i (Json.obj d) = elim (job_id_of codec d) [ ok u ↦ u == i | err _ ↦ false ]
  names_job i _ = false

  -- The dispatcher accepts the event and publishes job i for it.
  abbrev pub announces : Uuid → OutboxRow → Bool
  announces i e = str_eq e.event_type "job.created" && e.version == 1 && names_job i e.payload

  -- The jobs are exactly those that an event of the outbox announces.
  abbrev pub IsAnnounced : Database → Type 0
  IsAnnounced db = (i : Uuid) → has_job i db.jobs ≡ any_of (announces i) db.job_outbox

  pub names_job-outbox_payload :
      (i j : Uuid) (correlation_id : Option String)
      → codec.parse_uuid (codec.str_uuid i) ≡ some i
      → names_job j (outbox_payload codec i correlation_id) ≡ (i == j)
  names_job-outbox_payload i j none h = ground arith
  names_job-outbox_payload i j (some c) h = ground arith

  any_of-update :
      (p : OutboxRow → Bool) (f : OutboxRow → OutboxRow) (i : Uuid) (rows : List OutboxRow)
      → ((e : OutboxRow) → announces i (f e) ≡ announces i e)
      → any_of (announces i) (update_where p f rows) ≡ any_of (announces i) rows
  any_of-update p f i [] h = refl
  any_of-update p f i (e ∷ rows) h = elim (Bool-cases (p e)) [
    | inl y ↦ rw (y, h e, any_of-update p f i rows h)
    | inr n ↦ rw (n, any_of-update p f i rows h)
  ]

  -- A new job comes with the event that announces it, or not at all.
  create_job-IsAnnounced :
      (now : Timestamp) (uuid : ℕ → Uuid) (job_type : String) (payload : Json)
      (correlation_id : Option String) (db : Database)
      → codec.parse_uuid (codec.str_uuid (uuid 0)) ≡ some (uuid 0)
      → IsAnnounced db
      → IsAnnounced (committed db (create_job codec now uuid job_type payload correlation_id db))
  unfolding create_job
  create_job-IsAnnounced now uuid job_type payload correlation_id db law h i =
      let event : OutboxRow =
        new_outbox (uuid 1) (outbox_payload codec (uuid 0) correlation_id) now in
      let job : JobRow = new_job (uuid 0) job_type payload now in
      ground (
        arith,
        h i,
        names_job-outbox_payload (uuid 0) i correlation_id law,
        any_of-append (λ (r : JobRow). r.id == i) db.jobs (job ∷ []),
        any_of-append (announces i) db.job_outbox (event ∷ []),
      )

  create_customer-outbox :
      (now : Timestamp) (uuid : ℕ → Uuid) (name email : String) (db : Database)
      → let db' = committed db (create_customer now uuid name email db) in
        (db'.jobs ≡ db.jobs) × (db'.job_outbox ≡ db.job_outbox)
  unfolding create_customer
  create_customer-outbox now uuid name email db = (ground arith, ground arith)

  complete-outbox :
      (now : Timestamp) (uuid : ℕ → Uuid) (i token : Uuid) (result : Json) (key type : String)
      (db : Database)
      → (committed db (complete_job_with_report now uuid i token result key type db)).job_outbox
        ≡ db.job_outbox
  unfolding complete_job_with_report record_completion
  complete-outbox now uuid i token result key type db = ground arith

  updated-announced :
      (u : Update) (k i : Uuid) (jobs : List JobRow) (outbox : List OutboxRow)
      → has_job i jobs ≡ any_of (announces i) outbox
      → has_job i (update u k jobs) ≡ any_of (announces i) outbox
  updated-announced u k i jobs outbox h =
      has_job-update (test u) (change u) (change-id u) k i jobs ∙ h

  module _ (law : UuidRoundTrips codec) where
    -- Every transaction of the platform keeps the outbox in step with the jobs: a job exists if and
    -- only if some event of the outbox announces it, whatever has become of either. UUIDs are read back
    -- from their texts.
    pub run_action-IsAnnounced :
        (now : Timestamp) (uuid : ℕ → Uuid) (a : Action) (db : Database)
        → IsAnnounced db
        → IsAnnounced (run_action codec now uuid a db)
    unfolding run_action mark_job_processing renew_job_processing_lease fail_job claim_outbox_events
        mark_outbox_published mark_outbox_failed
    run_action-IsAnnounced now uuid (Action.create_customer name email) db h i =
        let e = create_customer-outbox now uuid name email db in rw (e.0, e.1) (h i)
    run_action-IsAnnounced now uuid (Action.create_job job_type payload corr) db h i =
        create_job-IsAnnounced now uuid job_type payload corr db (law (uuid 0)) h i
    run_action-IsAnnounced now uuid (Action.mark_job_processing k lease) db h i =
        updated-announced (Update.claim now lease (uuid 0)) k i db.jobs db.job_outbox (h i)
    run_action-IsAnnounced now uuid (Action.renew_job_processing_lease k t) db h i =
        updated-announced (Update.renew now t) k i db.jobs db.job_outbox (h i)
    run_action-IsAnnounced now uuid (Action.complete_job_with_report k t result key type) db h i =
        elim (complete-jobs now uuid k t result key type db) [
          | inl e ↦ rw (e, complete-outbox now uuid k t result key type db) (h i)
          | inr e ↦
              rw (e, complete-outbox now uuid k t result key type db)
                (updated-announced (Update.finish now t) k i db.jobs db.job_outbox (h i))
        ]
    run_action-IsAnnounced now uuid (Action.fail_job k t error) db h i =
        updated-announced (Update.give_up now t error) k i db.jobs db.job_outbox (h i)
    run_action-IsAnnounced now uuid (Action.claim_outbox_events limit lease locked) db h i =
        h i
        ∙ sym (
            any_of-update
              (λ (r : OutboxRow).
                contains r.id (ids (select_due now limit lease locked db.job_outbox)))
              (publishing_under now (uuid 0)) i db.job_outbox (λ e. refl))
    run_action-IsAnnounced now uuid (Action.mark_outbox_published k t) db h i =
        h i
        ∙ sym (any_of-update (holds_event k t) (published_at_time now) i db.job_outbox (λ e. refl))
    run_action-IsAnnounced now uuid (Action.mark_outbox_failed k t error) db h i =
        h i
        ∙ sym
            (any_of-update (holds_event k t) (not_published now error) i db.job_outbox (λ e. refl))
