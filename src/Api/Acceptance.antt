-- ===== src/Api/Acceptance.antt =====
-- What the answers of POST /jobs and POST /customers mean (application/api/main.py).
use production_cloud_reliabi.Prelude.{
  ℕ, ◌≡◌, refl, ◌++◌, String, true, false, Option, none, some, [], ◌∷◌, any_of, any_of-append,
  arith,
}
use production_cloud_reliabi.Errors.{Exc, Result, ok, err}
use production_cloud_reliabi.Codec.{Json, Codec, UuidRoundTrips}
use production_cloud_reliabi.Database.{Uuid, Timestamp, JobRow, OutboxRow, Database, find_job}
use production_cloud_reliabi.Repository.Jobs
use production_cloud_reliabi.Repository.Jobs.{new_job, new_outbox, outbox_payload, has_job}
use production_cloud_reliabi.Repository.Lookup.{find_job-append_new}
use production_cloud_reliabi.Repository.Steps.{find_job-none}
use production_cloud_reliabi.Repository.Announcement.{announces, names_job-outbox_payload}
use production_cloud_reliabi.World.{World, Moment, commit, next, transaction}
use production_cloud_reliabi.World.Rules.{Ends, Ends-catch, Ends-map, Ends-call}
use production_cloud_reliabi.Config.{Settings}
use production_cloud_reliabi.Adapters.{JobPublisher}
use production_cloud_reliabi.Adapters.Factories.{create_job_publisher}
use production_cloud_reliabi.Api.{Response, insert_job, retry_plain, create_job}
use production_cloud_reliabi.Api.Answers.{AnsweredBy, create_job-AnsweredBy}

module _ (codec : Codec) (law : UuidRoundTrips codec) where
  -- A job that is in the table and that an event of the outbox announces.
  abbrev pub IsAccepted : JobRow → Database → Type 0
  IsAccepted job db =
      (find_job job.id db.jobs ≡ some job) × (any_of (announces codec job.id) db.job_outbox ≡ true)

  pub wrote :
      (now : Timestamp) (uuid : ℕ → Uuid) (job_type : String) (payload : Json) (c : Option String)
      (db : Database) (job : JobRow) (db' : Database)
      → Jobs.create_job codec now uuid job_type payload c db ≡ ok (job, db')
      → let row : JobRow = new_job (uuid 0) job_type payload now in
        (job ≡ row)
        × (has_job (uuid 0) db.jobs ≡ false)
        × (db'.jobs ≡ db.jobs ++ row ∷ [])
        × (db'.job_outbox
            ≡ db.job_outbox ++ new_outbox (uuid 1) (outbox_payload codec (uuid 0) c) now ∷ [])
  unfolding Jobs.create_job
  wrote now uuid job_type payload c db job db' h = ground arith

  pub create_job-ok :
      (now : Timestamp) (uuid : ℕ → Uuid) (job_type : String) (payload : Json) (c : Option String)
      (db : Database) (job : JobRow) (db' : Database)
      → Jobs.create_job codec now uuid job_type payload c db ≡ ok (job, db')
      → (find_job job.id db'.jobs ≡ some job)
        × (any_of (announces codec job.id) db'.job_outbox ≡ true)
  create_job-ok now uuid job_type payload c db job db' h =
      let (same, new, jobs, events) = wrote now uuid job_type payload c db job db' h in
      let row : JobRow = new_job (uuid 0) job_type payload now in
      let event : OutboxRow = new_outbox (uuid 1) (outbox_payload codec (uuid 0) c) now in
      (
        rw
            (
              same,
              jobs,
              find_job-append_new (uuid 0) db.jobs row (find_job-none (uuid 0) db.jobs new),
            )
            (ground arith),
        rw (same, events, any_of-append (announces codec (uuid 0)) db.job_outbox (event ∷ []))
            (ground (arith, names_job-outbox_payload codec (uuid 0) (uuid 0) c (law (uuid 0)))),
      )

  insert_job-Ends :
      (job_type : String) (payload : Json) (c : Option String) (w : World)
      → Ends
          (λ job v. IsAccepted job v.db)
          (λ e v. Unit {0})
          (insert_job codec job_type payload c w)
  unfolding insert_job transaction
  insert_job-Ends job_type payload c w =
      let m : Moment = w.moments w.calls in
      let v : World = next codec w in
      Ends-call codec _ _
        (λ m w. commit codec (Jobs.create_job codec m.now m.uuid job_type payload c w.db) w) w
        (λ e. tt) (λ e. tt)
        (committed_job v (Jobs.create_job codec m.now m.uuid job_type payload c v.db)
          (λ job db' e. create_job-ok m.now m.uuid job_type payload c v.db job db' e))
    where
      committed_job :
          (v : World) (o : Result (JobRow × Database))
          → ((job : JobRow) (db' : Database)
              → o ≡ ok (job, db')
              → (find_job job.id db'.jobs ≡ some job)
                × (any_of (announces codec job.id) db'.job_outbox ≡ true))
          → Ends (λ job u. IsAccepted job u.db) (λ e u. Unit {0}) (commit codec o v)
      committed_job v (ok (job, db)) h = h job db refl
      committed_job v (err e) h = tt

  retry_plain-Ends :
      (job_type : String) (payload : Json) (e : Exc) (w : World)
      → Ends
          (λ job v. IsAccepted job v.db)
          (λ e v. Unit {0})
          (retry_plain codec job_type payload e w)
  unfolding retry_plain
  retry_plain-Ends job_type payload Exc.type_error w = insert_job-Ends job_type payload none w
  retry_plain-Ends job_type payload _ w = tt

  -- What POST /jobs answers: 202 for a job that is accepted, or 503 or 422.
  abbrev pub Answered : Response JobRow → World → Type 0
  Answered = AnsweredBy (λ job db. IsAccepted job db)

  -- POST /jobs never raises, whatever fails. If it answers with a job, the status is 202, the job is in
  -- the table of jobs, and an event of the outbox announces it; otherwise it refuses with 503 or 422.
  -- The publisher is the one that create_app makes from the settings, and UUIDs are read back from
  -- their texts.
  pub create_job-Answered :
      (s : Settings) (p : JobPublisher) (c : Option String) (job_type : String) (payload : Json)
      (w : World)
      → create_job_publisher s false ≡ ok p
      → Ends (λ a v. Answered a v) (λ e v. ⊥) (create_job codec p c job_type payload w)
  create_job-Answered s p c job_type payload w h =
      create_job-AnsweredBy codec (λ job db. IsAccepted job db) s p c job_type payload w h
        (Ends-catch _ _ (insert_job codec job_type payload c) (retry_plain codec job_type payload) w
          (Ends-map (λ job v. IsAccepted job v.db) _ (λ e v. Unit {0}) _
            (insert_job codec job_type payload c w) (λ job v a. a)
            (λ e v b. retry_plain-Ends job_type payload e v)
            (insert_job-Ends job_type payload c w)))
