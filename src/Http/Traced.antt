-- ===== src/Http/Traced.antt =====
-- The way of a correlation id from the header of POST /jobs into the outbox, through both middlewares
-- (application/shared/logging.py, application/shared/metrics.py) and the handler.
use production_cloud_reliabi.Prelude.{
  ℕ, ◌≡◌, ◌≢◌, ◌⊎◌, refl, ap, ◌∙◌, String, Bool, true, false, Option, none, some, List, [], ◌∷◌,
  ◌++◌, inl, inr, str_eq, arith,
}
use production_cloud_reliabi.Errors.{Exc, Result, ok, err}
use production_cloud_reliabi.Codec.{Json, Fields, Codec, UuidRoundTrips, lookup, set}
use production_cloud_reliabi.Database.{Uuid, Timestamp, JobRow, OutboxRow, Database, find_job}
use production_cloud_reliabi.Repository.Jobs
use production_cloud_reliabi.Repository.Jobs.{new_outbox, outbox_payload}
use production_cloud_reliabi.Repository.Announcement.{announces, names_job-outbox_payload}
use production_cloud_reliabi.Repository.DueEvents.{In}
use production_cloud_reliabi.World.{World, Moment, call, commit, next, transaction, settle}
use production_cloud_reliabi.World.Rules.{Ends, Ends-catch, Ends-map}
use production_cloud_reliabi.Config.{Settings}
use production_cloud_reliabi.Adapters.{JobPublisher}
use production_cloud_reliabi.Adapters.Factories.{create_job_publisher}
use production_cloud_reliabi.Api.{insert_job, retry_plain, create_job, answered, refused}
use production_cloud_reliabi.Api
use production_cloud_reliabi.Api.Answers.{AnsweredBy, create_job-AnsweredBy}
use production_cloud_reliabi.Api.Acceptance.{wrote, create_job-ok}
use production_cloud_reliabi.Http.{Request, Response, Process}
use production_cloud_reliabi.Http.Context.{
  correlation_id_of, request_id_of, with_ids, finish_context,
}
use production_cloud_reliabi.Http.Observed.{header, or_else-not_empty}
use production_cloud_reliabi.Http.Prometheus.{finish_request}
use production_cloud_reliabi.Http.Counted.{entered}
use production_cloud_reliabi.Http.Jobs.{respond, serve_job}

In-last : (e : OutboxRow) (rows : List OutboxRow) → In e (rows ++ e ∷ [])
In-last e [] = inl refl
In-last e (r ∷ rows) = inr (In-last e rows)

-- The event's payload is an object that holds this correlation id.
pub record Carries (cid : String) (e : OutboxRow) : Type 0 where
  pub fields : Fields
  pub payload : e.payload ≡ Json.obj fields
  pub correlation_id : lookup "correlation_id" fields ≡ some (Json.str cid)

-- The job is in the table, and an event announces it that carries the correlation id.
abbrev pub IsTraced : Codec → String → JobRow → Database → Type 0
IsTraced codec cid job db =
    (find_job job.id db.jobs ≡ some job)
    × ((e : OutboxRow) × In e db.job_outbox × (announces codec job.id e ≡ true) × Carries cid e)

Carries-outbox_payload :
    (codec : Codec) (i j : Uuid) (cid : String) (now : Timestamp)
    → str_eq cid "" ≡ false
    → Carries cid (new_outbox j (outbox_payload codec i (some cid)) now)
Carries-outbox_payload codec i j cid now h = record {
  fields = set "correlation_id" (Json.str cid) (
      Fields.field "version" (Json.num 1) (
        Fields.field "event_type" (Json.str "job.created")
          (Fields.field "job_id" (Json.str (codec.str_uuid i)) Fields.end)));
  payload = rw h refl;
  correlation_id = refl;
}

module _ (codec : Codec) (law : UuidRoundTrips codec) (cid : String)
    (given : str_eq cid "" ≡ false) where
  abbrev c : Option String
  c = some cid

  create_job-IsTraced :
      (now : Timestamp) (uuid : ℕ → Uuid) (job_type : String) (payload : Json) (db : Database)
      (job : JobRow) (db' : Database)
      → Jobs.create_job codec now uuid job_type payload c db ≡ ok (job, db')
      → IsTraced codec cid job db'
  create_job-IsTraced now uuid job_type payload db job db' h =
      let (same, new, jobs, events) = wrote codec law now uuid job_type payload c db job db' h in
      let event : OutboxRow = new_outbox (uuid 1) (outbox_payload codec (uuid 0) c) now in
      (
        (create_job-ok codec law now uuid job_type payload c db job db' h).0,
        (
          event,
          rw events (In-last event db.job_outbox),
          rw same
              (ground (arith, names_job-outbox_payload codec (uuid 0) (uuid 0) c (law (uuid 0)))),
          Carries-outbox_payload codec (uuid 0) (uuid 1) cid now given,
        ),
      )

  create_job-err :
      (now : Timestamp) (uuid : ℕ → Uuid) (job_type : String) (payload : Json) (db : Database)
      (e : Exc)
      → Jobs.create_job codec now uuid job_type payload c db ≡ err e
      → e ≢ Exc.type_error
  unfolding Jobs.create_job
  create_job-err now uuid job_type payload db e h = λ t. ground arith

  settled :
      {A : Type 0} (Q : A → World → Type 0) (P : Exc → Type 0) (fault : Option Exc) (b : Bool)
      (before : World) (o : Result A × World)
      → ((e : Exc) → fault ≡ some e → P e)
      → Ends Q (λ e v. P e) o
      → Ends Q (λ e v. P e) (settle fault b before o)
  settled Q P none b before o f h = h
  settled Q P (some e) true before o f h = f e refl
  settled Q P (some e) false before o f h = f e refl

  insert_job-IsTraced :
      (job_type : String) (payload : Json) (w : World)
      → (w.moments w.calls).fault ≢ some Exc.type_error
      → Ends
          (λ job v. IsTraced codec cid job v.db)
          (λ e v. e ≢ Exc.type_error)
          (insert_job codec job_type payload c w)
  unfolding insert_job transaction call
  insert_job-IsTraced job_type payload w quiet =
      let m : Moment = w.moments w.calls in
      let v : World = next codec w in
      let o = Jobs.create_job codec m.now m.uuid job_type payload c v.db in
      settled (λ job v. IsTraced codec cid job v.db) (λ e. e ≢ Exc.type_error) m.fault m.took_effect
        v (commit codec o v) (λ e f g. quiet (f ∙ ap some g))
        (committed_job v o
          (λ job db' e. create_job-IsTraced m.now m.uuid job_type payload v.db job db' e)
          (λ x e. create_job-err m.now m.uuid job_type payload v.db x e))
    where
      committed_job :
          (v : World) (o : Result (JobRow × Database))
          → ((job : JobRow) (db' : Database) → o ≡ ok (job, db') → IsTraced codec cid job db')
          → ((e : Exc) → o ≡ err e → e ≢ Exc.type_error)
          → Ends
              (λ job u. IsTraced codec cid job u.db)
              (λ e u. e ≢ Exc.type_error)
              (commit codec o v)
      committed_job v (ok (job, db)) h k = h job db refl
      committed_job v (err e) h k = k e refl

  retry_plain-raises :
      (job_type : String) (payload : Json) (e : Exc) (w : World)
      → e ≢ Exc.type_error
      → Ends
          (λ job v. IsTraced codec cid job v.db)
          (λ e v. Unit {0})
          (retry_plain codec job_type payload e w)
  unfolding retry_plain
  retry_plain-raises job_type payload Exc.type_error w h = absurd (h refl)
  retry_plain-raises job_type payload _ w h = tt

-- The response carries the correlation id, and a 202 means that a job was inserted whose event carries
-- it.
abbrev pub Served : Codec → String → Result Response → Process → Type 0
Served codec cid (ok response) q =
    (header "x-correlation-id" response.headers ≡ some cid)
    × (response.status_code ≡ 202 → (job : JobRow) × IsTraced codec cid job q.world.db)
Served codec cid (err e) q = ⊥

module _ (codec : Codec) (law : UuidRoundTrips codec) (str_exc format_exception : Exc → String)
    (drawn : String) (request : Request) where
  abbrev cid : String
  cid = correlation_id_of request drawn

  served :
      (before p : Process) (r : Result (Api.Response JobRow)) (w : World)
      → Ends (λ a v. AnsweredBy (λ job db. IsTraced codec cid job db) a v) (λ e v. ⊥) (r, w)
      → let (outcome, q) =
          finish_request request (
            finish_context str_exc format_exception "api" drawn request before
              (respond p (r, w))) in
        Served codec cid outcome q × (q.correlation_id ≡ before.correlation_id)
  served before p (ok (answered code job)) w h = ((refl, λ e. (job, h.1)), refl)
  served before p (ok (refused code)) w h = ((refl, λ e. absurd (clash code e h)), refl)
    where
      clash : (n : ℕ) → n ≡ 202 → (n ≡ 503) ⊎ (n ≡ 422) → ⊥
      clash n e h = ground arith
  served before p (err e) w h = absurd h

  -- POST /jobs through the middlewares and the handler, in a process whose next call of the outside
  -- does not meet a TypeError, where the UUID's text drawn for the request is not empty: there is a response, with the request's correlation id as a header; if
  -- its status is 202, a job is in the table of jobs, and an event of the outbox announces it with that
  -- correlation id as the field correlation_id of its payload; and the context variable has its former value again. The
  -- publisher is the one that create_app makes from the settings, and UUIDs are read back from their
  -- texts.
  pub serve_job-Served :
      (s : Settings) (publisher : JobPublisher) (job_type : String) (payload : Json) (p : Process)
      → create_job_publisher s false ≡ ok publisher
      → str_eq drawn "" ≡ false
      → (p.world.moments p.world.calls).fault ≢ some Exc.type_error
      → let (outcome, q) =
          serve_job codec publisher job_type payload str_exc format_exception drawn request p in
        Served codec cid outcome q × (q.correlation_id ≡ p.correlation_id)
  unfolding serve_job
  serve_job-Served s publisher job_type payload p made drawn_text quiet =
      let given =
        or_else-not_empty request.x_correlation_id (request_id_of request drawn)
          (or_else-not_empty request.x_request_id drawn drawn_text) in
      let c : Option String = some cid in
      let inner : Process = entered request p in
      let (r, w) = create_job codec publisher c job_type payload p.world in
      served inner (with_ids request drawn inner) r w (
        create_job-AnsweredBy codec (λ job db. IsTraced codec cid job db) s publisher c job_type
          payload p.world made
          (Ends-catch _ _ (insert_job codec job_type payload c) (retry_plain codec job_type payload)
            p.world
            (Ends-map (λ job v. IsTraced codec cid job v.db) _ (λ e v. e ≢ Exc.type_error) _
              (insert_job codec job_type payload c p.world) (λ job v a. a)
              (λ e v b. retry_plain-raises codec law cid given job_type payload e v b)
              (insert_job-IsTraced codec law cid given job_type payload p.world quiet))))
