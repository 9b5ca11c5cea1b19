-- ===== src/Repository/Consistency.antt =====
-- The invariant of the tables of jobs, results, objects and audit events under every transaction of
-- application/shared/repository.py.
use production_cloud_reliabi.Prelude.{
  ℕ, ◌≡◌, ◌+◌, refl, ◌∙◌, String, Bool, true, false, Option, some, List, [], ◌∷◌, ◌++◌, ◌&&◌, ◌==◌,
  ◌⊎◌, inl, inr, str_eq, if◌then◌else◌, count_if, any_of, count_if-append, arith,
}
use production_cloud_reliabi.Codec.{Codec, Json}
use production_cloud_reliabi.Database.{
  Uuid, Timestamp, JobRow, JobResultRow, ObjectMetadataRow, AuditEventRow, EntityType, AuditAction,
  Database, find_job,
}
use production_cloud_reliabi.Repository.Customers.{create_customer, audit_row, customer_details}
use production_cloud_reliabi.Repository.Jobs.{
  create_job, record_completion, complete_job_with_report, holds_claim, job_details, result_row,
  metadata_row,
}
use production_cloud_reliabi.Repository.Actions.{committed}
use production_cloud_reliabi.Repository.Lookup.{UniqueIds, filter_if-present}
use production_cloud_reliabi.Repository.Steps.{Update, update}
use production_cloud_reliabi.Repository.Transitions.{status_of}
use production_cloud_reliabi.Repository.Rows.{done, AllFound, ClaimRecorded, any_of-none}

abbrev pub is_result_of : Uuid → JobResultRow → Bool
is_result_of i r = r.job_id == i

abbrev pub is_object_of : Uuid → ObjectMetadataRow → Bool
is_object_of i r = r.job_id == i

-- An audit event that says that job i was completed.
abbrev pub says_completed : EntityType → AuditAction → Bool
says_completed EntityType.job AuditAction.completed = true
says_completed _ _ = false

abbrev pub is_completion_of : Uuid → AuditEventRow → Bool
is_completion_of i r = r.entity_id == i && says_completed r.entity_type r.action

-- Ids of jobs are unique, exactly the processing jobs carry a claim, and a job has one result, one
-- object and one audit event of its completion if it is completed, and otherwise none of them.
pub record IsConsistent (db : Database) : Type 0 where
  pub unique : UniqueIds db.jobs
  pub claims : AllFound ClaimRecorded db.jobs
  pub results : (i : Uuid) → count_if (is_result_of i) db.job_results ≡ done (status_of i db)
  pub objects : (i : Uuid) → count_if (is_object_of i) db.object_metadata ≡ done (status_of i db)
  pub completions :
      (i : Uuid) → count_if (is_completion_of i) db.audit_events ≡ done (status_of i db)

-- A transaction that completes no job.
pub record SameCompletions (db : Database) (db' : Database) : Type 0 where
  pub results : db'.job_results ≡ db.job_results
  pub objects : db'.object_metadata ≡ db.object_metadata
  pub completions :
      (i : Uuid)
      → count_if (is_completion_of i) db'.audit_events
        ≡ count_if (is_completion_of i) db.audit_events

pub create_customer-SameCompletions :
    (now : Timestamp) (uuid : ℕ → Uuid) (name email : String) (db : Database)
    → SameCompletions db (committed db (create_customer now uuid name email db))
unfolding create_customer
create_customer-SameCompletions now uuid name email db = record {
  results = ground arith;
  objects = ground arith;
  completions = λ i. ground (
    arith,
    count_if-append (is_completion_of i) db.audit_events (
        audit_row (uuid 1) EntityType.customer (uuid 0) AuditAction.created (customer_details email)
          now
        ∷ []),
  );
}

pub create_job-SameCompletions :
    (codec : Codec) (now : Timestamp) (uuid : ℕ → Uuid) (job_type : String) (payload : Json)
    (correlation_id : Option String) (db : Database)
    → SameCompletions db
        (committed db (create_job codec now uuid job_type payload correlation_id db))
unfolding create_job
create_job-SameCompletions codec now uuid job_type payload correlation_id db = record {
  results = ground arith;
  objects = ground arith;
  completions = λ i. ground (
    arith,
    count_if-append (is_completion_of i) db.audit_events (
        audit_row (uuid 2) EntityType.job (uuid 0) AuditAction.created (job_details job_type) now
        ∷ []),
  );
}

-- What a completion of job i under `token` has done to the tables.
pub record Completion (now i token : Uuid) (db : Database) (db' : Database) : Type 0 where
  pub finished : db'.jobs ≡ update (Update.finish now token) i db.jobs
  pub results :
      (j : Uuid)
      → count_if (is_result_of j) db'.job_results
        ≡ count_if (is_result_of j) db.job_results + (if i == j then 1 else 0)
  pub objects :
      (j : Uuid)
      → count_if (is_object_of j) db'.object_metadata
        ≡ count_if (is_object_of j) db.object_metadata + (if i == j then 1 else 0)
  pub completions :
      (j : Uuid)
      → count_if (is_completion_of j) db'.audit_events
        ≡ count_if (is_completion_of j) db.audit_events + (if i == j then 1 else 0)

pub no_object :
    (i : Uuid) (key : String) (rows : List ObjectMetadataRow)
    → count_if (is_object_of i) rows ≡ 0
    → any_of (λ (r : ObjectMetadataRow). r.job_id == i && str_eq r.object_key key) rows ≡ false
no_object i key [] h = refl
no_object i key (r ∷ rows) h = ground (arith, no_object i key rows)

module _ (now : Timestamp) (uuid : ℕ → Uuid) (i token : Uuid) (result : Json) (key type : String)
    (db : Database) where
  abbrev pub fenced : Database
  fenced = record db { jobs = update (Update.finish now token) i db.jobs }

  -- The tables after all four statements.
  abbrev pub completed_tables : Database
  completed_tables = record db {
    jobs = update (Update.finish now token) i db.jobs;
    job_results = db.job_results ++ result_row (uuid 0) i result now ∷ [];
    object_metadata = db.object_metadata ++ metadata_row (uuid 1) i key type now ∷ [];
    audit_events =
        db.audit_events
        ++ audit_row (uuid 2) EntityType.job i AuditAction.completed result now ∷ [];
  }

module _ (now : Timestamp) (uuid : ℕ → Uuid) (i token : Uuid) (result : Json) (key type : String)
    (db : Database) (r : JobRow) (c : IsConsistent db) (found : find_job i db.jobs ≡ some r)
    (held : holds_claim token r ≡ true) where
  abbrev fenced_db : Database
  fenced_db = fenced now uuid i token result key type db

  abbrev tables : Database
  tables = completed_tables now uuid i token result key type db

  -- Before its completion a processing job has no result and no object.
  pub no_results : count_if (is_result_of i) db.job_results ≡ 0
  no_results = c.results i ∙ rw found (ground arith)

  pub no_objects : count_if (is_object_of i) db.object_metadata ≡ 0
  no_objects = c.objects i ∙ rw found (ground arith)

  pub complete-held :
      complete_job_with_report now uuid i token result key type db
      ≡ record_completion now uuid i result key type (fenced now uuid i token result key type db)
  unfolding complete_job_with_report
  complete-held =
      rw
        (
          filter_if-present (holds_claim token) i db.jobs r (c.unique i) found,
          held,
          complete_job_with_report,
        )
        refl

  record_completion_cases :
      any_of (is_result_of i) db.job_results ≡ false
      → any_of
          (λ (r : ObjectMetadataRow). r.job_id == i && str_eq r.object_key key)
          db.object_metadata
        ≡ false
      → let db' = committed db (record_completion now uuid i result key type fenced_db) in
        (db' ≡ db) ⊎ (db' ≡ tables)
  unfolding record_completion
  record_completion_cases a b = ground arith

  completed-Completion : Completion now i token db tables
  completed-Completion = record {
    finished = refl;
    results = λ j.
        rw (count_if-append (is_result_of j) db.job_results (result_row (uuid 0) i result now ∷ []))
          (ground arith);
    objects = λ j.
        rw
          (count_if-append (is_object_of j) db.object_metadata
            (metadata_row (uuid 1) i key type now ∷ []))
          (ground arith);
    completions = λ j.
        rw
          (count_if-append (is_completion_of j) db.audit_events
            (audit_row (uuid 2) EntityType.job i AuditAction.completed result now ∷ []))
          (ground arith);
  }

  pub complete-Completion :
      let db' = committed db (complete_job_with_report now uuid i token result key type db) in
      (db' ≡ db) ⊎ Completion now i token db db'
  complete-Completion =
      rw complete-held
        (elim (record_completion_cases (any_of-none (is_result_of i) db.job_results no_results)
          (no_object i key db.object_metadata no_objects)) [
            | inl e ↦ inl e
            | inr e ↦ inr (rw e completed-Completion)
          ])
