-- ===== src/Repository/Finished.antt =====
-- What a reader sees of a job that was completed: complete_job_with_report followed by get_job
-- (application/shared/repository.py).
use production_cloud_reliabi.Prelude.{ℕ, ◌≡◌, refl, String, true, none, some, arith}
use production_cloud_reliabi.Errors.{ok}
use production_cloud_reliabi.Codec.{Json}
use production_cloud_reliabi.Database.{
  Uuid, Timestamp, JobStatus, JobRow, JobResultRow, ObjectMetadataRow, Database, find_job,
}
use production_cloud_reliabi.Repository.Jobs.{
  complete_job_with_report, get_job, holds_claim, finished, result_row, metadata_row,
}
use production_cloud_reliabi.Repository.Consistency.{IsConsistent, completed_tables}
use production_cloud_reliabi.Repository.Completion.{FreshIds, complete-get_job}

-- A job as it was, but completed, with no claim and no error.
pub record IsDone (now : Timestamp) (r : JobRow) (r' : JobRow) : Type 0 where
  pub id : r'.id ≡ r.id
  pub job_type : r'.job_type ≡ r.job_type
  pub payload : r'.payload ≡ r.payload
  pub attempts : r'.attempts ≡ r.attempts
  pub status : r'.status ≡ JobStatus.completed
  pub last_error : r'.last_error ≡ none
  pub unclaimed : (r'.processing_token ≡ none) × (r'.processing_started_at ≡ none)
  pub times : (r'.created_at ≡ r.created_at) × (r'.updated_at ≡ now)

-- The result and the object of a job.
pub record IsResult (i : Uuid) (value : Json) (row : JobResultRow) : Type 0 where
  pub job_id : row.job_id ≡ i
  pub result : row.result ≡ value

pub record IsObject (i : Uuid) (key type : String) (row : ObjectMetadataRow) : Type 0 where
  pub job_id : row.job_id ≡ i
  pub object_key : row.object_key ≡ key
  pub object_type : row.object_type ≡ type

-- In consistent tables, completing a job that is processing under the token given, with identifiers
-- that are not in use, succeeds. Whoever then reads the job gets its row, completed, with no claim and
-- no error and otherwise as before, with the result that was handed in, and with an object that has the key and
-- the type that were handed in.
pub complete-get_job_lem :
    (now : Timestamp) (uuid : ℕ → Uuid) (i token : Uuid) (result : Json) (key type : String)
    (db : Database) (r : JobRow)
    → IsConsistent db
    → find_job i db.jobs ≡ some r
    → r.status ≡ JobStatus.processing
    → r.processing_token ≡ some token
    → FreshIds uuid db
    → (after : Database) × (complete_job_with_report now uuid i token result key type db
        ≡ ok (tt, after))
      × ((r' : JobRow) × IsDone now r r'
          × ((row : JobResultRow) × IsResult i result row
              × ((object : ObjectMetadataRow) × IsObject i key type object
                  × (get_job i after
                      ≡ ok (record { job = r'; result = some row; artifact = some object })))))
complete-get_job_lem now uuid i token result key type db r c found s t fresh =
    let held : holds_claim token r ≡ true = rw (s, t) (ground arith) in
    let (done, seen) = complete-get_job now uuid i token result key type db r c found held fresh in
    (
      completed_tables now uuid i token result key type db,
      done,
      (
        finished now r,
        record {
          id = refl;
          job_type = refl;
          payload = refl;
          attempts = refl;
          status = refl;
          last_error = refl;
          unclaimed = (refl, refl);
          times = (refl, refl);
        },
        (
          result_row (uuid 0) i result now,
          record { job_id = refl; result = refl },
          (
            metadata_row (uuid 1) i key type now,
            record { job_id = refl; object_key = refl; object_type = refl },
            seen,
          ),
        ),
      ),
    )
