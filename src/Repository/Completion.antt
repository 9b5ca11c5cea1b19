-- ===== src/Repository/Completion.antt =====
-- What a reader sees of a completed job: complete_job_with_report followed by get_job
-- (application/shared/repository.py).
use production_cloud_reliabi.Prelude.{
  ℕ, ◌≡◌, refl, ◌∙◌, String, true, false, some, List, [], ◌∷◌, ◌++◌, ◌&&◌, ◌==◌, str_eq, count_if,
  any_of, arith,
}
use production_cloud_reliabi.Errors.{ok}
use production_cloud_reliabi.Codec.{Json}
use production_cloud_reliabi.Database.{
  Uuid, Timestamp, JobRow, JobResultRow, ObjectMetadataRow, AuditEventRow, Database, find_job,
  find_result, find_metadata,
}
use production_cloud_reliabi.Repository.Jobs.{
  complete_job_with_report, record_completion, get_job, holds_claim, finished, has_job, result_row,
  metadata_row,
}
use production_cloud_reliabi.Repository.Lookup.{
  find_job-update_self, find_job-has_job, has_job-update,
}
use production_cloud_reliabi.Repository.Steps.{Update, test, change, update, change-id}
use production_cloud_reliabi.Repository.Rows.{any_of-none}
use production_cloud_reliabi.Repository.Consistency.{
  IsConsistent, is_result_of, is_object_of, no_object, no_results, no_objects, complete-held,
  completed_tables, fenced,
}

pub find_result-append :
    (i : Uuid) (rows : List JobResultRow) (row : JobResultRow)
    → count_if (is_result_of i) rows ≡ 0
    → (row.job_id == i) ≡ true
    → find_result i (rows ++ row ∷ []) ≡ some row
find_result-append i [] row h e = rw e
find_result-append i (r ∷ rows) row h e = ground (arith, find_result-append i rows row)

pub find_metadata-append :
    (i : Uuid) (rows : List ObjectMetadataRow) (row : ObjectMetadataRow)
    → count_if (is_object_of i) rows ≡ 0
    → (row.job_id == i) ≡ true
    → find_metadata i (rows ++ row ∷ []) ≡ some row
find_metadata-append i [] row h e = rw e
find_metadata-append i (r ∷ rows) row h e = ground (arith, find_metadata-append i rows row)

-- The identifiers that a completion draws are not in use.
pub record FreshIds (uuid : ℕ → Uuid) (db : Database) : Type 0 where
  pub result_id : any_of (λ (r : JobResultRow). r.id == uuid 0) db.job_results ≡ false
  pub object_id : any_of (λ (r : ObjectMetadataRow). r.id == uuid 1) db.object_metadata ≡ false
  pub audit_id : any_of (λ (r : AuditEventRow). r.id == uuid 2) db.audit_events ≡ false

module _ (now : Timestamp) (uuid : ℕ → Uuid) (i token : Uuid) (result : Json) (key type : String)
    (db : Database) (r : JobRow) (c : IsConsistent db) (found : find_job i db.jobs ≡ some r)
    (held : holds_claim token r ≡ true) (fresh : FreshIds uuid db) where
  still_there : has_job i (update (Update.finish now token) i db.jobs) ≡ true
  still_there =
      rw
        (has_job-update (holds_claim token) (finished now) (change-id (Update.finish now token)) i i
          db.jobs)
        (ground (arith, find_job-has_job i db.jobs))

  found_after : find_job i (update (Update.finish now token) i db.jobs) ≡ some (finished now r)
  found_after =
      let u : Update = Update.finish now token in
      rw (find_job-update_self (test u) (change u) (change-id u) i db.jobs, found, held) refl

  completes :
      any_of (is_result_of i) db.job_results ≡ false
      → any_of
          (λ (o : ObjectMetadataRow). o.job_id == i && str_eq o.object_key key)
          db.object_metadata
        ≡ false
      → record_completion now uuid i result key type (fenced now uuid i token result key type db)
        ≡ ok (tt, completed_tables now uuid i token result key type db)
  unfolding record_completion
  completes a b = ground (arith, still_there, fresh.result_id, fresh.object_id, fresh.audit_id)

  -- In consistent tables, completing a job under the claim that holds it, with identifiers that are not
  -- in use, succeeds, and whoever then reads the job sees it
  -- completed with no claim and no error, with exactly the result and the object that were handed in.
  pub complete-get_job :
      let after = completed_tables now uuid i token result key type db in
      (complete_job_with_report now uuid i token result key type db ≡ ok (tt, after))
      × (get_job i after
          ≡ ok (record {
            job = finished now r;
            result = some (result_row (uuid 0) i result now);
            artifact = some (metadata_row (uuid 1) i key type now);
          }))
  unfolding get_job
  complete-get_job =
      let nr = no_results now uuid i token result key type db r c found held in
      let no = no_objects now uuid i token result key type db r c found held in
      (
        complete-held now uuid i token result key type db r c found held
            ∙ completes (any_of-none (is_result_of i) db.job_results nr)
                (no_object i key db.object_metadata no),
        rw
            (
              found_after,
              get_job,
              find_result-append i db.job_results (result_row (uuid 0) i result now) nr
                  (ground arith),
              find_metadata-append i db.object_metadata (metadata_row (uuid 1) i key type now) no
                  (ground arith),
            )
            refl,
      )
