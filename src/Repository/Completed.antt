-- ===== src/Repository/Completed.antt =====
-- A completion that returns has completed the job (complete_job_with_report of
-- application/shared/repository.py).
use production_cloud_reliabi.Prelude.{
  ℕ, ◌≡◌, refl, sym, ◌∙◌, String, none, some, inl, inr, Bool-cases, Option-cases, arith,
}
use production_cloud_reliabi.Errors.{Exc, ok, err, err-ne-ok}
use production_cloud_reliabi.Codec.{Json}
use production_cloud_reliabi.Database.{Uuid, Timestamp, JobStatus, Database, find_job}
use production_cloud_reliabi.Repository.Jobs.{
  complete_job_with_report, record_completion, holds_claim, finished,
}
use production_cloud_reliabi.Repository.Lookup.{
  UniqueIds, fetchone-absent, count_if-absent, find_job-none_count, find_job-update_self,
}
use production_cloud_reliabi.Repository.Steps.{Update, test, change, update, change-id}
use production_cloud_reliabi.Repository.Fencing.{unheld_changes_nothing}
use production_cloud_reliabi.Repository.Transitions.{status_of}

module _ (now : Timestamp) (uuid : ℕ → Uuid) (i token : Uuid) (result : Json) (key type : String)
    (db : Database) where
  complete-ok_jobs :
      (db' : Database)
      → complete_job_with_report now uuid i token result key type db ≡ ok (tt, db')
      → db'.jobs ≡ update (Update.finish now token) i db.jobs
  unfolding complete_job_with_report record_completion
  complete-ok_jobs db' h = ground arith

  pub complete-absent :
      find_job i db.jobs ≡ none
      → complete_job_with_report now uuid i token result key type db ≡ err Exc.lost_job_claim
  unfolding complete_job_with_report
  complete-absent e =
      rw
        (
          fetchone-absent (holds_claim token) i (finished now) db.jobs
              (count_if-absent (holds_claim token) i db.jobs (find_job-none_count i db.jobs e)),
          complete_job_with_report,
        )
        refl

  pub complete-ok_completed :
      (db' : Database)
      → UniqueIds db.jobs
      → complete_job_with_report now uuid i token result key type db ≡ ok (tt, db')
      → status_of i db' ≡ some JobStatus.completed
  complete-ok_completed db' u h = elim (Option-cases (find_job i db.jobs)) [
    | inl e ↦ absurd (err-ne-ok Exc.lost_job_claim (tt, db') (sym (complete-absent e) ∙ h))
    | inr (r, e) ↦ elim (Bool-cases (holds_claim token r)) [
      | inl held ↦
          let c : Update = Update.finish now token in
          rw
            (
              complete-ok_jobs db' h,
              find_job-update_self (test c) (change c) (change-id c) i db.jobs,
              e,
              held,
            )
            refl
      | inr lost ↦ absurd (
          err-ne-ok Exc.lost_job_claim (tt, db')
            (sym (unheld_changes_nothing now uuid i token result key type "" db r u e lost).0 ∙ h))
    ]
  ]
