-- ===== src/Repository/Preservation.antt =====
-- Every transaction of application/shared/repository.py keeps the tables consistent.
use production_cloud_reliabi.Prelude.{
  ℕ, ◌≡◌, refl, sym, ◌∙◌, String, true, false, none, some, [], ◌∷◌, ◌++◌, inl, inr, Bool-cases,
  Option-cases,
}
use production_cloud_reliabi.Codec.{Codec, Json}
use production_cloud_reliabi.Database.{Uuid, Timestamp, JobStatus, JobRow, Database, find_job}
use production_cloud_reliabi.Repository.Jobs.{
  mark_job_processing, renew_job_processing_lease, complete_job_with_report, fail_job, holds_claim,
  new_job,
}
use production_cloud_reliabi.Repository.Outbox.{
  claim_outbox_events, mark_outbox_published, mark_outbox_failed,
}
use production_cloud_reliabi.Repository.Actions.{Action, run_action, committed}
use production_cloud_reliabi.Repository.Lookup.{UniqueIds}
use production_cloud_reliabi.Repository.Steps.{
  Update, update, create_customer-jobs, create_job-jobs, find_job-none,
}
use production_cloud_reliabi.Repository.Completed.{complete-absent}
use production_cloud_reliabi.Repository.Fencing.{unheld_changes_nothing}
use production_cloud_reliabi.Repository.Transitions.{status_of}
use production_cloud_reliabi.Repository.Rows.{
  done, is_finish, AllFound, ClaimRecorded, change-ClaimRecorded, update-UniqueIds,
  append-UniqueIds, update-AllFound, append-AllFound, update-done, finish-done, append-done,
}
use production_cloud_reliabi.Repository.Consistency.{
  IsConsistent, SameCompletions, Completion, create_customer-SameCompletions,
  create_job-SameCompletions, complete-Completion,
}

-- Without a completion, consistency is a matter of the table of jobs.
quiet :
    {db db' : Database}
    → IsConsistent db
    → SameCompletions db db'
    → UniqueIds db'.jobs
    → AllFound ClaimRecorded db'.jobs
    → ((j : Uuid) → done (status_of j db') ≡ done (status_of j db))
    → IsConsistent db'
quiet c s u a d = record {
  unique = u;
  claims = a;
  results = λ i. rw s.results (c.results i ∙ sym (d i));
  objects = λ i. rw s.objects (c.objects i ∙ sym (d i));
  completions = λ i. s.completions i ∙ c.completions i ∙ sym (d i);
}

-- The same jobs.
same_jobs :
    {db db' : Database}
    → IsConsistent db
    → SameCompletions db db'
    → db'.jobs ≡ db.jobs
    → IsConsistent db'
same_jobs c s e = quiet c s (rw e c.unique) (rw e c.claims) (λ j. rw e refl)

-- An UPDATE other than the completion.
updated_jobs :
    (u : Update) (i : Uuid) {db db' : Database}
    → is_finish u ≡ false
    → IsConsistent db
    → SameCompletions db db'
    → db'.jobs ≡ update u i db.jobs
    → IsConsistent db'
updated_jobs u i {db} f c s e =
    quiet c s (rw e (update-UniqueIds u i db.jobs c.unique))
      (rw e (update-AllFound ClaimRecorded u i db.jobs (change-ClaimRecorded u) c.claims))
      (λ j. rw e (update-done u i j db.jobs f))

added_job :
    (row : JobRow) {db db' : Database}
    → find_job row.id db.jobs ≡ none
    → row.status ≡ JobStatus.pending
    → ClaimRecorded row
    → IsConsistent db
    → SameCompletions db db'
    → db'.jobs ≡ db.jobs ++ row ∷ []
    → IsConsistent db'
added_job row {db} new p k c s e =
    quiet c s (rw e (append-UniqueIds row db.jobs new c.unique))
      (rw e (append-AllFound ClaimRecorded row db.jobs k c.claims))
      (λ j. rw e (append-done row j db.jobs p))

completed_job :
    (now i token : Uuid) (r : JobRow) {db db' : Database}
    → find_job i db.jobs ≡ some r
    → holds_claim token r ≡ true
    → IsConsistent db
    → Completion now i token db db'
    → IsConsistent db'
completed_job now i token r {db} found held c k =
    let u : Update = Update.finish now token in
    let more = λ (j : Uuid). finish-done now token i j db.jobs r found held in
    record {
      unique = rw k.finished (update-UniqueIds u i db.jobs c.unique);
      claims =
          rw k.finished
            (update-AllFound ClaimRecorded u i db.jobs (change-ClaimRecorded u) c.claims);
      results = λ j. rw k.finished (k.results j ∙ rw (c.results j) (sym (more j)));
      objects = λ j. rw k.finished (k.objects j ∙ rw (c.objects j) (sym (more j)));
      completions = λ j. rw k.finished (k.completions j ∙ rw (c.completions j) (sym (more j)));
    }

unchanged : (db : Database) → SameCompletions db db
unchanged db = record { results = refl; objects = refl; completions = λ i. refl }

module _ (now : Timestamp) (uuid : ℕ → Uuid) (i token : Uuid) (result : Json) (key type : String)
    (db : Database) (c : IsConsistent db) where
  -- A completion keeps the tables consistent, whether it succeeds or not.
  complete-IsConsistent :
      IsConsistent (committed db (complete_job_with_report now uuid i token result key type db))
  complete-IsConsistent = elim (Option-cases (find_job i db.jobs)) [
    | inl e ↦ rw (complete-absent now uuid i token result key type db e) c
    | inr (r, e) ↦ elim (Bool-cases (holds_claim token r)) [
      | inl held ↦ elim (complete-Completion now uuid i token result key type db r c e held) [
        | inl same ↦ rw same c
        | inr k ↦ completed_job now i token r e held c k
      ]
      | inr lost ↦
          rw (unheld_changes_nothing now uuid i token result key type "" db r c.unique e lost).0 c
    ]
  ]

-- Every transaction of the platform keeps the tables consistent: if ids of jobs are unique, exactly
-- the processing jobs carry a claim, and the result, the object and the audit event of the completion
-- of a job are there once each when it is completed and otherwise not at all, then this holds after
-- the transaction, too, whether it succeeds or fails.
pub run_action-IsConsistent :
    (codec : Codec) (now : Timestamp) (uuid : ℕ → Uuid) (a : Action) (db : Database)
    → IsConsistent db
    → IsConsistent (run_action codec now uuid a db)
unfolding run_action mark_job_processing renew_job_processing_lease fail_job claim_outbox_events
    mark_outbox_published mark_outbox_failed
run_action-IsConsistent codec now uuid (Action.create_customer name email) db c =
    same_jobs c (create_customer-SameCompletions now uuid name email db)
      (create_customer-jobs now uuid name email db)
run_action-IsConsistent codec now uuid (Action.create_job job_type payload corr) db c =
    let s = create_job-SameCompletions codec now uuid job_type payload corr db in
    elim (create_job-jobs codec now uuid job_type payload corr db) [
      | inl e ↦ same_jobs c s e
      | inr (new, e) ↦
          added_job (new_job (uuid 0) job_type payload now) (find_job-none (uuid 0) db.jobs new)
            refl (refl, refl) c s e
    ]
run_action-IsConsistent codec now uuid (Action.mark_job_processing i lease) db c =
    updated_jobs (Update.claim now lease (uuid 0)) i refl c
      (record { results = refl; objects = refl; completions = λ j. refl }) refl
run_action-IsConsistent codec now uuid (Action.renew_job_processing_lease i t) db c =
    updated_jobs (Update.renew now t) i refl c
      (record { results = refl; objects = refl; completions = λ j. refl }) refl
run_action-IsConsistent codec now uuid (Action.complete_job_with_report i t result key type) db c =
    complete-IsConsistent now uuid i t result key type db c
run_action-IsConsistent codec now uuid (Action.fail_job i t error) db c =
    updated_jobs (Update.give_up now t error) i refl c
      (record { results = refl; objects = refl; completions = λ j. refl }) refl
run_action-IsConsistent codec now uuid _ db c =
    same_jobs c (record { results = refl; objects = refl; completions = λ j. refl }) refl
