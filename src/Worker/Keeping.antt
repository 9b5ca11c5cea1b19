-- ===== src/Worker/Keeping.antt =====
-- What the environment and every transaction keep, the worker keeps (application/worker/main.py).
use production_cloud_reliabi.Prelude.{ℕ, ◌≡◌, refl, String, Option, none, some, List, arith}
use production_cloud_reliabi.Errors.{Exc, ok, err}
use production_cloud_reliabi.Codec.{Codec, Json}
use production_cloud_reliabi.Database.{Uuid, JobStatus, JobRow, Database}
use production_cloud_reliabi.Repository.Jobs
use production_cloud_reliabi.Repository.Actions.{Action, run_action, committed}
use production_cloud_reliabi.World.{World}
use production_cloud_reliabi.World.Keeps.{
  Keeps, IsStable, Keeps-pure, Keeps-raise, Keeps-lift, Keeps-catch, Keeps-bind, Keeps-call,
  Keeps-transaction, Keeps-read, Keeps-count,
}
use production_cloud_reliabi.Adapters.{ArtifactStore, put_csv_report}
use production_cloud_reliabi.Worker.{
  Claim, claimed, refused, mark_job_processing, get_job, complete_job_with_report, fail_job,
  claim_outbox_events, mark_outbox_published, mark_outbox_failed, refuse_claim, answer_claim,
  claim_job, write_and_complete, complete_claimed_job, after_failure, attempt_job, process_job,
}

module _ (codec : Codec) (I : World → Type 0) (s : IsStable codec I) where
  ruleset keeps_rules = (Keeps-pure, Keeps-raise, Keeps-lift, Keeps-catch, Keeps-bind)

  pub mark_job_processing-Keeps :
      (i : Uuid) (lease : ℕ) → Keeps I (mark_job_processing codec i lease)
  unfolding mark_job_processing run_action
  mark_job_processing-Keeps i lease =
      Keeps-transaction s _ (λ m. Action.mark_job_processing i lease) (λ m db. refl)

  pub complete_job_with_report-Keeps :
      (i token : Uuid) (result : Json) (key type : String)
      → Keeps I (complete_job_with_report codec i token result key type)
  unfolding complete_job_with_report run_action
  complete_job_with_report-Keeps i token result key type =
      Keeps-transaction s _ (λ m. Action.complete_job_with_report i token result key type)
        (λ m db. refl)

  pub fail_job-Keeps : (i token : Uuid) (error : String) → Keeps I (fail_job codec i token error)
  unfolding fail_job run_action
  fail_job-Keeps i token error =
      Keeps-transaction s _ (λ m. Action.fail_job i token error) (λ m db. refl)

  pub claim_outbox_events-Keeps :
      (limit lease : ℕ) → Keeps I (claim_outbox_events codec limit lease)
  unfolding claim_outbox_events run_action
  claim_outbox_events-Keeps limit lease =
      Keeps-transaction s _ (λ m. Action.claim_outbox_events limit lease m.locked) (λ m db. refl)

  pub mark_outbox_published-Keeps : (k token : Uuid) → Keeps I (mark_outbox_published codec k token)
  unfolding mark_outbox_published run_action
  mark_outbox_published-Keeps k token =
      Keeps-transaction s _ (λ m. Action.mark_outbox_published k token) (λ m db. refl)

  pub mark_outbox_failed-Keeps :
      (k token : Uuid) (error : String) → Keeps I (mark_outbox_failed codec k token error)
  unfolding mark_outbox_failed run_action
  mark_outbox_failed-Keeps k token error =
      Keeps-transaction s _ (λ m. Action.mark_outbox_failed k token error) (λ m db. refl)

  get_job-reads :
      (i : Uuid) (db : Database)
      → committed db (elim (Jobs.get_job i db) [ ok view ↦ ok (view, db) | err e ↦ err e ]) ≡ db
  get_job-reads i db = ground arith

  pub get_job-Keeps : (i : Uuid) → Keeps I (get_job codec i)
  unfolding get_job
  get_job-Keeps i = Keeps-read s _ (λ m db. get_job-reads i db)

  ruleset call_rules = (
    keeps_rules, mark_job_processing-Keeps, complete_job_with_report-Keeps, fail_job-Keeps,
    get_job-Keeps, claim_outbox_events-Keeps, mark_outbox_published-Keeps, mark_outbox_failed-Keeps,
  )

  refuse_claim-Keeps : (status : JobStatus) → Keeps I (refuse_claim codec status)
  unfolding refuse_claim
  refuse_claim-Keeps JobStatus.completed = search (keeps_rules, Keeps-count s)
  refuse_claim-Keeps _ = search (keeps_rules, Keeps-count s)

  answer_claim-Keeps : (i : Uuid) (o : Option JobRow) → Keeps I (answer_claim codec i o)
  unfolding answer_claim
  answer_claim-Keeps i none = search (keeps_rules, get_job-Keeps, refuse_claim-Keeps)
  answer_claim-Keeps i (some job) = search (keeps_rules, Keeps-count s)

  pub claim_job-Keeps : (i : Uuid) (lease : ℕ) → Keeps I (claim_job codec i lease)
  unfolding claim_job
  claim_job-Keeps i lease = search (keeps_rules, mark_job_processing-Keeps, answer_claim-Keeps)

  pub put_csv_report-Keeps :
      (store : ArtifactStore) (i : Uuid) (rows : List (String × String))
      → Keeps I (put_csv_report codec store i rows)
  unfolding put_csv_report
  put_csv_report-Keeps store i rows = Keeps-call s _ (λ m w h. s.at_report _ w h)

  write_and_complete-Keeps :
      (store : ArtifactStore) (job : JobRow) → Keeps I (write_and_complete codec store job)
  unfolding write_and_complete
  write_and_complete-Keeps store job =
      search (keeps_rules, put_csv_report-Keeps, complete_job_with_report-Keeps)

  pub complete_claimed_job-Keeps :
      (store : ArtifactStore) (job : JobRow) → Keeps I (complete_claimed_job codec store job)
  unfolding complete_claimed_job
  complete_claimed_job-Keeps store job =
      search (keeps_rules, write_and_complete-Keeps, Keeps-count s) depth 8

  after_failure-Keeps : (job : JobRow) (e : Exc) → Keeps I (after_failure codec job e)
  unfolding after_failure
  after_failure-Keeps job Exc.lost_job_claim = search keeps_rules
  after_failure-Keeps job _ = search (keeps_rules, fail_job-Keeps)

  attempt_job-Keeps : (store : ArtifactStore) (c : Claim) → Keeps I (attempt_job codec store c)
  unfolding attempt_job
  attempt_job-Keeps store (refused status) = search keeps_rules
  attempt_job-Keeps store (claimed job) =
      search (keeps_rules, complete_claimed_job-Keeps, after_failure-Keeps)

  pub process_job-Keeps :
      (store : ArtifactStore) (i : Uuid) (lease : ℕ) → Keeps I (process_job codec store i lease)
  unfolding process_job
  process_job-Keeps store i lease = search (keeps_rules, claim_job-Keeps, attempt_job-Keeps)
