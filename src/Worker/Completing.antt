-- ===== src/Worker/Completing.antt =====
-- How complete_claimed_job of application/worker/main.py ends, with and without its heartbeat.

use production_cloud_reliabi.Prelude.{◌≡◌, refl, ◌∙◌, String, none, some, List}
use production_cloud_reliabi.Errors.{Result, ok, err}
use production_cloud_reliabi.Codec.{Codec, Json}
use production_cloud_reliabi.Database.{Uuid, JobStatus, JobRow, Database}
use production_cloud_reliabi.Repository.Jobs
use production_cloud_reliabi.Repository.Jobs.{JobView, is_claimable, claimed as claimed_row}
use production_cloud_reliabi.Repository.Consistency.{IsConsistent}
use production_cloud_reliabi.Repository.Preservation.{run_action-IsConsistent}
use production_cloud_reliabi.Repository.Completed.{complete-ok_completed}
use production_cloud_reliabi.Repository.Transitions.{status_of}
use production_cloud_reliabi.World.{
  World, Moment, Metric, VisibilityHeartbeat, Exec, pure, raise, count, commit, transaction, next,
  ◌>>◌,
}
use production_cloud_reliabi.World.Rules.{
  Ends, Ends-bind, Ends-catch, Ends-map, Ends-call, IsCompleted, next-deleted, next-keeps,
}
use production_cloud_reliabi.World.Keeps.{IsStable, Ends-Keeps}
use production_cloud_reliabi.Adapters.{ArtifactStore, put_csv_report}
use production_cloud_reliabi.Worker.{
  JobProcessStatus, complete_job_with_report, write_and_complete, complete_claimed_job, report_rows,
  report_result, token_of,
}
use production_cloud_reliabi.Worker.Keeping.{put_csv_report-Keeps, complete_claimed_job-Keeps}
use production_cloud_reliabi.Worker.Consume.{with_heartbeat}

module _ (codec : Codec) (D : List String) where
  -- Nothing is deleted so far, and the tables are consistent.
  pub record Before (w : World) : Type 0 where
    pub undeleted : w.deleted ≡ D
    pub consistent : IsConsistent w.db

  pub Before-IsStable : IsStable codec Before
  Before-IsStable = record {
    at_next = λ w b. record {
      undeleted = next-deleted codec w ∙ b.undeleted;
      consistent = next-keeps codec IsConsistent (run_action-IsConsistent codec) w b.consistent;
    };
    at_action = λ now uuid a w b. record {
      undeleted = b.undeleted;
      consistent = run_action-IsConsistent codec now uuid a w.db b.consistent;
    };
    at_inc = λ m w b. record { undeleted = b.undeleted; consistent = b.consistent };
    at_heartbeat = λ h w b. record { undeleted = b.undeleted; consistent = b.consistent };
    at_report = λ r w b. record { undeleted = b.undeleted; consistent = b.consistent };
    at_send = λ r w b. record { undeleted = b.undeleted; consistent = b.consistent };
    at_publish = λ r w b. record { undeleted = b.undeleted; consistent = b.consistent };
  }

  -- Completing: a return means that the job is completed.
  commit-completed :
      (j : Uuid) (w : World) (o : Result (Unit {0} × Database))
      → ((db' : Database) → o ≡ ok (tt, db') → status_of j db' ≡ some JobStatus.completed)
      → Ends (λ _ v. IsCompleted j v) (λ e v. Unit) (commit codec o w)
  commit-completed j w (ok (u, db)) h = h db refl
  commit-completed j w (err e) h = tt

  complete-Ends :
      (j token : Uuid) (result : Json) (key type : String) (w : World)
      → Before w
      → Ends
          (λ _ v. IsCompleted j v)
          (λ e v. Unit)
          (complete_job_with_report codec j token result key type w)
  unfolding complete_job_with_report transaction
  complete-Ends j token result key type w b =
      let m : Moment = w.moments w.calls in
      let v : World = next codec w in
      Ends-call codec _ _
        (λ m w.
          commit codec (Jobs.complete_job_with_report m.now m.uuid j token result key type w.db) w)
        w (λ e. tt) (λ e. tt)
        (commit-completed j v
          (Jobs.complete_job_with_report m.now m.uuid j token result key type v.db)
          (λ db' e.
            complete-ok_completed m.now m.uuid j token result key type v.db db'
              (Before-IsStable.at_next w b).consistent.unique e))

  write-Ends :
      (store : ArtifactStore) (job : JobRow) (w : World)
      → Before w
      → Ends (λ _ v. IsCompleted job.id v) (λ e v. Unit) (write_and_complete codec store job w)
  unfolding write_and_complete
  write-Ends store job w b =
      Ends-bind _ _ (put_csv_report codec store job.id (report_rows codec job))
        (λ (p : String × String).
          complete_job_with_report codec job.id (token_of job) (report_result codec p.0) p.0 p.1)
        w
        (Ends-map (λ _ v. Before v) _ (λ _ v. Before v) (λ e v. Unit)
          (put_csv_report codec store job.id (report_rows codec job) w)
          (λ p v c. complete-Ends job.id (token_of job) (report_result codec p.0) p.0 p.1 v c)
          (λ e v c. tt)
          (Ends-Keeps Before (put_csv_report codec store job.id (report_rows codec job))
            (put_csv_report-Keeps codec Before Before-IsStable store job.id (report_rows codec job))
            w b))

  -- complete_claimed_job returns only after the completion.
  claimed-completed :
      (store : ArtifactStore) (job : JobRow) (w : World)
      → Before w
      → Ends (λ _ v. IsCompleted job.id v) (λ e v. Unit) (complete_claimed_job codec store job w)
  unfolding complete_claimed_job
  claimed-completed store job w b =
      Ends-catch _ _
        (do
          write_and_complete codec store job
          count (Metric.jobs_processed job.job_type "success")
          count (Metric.job_duration job.job_type "success")
          pure JobProcessStatus.completed)
        (λ e. do
          count (Metric.jobs_processed job.job_type "failure")
          count (Metric.job_duration job.job_type "failure")
          raise e)
        w
        (Ends-bind _ _ (write_and_complete codec store job)
          (λ _. do
            count (Metric.jobs_processed job.job_type "success")
            count (Metric.job_duration job.job_type "success")
            pure JobProcessStatus.completed)
          w
          (Ends-map (λ _ v. IsCompleted job.id v) _ (λ e v. Unit {0}) _
            (write_and_complete codec store job w) (λ a v c. c) (λ e v c. tt)
            (write-Ends store job w b)))

  -- complete_claimed_job under the heartbeat.
  pub beating-Ends :
      (store : ArtifactStore) (hb : VisibilityHeartbeat) (job : JobRow) (w : World)
      → Before w
      → Ends
          (λ _ v. Before v × IsCompleted job.id v)
          (λ e v. Before v)
          (with_heartbeat hb (complete_claimed_job codec store job) w)
  unfolding with_heartbeat
  beating-Ends store hb job w b =
      let start : World = record w { heartbeat = some hb } in
      let begin : Before start = Before-IsStable.at_heartbeat (some hb) w b in
      let m : Exec JobProcessStatus = complete_claimed_job codec store job in
      let (r, v) = m start in
      stop r v (claimed-completed store job start begin) (
        Ends-Keeps Before m (complete_claimed_job-Keeps codec Before Before-IsStable store job)
          start begin)
    where
      stop :
          (r : Result JobProcessStatus) (v : World)
          → Ends (λ _ v. IsCompleted job.id v) (λ e v. Unit {0}) (r, v)
          → Ends (λ _ v. Before v) (λ e v. Before v) (r, v)
          → Ends
              (λ _ v. Before v × IsCompleted job.id v)
              (λ e v. Before v)
              (r, record v { heartbeat = none })
      stop (ok a) v c b = (Before-IsStable.at_heartbeat none v b, c)
      stop (err e) v c b = Before-IsStable.at_heartbeat none v b
