-- ===== src/Worker/Progress.antt =====
-- What consume_one_message of application/worker/main.py achieves when nothing goes wrong: no call
-- fails, and no other process comes between the calls.
use mathlib.Core.Path.{subst}
use production_cloud_reliabi.Prelude.{
  ℕ, ◌≡◌, refl, sym, ◌∙◌, ap, String, true, none, some, List, ==_refl, arith,
}
use production_cloud_reliabi.Errors.{Result, ok, err}
use production_cloud_reliabi.Codec.{Codec, Json}
use production_cloud_reliabi.Database.{Uuid, JobRow, Database, find_job}
use production_cloud_reliabi.Repository.Jobs
use production_cloud_reliabi.Repository.Jobs.{is_claimable, holds_claim, claimed as claimed_row}
use production_cloud_reliabi.Repository.Actions.{Action, run_action}
use production_cloud_reliabi.Repository.Consistency.{IsConsistent, completed_tables}
use production_cloud_reliabi.Repository.Preservation.{run_action-IsConsistent}
use production_cloud_reliabi.Repository.Fencing.{mark_job_processing_lem}
use production_cloud_reliabi.Repository.Completion.{FreshIds, complete-get_job}
use production_cloud_reliabi.World.{
  World, Moment, Metric, VisibilityHeartbeat, pure, raise, count, commit, transaction, ◌>>=◌, ◌>>◌,
}
use production_cloud_reliabi.World.Rules.{Ends, Ends-bind, Ends-catch, Ends-map}
use production_cloud_reliabi.Adapters.{
  ArtifactStore, put_csv_report, delete, receive_job, parse_messages,
}
use production_cloud_reliabi.Worker.{
  JobProcessStatus, claimed, claim_job, answer_claim, mark_job_processing, complete_job_with_report,
  write_and_complete, complete_claimed_job, report_rows, report_result, token_of,
}
use production_cloud_reliabi.Worker.Consume.{
  ConsumeOptions, heartbeat_of, with_heartbeat, give_up, complete_and_delete, handle_claim,
  handle_message, receive_or_none, consume_one_message,
}
use production_cloud_reliabi.Worker.Quiet.{
  find_job-id, IsQuiet, tick, At, moment, later, Ends-call_at,
}

module _ (codec : Codec) (w : World) (quiet : IsQuiet w) (store : ArtifactStore)
    (o : ConsumeOptions) (j : Uuid) (h : String) (r : JobRow)
    (received : parse_messages codec (moment w 0).messages ≡ ok (some (j, h)))
    (consistent : IsConsistent w.db) (found : find_job j w.db.jobs ≡ some r)
    (claimable : is_claimable (moment w 1).now o.processing_lease_seconds r ≡ true)
    (fresh : FreshIds (moment w 3).uuid w.db) where
  abbrev job : JobRow
  job = claimed_row (moment w 1).now ((moment w 1).uuid 0) r

  abbrev claimed_db : Database
  claimed_db =
      (Jobs.mark_job_processing (moment w 1).now (moment w 1).uuid j o.processing_lease_seconds
        w.db).1

  started : At w 0 w.db w
  started = record { moments = refl; calls = omega arith; tables = refl }

  receives : Ends (λ m v. (m ≡ some (j, h)) × At w 1 w.db v) (λ e v. ⊥) (receive_or_none codec w)
  unfolding receive_or_none receive_job
  receives =
      Ends-catch _ _ (receive_job codec) (λ e. pure none) w
        (Ends-map (λ m v. (m ≡ some (j, h)) × At w 1 w.db v) _ (λ e v. ⊥) _ (receive_job codec w)
          (λ m v q. q) (λ e v x. absurd x)
          (Ends-call_at codec w quiet (λ m v. (m ≡ some (j, h)) × At w 1 w.db v)
            (λ m w. (parse_messages codec m.messages, w)) w started
            (rw received (refl, later w w.db (tick w) started refl refl refl))))

  claims :
      (v : World)
      → At w 1 w.db v
      → Ends
          (λ c u. (c ≡ claimed job) × At w 2 claimed_db u)
          (λ e u. ⊥)
          (claim_job codec j o.processing_lease_seconds v)
  unfolding claim_job mark_job_processing transaction answer_claim
  claims v a =
      let lease : ℕ = o.processing_lease_seconds in
      let granted =
        mark_job_processing_lem (moment w 1).now (moment w 1).uuid j lease w.db r consistent.unique
          found in
      Ends-bind _ _ (mark_job_processing codec j lease) (answer_claim codec j) v (
        Ends-map (λ m u. (m ≡ some job) × At w 2 claimed_db u) _ (λ e u. ⊥) _
          (mark_job_processing codec j lease v)
          (λ m u q.
            rw (q.0)
              (refl, record { moments = q.1.moments; calls = q.1.calls; tables = q.1.tables }))
          (λ e u x. absurd x)
          (Ends-call_at codec w quiet (λ m u. (m ≡ some job) × At w 2 claimed_db u)
            (λ m u. commit codec (ok (Jobs.mark_job_processing m.now m.uuid j lease u.db)) u) v a
            (
              ap
                    (λ (db : Database).
                      (Jobs.mark_job_processing (moment w 1).now (moment w 1).uuid j lease db).0)
                    a.tables
                  ∙ granted.0
                  ∙ rw claimable refl,
              later w claimed_db _ a refl refl (
                  ap
                    (λ (db : Database).
                      (Jobs.mark_job_processing (moment w 1).now (moment w 1).uuid j lease db).1)
                    a.tables),
            )))

  claimed-IsConsistent : IsConsistent claimed_db
  unfolding run_action
  claimed-IsConsistent =
      run_action-IsConsistent codec (moment w 1).now (moment w 1).uuid
        (Action.mark_job_processing j o.processing_lease_seconds) w.db consistent

  claimed_found : find_job j claimed_db.jobs ≡ some job
  claimed_found =
      (mark_job_processing_lem (moment w 1).now (moment w 1).uuid j o.processing_lease_seconds w.db
        r consistent.unique found).1
      ∙ rw claimable refl

  claimed_fresh : FreshIds (moment w 3).uuid claimed_db
  unfolding Jobs.mark_job_processing
  claimed_fresh = record {
    result_id = fresh.result_id;
    object_id = fresh.object_id;
    audit_id = fresh.audit_id;
  }

  completes :
      (result : Json) (key type : String) (v : World)
      → At w 3 claimed_db v
      → Ends
          (λ _ u. (db : Database) × At w 4 db u)
          (λ e u. ⊥)
          (complete_job_with_report codec j (token_of job) result key type v)
  unfolding complete_job_with_report transaction
  completes result key type v a =
      let m : Moment = moment w 3 in
      let after = completed_tables m.now m.uuid j (token_of job) result key type claimed_db in
      let done =
        (complete-get_job m.now m.uuid j (token_of job) result key type claimed_db job
          claimed-IsConsistent claimed_found (==_refl (token_of job)) claimed_fresh).0 in
      Ends-call_at codec w quiet (λ _ u. (db : Database) × At w 4 db u)
        (λ m u.
          commit codec
            (Jobs.complete_job_with_report m.now m.uuid j (token_of job) result key type u.db) u)
        v a
        (subst
          (λ q. Ends (λ _ u. (db : Database) × At w 4 db u) (λ e u. ⊥) (commit codec q (tick v)))
          (sym (
            ap
              (λ (db : Database).
                Jobs.complete_job_with_report m.now m.uuid j (token_of job) result key type db)
              a.tables
            ∙ done))
          (after, later w after _ a refl refl refl))

  job_id : job.id ≡ j
  job_id = find_job-id j w.db.jobs r found

  reports :
      (rows : List (String × String)) (v : World)
      → At w 2 claimed_db v
      → Ends (λ _ u. At w 3 claimed_db u) (λ e u. ⊥) (put_csv_report codec store job.id rows v)
  unfolding put_csv_report
  reports rows v a =
      Ends-call_at codec w quiet (λ _ u. At w 3 claimed_db u) _ v a
        (later w claimed_db _ a refl refl a.tables)

  writes :
      (v : World)
      → At w 2 claimed_db v
      → Ends
          (λ _ u. (db : Database) × At w 4 db u)
          (λ e u. ⊥)
          (write_and_complete codec store job v)
  unfolding write_and_complete
  writes v a =
      Ends-bind _ _ (put_csv_report codec store job.id (report_rows codec job))
        (λ (p : String × String).
          complete_job_with_report codec job.id (token_of job) (report_result codec p.0) p.0 p.1)
        v
        (Ends-map (λ _ u. At w 3 claimed_db u) _ (λ e u. ⊥) _
          (put_csv_report codec store job.id (report_rows codec job) v)
          (λ p u b.
            subst
              (λ i.
                Ends (λ _ u. (db : Database) × At w 4 db u) (λ e u. ⊥)
                  (complete_job_with_report codec i (token_of job) (report_result codec p.0) p.0 p.1
                    u))
              (sym job_id) (completes (report_result codec p.0) p.0 p.1 u b))
          (λ e u x. absurd x) (reports (report_rows codec job) v a))

  processes :
      (v : World)
      → At w 2 claimed_db v
      → Ends
          (λ _ u. (db : Database) × At w 4 db u)
          (λ e u. ⊥)
          (complete_claimed_job codec store job v)
  unfolding complete_claimed_job
  processes v a =
      Ends-catch _ _
        (do
          write_and_complete codec store job
          count (Metric.jobs_processed job.job_type "success")
          count (Metric.job_duration job.job_type "success")
          pure JobProcessStatus.completed)
        (λ e. do
          count (Metric.jobs_processed job.job_type "failure")
          count (Metric.job_duration job.job_type "failure")
          raise e)
        v
        (Ends-bind _ _ (write_and_complete codec store job)
          (λ _. do
            count (Metric.jobs_processed job.job_type "success")
            count (Metric.job_duration job.job_type "success")
            pure JobProcessStatus.completed)
          v
          (Ends-map (λ _ u. (db : Database) × At w 4 db u) _ (λ e u. ⊥) _
            (write_and_complete codec store job v)
            (λ _ u b.
              (b.0, record { moments = b.1.moments; calls = b.1.calls; tables = b.1.tables }))
            (λ e u x. absurd x) (writes v a)))

  beats :
      (hb : VisibilityHeartbeat) (v : World)
      → At w 2 claimed_db v
      → Ends
          (λ _ u. (db : Database) × At w 4 db u)
          (λ e u. ⊥)
          (with_heartbeat hb (complete_claimed_job codec store job) v)
  unfolding with_heartbeat
  beats hb v a =
      let start : World = record v { heartbeat = some hb } in
      stop (complete_claimed_job codec store job start)
        (processes start (record { moments = a.moments; calls = a.calls; tables = a.tables }))
    where
      stop :
          (p : Result JobProcessStatus × World)
          → Ends (λ _ u. (db : Database) × At w 4 db u) (λ e u. ⊥) p
          → Ends
              (λ _ u. (db : Database) × At w 4 db u)
              (λ e u. ⊥)
              (p.0, record p.1 { heartbeat = none })
      stop (ok s, u) b =
          (b.0, record { moments = b.1.moments; calls = b.1.calls; tables = b.1.tables })
      stop (err e, u) b = b

  deletes :
      {db : Database} (v : World)
      → At w 4 db v
      → Ends (λ b u. b ≡ true) (λ e u. ⊥) ((delete codec h >>= λ _. pure true) v)
  unfolding delete
  deletes v a =
      Ends-bind _ _ (delete codec h) (λ _. pure true) v
        (Ends-call_at codec w quiet (λ _ u. true ≡ true) _ v a refl)

  handles :
      (v : World)
      → At w 2 claimed_db v
      → Ends (λ b u. b ≡ true) (λ e u. ⊥) (handle_claim codec store o j h (claimed job) v)
  unfolding handle_claim complete_and_delete
  handles v a =
      let hb : VisibilityHeartbeat = heartbeat_of o job j h in
      Ends-catch _ _ (complete_and_delete codec store o j h job) (give_up codec j job) v (
        Ends-map (λ b u. b ≡ true) _ (λ e u. ⊥) _ (complete_and_delete codec store o j h job v)
          (λ b u e. e) (λ e u x. absurd x)
          (Ends-bind _ _ (with_heartbeat hb (complete_claimed_job codec store job))
            (λ _. do delete codec h; pure true) v
            (Ends-map (λ _ u. (db : Database) × At w 4 db u) _ (λ e u. ⊥) _
              (with_heartbeat hb (complete_claimed_job codec store job) v) (λ _ u b. deletes u b.1)
              (λ e u x. absurd x) (beats hb v a))))

  pub returns_true : Ends (λ b u. b ≡ true) (λ e u. ⊥) (consume_one_message codec store o w)
  unfolding consume_one_message handle_message
  returns_true =
      let lease : ℕ = o.processing_lease_seconds in
      Ends-bind _ _ (receive_or_none codec) (handle_message codec store o) w (
        Ends-map (λ m v. (m ≡ some (j, h)) × At w 1 w.db v) _ (λ e v. ⊥) _ (receive_or_none codec w)
          (λ m v q.
            subst (λ m. Ends (λ b u. b ≡ true) (λ e u. ⊥) (handle_message codec store o m v))
              (sym q.0)
              (Ends-bind _ _ (claim_job codec j lease) (handle_claim codec store o j h) v (
                Ends-map (λ c u. (c ≡ claimed job) × At w 2 claimed_db u) _ (λ e u. ⊥) _
                  (claim_job codec j lease v)
                  (λ c u p.
                    subst
                      (λ c. Ends (λ b u. b ≡ true) (λ e u. ⊥) (handle_claim codec store o j h c u))
                      (sym p.0) (handles u p.1))
                  (λ e u x. absurd x) (claims v q.1))))
          (λ e v x. absurd x) receives)
