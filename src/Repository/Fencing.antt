-- ===== src/Repository/Fencing.antt =====
-- Claims on jobs: who may claim a job (mark_job_processing), and how the processing token keeps a
-- worker that lost its claim from renewing, completing or failing the job
-- (application/shared/repository.py).
use mathlib.Core.Path.{subst}
use production_cloud_reliabi.Prelude.{
  ℕ, ◌≡◌, ◌≢◌, ◌⊎◌, ◌+◌, ◌*◌, refl, ap, ◌∙◌, String, Bool, true, false, Option, none, some, List,
  ◌&&◌, ◌==◌, ltb, inl, inr, Bool-cases, ==→≡, if◌then◌else◌, count_if, arith,
}
use production_cloud_reliabi.Errors.{Exc, err}
use production_cloud_reliabi.Codec.{Codec, Json}
use production_cloud_reliabi.Database.{
  Uuid, Timestamp, JobStatus, JobRow, Database, find_job, eq_null,
}
use production_cloud_reliabi.Repository.Jobs.{
  mark_job_processing, renew_job_processing_lease, complete_job_with_report, fail_job, is_claimable,
  holds_claim, claimed, renewed, finished, failed_with, new_job,
}
use production_cloud_reliabi.Repository.Outbox.{
  claim_outbox_events, mark_outbox_published, mark_outbox_failed,
}
use production_cloud_reliabi.Repository.Actions.{Action, run_action}
use production_cloud_reliabi.Repository.Lookup.{
  UniqueIds, job_where, change_if, find_job-update_self, find_job-update_ne, find_job-append_old,
  filter_if-present, count_if-present, update_where-none, fetchone-absent,
}
use production_cloud_reliabi.Repository.Steps.{
  Update, test, change, update, change-id, create_customer-jobs, create_job-jobs, complete-jobs,
}

change_if-find :
    (u : Update) (i : Uuid) (rows : List JobRow) {r : JobRow}
    → find_job i rows ≡ some r
    → find_job i (update u i rows) ≡ some (change_if (test u) (change u) r)
change_if-find u i rows e = rw (find_job-update_self (test u) (change u) (change-id u) i rows, e)

-- Ids of jobs being unique, a claim of an existing job returns the job, processing under the new token and with one attempt
-- more, exactly when the job is pending, failed, or processing under an expired lease. That row is
-- then in the table; without a claim the job's row is as it was, and so is every other job's.
pub mark_job_processing_lem :
    (now : Timestamp) (uuid : ℕ → Uuid) (i : Uuid) (lease_seconds : ℕ) (db : Database) (r : JobRow)
    → UniqueIds db.jobs
    → find_job i db.jobs ≡ some r
    → let (answer, db') = mark_job_processing now uuid i lease_seconds db in
      let granted = is_claimable now lease_seconds r in
      (answer ≡ (if granted then some (claimed now (uuid 0) r) else none))
      × (find_job i db'.jobs ≡ some (if granted then claimed now (uuid 0) r else r))
      × ((j : Uuid) → (j == i) ≡ false → find_job j db'.jobs ≡ find_job j db.jobs)
unfolding mark_job_processing
mark_job_processing_lem now uuid i lease_seconds db r u e =
    let s = Update.claim now lease_seconds (uuid 0) in
    (
      rw (filter_if-present (is_claimable now lease_seconds) i db.jobs r (u i) e) (ground arith),
      change_if-find s i db.jobs e,
      λ j h. find_job-update_ne (test s) (change s) (change-id s) i j db.jobs h,
    )

-- A row that the worker with `token` holds no claim on.
lost_count :
    (i token : Uuid) (rows : List JobRow) (r : JobRow)
    → UniqueIds rows
    → find_job i rows ≡ some r
    → holds_claim token r ≡ false
    → count_if (job_where i (holds_claim token)) rows ≡ 0
lost_count i token rows r u e h = rw (count_if-present (holds_claim token) i rows r (u i) e, h)

-- A claim that is not held.
pub unheld_changes_nothing :
    (now : Timestamp) (uuid : ℕ → Uuid) (i token : Uuid) (result : Json) (key type error : String)
    (db : Database) (r : JobRow)
    → UniqueIds db.jobs
    → find_job i db.jobs ≡ some r
    → holds_claim token r ≡ false
    → (complete_job_with_report now uuid i token result key type db ≡ err Exc.lost_job_claim)
      × (renew_job_processing_lease now i token db ≡ (false, db))
      × (fail_job now i token error db ≡ (false, db))
unfolding complete_job_with_report renew_job_processing_lease fail_job
unheld_changes_nothing now uuid i token result key type error db r u e h =
    let none_held = lost_count i token db.jobs r u e h in
    let c = holds_claim token in
    (
      rw (fetchone-absent c i (finished now) db.jobs none_held, complete_job_with_report) refl,
      rw (none_held, update_where-none c i (renewed now) db.jobs none_held) refl,
      rw (none_held, update_where-none c i (failed_with now error) db.jobs none_held) refl,
    )

eq_null-some : (o : Option ℕ) (x : ℕ) → eq_null o x ≡ true → o ≡ some x
eq_null-some none x h = ground arith
eq_null-some (some y) x h = ap some (==→≡ y x h)

unheld :
    (token : Uuid) (r : JobRow)
    → (r.status ≢ JobStatus.processing) ⊎ (r.processing_token ≢ some token)
    → holds_claim token r ≡ false
unheld token r h = elim (Bool-cases (holds_claim token r)) [ inl y ↦ absurd (both y h) | inr n ↦ n ]
  where
    both :
        holds_claim token r ≡ true
        → (r.status ≢ JobStatus.processing) ⊎ (r.processing_token ≢ some token)
        → ⊥
    both y (inl f) = f (ground arith)
    both y (inr f) = f (eq_null-some r.processing_token token (ground arith))

-- Ids of jobs being unique, a worker whose token is not the one in the row, or whose job is no longer processing, can neither
-- complete nor fail the job nor renew its lease: completing raises LostJobClaimError, the other two
-- report False, and no table changes.
pub lost_claim_changes_nothing :
    (now : Timestamp) (uuid : ℕ → Uuid) (i token : Uuid) (result : Json) (key type error : String)
    (db : Database) (r : JobRow)
    → UniqueIds db.jobs
    → find_job i db.jobs ≡ some r
    → (r.status ≢ JobStatus.processing) ⊎ (r.processing_token ≢ some token)
    → (complete_job_with_report now uuid i token result key type db ≡ err Exc.lost_job_claim)
      × (renew_job_processing_lease now i token db ≡ (false, db))
      × (fail_job now i token error db ≡ (false, db))
lost_claim_changes_nothing now uuid i token result key type error db r u e h =
    unheld_changes_nothing now uuid i token result key type error db r u e (unheld token r h)

-- What takes a claim on job i away from the holder of `token`, whose lease runs from `started`: a
-- use of the token itself, or a claim after the lease has expired.
abbrev pub ends_claim : Timestamp → Uuid → Uuid → Timestamp → Action → Bool
ends_claim now i token started (Action.mark_job_processing j lease_seconds) =
    j == i && ltb (started + lease_seconds * 1000000) now
ends_claim now i token started (Action.renew_job_processing_lease j t) = j == i && t == token
ends_claim now i token started (Action.complete_job_with_report j t _ _ _) = j == i && t == token
ends_claim now i token started (Action.fail_job j t _) = j == i && t == token
ends_claim now i token started _ = false

-- A job processing under `token` since `started`.
pub record IsHeld (i token : Uuid) (started : Timestamp) (db : Database) (r : JobRow) : Type 0 where
  pub found : find_job i db.jobs ≡ some r
  pub is_processing : r.status ≡ JobStatus.processing
  pub token_in_row : r.processing_token ≡ some token
  pub since : r.processing_started_at ≡ some started

unchanged :
    (u : Update) (k i : Uuid) (r : JobRow)
    → (i == k) ≡ true
    → (k == i && test u r) ≡ false
    → change_if (test u) (change u) r ≡ r
unchanged u k i r e h = elim (Bool-cases (test u r)) [ inl p ↦ absurd (untested p) | inr p ↦ rw p ]
  where
    untested : test u r ≡ true → ⊥
    untested p = ground arith

quiet_update :
    (u : Update) (k i : Uuid) (rows : List JobRow) (r : JobRow)
    → find_job i rows ≡ some r
    → (k == i && test u r) ≡ false
    → find_job i (update u k rows) ≡ some r
quiet_update u k i rows r e h = elim (Bool-cases (i == k)) [
  | inl same_job ↦
      subst (λ t. find_job i (update u t rows) ≡ some r) (==→≡ i k same_job)
        (change_if-find u i rows e ∙ ap some (unchanged u k i r same_job h))
  | inr other ↦ find_job-update_ne (test u) (change u) (change-id u) k i rows other ∙ e
]

-- The row of a held claim, under an action that does not end the claim.
quiet_action :
    (codec : Codec) (now : Timestamp) (uuid : ℕ → Uuid) (a : Action) (db : Database)
    (i token : Uuid) (started : Timestamp) (r : JobRow)
    → IsHeld i token started db r
    → ends_claim now i token started a ≡ false
    → find_job i (run_action codec now uuid a db).jobs ≡ some r
unfolding run_action mark_job_processing renew_job_processing_lease fail_job claim_outbox_events
    mark_outbox_published mark_outbox_failed
quiet_action codec now uuid (Action.create_customer name email) db i token started r h q =
    rw (create_customer-jobs now uuid name email db) h.found
quiet_action codec now uuid (Action.create_job job_type payload corr) db i token started r h q =
    elim (create_job-jobs codec now uuid job_type payload corr db) [
      | inl e ↦ rw e h.found
      | inr (_, e) ↦
          rw e (find_job-append_old i db.jobs (new_job (uuid 0) job_type payload now) r h.found)
    ]
quiet_action codec now uuid (Action.mark_job_processing k lease) db i token started r h q =
    quiet_update (Update.claim now lease (uuid 0)) k i db.jobs r h.found (ground arith)
quiet_action codec now uuid (Action.renew_job_processing_lease k t) db i token started r h q =
    quiet_update (Update.renew now t) k i db.jobs r h.found (ground arith)
quiet_action codec now uuid (Action.complete_job_with_report k t result key type) db i token started
      r h q =
    elim (complete-jobs now uuid k t result key type db) [
      | inl e ↦ rw e h.found
      | inr e ↦ rw e (quiet_update (Update.finish now t) k i db.jobs r h.found (ground arith))
    ]
quiet_action codec now uuid (Action.fail_job k t error) db i token started r h q =
    quiet_update (Update.give_up now t error) k i db.jobs r h.found (ground arith)
quiet_action codec now uuid _ db i token started r h q = h.found

-- A claim is exclusive: a transaction that is no renewal, completion or failing of the job with its
-- token, and no claim of the job with a lease that has expired, leaves the row of a processing job as
-- it is, so that the token still holds it.
pub run_action-IsHeld :
    (codec : Codec) (now : Timestamp) (uuid : ℕ → Uuid) (a : Action) (db : Database)
    (i token : Uuid) (started : Timestamp) (r : JobRow)
    → IsHeld i token started db r
    → ends_claim now i token started a ≡ false
    → IsHeld i token started (run_action codec now uuid a db) r
run_action-IsHeld codec now uuid a db i token started r h q = record {
  found = quiet_action codec now uuid a db i token started r h q;
  is_processing = h.is_processing;
  token_in_row = h.token_in_row;
  since = h.since;
}
