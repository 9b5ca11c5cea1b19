-- ===== src/Platform/Processing.antt =====
-- What the earlier generation of the worker (services/platform_app/worker/main.py) knows of a job once
-- process_job has returned.
use production_cloud_reliabi.Prelude.{
  ◌≡◌, refl, ◌∙◌, String, true, Option, none, some, List, [], ◌∷◌, ◌++◌, arith,
}
use production_cloud_reliabi.Errors.{Result, ok, err}
use production_cloud_reliabi.Codec.{Json}
use production_cloud_reliabi.Database.{Uuid, JobStatus, JobResultRow}
use production_cloud_reliabi.Platform.Tables
use production_cloud_reliabi.Platform.Tables.{PlatformJob, PlatformTables}
use production_cloud_reliabi.Platform.World.{
  PlatformMoment, PlatformWorld, Change, next, transaction, commit, committed, run_change,
}
use production_cloud_reliabi.Platform.Rules.{Ends, Ends-bind, Ends-map, Ends-call}
use production_cloud_reliabi.Platform.Worker.{
  mark_job_processing, get_job, complete_job, job_result, check_duplicate, process_claimed, read,
  process_job,
}
use production_cloud_reliabi.Platform.Stored.{
  has_result, is_completed, IsStored, is_done, find-is_done, complete_job-has_result, Kept,
  has_result-Kept, IsStored-Kept, run_changes-Kept,
}

-- Nothing deleted so far but `deleted`, and completed jobs have their results.
pub record Before (deleted : List String) (w : PlatformWorld) : Type 0 where
  pub unchanged : w.deleted ≡ deleted
  pub stored : IsStored w.db

-- The message of job `i` deleted, and the job's result stored.
pub record After (deleted : List String) (i : Uuid) (h : String) (w : PlatformWorld) : Type 0 where
  pub removed : w.deleted ≡ deleted ++ h ∷ []
  pub result : has_result i w.db.job_results ≡ true
  pub stored : IsStored w.db

pub next-Kept : (P : PlatformTables → Type 0) (w : PlatformWorld) → Kept P → P w.db → P (next w).db
unfolding next
next-Kept P w k p = run_changes-Kept P k (w.moments w.calls).before w.db p

next-deleted : (w : PlatformWorld) → (next w).deleted ≡ w.deleted
unfolding next
next-deleted w = refl

pub next-Before : (D : List String) (w : PlatformWorld) → Before D w → Before D (next w)
next-Before D w b = record {
  unchanged = next-deleted w ∙ b.unchanged;
  stored = next-Kept IsStored w IsStored-Kept b.stored;
}

pub next-After :
    (D : List String) (i : Uuid) (h : String) (w : PlatformWorld)
    → After D i h w
    → After D i h (next w)
next-After D i h w a = record {
  removed = next-deleted w ∙ a.removed;
  result = next-Kept (λ db. has_result i db.job_results ≡ true) w (has_result-Kept i) a.result;
  stored = next-Kept IsStored w IsStored-Kept a.stored;
}

module _ (D : List String) (i : Uuid) where
  mark-Ends :
      (w : PlatformWorld)
      → Before D w
      → Ends (λ m v. Before D v) (Before D) (mark_job_processing i w)
  unfolding mark_job_processing transaction run_change
  mark-Ends w b =
      let n : Before D (next w) = next-Before D w b in
      let m : PlatformMoment = w.moments w.calls in
      let after : Before D (record (next w) {
        db = run_change m.now m.uuid (Change.mark_job_processing i) (next w).db;
      }) =
        record {
          unchanged = n.unchanged;
          stored = IsStored-Kept m.now m.uuid (Change.mark_job_processing i) (next w).db n.stored;
        } in
      Ends-call (λ m v. Before D v) (Before D)
        (λ m w. commit (ok (Tables.mark_job_processing m.now i w.db)) w) w n (after, after)

  -- A job that get_job shows as completed has its result.
  Shown : PlatformJob × Option JobResultRow → PlatformWorld → Type 0
  Shown x v = Before D v × (is_completed x.0.status ≡ true → has_result i v.db.job_results ≡ true)

  get_job-done :
      (db : PlatformTables) (x : PlatformJob × Option JobResultRow)
      → Tables.get_job i db ≡ ok x
      → is_completed x.0.status ≡ true
      → is_done i db.jobs ≡ true
  unfolding Tables.get_job
  get_job-done db x e c = ground (arith, find-is_done i db.jobs x.0)

  get-Ends : (w : PlatformWorld) → Before D w → Ends Shown (Before D) (get_job i w)
  unfolding get_job transaction Shown
  get-Ends w b =
      let n : Before D (next w) = next-Before D w b in
      Ends-call Shown (Before D) (λ m w. commit (read w.db (Tables.get_job i w.db)) w) w n
        (got n (Tables.get_job i (next w).db) refl)
    where
      got :
          {v : PlatformWorld}
          → Before D v
          → (r : Result (PlatformJob × Option JobResultRow)) → Tables.get_job i v.db ≡ r
          → Ends (λ a u. Shown a u × Before D u) (Before D) (commit (read v.db r) v)
      got {v} n (ok x) e = ((n, λ c. n.stored i (get_job-done v.db x e c)), n)
      got n (err x) e = n

  abbrev pub Recorded : PlatformWorld → Type 0
  Recorded v = Before D v × (has_result i v.db.job_results ≡ true)

  complete-Ends :
      (result : Json) (w : PlatformWorld)
      → Before D w
      → Ends (λ u v. Recorded v) (Before D) (complete_job i result w)
  unfolding complete_job transaction run_change
  complete-Ends result w b =
      let m : PlatformMoment = w.moments w.calls in
      let n : Before D (next w) = next-Before D w b in
      Ends-call (λ u v. Recorded v) (Before D)
        (λ m w. commit (Tables.complete_job m.now m.uuid i result w.db) w) w n
        (completed m n (Tables.complete_job m.now m.uuid i result (next w).db) refl
          (IsStored-Kept m.now m.uuid (Change.complete_job i result) (next w).db n.stored))
    where
      completed :
          (m : PlatformMoment) {v : PlatformWorld}
          → Before D v
          → (r : Result (Unit {0} × PlatformTables))
          → Tables.complete_job m.now m.uuid i result v.db ≡ r
          → IsStored (committed v.db r)
          → Ends (λ u v. Recorded v × Before D v) (Before D) (commit r v)
      completed m {v} n (ok (tt, db)) e s =
          let after : Before D (record v { db = db }) = record {
            unchanged = n.unchanged;
            stored = s;
          } in
          ((after, complete_job-has_result m.now m.uuid i result v.db db e), after)
      completed m n (err x) e s = n

  check-Ends :
      (x : PlatformJob × Option JobResultRow) (w : PlatformWorld)
      → Shown x w
      → Ends (λ u v. Recorded v) (Before D) (check_duplicate x.0.status w)
  unfolding Shown
  check-Ends x w s = checked x.0.status (λ c. s.1 c) s.0
    where
      checked :
          (status : JobStatus)
          → (is_completed status ≡ true → has_result i w.db.job_results ≡ true)
          → Before D w
          → Ends (λ u v. Recorded v) (Before D) (check_duplicate status w)
      checked JobStatus.completed h b = (b, h refl)
      checked JobStatus.pending h b = b
      checked JobStatus.processing h b = b
      checked JobStatus.failed h b = b

  claimed-Ends :
      (job : Option PlatformJob) (w : PlatformWorld)
      → Before D w
      → Ends (λ u v. Recorded v) (Before D) (process_claimed i job w)
  unfolding process_claimed
  claimed-Ends none w b =
      Ends-bind (λ u v. Recorded v) (Before D) (get_job i) (λ x. check_duplicate x.0.status) w
        (Ends-map Shown _ (Before D) (Before D) (get_job i w) check-Ends (λ v b. b) (get-Ends w b))
  claimed-Ends (some job) w b = complete-Ends (job_result job) w b

  pub process-Ends :
      (w : PlatformWorld) → Before D w → Ends (λ u v. Recorded v) (Before D) (process_job i w)
  unfolding process_job
  process-Ends w b =
      Ends-bind (λ u v. Recorded v) (Before D) (mark_job_processing i) (process_claimed i) w
        (Ends-map (λ m v. Before D v) _ (Before D) (Before D) (mark_job_processing i w) claimed-Ends
          (λ v b. b) (mark-Ends w b))
