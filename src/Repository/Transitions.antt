-- ===== src/Repository/Transitions.antt =====
-- The life of a job, as the statements of application/shared/repository.py allow it.
use mathlib.Core.Option
use production_cloud_reliabi.Prelude.{
  ℕ, ◌≡◌, refl, Bool, true, false, Option, none, some, List, [], ◌∷◌, ◌++◌, ◌==◌, inl, inr,
  Bool-cases, Option-cases, ==→≡, if◌then◌else◌, arith,
}
use production_cloud_reliabi.Codec.{Codec}
use production_cloud_reliabi.Database.{Uuid, Timestamp, JobStatus, JobRow, Database, find_job}
use production_cloud_reliabi.Repository.Actions.{Action, run_action}
use production_cloud_reliabi.Repository.Lookup.{
  change_if, find_job-update_self, find_job-update_ne, find_job-append_new, find_job-append_old,
}
use production_cloud_reliabi.Repository.Steps.{
  Update, test, change, update, change-id, JobsStep, same, added, updated, run_action-JobsStep,
}

-- The status of a job, `none` where there is no such job.
abbrev pub status_in : Uuid → List JobRow → Option JobStatus
status_in i rows = Option.map (λ (r : JobRow). r.status) (find_job i rows)

abbrev pub status_of : Uuid → Database → Option JobStatus
status_of i db = status_in i db.jobs

-- A job is created pending; a claim takes it from pending, failed or an expired claim to
-- processing; only from processing it is completed or failed; a completed job stays so.
abbrev pub may_become : JobStatus → JobStatus → Bool
may_become JobStatus.pending JobStatus.pending = true
may_become JobStatus.pending JobStatus.processing = true
may_become JobStatus.processing JobStatus.processing = true
may_become JobStatus.processing JobStatus.completed = true
may_become JobStatus.processing JobStatus.failed = true
may_become JobStatus.failed JobStatus.failed = true
may_become JobStatus.failed JobStatus.processing = true
may_become JobStatus.completed JobStatus.completed = true
may_become _ _ = false

abbrev pub may_move : Option JobStatus → Option JobStatus → Bool
may_move none none = true
may_move none (some JobStatus.pending) = true
may_move (some s) (some t) = may_become s t
may_move _ _ = false

may_become_refl : (s : JobStatus) → may_become s s ≡ true
may_become_refl JobStatus.pending = refl
may_become_refl _ = refl

may_move_refl : (s : Option JobStatus) → may_move s s ≡ true
may_move_refl none = refl
may_move_refl (some s) = may_become_refl s

change-may_become :
    (u : Update) (r : JobRow)
    → may_become r.status (if test u r then change u r else r).status ≡ true
change-may_become (Update.claim now lease_seconds token) r =
    ground (arith, may_become_refl r.status)
change-may_become _ r = ground (arith, may_become_refl r.status)

map-may_move :
    (u : Update) (o : Option JobRow)
    → may_move
        (Option.map (λ (r : JobRow). r.status) o)
        (Option.map (λ (r : JobRow). r.status) (Option.map (change_if (test u) (change u)) o))
      ≡ true
map-may_move u none = refl
map-may_move u (some r) = change-may_become u r

update-may_move :
    (u : Update) (i j : Uuid) (rows : List JobRow)
    → may_move (status_in j rows) (status_in j (update u i rows)) ≡ true
update-may_move u i j rows = elim (Bool-cases (j == i)) [
  | inl e ↦
      rw (==→≡ j i e, find_job-update_self (test u) (change u) (change-id u) i rows)
        (map-may_move u (find_job i rows))
  | inr e ↦
      rw (find_job-update_ne (test u) (change u) (change-id u) i j rows e)
        (may_move_refl (status_in j rows))
]

added-may_move :
    (row : JobRow) (j : Uuid) (rows : List JobRow)
    → row.status ≡ JobStatus.pending
    → may_move (status_in j rows) (status_in j (rows ++ row ∷ [])) ≡ true
added-may_move row j rows p = elim (Option-cases (find_job j rows)) [
  | inl e ↦ rw (e, find_job-append_new j rows row e) (ground arith)
  | inr (r, e) ↦ rw (e, find_job-append_old j rows row r e) (may_become_refl r.status)
]

pub JobsStep-may_move :
    {rows rows' : List JobRow} (j : Uuid)
    → JobsStep rows rows'
    → may_move (status_in j rows) (status_in j rows') ≡ true
JobsStep-may_move {rows} j (same e) = rw e (may_move_refl (status_in j rows))
JobsStep-may_move {rows} j (added row new p e) = rw e (added-may_move row j rows p)
JobsStep-may_move {rows} j (updated u i e) = rw e (update-may_move u i j rows)

-- Whatever transaction runs, each job moves only along the arrows of `may_move`: it is created
-- pending, is claimed from pending, failed or processing, is completed or failed only from
-- processing, and is never deleted.
pub run_action-may_move :
    (codec : Codec) (now : Timestamp) (uuid : ℕ → Uuid) (a : Action) (db : Database) (j : Uuid)
    → may_move (status_of j db) (status_of j (run_action codec now uuid a db)) ≡ true
run_action-may_move codec now uuid a db j =
    JobsStep-may_move j (run_action-JobsStep codec now uuid a db)

-- A completed job stays completed.
pub run_action-completed :
    (codec : Codec) (now : Timestamp) (uuid : ℕ → Uuid) (a : Action) (db : Database) (j : Uuid)
    → status_of j db ≡ some JobStatus.completed
    → status_of j (run_action codec now uuid a db) ≡ some JobStatus.completed
run_action-completed codec now uuid a db j h =
    ground (arith, run_action-may_move codec now uuid a db j)
