-- ===== src/Repository/BoardSteps.antt =====
-- What the statements of application/shared/repository.py on jobs do to the board of jobs.
use mathlib.Core.Option
use production_cloud_reliabi.Prelude.{
  ℕ, ◌≡◌, refl, ◌∙◌, ap, ◌⊎◌, String, true, false, Option, none, some, List, [], ◌∷◌, ◌++◌, ◌==◌,
  inl, inr, Bool-cases, Option-cases, ==→≡, arith,
}
use production_cloud_reliabi.Errors.{Result, ok}
use production_cloud_reliabi.Codec.{Json}
use production_cloud_reliabi.Database.{
  Uuid, Timestamp, JobStatus, JobRow, JobResultRow, ObjectMetadataRow, Database, find_job,
  find_result, find_metadata, truncate,
}
use production_cloud_reliabi.Repository.Jobs.{
  complete_job_with_report, record_completion, holds_claim, result_row, metadata_row,
}
use production_cloud_reliabi.Repository.Lookup.{
  change_if, find_job-update_self, find_job-update_ne, find_job-append_new, find_job-append_old,
}
use production_cloud_reliabi.Repository.Steps.{Update, test, change, update, change-id}
use production_cloud_reliabi.Repository.Rows.{is_finish, ClaimRecorded, any_of-none}
use production_cloud_reliabi.Repository.Completion.{find_result-append, find_metadata-append}
use production_cloud_reliabi.Repository.Completed.{complete-absent}
use production_cloud_reliabi.Repository.Fencing.{unheld_changes_nothing}
use production_cloud_reliabi.Repository.Consistency.{
  IsConsistent, is_result_of, no_object, no_results, no_objects, complete-held, completed_tables,
  fenced as fenced_tables,
}
use production_cloud_reliabi.Repository.Board.{
  JobState, board, state_of_row, claim, fenced, on, is_err,
}

-- What an UPDATE other than the completion does to a job's state.
abbrev meaning : Update → Option JobState → Option JobState
meaning (Update.claim now lease_seconds token) = claim now lease_seconds token
meaning (Update.renew now token) = fenced token (JobState.held token now)
meaning (Update.finish now token) = λ s. s
meaning (Update.give_up now token error) = fenced token (JobState.failed (some (truncate error)))

change-meaning :
    (u : Update) (r : JobRow) (result : Option JobResultRow) (artifact : Option ObjectMetadataRow)
    → is_finish u ≡ false
    → ClaimRecorded r
    → state_of_row (some (change_if (test u) (change u) r)) result artifact
      ≡ meaning u (state_of_row (some r) result artifact)
change-meaning (Update.claim now lease_seconds token) r result artifact n c = ground arith
change-meaning (Update.renew now token) r result artifact n c = ground arith
change-meaning (Update.finish now token) r result artifact n c = ground arith
change-meaning (Update.give_up now token error) r result artifact n c = ground arith

-- An UPDATE other than the completion changes one job's state, as its meaning says.
pub updated-board :
    (u : Update) (i : Uuid) (db : Database) (j : Uuid)
    → is_finish u ≡ false
    → IsConsistent db
    → board (record db { jobs = update u i db.jobs }) j ≡ on i (meaning u) (board db) j
updated-board u i db j n c = elim (Bool-cases (j == i)) [
  | inl e ↦
      rw (e, ==→≡ j i e, find_job-update_self (test u) (change u) (change-id u) i db.jobs)
        (self (find_job i db.jobs) refl)
  | inr e ↦ rw (e, find_job-update_ne (test u) (change u) (change-id u) i j db.jobs e)
]
  where
    self :
        (o : Option JobRow)
        → find_job i db.jobs ≡ o
        → state_of_row
            (Option.map (change_if (test u) (change u)) o)
            (find_result i db.job_results)
            (find_metadata i db.object_metadata)
          ≡ meaning u
              (state_of_row o (find_result i db.job_results) (find_metadata i db.object_metadata))
    self none e = absent u
      where
        absent : (u : Update) → none ≡ meaning u none
        absent (Update.claim now lease_seconds token) = refl
        absent _ = refl
    self (some r) e = change-meaning u r _ _ n (c.claims i r e)

-- A new job is pending; nothing else is.
pub appended-board :
    (row : JobRow) (db db' : Database) (j : Uuid)
    → find_job row.id db.jobs ≡ none
    → row.status ≡ JobStatus.pending
    → db'.jobs ≡ db.jobs ++ row ∷ []
    → db'.job_results ≡ db.job_results
    → db'.object_metadata ≡ db.object_metadata
    → board db' j ≡ on row.id (λ s. some JobState.pending) (board db) j
appended-board row db db' j absent p e f g =
    rw (e, f, g)
      (elim (Option-cases (find_job j db.jobs)) [
        | inl h ↦ rw (h, find_job-append_new j db.jobs row h) (ground arith)
        | inr (r, h) ↦ rw (h, find_job-append_old j db.jobs row r h) (ground arith)
      ])

find_result-append_other :
    (j : Uuid) (rows : List JobResultRow) (row : JobResultRow)
    → (row.job_id == j) ≡ false
    → find_result j (rows ++ row ∷ []) ≡ find_result j rows
find_result-append_other j [] row h = rw h
find_result-append_other j (r ∷ rows) row h = ground (arith, find_result-append_other j rows row)

find_metadata-append_other :
    (j : Uuid) (rows : List ObjectMetadataRow) (row : ObjectMetadataRow)
    → (row.job_id == j) ≡ false
    → find_metadata j (rows ++ row ∷ []) ≡ find_metadata j rows
find_metadata-append_other j [] row h = rw h
find_metadata-append_other j (r ∷ rows) row h =
    ground (arith, find_metadata-append_other j rows row)

module _ (now : Timestamp) (uuid : ℕ → Uuid) (i token : Uuid) (result : Json) (key type : String)
    (db : Database) (c : IsConsistent db) where
  abbrev complete : Result (Unit {0} × Database)
  complete = complete_job_with_report now uuid i token result key type db

  abbrev tables : Database
  tables = completed_tables now uuid i token result key type db

  recorded :
      (r : JobRow)
      → find_job i db.jobs ≡ some r
      → holds_claim token r ≡ true
      → let done =
          record_completion now uuid i result key type
            (fenced_tables now uuid i token result key type db) in
        (is_err done ≡ true) ⊎ (done ≡ ok (tt, tables))
  unfolding record_completion
  recorded r found held =
      let a =
        any_of-none (is_result_of i) db.job_results
          (no_results now uuid i token result key type db r c found held) in
      let b =
        no_object i key db.object_metadata
          (no_objects now uuid i token result key type db r c found held) in
      ground arith

  -- A completion raises, or it was made by the holder of the claim and writes its tables.
  pub complete_cases :
      (is_err complete ≡ true)
      ⊎ ((r : JobRow) × (find_job i db.jobs ≡ some r)
          × (holds_claim token r ≡ true)
          × (complete ≡ ok (tt, tables)))
  complete_cases = elim (Option-cases (find_job i db.jobs)) [
    | inl absent ↦ inl (rw (complete-absent now uuid i token result key type db absent) refl)
    | inr (r, found) ↦ elim (Bool-cases (holds_claim token r)) [
      | inr lost ↦ inl (
          rw (unheld_changes_nothing now uuid i token result key type "" db r c.unique found lost).0
            refl)
      | inl held ↦
          let steps = complete-held now uuid i token result key type db r c found held in
          elim (recorded r found held) [
            | inl e ↦ inl (ap is_err steps ∙ e)
            | inr e ↦ inr (r, found, held, steps ∙ e)
          ]
    ]
  ]

  pub completed-board :
      (r : JobRow) (j : Uuid)
      → find_job i db.jobs ≡ some r
      → holds_claim token r ≡ true
      → board tables j ≡ on i (fenced token (JobState.completed result key type)) (board db) j
  completed-board r j found held =
      let u : Update = Update.finish now token in
      elim (Bool-cases (j == i)) [
        | inl e ↦
            rw
              (
                ==→≡ j i e,
                find_job-update_self (test u) (change u) (change-id u) i db.jobs,
                found,
                held,
                find_result-append i db.job_results (result_row (uuid 0) i result now)
                    (no_results now uuid i token result key type db r c found held) (ground arith),
                find_metadata-append i db.object_metadata (metadata_row (uuid 1) i key type now)
                    (no_objects now uuid i token result key type db r c found held) (ground arith),
              )
              (ground (arith, c.claims i r found))
        | inr e ↦
            rw
              (
                e,
                find_job-update_ne (test u) (change u) (change-id u) i j db.jobs e,
                find_result-append_other j db.job_results (result_row (uuid 0) i result now)
                    (ground arith),
                find_metadata-append_other j db.object_metadata
                    (metadata_row (uuid 1) i key type now) (ground arith),
              )
              refl
      ]
