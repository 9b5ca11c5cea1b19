-- ===== src/Repository/BoardAnswers.antt =====
-- What the methods on jobs of application/shared/repository.py answer, told from the board of jobs.
use production_cloud_reliabi.Prelude.{
  ℕ, ◌≡◌, ◌+◌, ◌*◌, refl, sym, ◌∙◌, ap, String, Bool, true, false, Option, some, ◌==◌, ◌⊎◌, inl,
  inr, Bool-cases, Option-cases, is_some, ltb, count_if, arith,
}
use production_cloud_reliabi.Errors.{Exc, err}
use production_cloud_reliabi.Codec.{Json}
use production_cloud_reliabi.Database.{
  Uuid, Timestamp, JobRow, JobResultRow, ObjectMetadataRow, Database, find_job, find_result,
  find_metadata,
}
use production_cloud_reliabi.Repository.Jobs.{
  mark_job_processing, renew_job_processing_lease, complete_job_with_report, fail_job, holds_claim,
  is_claimable, claimed,
}
use production_cloud_reliabi.Repository.Lookup.{
  job_where, find_job-none_count, count_if-present, count_if-absent, fetchone-absent,
}
use production_cloud_reliabi.Repository.Rows.{ClaimRecorded}
use production_cloud_reliabi.Repository.Fencing.{mark_job_processing_lem, unheld_changes_nothing}
use production_cloud_reliabi.Repository.Completed.{complete-absent}
use production_cloud_reliabi.Repository.Consistency.{IsConsistent}
use production_cloud_reliabi.Repository.Board.{JobState, board, state_of_row}

-- Whether a claim of a job in this state is granted.
abbrev pub is_free : Timestamp → ℕ → Option JobState → Bool
is_free now lease_seconds (some JobState.pending) = true
is_free now lease_seconds (some (JobState.failed e)) = true
is_free now lease_seconds (some (JobState.held t started)) =
    ltb (started + lease_seconds * 1000000) now
is_free now lease_seconds _ = false

-- Whether the job is held under this token.
abbrev pub is_held : Uuid → Option JobState → Bool
is_held token (some (JobState.held t started)) = t == token
is_held token _ = false

is_free-row :
    (now : Timestamp) (lease : ℕ) (r : JobRow) (result : Option JobResultRow)
    (artifact : Option ObjectMetadataRow)
    → ClaimRecorded r
    → is_claimable now lease r ≡ is_free now lease (state_of_row (some r) result artifact)
is_free-row now lease r result artifact c = ground arith

is_held-row :
    (token : Uuid) (r : JobRow) (result : Option JobResultRow) (artifact : Option ObjectMetadataRow)
    → ClaimRecorded r
    → holds_claim token r ≡ is_held token (state_of_row (some r) result artifact)
is_held-row token r result artifact c = ground arith

module _ (now : Timestamp) (i : Uuid) (db : Database) (c : IsConsistent db) where
  held_count :
      (token : Uuid)
      → (count_if (job_where i (holds_claim token)) db.jobs == 1) ≡ is_held token (board db i)
  held_count token = elim (Option-cases (find_job i db.jobs)) [
    | inl e ↦
        rw (e, count_if-absent (holds_claim token) i db.jobs (find_job-none_count i db.jobs e)) refl
    | inr (r, e) ↦
        rw (count_if-present (holds_claim token) i db.jobs r (c.unique i) e, e)
          (ground (
            arith,
            is_held-row token r (find_result i db.job_results) (find_metadata i db.object_metadata)
                (c.claims i r e),
          ))
  ]

  claim_answer :
      (uuid : ℕ → Uuid) (lease : ℕ)
      → is_some (mark_job_processing now uuid i lease db).0 ≡ is_free now lease (board db i)
  unfolding mark_job_processing
  claim_answer uuid lease = elim (Option-cases (find_job i db.jobs)) [
    | inl e ↦
        rw
          (
            e,
            fetchone-absent (is_claimable now lease) i (claimed now (uuid 0)) db.jobs (
                count_if-absent (is_claimable now lease) i db.jobs
                  (find_job-none_count i db.jobs e)),
          )
          refl
    | inr (r, e) ↦
        let result = find_result i db.job_results in
        let artifact = find_metadata i db.object_metadata in
        ap is_some (mark_job_processing_lem now uuid i lease db r c.unique e).0
        ∙ rw e (ground (arith, is_free-row now lease r result artifact (c.claims i r e)))
  ]

  refused_completion :
      (uuid : ℕ → Uuid) (token : Uuid) (result : Json) (key type : String)
      → is_held token (board db i) ≡ false
      → complete_job_with_report now uuid i token result key type db ≡ err Exc.lost_job_claim
  refused_completion uuid token result key type h = elim (Option-cases (find_job i db.jobs)) [
    | inl e ↦ complete-absent now uuid i token result key type db e
    | inr (r, e) ↦
        (unheld_changes_nothing now uuid i token result key type "" db r c.unique e (
          is_held-row token r (find_result i db.job_results) (find_metadata i db.object_metadata)
            (c.claims i r e)
          ∙ ap
              (λ (o : Option JobRow). is_held token (
                state_of_row o (find_result i db.job_results) (find_metadata i db.object_metadata)))
              (sym e)
          ∙ h)).0
  ]

  -- On consistent tables the board alone tells what a worker is answered about a job: it gets the
  -- claim exactly when the job is free (pending, failed, or held under an expired lease), renewing and
  -- failing report True exactly when the job is held under the worker's token, and completing it
  -- without that raises LostJobClaimError.
  pub answers-board :
      (uuid : ℕ → Uuid) (lease : ℕ) (token : Uuid) (result : Json) (key type error : String)
      → (is_some (mark_job_processing now uuid i lease db).0 ≡ is_free now lease (board db i))
        × ((renew_job_processing_lease now i token db).0 ≡ is_held token (board db i))
        × ((fail_job now i token error db).0 ≡ is_held token (board db i))
        × ((is_held token (board db i) ≡ true)
            ⊎ (complete_job_with_report now uuid i token result key type db
                ≡ err Exc.lost_job_claim))
  unfolding renew_job_processing_lease fail_job
  answers-board uuid lease token result key type error = (
    claim_answer uuid lease,
    held_count token,
    held_count token,
    elim (Bool-cases (is_held token (board db i))) [
      | inl held ↦ inl held
      | inr lost ↦ inr (refused_completion uuid token result key type lost)
    ],
  )
