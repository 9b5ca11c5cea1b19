-- ===== src/Repository/Claiming.antt =====
-- Who is given a job by mark_job_processing (application/shared/repository.py), and what the row of the
-- job then says.
use production_cloud_reliabi.Prelude.{
  ℕ, ◌≡◌, ◌⊎◌, ◌+◌, ◌*◌, ◌<◌, refl, ◌∙◌, true, Option, none, some, ◌==◌, inl, inr, Bool-cases,
  Bool-clash, ==→≡, arith,
}
use production_cloud_reliabi.Database.{Uuid, Timestamp, JobStatus, JobRow, Database, find_job}
use production_cloud_reliabi.Repository.Jobs.{mark_job_processing, is_claimable, claimed}
use production_cloud_reliabi.Repository.Lookup.{UniqueIds}
use production_cloud_reliabi.Repository.Fencing.{mark_job_processing_lem}

-- A job that may be claimed: it is pending, or failed, or it is processing under a lease that has
-- expired.
pub data IsFree (now : Timestamp) (lease_seconds : ℕ) (r : JobRow) : Type 0 where
  is_pending : r.status ≡ JobStatus.pending → IsFree now lease_seconds r
  is_failed : r.status ≡ JobStatus.failed → IsFree now lease_seconds r
  is_expired :
      (t : Timestamp)
      → r.status ≡ JobStatus.processing
      → r.processing_started_at ≡ some t
      → t + lease_seconds * 1000000 < now
      → IsFree now lease_seconds r

-- The row of a job under a new claim.
pub record IsTaken (now : Timestamp) (token : Uuid) (r : JobRow) (r' : JobRow) : Type 0 where
  pub id : r'.id ≡ r.id
  pub job_type : r'.job_type ≡ r.job_type
  pub payload : r'.payload ≡ r.payload
  pub status : r'.status ≡ JobStatus.processing
  pub attempts : r'.attempts ≡ r.attempts + 1
  pub processing_token : r'.processing_token ≡ some token
  pub processing_started_at : r'.processing_started_at ≡ some now
  pub last_error : r'.last_error ≡ r.last_error
  pub times : (r'.created_at ≡ r.created_at) × (r'.updated_at ≡ now)

claimable-IsFree :
    (now : Timestamp) (lease : ℕ) (r : JobRow)
    → is_claimable now lease r ≡ true
    → IsFree now lease r
claimable-IsFree now lease r h = by_status r.status refl h
  where
    expired :
        (o : Option Timestamp)
        → r.status ≡ JobStatus.processing
        → r.processing_started_at ≡ o
        → is_claimable now lease r ≡ true
        → IsFree now lease r
    expired none s e h = ground arith
    expired (some t) s e h = is_expired t s e (ground arith)

    by_status :
        (s : JobStatus) → r.status ≡ s → is_claimable now lease r ≡ true → IsFree now lease r
    by_status JobStatus.pending e h = is_pending e
    by_status JobStatus.failed e h = is_failed e
    by_status JobStatus.processing e h = expired r.processing_started_at e refl h
    by_status JobStatus.completed e h = ground arith

IsFree-claimable :
    (now : Timestamp) (lease : ℕ) (r : JobRow)
    → IsFree now lease r
    → is_claimable now lease r ≡ true
IsFree-claimable now lease r (is_pending e) = rw e refl
IsFree-claimable now lease r (is_failed e) = rw e refl
IsFree-claimable now lease r (is_expired t e s h) = ground arith

-- Ids of jobs being unique, mark_job_processing gives an existing job to its caller exactly when the
-- job is free: pending, failed, or processing under an expired lease. It is then answered with the row
-- that stands in the table, which says that the job is processing since now under the new token and
-- with one attempt more, and is otherwise as before. If the job is not free the answer is None and its
-- row stays. Every other job is as it was.
pub mark_job_processing-IsTaken :
    (now : Timestamp) (uuid : ℕ → Uuid) (i : Uuid) (lease_seconds : ℕ) (db : Database) (r : JobRow)
    → UniqueIds db.jobs
    → find_job i db.jobs ≡ some r
    → let (answer, db') = mark_job_processing now uuid i lease_seconds db in
      ((IsFree now lease_seconds r
          × ((r' : JobRow) × IsTaken now (uuid 0) r r'
              × (answer ≡ some r')
              × (find_job i db'.jobs ≡ some r')))
        ⊎ ((IsFree now lease_seconds r → ⊥) × (answer ≡ none) × (find_job i db'.jobs ≡ some r)))
      × ((j : Uuid) → (j ≡ i) ⊎ (find_job j db'.jobs ≡ find_job j db.jobs))
mark_job_processing-IsTaken now uuid i lease db r u e =
    let (answer, found, others) = mark_job_processing_lem now uuid i lease db r u e in
    (
      elim (Bool-cases (is_claimable now lease r)) [
        | inl y ↦ inl (
          claimable-IsFree now lease r y,
          (
            claimed now (uuid 0) r,
            record {
              id = refl;
              job_type = refl;
              payload = refl;
              status = refl;
              attempts = refl;
              processing_token = refl;
              processing_started_at = refl;
              last_error = refl;
              times = (refl, refl);
            },
            answer ∙ rw y refl,
            found ∙ rw y refl,
          ),
        )
        | inr n ↦ inr (
          λ f. Bool-clash (is_claimable now lease r) (IsFree-claimable now lease r f) n,
          answer ∙ rw n refl,
          found ∙ rw n refl,
        )
      ],
      λ j. elim (Bool-cases (j == i)) [ inl y ↦ inl (==→≡ j i y) | inr n ↦ inr (others j n) ],
    )
