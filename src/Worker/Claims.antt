-- ===== src/Worker/Claims.antt =====
-- How claim_job of application/worker/main.py ends.
use mathlib.Core.Option
use production_cloud_reliabi.Prelude.{
  ℕ, ◌≡◌, refl, ap, Bool, Option, none, some, List, [], ◌∷◌, inl, inr, ◌&&◌, ◌==◌, ==→≡,
  Option-cases, arith,
}
use production_cloud_reliabi.Errors.{ok, err}
use production_cloud_reliabi.Codec.{Codec}
use production_cloud_reliabi.Database.{Uuid, JobStatus, JobRow, fetchone, returning, find_job}
use production_cloud_reliabi.Repository.Jobs
use production_cloud_reliabi.Repository.Jobs.{JobView, is_claimable, claimed as claimed_row}
use production_cloud_reliabi.Repository.Transitions.{status_of}
use production_cloud_reliabi.World.{World, Moment, commit, transaction, next}
use production_cloud_reliabi.World.Rules.{Ends, Ends-bind, Ends-map, Ends-call, IsCompleted}
use production_cloud_reliabi.Worker.{
  Claim, claimed, refused, duplicate_completed, claim_job, answer_claim, refuse_claim, get_job,
  mark_job_processing,
}

-- A row that an UPDATE of job j returns is a row of job j.
fetchone-id :
    (j : Uuid) (c : JobRow → Bool) (f : JobRow → JobRow) (rows : List JobRow) (r : JobRow)
    → ((s : JobRow) → (f s).id ≡ s.id)
    → fetchone (returning (λ (s : JobRow). s.id == j && c s) f rows) ≡ some r
    → r.id ≡ j
fetchone-id j c f [] r same h = cc
fetchone-id j c f (s ∷ rows) r same h =
    ground (arith, same s, ==→≡ s.id j, fetchone-id j c f rows r same)

module _ (codec : Codec) where
  -- A claim: of job j, or refused as a duplicate of a completed job.
  abbrev pub Claims : Uuid → Claim → World → Type 0
  Claims j (claimed job) w = job.id ≡ j
  Claims j (refused duplicate_completed) w = IsCompleted j w
  Claims j (refused _) w = Unit {0}

  refuse_claim-Ends :
      (j : Uuid) (status : JobStatus) (w : World)
      → status_of j w.db ≡ some status
      → Ends (λ c v. Claims j c v) (λ e v. Unit {0}) (refuse_claim codec status w)
  unfolding refuse_claim
  refuse_claim-Ends j JobStatus.completed w h = h
  refuse_claim-Ends j JobStatus.pending w h = tt
  refuse_claim-Ends j JobStatus.processing w h = tt
  refuse_claim-Ends j JobStatus.failed w h = tt

  get_job-Ends :
      (j : Uuid) (w : World)
      → Ends
          (λ view v. status_of j v.db ≡ some view.job.status)
          (λ e v. Unit {0})
          (get_job codec j w)
  unfolding get_job transaction Jobs.get_job
  get_job-Ends j w =
      let v : World = next codec w in
      Ends-call codec _ _
        (λ m w.
          commit codec (elim (Jobs.get_job j w.db) [ ok view ↦ ok (view, w.db) | err e ↦ err e ]) w)
        w (λ e. tt) (λ e. tt)
        (elim (Option-cases (find_job j v.db.jobs)) [
          | inl e ↦ rw e tt
          | inr (r, e) ↦ rw e (ap (Option.map (λ (r : JobRow). r.status)) e)
        ])

  answer_claim-Ends :
      (j : Uuid) (o : Option JobRow) (w : World)
      → ((r : JobRow) → o ≡ some r → r.id ≡ j)
      → Ends (λ c v. Claims j c v) (λ e v. Unit {0}) (answer_claim codec j o w)
  unfolding answer_claim
  answer_claim-Ends j (some job) w h = h job refl
  answer_claim-Ends j none w h =
      Ends-bind _ _ (get_job codec j) (λ view. refuse_claim codec view.job.status) w
        (Ends-map (λ view v. status_of j v.db ≡ some view.job.status) _ (λ e v. Unit {0}) _
          (get_job codec j w) (λ view v c. refuse_claim-Ends j view.job.status v c) (λ e v c. tt)
          (get_job-Ends j w))

  mark_job_processing-Ends :
      (j : Uuid) (lease : ℕ) (w : World)
      → Ends
          (λ o v. (r : JobRow) → o ≡ some r → r.id ≡ j)
          (λ e v. Unit {0})
          (mark_job_processing codec j lease w)
  unfolding mark_job_processing transaction Jobs.mark_job_processing
  mark_job_processing-Ends j lease w =
      let m : Moment = w.moments w.calls in
      Ends-call codec _ _
        (λ m w. commit codec (ok (Jobs.mark_job_processing m.now m.uuid j lease w.db)) w) w
        (λ e. tt) (λ e. tt)
        (λ r e.
          fetchone-id j (is_claimable m.now lease) (claimed_row m.now (m.uuid 0))
            (next codec w).db.jobs r (λ s. refl) e)

  pub claim_job-Claims :
      (j : Uuid) (lease : ℕ) (w : World)
      → Ends (λ c v. Claims j c v) (λ e v. Unit {0}) (claim_job codec j lease w)
  unfolding claim_job
  claim_job-Claims j lease w =
      Ends-bind _ _ (mark_job_processing codec j lease) (answer_claim codec j) w (
        Ends-map (λ o v. (r : JobRow) → o ≡ some r → r.id ≡ j) _ (λ e v. Unit {0}) _
          (mark_job_processing codec j lease w) (λ o v c. answer_claim-Ends j o v c) (λ e v c. tt)
          (mark_job_processing-Ends j lease w))
