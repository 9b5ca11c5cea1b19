-- ===== src/Worker/Success.antt =====
-- The whole of consume_one_message of application/worker/main.py on a claimable job, when nothing goes
-- wrong.
use mathlib.Core.Path.{subst}
use production_cloud_reliabi.Prelude.{
  ◌≡◌, ◌+◌, refl, sym, ◌∙◌, ap, String, Bool, true, false, Option, some, [], ◌∷◌, ◌++◌, arith,
}
use production_cloud_reliabi.Errors.{Result, ok, err}
use production_cloud_reliabi.Codec.{Codec}
use production_cloud_reliabi.Database.{Uuid, JobStatus, JobRow, find_job}
use production_cloud_reliabi.Repository.Jobs.{is_claimable}
use production_cloud_reliabi.Repository.Consistency.{IsConsistent}
use production_cloud_reliabi.Repository.Completion.{FreshIds}
use production_cloud_reliabi.Repository.Transitions.{status_of}
use production_cloud_reliabi.World.{World}
use production_cloud_reliabi.World.Rules.{Ends}
use production_cloud_reliabi.Adapters.{ArtifactStore, parse_messages}
use production_cloud_reliabi.Worker.Consume.{ConsumeOptions, consume_one_message}
use production_cloud_reliabi.Worker.Acknowledgement.{
  Accounted, Acknowledged, consume_one_message-Accounted,
}
use production_cloud_reliabi.Worker.Quiet.{IsQuiet}
use production_cloud_reliabi.Worker.Progress.{returns_true}

-- The message of an answer, if it has one.
message_or : Uuid × String → Result (Option (Uuid × String)) → Uuid × String
message_or m (ok (some n)) = n
message_or m _ = m

module _ (codec : Codec) (store : ArtifactStore) (o : ConsumeOptions) (w : World) where
  -- A processed message: consume_one_message returned True, message h is deleted, and job j completed.
  abbrev pub IsProcessed : Uuid → String → Type 0
  IsProcessed j h =
      (v : World) × (consume_one_message codec store o w ≡ (ok true, v))
      × (v.deleted ≡ w.deleted ++ h ∷ [])
      × (status_of j v.db ≡ some JobStatus.completed)

  Acknowledged-IsProcessed :
      (j : Uuid) (h : String) (v : World)
      → parse_messages codec (w.moments w.calls).messages ≡ ok (some (j, h))
      → consume_one_message codec store o w ≡ (ok true, v)
      → Acknowledged codec w v
      → IsProcessed j h
  unfolding message_or
  Acknowledged-IsProcessed j h v received ran a =
      let same : (a.job_id, a.receipt_handle) ≡ (j, h) =
        ap (message_or (j, h)) (sym a.received ∙ received) in
      (
        v,
        ran,
        a.deleted ∙ ap (λ (m : Uuid × String). w.deleted ++ m.1 ∷ []) same,
        ap (λ (m : Uuid × String). status_of m.0 v.db) (sym same) ∙ a.completed,
      )

  settled :
      (j : Uuid) (h : String) (p : Result Bool × World)
      → parse_messages codec (w.moments w.calls).messages ≡ ok (some (j, h))
      → consume_one_message codec store o w ≡ p
      → Ends (λ b u. b ≡ true) (λ e u. ⊥) p
      → Ends (λ b u. Accounted codec b w u) (λ e u. Accounted codec false w u) p
      → IsProcessed j h
  settled j h (ok b, v) received ran e a =
      Acknowledged-IsProcessed j h v received (ran ∙ ap (λ b. (ok b, v)) e)
        (subst (λ b. Accounted codec b w v) e a)
  settled j h (err x, v) received ran e a = absurd e

  -- On consistent tables, when no call fails and no other process comes between the calls, a message of
  -- a job that can be claimed is processed: consume_one_message returns True, deletes exactly that
  -- message and leaves the job completed. The identifiers drawn by the completion must not be in use.
  pub consume_one_message-IsProcessed :
      (j : Uuid) (h : String) (r : JobRow)
      → IsQuiet w
      → parse_messages codec (w.moments w.calls).messages ≡ ok (some (j, h))
      → IsConsistent w.db
      → find_job j w.db.jobs ≡ some r
      → is_claimable (w.moments (w.calls + 1)).now o.processing_lease_seconds r ≡ true
      → FreshIds (w.moments (w.calls + 3)).uuid w.db
      → IsProcessed j h
  consume_one_message-IsProcessed j h r quiet received consistent found claimable fresh =
      let none_before : w.calls + 0 ≡ w.calls = omega arith in
      settled j h (consume_one_message codec store o w) received refl
        (returns_true codec w quiet store o j h r
          (ap (λ n. parse_messages codec (w.moments n).messages) none_before ∙ received) consistent
          found claimable fresh)
        (consume_one_message-Accounted codec w store o consistent)
