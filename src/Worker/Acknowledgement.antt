-- ===== src/Worker/Acknowledgement.antt =====
-- When consume_one_message of application/worker/main.py deletes a message from the queue.

use production_cloud_reliabi.Prelude.{
  ℕ, ◌≡◌, refl, String, Bool, true, false, Option, none, some, List, [], ◌∷◌, ◌++◌, ◌⊎◌, inl, inr,
}
use production_cloud_reliabi.Errors.{Result, ok, err}
use production_cloud_reliabi.Codec.{Codec}
use production_cloud_reliabi.Database.{Uuid, JobStatus}
use production_cloud_reliabi.Repository.Consistency.{IsConsistent}
use production_cloud_reliabi.Repository.Transitions.{status_of}
use production_cloud_reliabi.World.{World, pure, next}
use production_cloud_reliabi.World.Rules.{Ends, Ends-bind, Ends-catch, Ends-map, Ends-call}
use production_cloud_reliabi.World.Keeps.{Ends-Keeps, Ends-both}
use production_cloud_reliabi.Adapters.{ArtifactStore, receive_job, parse_messages}
use production_cloud_reliabi.Worker.{claim_job}
use production_cloud_reliabi.Worker.Keeping.{claim_job-Keeps}
use production_cloud_reliabi.Worker.Invariants.{receive_or_none-Keeps}
use production_cloud_reliabi.Worker.Consume.{
  ConsumeOptions, handle_claim, handle_message, receive_or_none, consume_one_message,
}
use production_cloud_reliabi.Worker.Claims.{Claims, claim_job-Claims}
use production_cloud_reliabi.Worker.Completing.{Before, Before-IsStable}
use production_cloud_reliabi.Worker.Deletion.{Removed, Safe, Answers, handle_claim-Ends}

-- The message that the receiving call got, deleted for a completed job.
pub record Acknowledged (codec : Codec) (before after : World) : Type 0 where
  pub job_id : Uuid
  pub receipt_handle : String
  pub received :
      parse_messages codec (before.moments before.calls).messages
      ≡ ok (some (job_id, receipt_handle))
  pub deleted : after.deleted ≡ before.deleted ++ receipt_handle ∷ []
  pub completed : status_of job_id after.db ≡ some JobStatus.completed

abbrev pub Accounted : (codec : Codec) → Bool → World → World → Type 0
Accounted codec true before after = Acknowledged codec before after
Accounted codec false before after =
    (after.deleted ≡ before.deleted) ⊎ Acknowledged codec before after

module _ (codec : Codec) (w : World) where
  acknowledged :
      (j : Uuid) (h : String) (v : World)
      → parse_messages codec (w.moments w.calls).messages ≡ ok (some (j, h))
      → Removed codec w.deleted j h v
      → Acknowledged codec w v
  acknowledged j h v e r = record {
    job_id = j;
    receipt_handle = h;
    received = e;
    deleted = r.removed;
    completed = r.done;
  }

  Safe-Accounted :
      (j : Uuid) (h : String) (v : World)
      → parse_messages codec (w.moments w.calls).messages ≡ ok (some (j, h))
      → Safe codec w.deleted j h v
      → Accounted codec false w v
  Safe-Accounted j h v e (inl b) = inl b.undeleted
  Safe-Accounted j h v e (inr r) = inr (acknowledged j h v e r)

  Answers-Accounted :
      (j : Uuid) (h : String) (b : Bool) (v : World)
      → parse_messages codec (w.moments w.calls).messages ≡ ok (some (j, h))
      → Answers codec w.deleted j h b v
      → Accounted codec b w v
  Answers-Accounted j h true v e a = acknowledged j h v e a
  Answers-Accounted j h false v e a = Safe-Accounted j h v e a

  -- What receive_or_none returned.
  Receives : Option (Uuid × String) → Type 0
  Receives none = Unit {0}
  Receives (some m) = parse_messages codec (w.moments w.calls).messages ≡ ok (some m)

  receive_or_none-Ends : Ends (λ o v. Receives o) (λ e v. Unit {0}) (receive_or_none codec w)
  unfolding receive_or_none receive_job Receives
  receive_or_none-Ends =
      Ends-catch _ _ (receive_job codec) (λ e. pure none) w
        (Ends-call codec _ _ (λ m w. (parse_messages codec m.messages, w)) w (λ e. tt) (λ e. tt)
          (parsed (parse_messages codec (w.moments w.calls).messages) refl))
    where
      parsed :
          (r : Result (Option (Uuid × String)))
          → parse_messages codec (w.moments w.calls).messages ≡ r
          → Ends (λ o v. Receives o) (λ e v. Unit {0}) (r, next codec w)
      parsed (ok none) e = tt
      parsed (ok (some m)) e = e
      parsed (err x) e = tt

  handle_message-Ends :
      (store : ArtifactStore) (o : ConsumeOptions) (m : Option (Uuid × String)) (v : World)
      → Receives m
      → Before codec w.deleted v
      → Ends
          (λ b u. Accounted codec b w u)
          (λ e u. Accounted codec false w u)
          (handle_message codec store o m v)
  unfolding handle_message Receives
  handle_message-Ends store o none v r b = inl b.undeleted
  handle_message-Ends store o (some (j, h)) v r b =
      let lease : ℕ = o.processing_lease_seconds in
      let D : List String = w.deleted in
      Ends-bind _ _ (claim_job codec j lease) (handle_claim codec store o j h) v (
        Ends-map (λ c u. Claims codec j c u × Before codec D u) _
          (λ e u. Unit {0} × Before codec D u) _ (claim_job codec j lease v)
          (λ c u d.
            Ends-map (λ b u. Answers codec D j h b u) _ (λ e u. Safe codec D j h u) _
              (handle_claim codec store o j h c u) (λ b u a. Answers-Accounted j h b u r a)
              (λ e u s. Safe-Accounted j h u r s)
              (handle_claim-Ends codec D store o j h c u d.1 d.0))
          (λ e u d. inl d.1.undeleted)
          (Ends-both _ _ _ _ (claim_job codec j lease v) (claim_job-Claims codec j lease v) (
            Ends-Keeps (Before codec D) (claim_job codec j lease)
              (claim_job-Keeps codec (Before codec D) (Before-IsStable codec D) j lease) v b)))

  -- Started on consistent tables, consume_one_message deletes at most the one message that its
  -- receiving call got, and then the job that this message names is completed, whatever other
  -- processes and the heartbeat did meanwhile and whichever calls failed or lost their answers. If it
  -- returns True, it has deleted that message.
  pub consume_one_message-Accounted :
      (store : ArtifactStore) (o : ConsumeOptions)
      → IsConsistent w.db
      → Ends
          (λ b v. Accounted codec b w v)
          (λ e v. Accounted codec false w v)
          (consume_one_message codec store o w)
  unfolding consume_one_message
  consume_one_message-Accounted store o c =
      let b : Before codec w.deleted w = record { undeleted = refl; consistent = c } in
      Ends-bind _ _ (receive_or_none codec) (handle_message codec store o) w (
        Ends-map (λ m v. Receives m × Before codec w.deleted v) _
          (λ e v. Unit {0} × Before codec w.deleted v) _ (receive_or_none codec w)
          (λ m v d. handle_message-Ends store o m v d.0 d.1) (λ e v d. inl d.1.undeleted)
          (Ends-both _ _ _ _ (receive_or_none codec w) receive_or_none-Ends (
            Ends-Keeps (Before codec w.deleted) (receive_or_none codec)
              (receive_or_none-Keeps codec (Before codec w.deleted)
                (Before-IsStable codec w.deleted))
              w b)))
