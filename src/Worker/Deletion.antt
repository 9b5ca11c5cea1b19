-- ===== src/Worker/Deletion.antt =====
-- What consume_one_message of application/worker/main.py has deleted after each of its steps.
use mathlib.Core.Path.{subst}
use production_cloud_reliabi.Prelude.{
  ◌≡◌, refl, ◌∙◌, ap, String, Bool, true, false, List, [], ◌∷◌, ◌++◌, ◌⊎◌, inl, inr,
}
use production_cloud_reliabi.Errors.{Exc, Result, ok, err, type_name}
use production_cloud_reliabi.Codec.{Codec}
use production_cloud_reliabi.Database.{Uuid, JobRow}
use production_cloud_reliabi.Repository.Transitions.{run_action-completed}
use production_cloud_reliabi.World.{World, VisibilityHeartbeat, pure, next, ◌>>◌}
use production_cloud_reliabi.World.Rules.{
  Ends, Ends-bind, Ends-catch, Ends-map, Ends-call, IsCompleted, next-deleted, next-IsCompleted,
}
use production_cloud_reliabi.World.Keeps.{IsStable, Ends-Keeps, Ends-both}
use production_cloud_reliabi.Adapters.{ArtifactStore, delete}
use production_cloud_reliabi.Worker.{
  Claim, claimed, refused, completed, duplicate_completed, in_progress_not_owned,
  complete_claimed_job, token_of, fail_job,
}
use production_cloud_reliabi.Worker.Invariants.{give_up-Keeps}
use production_cloud_reliabi.Worker.Consume.{
  ConsumeOptions, heartbeat_of, with_heartbeat, give_up, complete_and_delete, handle_claim,
}
use production_cloud_reliabi.Worker.Claims.{Claims}
use production_cloud_reliabi.Worker.Completing.{Before, Before-IsStable, beating-Ends}

module _ (codec : Codec) (D : List String) where
  -- The message h of job j was deleted, and the job is completed.
  pub record Removed (j : Uuid) (h : String) (w : World) : Type 0 where
    pub removed : w.deleted ≡ D ++ h ∷ []
    pub done : IsCompleted j w

  Removed-IsStable : (j : Uuid) (h : String) → IsStable codec (Removed j h)
  Removed-IsStable j h = record {
    at_next = λ w b. record {
      removed = next-deleted codec w ∙ b.removed;
      done = next-IsCompleted codec j w b.done;
    };
    at_action = λ now uuid a w b. record {
      removed = b.removed;
      done = run_action-completed codec now uuid a w.db j b.done;
    };
    at_inc = λ m w b. record { removed = b.removed; done = b.done };
    at_heartbeat = λ h w b. record { removed = b.removed; done = b.done };
    at_report = λ r w b. record { removed = b.removed; done = b.done };
    at_send = λ r w b. record { removed = b.removed; done = b.done };
    at_publish = λ r w b. record { removed = b.removed; done = b.done };
  }

  abbrev pub Safe : (j : Uuid) (h : String) (w : World) → Type 0
  Safe j h w = Before codec D w ⊎ Removed j h w

  give_up-Ends :
      (j : Uuid) (h : String) (i : Uuid) (job : JobRow) (e : Exc) (w : World)
      → Safe j h w
      → Ends (λ b v. Safe j h v) (λ e v. Safe j h v) (give_up codec i job e w)
  give_up-Ends j h i job e w (inl b) =
      Ends-map (λ _ v. Before codec D v) _ (λ e v. Before codec D v) _ (give_up codec i job e w)
        (λ a v c. inl c) (λ e v c. inl c)
        (Ends-Keeps (Before codec D) (give_up codec i job e)
          (give_up-Keeps codec (Before codec D) (Before-IsStable codec D) i job e) w b)
  give_up-Ends j h i job e w (inr b) =
      Ends-map (λ _ v. Removed j h v) _ (λ e v. Removed j h v) _ (give_up codec i job e w)
        (λ a v c. inr c) (λ e v c. inr c)
        (Ends-Keeps (Removed j h) (give_up codec i job e)
          (give_up-Keeps codec (Removed j h) (Removed-IsStable j h) i job e) w b)

  give_up-false :
      (i : Uuid) (job : JobRow) (e : Exc) (w : World)
      → Ends (λ b v. b ≡ false) (λ e v. Unit {0}) (give_up codec i job e w)
  unfolding give_up
  give_up-false i job Exc.lost_job_claim w = refl
  give_up-false i job e w =
      Ends-bind _ _ (fail_job codec i (token_of job) (type_name e)) (λ _. pure false) w
        (returns (fail_job codec i (token_of job) (type_name e) w))
    where
      returns : (o : Result Bool × World) → Ends (λ a v. false ≡ false) (λ e v. Unit {0}) o
      returns (ok a, v) = refl
      returns (err e, v) = tt

  -- Deleting the message of a completed job.
  delete-Ends :
      (j : Uuid) (h : String) (w : World)
      → Before codec D w
      → IsCompleted j w
      → Ends (λ _ v. Removed j h v) (λ e v. Safe j h v) (delete codec h w)
  unfolding delete
  delete-Ends j h w b c =
      let v : World = next codec w in
      let n : Before codec D v = (Before-IsStable codec D).at_next w b in
      let r : Removed j h (record v { deleted = v.deleted ++ h ∷ [] }) = record {
        removed = ap (λ (l : List String). l ++ h ∷ []) n.undeleted;
        done = next-IsCompleted codec j w c;
      } in
      Ends-call codec _ _ (λ m w. (ok tt, record w { deleted = w.deleted ++ h ∷ [] })) w
        (λ e. inl n) (λ e. inr r) r

  -- What a method that answers a Bool leaves: true says that the message was deleted.
  abbrev pub Answers : Uuid → String → Bool → World → Type 0
  Answers j h true v = Removed j h v
  Answers j h false v = Safe j h v

  complete_and_delete-Ends :
      (store : ArtifactStore) (o : ConsumeOptions) (j : Uuid) (h : String) (job : JobRow)
      (w : World)
      → job.id ≡ j
      → Before codec D w
      → Ends
          (λ b v. Answers j h b v)
          (λ e v. Safe j h v)
          (complete_and_delete codec store o j h job w)
  unfolding complete_and_delete
  complete_and_delete-Ends store o j h job w same b =
      let hb : VisibilityHeartbeat = heartbeat_of o job j h in
      Ends-bind _ _ (with_heartbeat hb (complete_claimed_job codec store job))
        (λ _. do delete codec h; pure true) w
        (Ends-map (λ _ v. Before codec D v × IsCompleted job.id v) _ (λ e v. Before codec D v) _
          (with_heartbeat hb (complete_claimed_job codec store job) w)
          (λ _ v c.
            Ends-bind _ _ (delete codec h) (λ _. pure true) v
              (Ends-map (λ _ u. Removed j h u) _ (λ e u. Safe j h u) _ (delete codec h v)
                (λ _ u d. d) (λ e u d. d)
                (delete-Ends j h v c.0 (subst (λ i. IsCompleted i v) same c.1))))
          (λ e v c. inl c) (beating-Ends codec D store hb job w b))

  pub handle_claim-Ends :
      (store : ArtifactStore) (o : ConsumeOptions) (j : Uuid) (h : String) (c : Claim) (w : World)
      → Before codec D w
      → Claims codec j c w
      → Ends (λ b v. Answers j h b v) (λ e v. Safe j h v) (handle_claim codec store o j h c w)
  unfolding handle_claim
  handle_claim-Ends store o j h (refused duplicate_completed) w b c =
      Ends-bind _ _ (delete codec h) (λ _. pure true) w
        (Ends-map (λ _ u. Removed j h u) _ (λ e u. Safe j h u) _ (delete codec h w) (λ _ u d. d)
          (λ e u d. d) (delete-Ends j h w b c))
  handle_claim-Ends store o j h (refused in_progress_not_owned) w b c = inl b
  handle_claim-Ends store o j h (refused completed) w b c = inl b
  handle_claim-Ends store o j h (claimed job) w b c =
      Ends-catch _ _ (complete_and_delete codec store o j h job) (give_up codec j job) w (
        Ends-map (λ b v. Answers j h b v) _ (λ e v. Safe j h v) _
          (complete_and_delete codec store o j h job w) (λ b v d. d)
          (λ e v d.
            Ends-map (λ b v. (b ≡ false) × Safe j h v) _ (λ e v. Unit {0} × Safe j h v) _
              (give_up codec j job e v) (λ b u d. refuses b u d.0 d.1) (λ e u d. d.1)
              (Ends-both _ _ _ _ (give_up codec j job e v) (give_up-false j job e v)
                (give_up-Ends j h j job e v d)))
          (complete_and_delete-Ends store o j h job w c b))
    where
      refuses : (b : Bool) (v : World) → b ≡ false → Safe j h v → Answers j h b v
      refuses b v e d = rw e d
