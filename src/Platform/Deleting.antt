-- ===== src/Platform/Deleting.antt =====
-- When the earlier generation of the worker (services/platform_app/worker/main.py) deletes a message.
use production_cloud_reliabi.Prelude.{
  ◌≡◌, ap, String, true, Option, none, some, List, [], ◌∷◌, ◌++◌, ◌⊎◌, inl, inr,
}
use production_cloud_reliabi.Errors.{Exc, ok}
use production_cloud_reliabi.Database.{Uuid}
use production_cloud_reliabi.Platform.Tables
use production_cloud_reliabi.Platform.Tables.{PlatformJob, PlatformTables}
use production_cloud_reliabi.Platform.World.{
  PlatformMoment, PlatformWorld, Change, catch, next, call, transaction, commit, run_change, ◌>>◌,
}
use production_cloud_reliabi.Platform.Rules.{Ends, Ends-bind, Ends-catch, Ends-map, Ends-call}
use production_cloud_reliabi.Platform.Queue.{
  create_queue, known_queue_url, nonempty, queue_url, delete_message,
}
use production_cloud_reliabi.Platform.Worker.{fail_job, process_job}
use production_cloud_reliabi.Platform.Stored.{has_result, has_result-Kept, IsStored-Kept}
use production_cloud_reliabi.Platform.Processing.{
  Before, After, Recorded, next-Kept, next-Before, next-After, process-Ends,
}

module _ (D : List String) (i : Uuid) (h : String) where
  -- Nothing deleted, or the message of a job with a result.
  unfoldable pub Safe : PlatformWorld → Type 0
  Safe v = Before D v ⊎ After D i h v

  next-Safe : (v : PlatformWorld) → Safe v → Safe (next v)
  unfolding Safe
  next-Safe v (inl b) = inl (next-Before D v b)
  next-Safe v (inr a) = inr (next-After D i h v a)

  next-Recorded : (v : PlatformWorld) → Recorded D i v → Recorded D i (next v)
  next-Recorded v (b, r) = (
    next-Before D v b,
    next-Kept (λ db. has_result i db.job_results ≡ true) v (has_result-Kept i) r,
  )

  created-Ends :
      (w : PlatformWorld) → Recorded D i w → Ends (λ u v. Recorded D i v) Safe (create_queue w)
  unfolding create_queue Safe
  created-Ends w r =
      let (n, kept) = next-Recorded w r in
      Ends-bind (λ u v. Recorded D i v) Safe (call (λ m w. (ok m.created_queue_url, w)))
        (λ url w. (ok url, record w { queue_url = some url })) w
        (Ends-call _ Safe (λ m w. (ok m.created_queue_url, w)) w (inl n)
          ((record { unchanged = n.unchanged; stored = n.stored }, kept), inl n))

  removed-Ends :
      (w : PlatformWorld)
      → Recorded D i w
      → Ends
          (λ u v. Safe v)
          Safe
          (call (λ m w. (ok (tt {0}), record w { deleted = w.deleted ++ h ∷ [] })) w)
  unfolding Safe
  removed-Ends w r =
      let (n, kept) = next-Recorded w r in
      let after : After D i h (record (next w) { deleted = (next w).deleted ++ h ∷ [] }) = record {
        removed = ap (λ (d : List String). d ++ h ∷ []) n.unchanged;
        result = kept;
        stored = n.stored;
      } in
      Ends-call (λ u v. Safe v) Safe (λ m w. (ok tt, record w { deleted = w.deleted ++ h ∷ [] })) w
        (inl n) (inr after, inr after)

  url-Ends : (w : PlatformWorld) → Recorded D i w → Ends (λ u v. Recorded D i v) Safe (queue_url w)
  unfolding queue_url Safe
  url-Ends w r = known (nonempty w.queue_url)
    where
      known : (url : Option String) → Ends (λ u v. Recorded D i v) Safe (known_queue_url url w)
      known (some url) = r
      known none = created-Ends w r

  delete-Ends :
      (w : PlatformWorld) → Recorded D i w → Ends (λ u v. Safe v) Safe (delete_message h w)
  unfolding delete_message Safe
  delete-Ends w r =
      Ends-bind (λ u v. Safe v) Safe queue_url
        (λ url. call (λ m w. (ok tt, record w { deleted = w.deleted ++ h ∷ [] }))) w
        (Ends-map (λ u v. Recorded D i v) _ Safe Safe (queue_url w) (λ url v q. removed-Ends v q)
          (λ v s. s) (url-Ends w r))

  fail-Safe :
      (m : PlatformMoment) (error : String) (v : PlatformWorld)
      → Safe v
      → Safe (record v { db = Tables.fail_job m.now i error v.db })
  unfolding Safe run_change
  fail-Safe m error v (inl b) = inl (record {
    unchanged = b.unchanged;
    stored = IsStored-Kept m.now m.uuid (Change.fail_job i error) v.db b.stored;
  })
  fail-Safe m error v (inr a) = inr (record {
    removed = a.removed;
    result = has_result-Kept i m.now m.uuid (Change.fail_job i error) v.db a.result;
    stored = IsStored-Kept m.now m.uuid (Change.fail_job i error) v.db a.stored;
  })

  fail-Ends :
      (error : String) (w : PlatformWorld) → Safe w → Ends (λ u v. Safe v) Safe (fail_job i error w)
  unfolding fail_job transaction
  fail-Ends error w s =
      let n = next-Safe w s in
      let after = fail-Safe (w.moments w.calls) error (next w) n in
      Ends-call (λ u v. Safe v) Safe (λ m w. commit (ok (tt, Tables.fail_job m.now i error w.db)) w)
        w n (after, after)

  processed-Ends :
      (w : PlatformWorld)
      → Before D w
      → Ends (λ u v. Safe v) Safe ((process_job i >> delete_message h) w)
  unfolding Safe
  processed-Ends w b =
      Ends-bind (λ u v. Safe v) Safe (process_job i) (λ _. delete_message h) w
        (Ends-map (λ u v. Recorded D i v) _ (Before D) Safe (process_job i w)
          (λ u v r. delete-Ends v r) (λ v b. inl b) (process-Ends D i w b))

  -- What became of the message after its job's id was read.
  pub handled-Ends :
      (str_exc : Exc → String) (w : PlatformWorld)
      → Before D w
      → Ends
          (λ u v. Safe v)
          Safe
          (catch (process_job i >> delete_message h) (λ e. fail_job i (str_exc e)) w)
  handled-Ends str_exc w b =
      Ends-catch (λ u v. Safe v) Safe (process_job i >> delete_message h)
        (λ e. fail_job i (str_exc e)) w
        (Ends-map (λ u v. Safe v) (λ u v. Safe v) Safe _ ((process_job i >> delete_message h) w)
          (λ u v s. s) (λ v s e. fail-Ends (str_exc e) v s) (processed-Ends w b))
