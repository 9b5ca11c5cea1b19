-- ===== src/Platform/Undeleted.antt =====
-- A message whose job is completed and which cannot be deleted, in the earlier generation of the worker
-- (services/platform_app/worker/main.py).
use mathlib.Core.Option
use production_cloud_reliabi.Prelude.{
  ℕ, ◌≡◌, ◌+◌, refl, ◌∙◌, ap, String, str_eq, if◌then◌else◌, ◌++◌, false, none, some, [], ◌∷◌,
}
use production_cloud_reliabi.Errors.{Exc, Result, ok, err}
use production_cloud_reliabi.Codec.{Codec}
use production_cloud_reliabi.Database.{Uuid, Timestamp, JobStatus}
use production_cloud_reliabi.Platform.Tables.{PlatformJob, PlatformTables, find, broken}
use production_cloud_reliabi.Platform.Tables
use production_cloud_reliabi.Platform.World.{
  PlatformMessage, PlatformMoment, PlatformWorld, catch, commit, next, call, transaction,
  run_changes, ◌>>◌,
}
use production_cloud_reliabi.Platform.Queue.{nonempty, known_queue_url, queue_url, delete_message}
use production_cloud_reliabi.Platform.Worker.{
  mark_job_processing, complete_job, fail_job, job_result, process_claimed, process_job,
  handle_message,
}
use production_cloud_reliabi.Platform.Failing.{
  find-update, IsBroken, IsBroken-broken, complete_job-completed,
}
use production_cloud_reliabi.Platform.Duplicates.{tick, call-at, bind-ok, catch-err, tries}

-- A call that meets no fault, and before which nobody else acts.
abbrev pub IsQuietAt : ℕ → PlatformWorld → Type 0
IsQuietAt n w = ((w.moments n).fault ≡ none) × ((w.moments n).before ≡ [])

-- The calls for one message whose job is claimed and completed, and whose deletion fails.
pub record IsUndeleted (w : PlatformWorld) (i : Uuid) (job : PlatformJob) (db1 db2 : PlatformTables)
    (e : Exc) : Type 0 where
  pub url : String
  pub known : w.queue_url ≡ some url
  pub named : str_eq url "" ≡ false
  pub mark_quiet : IsQuietAt w.calls w
  pub marked : Tables.mark_job_processing (w.moments w.calls).now i w.db ≡ (some job, db1)
  pub complete_quiet : IsQuietAt (w.calls + 1) w
  pub completed :
      Tables.complete_job
        (w.moments (w.calls + 1)).now
        (w.moments (w.calls + 1)).uuid
        i
        (job_result job)
        db1
      ≡ ok (tt, db2)
  pub nobody : (w.moments (w.calls + 1 + 1)).before ≡ []
  pub fault : (w.moments (w.calls + 1 + 1)).fault ≡ some e
  pub no_effect : (w.moments (w.calls + 1 + 1)).took_effect ≡ false
  pub fail_quiet : IsQuietAt (w.calls + 1 + 1 + 1) w

module _ (w : PlatformWorld) (i : Uuid) (job : PlatformJob) (db1 db2 : PlatformTables) (x : Exc)
    (run : IsUndeleted w i job db1 db2 x) where
  abbrev w1 : PlatformWorld
  w1 = record (tick w) { db = db1 }

  abbrev w2 : PlatformWorld
  w2 = record (tick w1) { db = db2 }

  marks : mark_job_processing i w ≡ (ok (some job), w1)
  unfolding mark_job_processing transaction
  marks =
      call-at (λ m w. commit (ok (Tables.mark_job_processing m.now i w.db)) w) w run.mark_quiet.0
        run.mark_quiet.1
      ∙ ap (λ o. commit (ok o) (tick w)) run.marked

  completes : complete_job i (job_result job) w1 ≡ (ok tt, w2)
  unfolding complete_job transaction
  completes =
      call-at (λ m w. commit (Tables.complete_job m.now m.uuid i (job_result job) w.db) w) w1
        run.complete_quiet.0 run.complete_quiet.1
      ∙ ap (λ o. commit o (tick w1)) run.completed

  processes : process_job i w ≡ (ok tt, w2)
  unfolding process_job process_claimed
  processes = bind-ok (mark_job_processing i) (process_claimed i) w w1 (some job) marks ∙ completes

  knows : queue_url w2 ≡ (ok run.url, w2)
  unfolding queue_url
  knows =
      ap (λ o. known_queue_url (nonempty o) w2) run.known
      ∙ ap (λ b. known_queue_url (if b then none else some run.url) w2) run.named

  abbrev deletes : String → PlatformMoment → PlatformWorld → Result (Unit {0}) × PlatformWorld
  deletes h m w = (ok tt, record w { deleted = w.deleted ++ h ∷ [] })

  unanswered : (h : String) → call (deletes h) w2 ≡ (err x, tick w2)
  unfolding call next run_changes
  unanswered h = rw (run.fault, run.no_effect, run.nobody) refl

  keeps : (h : String) → delete_message h w2 ≡ (err x, tick w2)
  unfolding delete_message
  keeps h = bind-ok queue_url (λ url. call (deletes h)) w2 w2 run.url knows ∙ unanswered h

  fails :
      (error : String)
      → fail_job i error (tick w2) ≡ (
        ok tt,
        record (tick (tick w2)) {
          db = Tables.fail_job (w.moments (w.calls + 1 + 1 + 1)).now i error db2;
        },
      )
  unfolding fail_job transaction call next run_changes
  fails error = rw (run.fail_quiet.0, run.fail_quiet.1) refl

  ends :
      (h : String) (str_exc : Exc → String)
      → catch (process_job i >> delete_message h) (λ e. fail_job i (str_exc e)) w ≡ (
        ok tt,
        record (tick (tick w2)) {
          db = Tables.fail_job (w.moments (w.calls + 1 + 1 + 1)).now i (str_exc x) db2;
        },
      )
  ends h str_exc =
      catch-err (process_job i >> delete_message h) (λ e. fail_job i (str_exc e)) w (tick w2) x
        (bind-ok (process_job i) (λ _. delete_message h) w w2 tt processes ∙ keeps h)
      ∙ fails (str_exc x)

-- Where the job of a message is claimed and completed, and the deletion of the message then fails
-- without effect, with nobody else coming between the calls, the completed job is set to failed with
-- the error of the deletion, cut to 1000 characters, as its last error; the results are those of the
-- completion, and the message stays in the queue.
pub handle_message-undeleted :
    (codec : Codec) (str_exc : Exc → String) (message : PlatformMessage) (w : PlatformWorld)
    (i : Uuid) (job : PlatformJob) (db1 db2 : PlatformTables) (x : Exc)
    → codec.parse_uuid message.body ≡ some i
    → IsUndeleted w i job db1 db2 x
    → let v = (handle_message codec str_exc message w).1 in
      ((r r' : PlatformJob) × (find i db2.jobs ≡ some r)
        × (r.status ≡ JobStatus.completed)
        × IsBroken (str_exc x) r r'
        × (find i v.db.jobs ≡ some r'))
      × (v.db.job_results ≡ db2.job_results)
      × (v.deleted ≡ w.deleted)
unfolding handle_message Tables.fail_job
handle_message-undeleted codec str_exc message w i job db1 db2 x e run =
    let entered : PlatformWorld = record w { correlation_id = message.correlation_id } in
    let later : Timestamp = (w.moments (w.calls + 1 + 1 + 1)).now in
    let m : PlatformMoment = w.moments (w.calls + 1) in
    let (r, found, done) =
      complete_job-completed m.now m.uuid i (job_result job) db1 db2 run.completed in
    let same : IsUndeleted entered i job db1 db2 x = record {
      url = run.url;
      known = run.known;
      named = run.named;
      mark_quiet = run.mark_quiet;
      marked = run.marked;
      complete_quiet = run.complete_quiet;
      completed = run.completed;
      nobody = run.nobody;
      fault = run.fault;
      no_effect = run.no_effect;
      fail_quiet = run.fail_quiet;
    } in
    let result =
      tries codec str_exc message entered i e
      ∙ ends entered i job db1 db2 x same message.receipt_handle str_exc in
    (
      (
        r,
        broken later (str_exc x) r,
        found,
        done,
        IsBroken-broken later (str_exc x) r,
        ap (λ (p : Result (Unit {0}) × PlatformWorld). find i p.1.db.jobs) result
            ∙ find-update i (broken later (str_exc x)) db2.jobs (λ s. refl)
            ∙ ap (Option.map (broken later (str_exc x))) found,
      ),
      ap (λ (p : Result (Unit {0}) × PlatformWorld). p.1.db.job_results) result,
      ap (λ (p : Result (Unit {0}) × PlatformWorld). p.1.deleted) result,
    )
