-- ===== src/Platform/Duplicates.antt =====
-- A second delivery of a message whose job another worker is processing, in the earlier generation of
-- the worker (services/platform_app/worker/main.py).
use mathlib.Core.Option
use production_cloud_reliabi.Prelude.{
  ℕ, ◌≡◌, ◌+◌, ◌≤◌, refl, ◌∙◌, ap, String, Bool, false, none, some, List, [], ◌∷◌, ◌&&◌, count_if,
  arith,
}
use production_cloud_reliabi.Errors.{Exc, Result, ok, err}
use production_cloud_reliabi.Codec.{Codec}
use production_cloud_reliabi.Database.{
  Uuid, Timestamp, JobStatus, update_where, returning, fetchone, find_result,
}
use production_cloud_reliabi.Platform.Tables.{
  PlatformJob, PlatformTables, has_id, find, may_start, started, broken,
}
use production_cloud_reliabi.Platform.Tables
use production_cloud_reliabi.Platform.World.{
  PlatformMessage, PlatformMoment, PlatformWorld, Exec, catch, commit, next, call, transaction,
  run_changes, ◌>>=◌, ◌>>◌,
}
use production_cloud_reliabi.Platform.Queue.{delete_message}
use production_cloud_reliabi.Platform.Worker.{
  read, check_duplicate, mark_job_processing, get_job, fail_job, process_claimed, process_job,
  try_message, handle_message,
}
use production_cloud_reliabi.Platform.Failing.{find-update, IsBroken, IsBroken-broken}

abbrev selects : Uuid → PlatformJob → Bool
selects i r = has_id i r && may_start r.status

-- No row passes where the only row of the job may not be started.
unmatched :
    (i : Uuid) (now : Timestamp) (rows : List PlatformJob)
    → count_if (selects i) rows ≡ 0
    → (fetchone (returning (selects i) (started now) rows) ≡ none)
      × (update_where (selects i) (started now) rows ≡ rows)
unmatched i now [] h = (refl, refl)
unmatched i now (r ∷ rows) h = ground (arith, unmatched i now rows)

absent_count :
    (i : Uuid) (rows : List PlatformJob)
    → count_if (has_id i) rows ≡ 0
    → count_if (selects i) rows ≡ 0
absent_count i [] h = refl
absent_count i (r ∷ rows) h = ground (arith, absent_count i rows)

busy_count :
    (i : Uuid) (rows : List PlatformJob) (r : PlatformJob)
    → count_if (has_id i) rows ≤ 1
    → find i rows ≡ some r
    → may_start r.status ≡ false
    → count_if (selects i) rows ≡ 0
busy_count i [] r u e h = refl
busy_count i (s ∷ rows) r u e h = ground (arith, busy_count i rows r, absent_count i rows)

-- No call meets a fault, and nobody else acts.
abbrev pub IsQuiet : PlatformWorld → Type 0
IsQuiet w = (n : ℕ) → ((w.moments n).fault ≡ none) × ((w.moments n).before ≡ [])

abbrev pub tick : PlatformWorld → PlatformWorld
tick w = record w { calls = w.calls + 1 }

-- A call that meets no fault, and before which nobody else acts.
pub call-at :
    {A : Type 0} (f : PlatformMoment → PlatformWorld → Result A × PlatformWorld) (w : PlatformWorld)
    → (w.moments w.calls).fault ≡ none
    → (w.moments w.calls).before ≡ []
    → call f w ≡ f (w.moments w.calls) (tick w)
unfolding call next run_changes
call-at f w fault before = rw (fault, before) refl

call-quiet :
    {A : Type 0} (f : PlatformMoment → PlatformWorld → Result A × PlatformWorld) (w : PlatformWorld)
    → IsQuiet w
    → call f w ≡ f (w.moments w.calls) (tick w)
call-quiet f w q = call-at f w (q w.calls).0 (q w.calls).1

pub bind-ok :
    {A B : Type 0} (m : Exec A) (f : A → Exec B) (w v : PlatformWorld) (a : A)
    → m w ≡ (ok a, v)
    → (m >>= f) w ≡ f a v
bind-ok {A} m f w v a e =
    ap (λ (p : Result A × PlatformWorld). elim p.0 [ ok a ↦ f a p.1 | err e ↦ (err e, p.1) ]) e

pub bind-err :
    {A B : Type 0} (m : Exec A) (f : A → Exec B) (w v : PlatformWorld) (x : Exc)
    → m w ≡ (err x, v)
    → (m >>= f) w ≡ (err x, v)
bind-err {A} m f w v x e =
    ap (λ (p : Result A × PlatformWorld). elim p.0 [ ok a ↦ f a p.1 | err e ↦ (err e, p.1) ]) e

pub catch-err :
    {A : Type 0} (m : Exec A) (f : Exc → Exec A) (w v : PlatformWorld) (x : Exc)
    → m w ≡ (err x, v)
    → catch m f w ≡ f x v
catch-err {A} m f w v x e =
    ap (λ (p : Result A × PlatformWorld). elim p.0 [ ok a ↦ (ok a, p.1) | err e ↦ f e p.1 ]) e

module _ (w : PlatformWorld) (quiet : IsQuiet w) (i : Uuid) (r : PlatformJob)
    (unique : count_if (has_id i) w.db.jobs ≤ 1) (found : find i w.db.jobs ≡ some r)
    (busy : r.status ≡ JobStatus.processing) where
  marks : mark_job_processing i w ≡ (ok none, tick w)
  unfolding mark_job_processing transaction Tables.mark_job_processing
  marks =
      let still =
        unmatched i (w.moments w.calls).now w.db.jobs
          (busy_count i w.db.jobs r unique found (rw busy refl)) in
      let marked : PlatformWorld = record (tick w) {
        db = record w.db {
          jobs = update_where (selects i) (started (w.moments w.calls).now) w.db.jobs;
        };
      } in
      call-quiet (λ m w. commit (ok (Tables.mark_job_processing m.now i w.db)) w) w quiet
      ∙ ap (λ o. (ok o, marked)) still.0
      ∙ ap
          (λ (rows : List PlatformJob).
            (ok none, record (tick w) { db = record w.db { jobs = rows } }))
          still.1

  shown : Tables.get_job i w.db ≡ ok (r, find_result i w.db.job_results)
  unfolding Tables.get_job
  shown = rw (found, Tables.get_job) refl

  shows : get_job i (tick w) ≡ (ok (r, find_result i w.db.job_results), tick (tick w))
  unfolding get_job transaction
  shows =
      call-quiet (λ m w. commit (read w.db (Tables.get_job i w.db)) w) (tick w) quiet
      ∙ ap (λ a. commit (read w.db a) (tick (tick w))) shown

  refuses : process_job i w ≡ (err (Exc.external "RuntimeError"), tick (tick w))
  unfolding process_job process_claimed
  refuses =
      bind-ok (mark_job_processing i) (process_claimed i) w (tick w) none marks
      ∙ bind-ok (get_job i) (λ x. check_duplicate x.0.status) (tick w) (tick (tick w))
          (r, find_result i w.db.job_results) shows
      ∙ ap (λ s. check_duplicate s (tick (tick w))) busy

  fails :
      (error : String)
      → fail_job i error (tick (tick w)) ≡ (
        ok tt,
        record (tick (tick (tick w))) {
          db = Tables.fail_job (w.moments (w.calls + 1 + 1)).now i error w.db;
        },
      )
  unfolding fail_job transaction call next run_changes
  fails error = rw ((quiet (w.calls + 1 + 1)).0, (quiet (w.calls + 1 + 1)).1) refl

  ends :
      (h : String) (str_exc : Exc → String)
      → catch (process_job i >> delete_message h) (λ e. fail_job i (str_exc e)) w ≡ (
        ok tt,
        record (tick (tick (tick w))) {
          db =
              Tables.fail_job
                (w.moments (w.calls + 1 + 1)).now
                i
                (str_exc (Exc.external "RuntimeError"))
                w.db;
        },
      )
  ends h str_exc =
      let refused : Exc = Exc.external "RuntimeError" in
      catch-err (process_job i >> delete_message h) (λ e. fail_job i (str_exc e)) w (tick (tick w))
        refused (bind-err (process_job i) (λ _. delete_message h) w (tick (tick w)) refused refuses)
      ∙ fails (str_exc refused)

pub tries :
    (codec : Codec) (str_exc : Exc → String) (message : PlatformMessage) (w : PlatformWorld)
    (i : Uuid)
    → codec.parse_uuid message.body ≡ some i
    → try_message codec str_exc message w
      ≡ catch
          (process_job i >> delete_message message.receipt_handle)
          (λ e. fail_job i (str_exc e))
          w
unfolding try_message
tries codec str_exc message w i e = rw (e, try_message) refl

-- While a job, the only one with its id, is processing, another delivery of its message, with no call
-- failing and nobody else coming between the calls, leaves the message in the queue and sets the job
-- to failed, with the text of the RuntimeError, cut to 1000 characters, as its last error; its
-- attempts are as before.
pub handle_message-duplicate :
    (codec : Codec) (str_exc : Exc → String) (message : PlatformMessage) (w : PlatformWorld)
    (i : Uuid) (r : PlatformJob)
    → IsQuiet w
    → count_if (has_id i) w.db.jobs ≤ 1
    → find i w.db.jobs ≡ some r
    → r.status ≡ JobStatus.processing
    → codec.parse_uuid message.body ≡ some i
    → let v = (handle_message codec str_exc message w).1 in
      ((r' : PlatformJob) × IsBroken (str_exc (Exc.external "RuntimeError")) r r'
        × (find i v.db.jobs ≡ some r'))
      × (v.deleted ≡ w.deleted)
unfolding handle_message Tables.fail_job
handle_message-duplicate codec str_exc message w i r quiet unique found busy e =
    let entered : PlatformWorld = record w { correlation_id = message.correlation_id } in
    let now : Timestamp = (w.moments (w.calls + 1 + 1)).now in
    let error : String = str_exc (Exc.external "RuntimeError") in
    let done =
      tries codec str_exc message entered i e
      ∙ ends entered quiet i r unique found busy message.receipt_handle str_exc in
    (
      (
        broken now error r,
        IsBroken-broken now error r,
        ap (λ (p : Result (Unit {0}) × PlatformWorld). find i p.1.db.jobs) done
            ∙ find-update i (broken now error) w.db.jobs (λ s. refl)
            ∙ ap (Option.map (broken now error)) found,
      ),
      ap (λ (p : Result (Unit {0}) × PlatformWorld). p.1.deleted) done,
    )
