-- ===== src/Platform/Handled.antt =====
-- What became of a message that the earlier generation of the worker has handled
-- (services/platform_app/worker/main.py).
use production_cloud_reliabi.Prelude.{
  ◌≡◌, refl, String, true, some, [], ◌∷◌, ◌++◌, ◌⊎◌, inl, inr, Option-cases,
}
use production_cloud_reliabi.Errors.{Exc, Result, ok, err}
use production_cloud_reliabi.Codec.{Codec}
use production_cloud_reliabi.Database.{Uuid}
use production_cloud_reliabi.Platform.World.{PlatformMessage, PlatformWorld}
use production_cloud_reliabi.Platform.Worker.{try_message, handle_message}
use production_cloud_reliabi.Platform.Stored.{has_result, IsStored}
use production_cloud_reliabi.Platform.Rules.{Ends}
use production_cloud_reliabi.Platform.Deleting.{Safe, handled-Ends}

module _ (codec : Codec) (w : PlatformWorld) (message : PlatformMessage) where
  -- The message deleted from the queue, and the result of the job that it names stored.
  pub record Deleted (v : PlatformWorld) : Type 0 where
    pub job_id : Uuid
    pub read : codec.parse_uuid message.body ≡ some job_id
    pub removed : v.deleted ≡ w.deleted ++ message.receipt_handle ∷ []
    pub result : has_result job_id v.db.job_results ≡ true

  pub record Handled (v : PlatformWorld) : Type 0 where
    pub stored : IsStored v.db
    pub restored : v.correlation_id ≡ w.correlation_id
    pub outcome : (v.deleted ≡ w.deleted) ⊎ Deleted v

  abbrev Tried : PlatformWorld → Type 0
  Tried v = IsStored v.db × ((v.deleted ≡ w.deleted) ⊎ Deleted v)

  Safe-Tried :
      (i : Uuid) (v : PlatformWorld)
      → codec.parse_uuid message.body ≡ some i
      → Safe w.deleted i message.receipt_handle v
      → Tried v
  unfolding Safe
  Safe-Tried i v e (inl b) = (b.stored, inl b.unchanged)
  Safe-Tried i v e (inr a) =
      (a.stored, inr (record { job_id = i; read = e; removed = a.removed; result = a.result }))

  outcome_of :
      {A : Type 0} (P : PlatformWorld → Type 0) (o : Result A × PlatformWorld)
      → Ends (λ u v. P v) P o
      → P o.1
  outcome_of P (ok a, v) h = h
  outcome_of P (err e, v) h = h

  module _ (str_exc : Exc → String) (stored : IsStored w.db) where
    abbrev entered : PlatformWorld
    entered = record w { correlation_id = message.correlation_id }

    tried : Tried (try_message codec str_exc message entered).1
    unfolding try_message
    tried = elim (Option-cases (codec.parse_uuid message.body)) [
      | inl e ↦ rw (e, try_message) (stored, inl refl)
      | inr (i, e) ↦
          rw (e, try_message)
            (Safe-Tried i _ e (
              outcome_of (Safe w.deleted i message.receipt_handle) _ (
                handled-Ends w.deleted i message.receipt_handle str_exc entered
                  (record { unchanged = refl; stored = stored }))))
    ]

    -- Started on tables where every completed job has its result, the worker deletes the message from
    -- the queue only if its body names a job whose result is stored, whatever other processes do
    -- meanwhile and whichever calls fail or lose their answers; completed jobs keep their results, and
    -- the correlation id is what it was, also when handling the message raises.
    pub handle_message-Handled : Handled (handle_message codec str_exc message w).1
    unfolding handle_message
    handle_message-Handled = record {
      stored = tried.0;
      restored = refl;
      outcome = elim tried.1 [
        | inl e ↦ inl e
        | inr d ↦
            inr
              (record { job_id = d.job_id; read = d.read; removed = d.removed; result = d.result })
      ];
    }
