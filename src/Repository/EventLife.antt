-- ===== src/Repository/EventLife.antt =====
-- The life of an event of the outbox, as the statements of application/shared/repository.py allow it.
use mathlib.Core.Option
use production_cloud_reliabi.Prelude.{
  ℕ, ◌≡◌, ◌≤◌, refl, ◌∙◌, ap, String, Bool, true, false, Option, some, List, [], ◌∷◌, ◌++◌, ◌⊎◌,
  inl, inr, Bool-cases, if◌then◌else◌, arith,
}
use production_cloud_reliabi.Codec.{Codec, Json}
use production_cloud_reliabi.Database.{
  Uuid, Timestamp, OutboxStatus, OutboxRow, Database, find_outbox, update_where,
}
use production_cloud_reliabi.Repository.Customers.{create_customer}
use production_cloud_reliabi.Repository.Jobs.{
  create_job, mark_job_processing, renew_job_processing_lease, complete_job_with_report, fail_job,
  record_completion, new_outbox, outbox_payload,
}
use production_cloud_reliabi.Repository.Outbox.{
  claim_outbox_events, mark_outbox_published, mark_outbox_failed, is_due, publishing_under,
  published_at_time, not_published, holds_event,
}
use production_cloud_reliabi.Repository.Actions.{Action, run_action, committed}
use production_cloud_reliabi.Repository.Dispatch.{
  UniqueEvents, claim_outbox_events_lem, find_outbox-update,
}

-- An event is claimed from pending, failed or publishing, only a claimed one is published or failed,
-- and a published one stays so.
abbrev pub event_may_become : OutboxStatus → OutboxStatus → Bool
event_may_become OutboxStatus.pending OutboxStatus.pending = true
event_may_become OutboxStatus.pending OutboxStatus.publishing = true
event_may_become OutboxStatus.publishing OutboxStatus.publishing = true
event_may_become OutboxStatus.publishing OutboxStatus.published = true
event_may_become OutboxStatus.publishing OutboxStatus.failed = true
event_may_become OutboxStatus.failed OutboxStatus.failed = true
event_may_become OutboxStatus.failed OutboxStatus.publishing = true
event_may_become OutboxStatus.published OutboxStatus.published = true
event_may_become _ _ = false

-- What is announced stays, and the status moves along the arrows.
pub record EventStep (e : OutboxRow) (e' : OutboxRow) : Type 0 where
  pub id : e'.id ≡ e.id
  pub event_type : e'.event_type ≡ e.event_type
  pub version : e'.version ≡ e.version
  pub payload : e'.payload ≡ e.payload
  pub created_at : e'.created_at ≡ e.created_at
  pub attempts : e.attempts ≤ e'.attempts
  pub moves : event_may_become e.status e'.status ≡ true

event_may_become_refl : (s : OutboxStatus) → event_may_become s s ≡ true
event_may_become_refl OutboxStatus.pending = refl
event_may_become_refl OutboxStatus.publishing = refl
event_may_become_refl OutboxStatus.published = refl
event_may_become_refl OutboxStatus.failed = refl

unchanged-EventStep : (e : OutboxRow) → EventStep e e
unchanged-EventStep e = record {
  id = refl;
  event_type = refl;
  version = refl;
  payload = refl;
  created_at = refl;
  attempts = omega arith;
  moves = event_may_become_refl e.status;
}

taken-EventStep :
    (now : Timestamp) (token : Uuid) (lease : ℕ) (locked : List Uuid) (e : OutboxRow)
    → is_due now lease locked e ≡ true
    → EventStep e (publishing_under now token e)
taken-EventStep now token lease locked e d = record {
  id = refl;
  event_type = refl;
  version = refl;
  payload = refl;
  created_at = refl;
  attempts = omega arith;
  moves = ground arith;
}

published-EventStep :
    (now : Timestamp) (k token : Uuid) (e : OutboxRow)
    → EventStep e (if holds_event k token e then published_at_time now e else e)
published-EventStep now k token e = elim (Bool-cases (holds_event k token e)) [
  | inl h ↦ rw h (record {
    id = refl;
    event_type = refl;
    version = refl;
    payload = refl;
    created_at = refl;
    attempts = omega arith;
    moves = ground arith;
  })
  | inr n ↦ rw n (unchanged-EventStep e)
]

failed-EventStep :
    (now : Timestamp) (k token : Uuid) (error : String) (e : OutboxRow)
    → EventStep e (if holds_event k token e then not_published now error e else e)
failed-EventStep now k token error e = elim (Bool-cases (holds_event k token e)) [
  | inl h ↦ rw h (record {
    id = refl;
    event_type = refl;
    version = refl;
    payload = refl;
    created_at = refl;
    attempts = omega arith;
    moves = ground arith;
  })
  | inr n ↦ rw n (unchanged-EventStep e)
]

find_outbox-append :
    (k : Uuid) (rows : List OutboxRow) (row e : OutboxRow)
    → find_outbox k rows ≡ some e
    → find_outbox k (rows ++ row ∷ []) ≡ some e
find_outbox-append k [] row e h = ground arith
find_outbox-append k (r ∷ rows) row e h = ground (arith, find_outbox-append k rows row e)

create_job-outbox :
    (codec : Codec) (now : Timestamp) (uuid : ℕ → Uuid) (job_type : String) (payload : Json)
    (correlation_id : Option String) (db : Database)
    → let db' = committed db (create_job codec now uuid job_type payload correlation_id db) in
      (db'.job_outbox ≡ db.job_outbox)
      ⊎ (db'.job_outbox
          ≡ db.job_outbox
            ++ new_outbox (uuid 1) (outbox_payload codec (uuid 0) correlation_id) now ∷ [])
unfolding create_job
create_job-outbox codec now uuid job_type payload correlation_id db = ground arith

complete-outbox :
    (now : Timestamp) (uuid : ℕ → Uuid) (i token : Uuid) (result : Json) (key type : String)
    (db : Database)
    → (committed db (complete_job_with_report now uuid i token result key type db)).job_outbox
      ≡ db.job_outbox
unfolding complete_job_with_report record_completion
complete-outbox now uuid i token result key type db = ground arith

create_customer-outbox :
    (now : Timestamp) (uuid : ℕ → Uuid) (name email : String) (db : Database)
    → (committed db (create_customer now uuid name email db)).job_outbox ≡ db.job_outbox
unfolding create_customer
create_customer-outbox now uuid name email db = ground arith

-- The event is still in the outbox, and has made a step.
abbrev pub Lives : Uuid → OutboxRow → List OutboxRow → Type 0
Lives k e rows = (e' : OutboxRow) × (find_outbox k rows ≡ some e') × EventStep e e'

module _ (codec : Codec) (now : Timestamp) (uuid : ℕ → Uuid) (db : Database) (k : Uuid)
    (e : OutboxRow) (unique : UniqueEvents db.job_outbox)
    (found : find_outbox k db.job_outbox ≡ some e) where
  stays : (rows : List OutboxRow) → rows ≡ db.job_outbox → Lives k e rows
  stays rows h = (e, ap (find_outbox k) h ∙ found, unchanged-EventStep e)

  created-Lives :
      (rows : List OutboxRow) (row : OutboxRow)
      → (rows ≡ db.job_outbox) ⊎ (rows ≡ db.job_outbox ++ row ∷ [])
      → Lives k e rows
  created-Lives rows row (inl h) = stays rows h
  created-Lives rows row (inr h) = (
    e,
    ap (find_outbox k) h ∙ find_outbox-append k db.job_outbox row e found,
    unchanged-EventStep e,
  )

  claimed-Lives :
      (limit lease : ℕ) (locked : List Uuid)
      → Lives k e (claim_outbox_events now uuid limit lease locked db).1.job_outbox
  claimed-Lives limit lease locked =
      let facts = claim_outbox_events_lem now uuid limit lease locked db k e unique found in
      elim (Bool-cases (is_due now lease locked e)) [
        | inr n ↦ (e, facts.1 n, unchanged-EventStep e)
        | inl d ↦ elim (facts.2 d) [
          | inl (h, _) ↦
              (publishing_under now (uuid 0) e, h, taken-EventStep now (uuid 0) lease locked e d)
          | inr (h, _, _) ↦ (e, h, unchanged-EventStep e)
        ]
      ]

  marked :
      (f : OutboxRow → OutboxRow) (j token : Uuid)
      → ((r : OutboxRow) → (f r).id ≡ r.id)
      → find_outbox k (update_where (holds_event j token) f db.job_outbox)
        ≡ some (if holds_event j token e then f e else e)
  marked f j token h =
      find_outbox-update (holds_event j token) f k db.job_outbox h
      ∙ ap (Option.map (λ (r : OutboxRow). if holds_event j token r then f r else r)) found

  -- Ids of events being unique, an event of the outbox is never lost and never altered in what it
  -- announces, whatever transaction runs: its id, type, version, payload and creation time stay, its
  -- attempts do not fall, and its status moves only from pending, failed or publishing to publishing
  -- and from there to published or failed.
  pub run_action-Lives : (a : Action) → Lives k e (run_action codec now uuid a db).job_outbox
  unfolding run_action mark_job_processing renew_job_processing_lease fail_job mark_outbox_published
      mark_outbox_failed
  run_action-Lives (Action.create_customer name email) =
      stays _ (create_customer-outbox now uuid name email db)
  run_action-Lives (Action.create_job job_type payload correlation_id) =
      created-Lives _ (new_outbox (uuid 1) (outbox_payload codec (uuid 0) correlation_id) now)
        (create_job-outbox codec now uuid job_type payload correlation_id db)
  run_action-Lives (Action.mark_job_processing i lease) = stays db.job_outbox refl
  run_action-Lives (Action.renew_job_processing_lease i token) = stays db.job_outbox refl
  run_action-Lives (Action.complete_job_with_report i token result key type) =
      stays _ (complete-outbox now uuid i token result key type db)
  run_action-Lives (Action.fail_job i token error) = stays db.job_outbox refl
  run_action-Lives (Action.claim_outbox_events limit lease locked) =
      claimed-Lives limit lease locked
  run_action-Lives (Action.mark_outbox_published j token) = (
    if holds_event j token e then published_at_time now e else e,
    marked (published_at_time now) j token (λ r. refl),
    published-EventStep now j token e,
  )
  run_action-Lives (Action.mark_outbox_failed j token error) = (
    if holds_event j token e then not_published now error e else e,
    marked (not_published now error) j token (λ r. refl),
    failed-EventStep now j token error e,
  )
