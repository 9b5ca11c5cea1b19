-- ===== src/World/State.antt =====
-- The state that a worker or an API process reads and changes, and the moments of its calls. The
-- heartbeat thread is VisibilityHeartbeat of application/worker/main.py.
use production_cloud_reliabi.Prelude.{
  ℕ, String, Bool, true, false, Option, none, some, List, [], ◌∷◌, ◌++◌,
}
use production_cloud_reliabi.Errors.{Exc}
use production_cloud_reliabi.Codec.{Json, Codec}
use production_cloud_reliabi.Database.{Uuid, Timestamp, Database}
use production_cloud_reliabi.Repository.Actions.{Action, run_action}
use production_cloud_reliabi.Repository.Jobs

-- The counters of application/shared/metrics.py that the worker increments, by their labels. Of the
-- histogram only the fact of an observation is kept.
pub data Metric : Type 0 where
  outbox_dispatch : String → Metric
  outbox_reclaims : String → Metric
  jobs_processed : String → String → Metric
  job_duration : String → String → Metric
  duplicate_jobs : String → Metric
  job_claims : String → Metric
  heartbeat_failures : String → Metric

-- A message as SQS delivers it.
pub record SqsMessage : Type 0 where
  pub body : String
  pub receipt_handle : String

-- The fields of VisibilityHeartbeat; its thread runs while the record is in the world.
pub record VisibilityHeartbeat : Type 0 where
  pub job_id : Uuid
  pub processing_token : Uuid
  pub receipt_handle : String
  pub visibility_timeout_seconds : ℕ
  pub heartbeat_seconds : ℕ

-- One iteration of the heartbeat's loop: the time, and the exceptions that the renewal of the lease
-- and the change of visibility meet.
pub record Beat : Type 0 where
  pub now : Timestamp
  pub renew_fault : Option Exc
  pub visibility_fault : Option Exc

pub data Event : Type 0 where
  other : Timestamp → (ℕ → Uuid) → Action → Event
  beat : Beat → Event

pub record Moment : Type 0 where
  pub before : List Event
  pub now : Timestamp
  pub uuid : ℕ → Uuid
  pub fault : Option Exc
  -- with a fault: whether the call has taken effect all the same, only its answer being lost
  pub took_effect : Bool
  pub locked : List Uuid
  pub messages : List SqsMessage

-- A report in S3 or on disk: the bucket or the root directory, the object key, and the records of
-- the CSV file, its header first.
pub record StoredReport : Type 0 where
  pub container : String
  pub object_key : String
  pub records : List (String × String)

pub record World : Type 0 where
  pub db : Database
  -- what SQS has accepted: the queue and the body
  pub sent : List (String × String)
  pub deleted : List String
  pub visibility : List (String × ℕ)
  pub reports : List StoredReport
  -- LocalJobPublisher.published
  pub published : List (Uuid × Json)
  pub metrics : List Metric
  pub heartbeat : Option VisibilityHeartbeat
  -- how many calls the process has made, and what it meets at each
  pub calls : ℕ
  pub moments : ℕ → Moment

abbrev pub inc : Metric → World → World
inc m w = record w { metrics = w.metrics ++ m ∷ [] }

-- SqsJobConsumer.change_visibility, when the call of SQS succeeds.
abbrev pub extend_visibility : String → ℕ → World → World
extend_visibility receipt_handle timeout_seconds w = record w {
  visibility = w.visibility ++ (receipt_handle, timeout_seconds) ∷ [];
}

-- One round of the loop of VisibilityHeartbeat._run: the lease is renewed; if it is lost the thread
-- returns, and otherwise the message's visibility is extended, a failure of which is counted. An
-- exception of the renewal ends the thread.
unfoldable pub run_beat : Beat → VisibilityHeartbeat → World → World
run_beat b h w = elim b.renew_fault [
  | some e ↦ record w { heartbeat = none }
  | none ↦
      let (lease_renewed, db) =
        Jobs.renew_job_processing_lease b.now h.job_id h.processing_token w.db in
      elim lease_renewed [
        | false ↦
            inc (Metric.heartbeat_failures "db_lease_renewal")
              (record w { db = db; heartbeat = none })
        | true ↦ elim b.visibility_fault [
          | some e ↦ inc (Metric.heartbeat_failures "sqs_change_visibility") (record w { db = db })
          | none ↦
              extend_visibility h.receipt_handle h.visibility_timeout_seconds (record w { db = db })
        ]
      ]
]

module _ (codec : Codec) where
  unfoldable pub run_event : Event → World → World
  unfolding run_beat
  run_event (Event.other now uuid a) w = record w { db = run_action codec now uuid a w.db }
  run_event (Event.beat b) w = elim w.heartbeat [ none ↦ w | some h ↦ run_beat b h w ]

  unfoldable pub run_events : List Event → World → World
  unfolding run_event
  run_events [] w = w
  run_events (e ∷ events) w = run_events events (run_event e w)
