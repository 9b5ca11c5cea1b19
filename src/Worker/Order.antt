-- ===== src/Worker/Order.antt =====
-- What the worker's loop keeps of the tables (application/worker/main.py), among any other processes and
-- whatever fails.
use production_cloud_reliabi.Prelude.{ℕ}
use production_cloud_reliabi.Codec.{Codec, UuidRoundTrips}
use production_cloud_reliabi.Database.{Uuid, Database}
use production_cloud_reliabi.Repository.Actions.{Action, run_action}
use production_cloud_reliabi.Repository.Consistency.{IsConsistent}
use production_cloud_reliabi.Repository.Preservation.{run_action-IsConsistent}
use production_cloud_reliabi.Repository.Announcement.{IsAnnounced, run_action-IsAnnounced}
use production_cloud_reliabi.World.{World}
use production_cloud_reliabi.World.Rules.{next-keeps}
use production_cloud_reliabi.World.Keeps.{IsStable}
use production_cloud_reliabi.Config.{Settings}
use production_cloud_reliabi.Worker.Loop.{run_worker}
use production_cloud_reliabi.Worker.Invariants.{run_worker-Keeps}

-- The tables are in order: consistent, and with an outbox that announces exactly the jobs.
pub record InOrder (codec : Codec) (db : Database) : Type 0 where
  pub consistent : IsConsistent db
  pub announced : IsAnnounced codec db

module _ (codec : Codec) (law : UuidRoundTrips codec) where
  InOrder-action :
      (now : ℕ) (uuid : ℕ → Uuid) (a : Action) (db : Database)
      → InOrder codec db
      → InOrder codec (run_action codec now uuid a db)
  InOrder-action now uuid a db h = record {
    consistent = run_action-IsConsistent codec now uuid a db h.consistent;
    announced = run_action-IsAnnounced codec law now uuid a db h.announced;
  }

  InOrder-IsStable : IsStable codec (λ w. InOrder codec w.db)
  InOrder-IsStable = record {
    at_next = next-keeps codec (InOrder codec) InOrder-action;
    at_action = λ now uuid a w. InOrder-action now uuid a w.db;
    at_inc = λ m w h. h;
    at_heartbeat = λ o w h. h;
    at_report = λ r w h. h;
    at_send = λ r w h. h;
    at_publish = λ r w h. h;
  }

  -- A worker that runs for any number of rounds, with any settings, among any transactions of other
  -- processes and whatever fails, leaves the tables in order if it found them so: ids of jobs are
  -- unique, exactly the processing jobs carry a claim, every job has one result, one object and one
  -- audit event of its completion if it is completed and none otherwise, and the jobs are exactly
  -- those that some event of the outbox announces. UUIDs are read back from their texts.
  pub run_worker-InOrder :
      (settings : Settings) (rounds : ℕ) (w : World)
      → InOrder codec w.db
      → InOrder codec (run_worker codec settings rounds w).1.db
  run_worker-InOrder settings rounds =
      (run_worker-Keeps codec (λ w. InOrder codec w.db) InOrder-IsStable (λ d w h. h) settings
        rounds).at
