-- ===== src/Config/Intervals.antt =====
-- What the checks of Settings (application/shared/config.py) secure for the heartbeat of the worker.
use Prim.Native.Nat.{◌<◌, ◌≤◌, ◌*◌}
use production_cloud_reliabi.Prelude.{ℕ, ◌≡◌, ◌+◌, arith}
use production_cloud_reliabi.Errors.{ok}
use production_cloud_reliabi.Codec.{Codec}
use production_cloud_reliabi.Database.{Uuid, Timestamp, JobRow, Database}
use production_cloud_reliabi.Repository.Actions.{Action, run_action}
use production_cloud_reliabi.Repository.Fencing.{IsHeld, run_action-IsHeld}
use production_cloud_reliabi.Config.{Settings, create_settings}

-- Settings are accepted unchanged, and then the heartbeat is positive, shorter than the visibility
-- timeout, and shorter than the processing lease.
pub create_settings-ok :
    (s t : Settings)
    → create_settings s ≡ ok t
    → (t ≡ s)
      × (0 < s.sqs_visibility_heartbeat_seconds)
      × (s.sqs_visibility_heartbeat_seconds < s.sqs_visibility_timeout_seconds)
      × (s.sqs_visibility_heartbeat_seconds < s.job_processing_lease_seconds)
unfolding create_settings
create_settings-ok s t h = ground arith

-- Under accepted settings, a claim that was taken or renewed at most one heartbeat ago is not taken
-- over: claiming the same job or any other with the lease of the settings leaves it held.
pub beating_claim_is_kept :
    (codec : Codec) (s t : Settings) (now started : Timestamp) (uuid : ℕ → Uuid) (i j token : Uuid)
    (db : Database) (r : JobRow)
    → create_settings s ≡ ok t
    → IsHeld i token started db r
    → now ≤ started + s.sqs_visibility_heartbeat_seconds * 1000000
    → IsHeld i token started
        (run_action codec now uuid (Action.mark_job_processing j s.job_processing_lease_seconds) db)
        r
beating_claim_is_kept codec s t now started uuid i j token db r h held soon =
    run_action-IsHeld codec now uuid (Action.mark_job_processing j s.job_processing_lease_seconds)
      db i token started r held (ground (arith, create_settings-ok s t h))
