-- ===== src/Repository/Actions.antt =====
-- Every transaction by which a process of the platform writes to the tables: the API creates
-- customers and jobs, the workers do the rest. A transaction that fails leaves the tables as they
-- were.
use production_cloud_reliabi.Prelude.{ℕ, String, Option, List}
use production_cloud_reliabi.Errors.{Result, ok, err}
use production_cloud_reliabi.Codec.{Json, Codec}
use production_cloud_reliabi.Database.{Uuid, Timestamp, Database}
use production_cloud_reliabi.Repository.Customers
use production_cloud_reliabi.Repository.Jobs
use production_cloud_reliabi.Repository.Outbox

pub data Action : Type 0 where
  create_customer : String → String → Action
  create_job : String → Json → Option String → Action
  mark_job_processing : Uuid → ℕ → Action
  renew_job_processing_lease : Uuid → Uuid → Action
  complete_job_with_report : Uuid → Uuid → Json → String → String → Action
  fail_job : Uuid → Uuid → String → Action
  claim_outbox_events : ℕ → ℕ → List Uuid → Action
  mark_outbox_published : Uuid → Uuid → Action
  mark_outbox_failed : Uuid → Uuid → String → Action

abbrev pub committed {ℓ} : {A : Type ℓ} → Database → Result (A × Database) → Database
committed db (ok (_, db')) = db'
committed db (err _) = db

-- The tables after an action at time `now` that draws its UUIDs from `uuid`.
unfoldable pub run_action : Codec → Timestamp → (ℕ → Uuid) → Action → Database → Database
run_action codec now uuid (Action.create_customer name email) db =
    committed db (Customers.create_customer now uuid name email db)
run_action codec now uuid (Action.create_job job_type payload correlation_id) db =
    committed db (Jobs.create_job codec now uuid job_type payload correlation_id db)
run_action codec now uuid (Action.mark_job_processing job_id lease_seconds) db =
    (Jobs.mark_job_processing now uuid job_id lease_seconds db).1
run_action codec now uuid (Action.renew_job_processing_lease job_id token) db =
    (Jobs.renew_job_processing_lease now job_id token db).1
run_action codec now uuid (Action.complete_job_with_report job_id token result key type) db =
    committed db (Jobs.complete_job_with_report now uuid job_id token result key type db)
run_action codec now uuid (Action.fail_job job_id token error) db =
    (Jobs.fail_job now job_id token error db).1
run_action codec now uuid (Action.claim_outbox_events limit lease_seconds locked) db =
    (Outbox.claim_outbox_events now uuid limit lease_seconds locked db).1
run_action codec now uuid (Action.mark_outbox_published event_id token) db =
    (Outbox.mark_outbox_published now event_id token db).1
run_action codec now uuid (Action.mark_outbox_failed event_id token error) db =
    (Outbox.mark_outbox_failed now event_id token error db).1
