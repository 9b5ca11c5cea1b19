-- ===== src/Platform/Api.antt =====
-- The API of the earlier generation of the services (services/platform_app/api/main.py). A handler that
-- raises something else than HTTPException raises here, too; the framework makes of it the status 500.
use production_cloud_reliabi.Prelude.{
  ◌&&◌, leb, String, Bool, true, false, Option, none, some, List, if◌then◌else◌,
}
use production_cloud_reliabi.Errors.{Exc, ok, err}
use production_cloud_reliabi.Codec.{Json, Codec}
use production_cloud_reliabi.Database.{Uuid, CustomerRow, JobResultRow}
use production_cloud_reliabi.Api.{Response, answered, refused, count_chars}
use production_cloud_reliabi.Repository.Customers.{as_duplicate}
use production_cloud_reliabi.Platform.Tables
use production_cloud_reliabi.Platform.Tables.{PlatformJob}
use production_cloud_reliabi.Platform.World.{
  Exec, pure, raise, catch, call, transaction, ◌>>=◌, ◌>>◌,
}
use production_cloud_reliabi.Platform.Queue.{check, send_job}
use production_cloud_reliabi.Platform.Worker.{get_job as repository_get_job}

-- Database.check
unfoldable pub check_database : Exec Bool
check_database = call (λ m w. (ok true, w))

-- The queue is checked after the database; a failure leaves the checks that are still to be made false.
unfoldable pub run_checks : Exec (Bool × Bool)
unfolding check_database
run_checks =
    catch
      (check_database >>= λ database.
        catch (check >>= λ queue. pure (database, queue)) (λ e. pure (database, false)))
      (λ e. pure (false, false))

abbrev pub readiness : Bool × Bool → Response (Bool × Bool)
readiness (database, queue) =
    if database && queue then answered 200 (database, queue) else answered 503 (database, queue)

unfoldable pub ready : Exec (Response (Bool × Bool))
unfolding run_checks
ready = run_checks >>= λ checks. pure (readiness checks)

unfoldable pub list_customers : Exec (Response (List CustomerRow))
list_customers =
    transaction (λ m db. ok (Tables.list_customers db, db)) >>= λ rows. pure (answered 200 rows)

abbrev pub customer_failure : Exc → Exec (Response CustomerRow)
customer_failure Exc.duplicate_customer = pure (refused 409)
customer_failure e = raise e

-- The body is validated by CustomerCreate; `read_email` is EmailStr.
-- Repository.create_customer: `except UniqueViolation` stands around the whole transaction.
unfoldable pub insert_customer : String → String → Exec CustomerRow
insert_customer name email =
    catch (transaction (λ m db. Tables.insert_customer m.now m.uuid name email db))
      (λ e w. (as_duplicate (err e), w))

unfoldable pub create_customer :
    (String → Option String) → String → String → Exec (Response CustomerRow)
unfolding insert_customer
create_customer read_email name email = elim (read_email email) [
  | none ↦ pure (refused 422)
  | some address ↦
      if leb 1 (count_chars name) && leb (count_chars name) 200
      then catch (insert_customer name address >>= λ row. pure (answered 201 row)) customer_failure
      else pure (refused 422)
]

unfoldable pub list_jobs : Exec (Response (List PlatformJob))
list_jobs = transaction (λ m db. ok (Tables.list_jobs db, db)) >>= λ rows. pure (answered 200 rows)

-- The body is validated by JobCreate. `correlation_id_var.get()` is the world's correlation id.
unfoldable pub create_job : Codec → String → Json → Exec (Response PlatformJob)
create_job codec job_type payload =
    if leb 1 (count_chars job_type) && leb (count_chars job_type) 100
    then (do
      job ← transaction (λ m db. Tables.create_job m.now m.uuid job_type payload db)
      (λ w. send_job (codec.str_uuid job.id) w.correlation_id w)
      pure (answered 202 job))
    else pure (refused 422)

abbrev pub job_failure : Exc → Exec (Response (PlatformJob × Option JobResultRow))
job_failure Exc.not_found = pure (refused 404)
job_failure e = raise e

unfoldable pub get_job : Uuid → Exec (Response (PlatformJob × Option JobResultRow))
get_job job_id = catch (repository_get_job job_id >>= λ job. pure (answered 200 job)) job_failure
