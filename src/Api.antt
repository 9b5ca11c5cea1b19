-- ===== src/Api.antt =====
-- The handlers of the API (application/api/main.py) and ApplicationService
-- (application/api/service.py). A handler that raises something else than HTTPException raises here,
-- too; the framework makes of it the status 500.
pub mod Answers
pub mod Acceptance
pub mod Registration
use production_cloud_reliabi.Prelude.{
  ℕ, zero, suc, ◌+◌, ◌&&◌, leb, String, Bool, true, false, Option, none, some, List, if◌then◌else◌,
}
use production_cloud_reliabi.Errors.{Exc, ok, err}
use production_cloud_reliabi.Codec.{Json, Codec, of_optional}
use production_cloud_reliabi.Database.{Uuid, CustomerRow, JobRow}
use production_cloud_reliabi.Repository.Customers
use production_cloud_reliabi.Repository.Customers.{as_duplicate}
use production_cloud_reliabi.Repository.Jobs
use production_cloud_reliabi.Repository.Jobs.{JobView}
use production_cloud_reliabi.World.{Exec, pure, raise, catch, call, transaction, ◌>>=◌, ◌>>◌}
use production_cloud_reliabi.Adapters.{JobPublisher, publish}
use production_cloud_reliabi.Worker.{get_job as repository_get_job}

-- The status code with the body, or an HTTPException with its status code.
pub data Response (A : Type 0) : Type 0 where
  answered : ℕ → A → Response A
  refused : ℕ → Response A

unfoldable pub count_chars : String → ℕ
count_chars String.[] = 0
count_chars (String.◌∷◌ c s) = count_chars s + 1

abbrev between : ℕ → ℕ → String → Bool
between low high s = leb low (count_chars s) && leb (count_chars s) high

module _ (codec : Codec) where
  -- `_database_unavailable`
  abbrev pub database_unavailable : {A : Type 0} → Exc → Exec (Response A)
  database_unavailable e = pure (refused 503)

  -- Database.check, where `is_database_error` tells the subclasses of psycopg's Error and PoolTimeout.
  unfoldable pub check : (Exc → Bool) → Exec Bool
  check is_database_error =
      catch (call codec (λ m w. (ok true, w)))
        (λ e. if is_database_error e then pure false else raise e)

  unfoldable pub ready : (Exc → Bool) → Exec (Response Bool)
  unfolding check
  ready is_database_error = do
    database ← check is_database_error
    if database then pure (answered 200 true) else pure (answered 503 false)

  unfoldable pub list_customers : Exec (Response (List CustomerRow))
  list_customers = do
    rows ← transaction codec (λ m db. ok (Customers.list_customers db, db))
    pure (answered 200 rows)

  -- Repository.create_customer: `except UniqueViolation` stands around the whole transaction.
  unfoldable pub insert_customer : String → String → Exec CustomerRow
  insert_customer name email =
      catch (transaction codec (λ m db. Customers.insert_customer m.now m.uuid name email db))
        (λ e w. (as_duplicate (err e), w))

  unfoldable pub customer_failure : Exc → Exec (Response CustomerRow)
  customer_failure Exc.duplicate_customer = pure (refused 409)
  customer_failure e = database_unavailable e

  -- The body is validated by CustomerCreate; `read_email` is EmailStr.
  unfoldable pub create_customer :
      (String → Option String) → String → String → Exec (Response CustomerRow)
  unfolding insert_customer customer_failure count_chars
  create_customer read_email name email = elim (read_email email) [
    | none ↦ pure (refused 422)
    | some address ↦
        if between 1 200 name
        then catch (insert_customer name address >>= λ row. pure (answered 201 row))
            customer_failure
        else pure (refused 422)
  ]

  -- Repository.create_job
  unfoldable pub insert_job : String → Json → Option String → Exec JobRow
  insert_job job_type payload correlation_id =
      transaction codec
        (λ m db. Jobs.create_job codec m.now m.uuid job_type payload correlation_id db)

  -- `except TypeError`
  unfoldable pub retry_plain : String → Json → Exc → Exec JobRow
  unfolding insert_job
  retry_plain job_type payload Exc.type_error = insert_job job_type payload none
  retry_plain job_type payload e = raise e

  -- ApplicationService.create_job
  unfoldable pub service_create_job : JobPublisher → Option String → String → Json → Exec JobRow
  unfolding insert_job retry_plain
  service_create_job publisher correlation_id job_type payload = do
    job ← catch (insert_job job_type payload correlation_id) (retry_plain job_type payload)
    publish codec publisher job.id (of_optional correlation_id)
    pure job

  -- The body is validated by JobCreate.
  unfoldable pub create_job : JobPublisher → Option String → String → Json → Exec (Response JobRow)
  unfolding service_create_job count_chars
  create_job publisher correlation_id job_type payload =
      if between 1 100 job_type
      then catch
          (service_create_job publisher correlation_id job_type payload >>= λ job.
            pure (answered 202 job))
          database_unavailable
      else pure (refused 422)

  unfoldable pub view_failure : Exc → Exec (Response JobView)
  view_failure Exc.not_found = pure (refused 404)
  view_failure e = raise e

  unfoldable pub get_job : Uuid → Exec (Response JobView)
  unfolding view_failure
  get_job job_id =
      catch (repository_get_job codec job_id >>= λ view. pure (answered 200 view)) view_failure
