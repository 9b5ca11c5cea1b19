-- ===== src/Repository/Customers.antt =====
-- Customers: create_customer and list_customers of application/shared/repository.py.
use production_cloud_reliabi.Prelude.{ℕ, String, Bool, List, ◌||◌, ◌==◌, str_eq, any_of}
use production_cloud_reliabi.Errors.{Exc, Result, ok, err, ◌>>=◌}
use production_cloud_reliabi.Codec.{Json, Fields}
use production_cloud_reliabi.Database.Newest.{newest, IsNewest, newest-IsNewest}
use production_cloud_reliabi.Database.{
  Uuid, Timestamp, CustomerRow, AuditEventRow, EntityType, AuditAction, Database, insert,
}

-- INSERT INTO customers: the id is the primary key, and the email is UNIQUE.
abbrev pub customer_taken : Uuid → String → List CustomerRow → Bool
customer_taken i email = any_of (λ r. r.id == i || str_eq r.email email)

abbrev pub audit_row : Uuid → EntityType → Uuid → AuditAction → Json → Timestamp → AuditEventRow
audit_row i entity_type entity_id action details now = record {
  id = i;
  entity_type = entity_type;
  entity_id = entity_id;
  action = action;
  details = details;
  created_at = now;
}

-- INSERT INTO audit_events
abbrev pub insert_audit :
    Uuid
    → EntityType
    → Uuid
    → AuditAction
    → Json
    → Timestamp
    → List AuditEventRow
    → Result (List AuditEventRow)
insert_audit i entity_type entity_id action details now rows =
    insert (any_of (λ r. r.id == i) rows) (audit_row i entity_type entity_id action details now)
      rows

abbrev pub new_customer : Uuid → String → String → Timestamp → CustomerRow
new_customer i name email now = record { id = i; name = name; email = email; created_at = now }

abbrev pub customer_details : String → Json
customer_details email = Json.obj (Fields.field "email" (Json.str email) Fields.end)

-- The two INSERTs of the transaction.
unfoldable pub insert_customer :
    Timestamp → (ℕ → Uuid) → String → String → Database → Result (CustomerRow × Database)
insert_customer now uuid name email db = do
  let customer = new_customer (uuid 0) name email now
  customers ← insert (customer_taken (uuid 0) email db.customers) customer db.customers
  audit_events ←
      insert_audit (uuid 1) EntityType.customer (uuid 0) AuditAction.created
        (customer_details email) now db.audit_events
  ok (customer, record db { customers = customers; audit_events = audit_events })

-- `except UniqueViolation as exc: raise DuplicateCustomerError`
abbrev pub as_duplicate {ℓ} : {A : Type ℓ} → Result A → Result A
as_duplicate (ok a) = ok a
as_duplicate (err Exc.unique_violation) = err Exc.duplicate_customer
as_duplicate (err e) = err e

unfoldable pub create_customer :
    Timestamp → (ℕ → Uuid) → String → String → Database → Result (CustomerRow × Database)
unfolding insert_customer
create_customer now uuid name email db = as_duplicate (insert_customer now uuid name email db)

unfoldable pub list_customers : Database → List CustomerRow
list_customers db = newest (λ (r : CustomerRow). r.created_at) 100 db.customers

-- list_customers lists the newest customers first, at most 100 of them, each as often as it is in the
-- table, and leaves customers out only where 100 are listed, and then none that is newer than a listed
-- one.
pub list_customers-IsNewest :
    (db : Database)
    → IsNewest (λ (r : CustomerRow). r.created_at) 100 db.customers (list_customers db)
unfolding list_customers
list_customers-IsNewest db = newest-IsNewest (λ (r : CustomerRow). r.created_at) 100 db.customers
