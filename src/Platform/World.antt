-- ===== src/Platform/World.antt =====
-- What the earlier generation of the worker (services/platform_app/worker/main.py) touches: the tables,
-- its queue, and the calls of psycopg and boto3, any of which may fail before or after it took effect
-- and before any of which other processes may run transactions of their own.
use production_cloud_reliabi.Prelude.{
  ℕ, ◌+◌, String, Bool, true, false, Option, none, some, List, [], ◌∷◌,
}
use production_cloud_reliabi.Errors.{Exc, Result, ok, err}
use production_cloud_reliabi.Codec.{Json}
use production_cloud_reliabi.Database.{Uuid, Timestamp}
use production_cloud_reliabi.Platform.Tables
use production_cloud_reliabi.Platform.Tables.{PlatformTables}

-- A transaction that writes.
pub data Change : Type 0 where
  create_customer : String → String → Change
  create_job : String → Json → Change
  mark_job_processing : Uuid → Change
  complete_job : Uuid → Json → Change
  fail_job : Uuid → String → Change

abbrev pub committed : {A : Type 0} → PlatformTables → Result (A × PlatformTables) → PlatformTables
committed db (ok (_, db')) = db'
committed db (err _) = db

unfoldable pub run_change : Timestamp → (ℕ → Uuid) → Change → PlatformTables → PlatformTables
run_change now uuid (Change.create_customer name email) db =
    committed db (Tables.create_customer now uuid name email db)
run_change now uuid (Change.create_job job_type payload) db =
    committed db (Tables.create_job now uuid job_type payload db)
run_change now uuid (Change.mark_job_processing job_id) db =
    (Tables.mark_job_processing now job_id db).1
run_change now uuid (Change.complete_job job_id result) db =
    committed db (Tables.complete_job now uuid job_id result db)
run_change now uuid (Change.fail_job job_id error) db = Tables.fail_job now job_id error db

unfoldable pub run_changes :
    List (Timestamp × (ℕ → Uuid) × Change) → PlatformTables → PlatformTables
unfolding run_change
run_changes [] db = db
run_changes ((now, uuid, c) ∷ rest) db = run_changes rest (run_change now uuid c db)

-- An SQS message with the text of its body and of the attribute correlation_id.
pub record PlatformMessage : Type 0 where
  pub body : String
  pub receipt_handle : String
  pub correlation_id : Option String

-- What happens around one call.
pub record PlatformMoment : Type 0 where
  pub before : List (Timestamp × (ℕ → Uuid) × Change)
  pub now : Timestamp
  pub uuid : ℕ → Uuid
  pub fault : Option Exc
  pub took_effect : Bool
  pub messages : List PlatformMessage
  pub created_queue_url : String

pub record PlatformWorld : Type 0 where
  pub db : PlatformTables
  pub queue_url : Option String
  pub sent : List (String × String × Option String)
  pub deleted : List String
  pub correlation_id : Option String
  pub calls : ℕ
  pub moments : ℕ → PlatformMoment

abbrev pub Exec : Type 0 → Type 0
Exec A = PlatformWorld → Result A × PlatformWorld

module _ {A : Type 0} where
  abbrev pub pure : A → Exec A
  pure a w = (ok a, w)

  abbrev pub raise : Exc → Exec A
  raise e w = (err e, w)

  abbrev pub catch : Exec A → (Exc → Exec A) → Exec A
  catch m handler w = let (r, w') = m w in elim r [ ok a ↦ (ok a, w') | err e ↦ handler e w' ]

infixl 5 ◌>>=◌ ◌>>◌
abbrev pub ◌>>=◌ : {A B : Type 0} → Exec A → (A → Exec B) → Exec B
◌>>=◌ m f w = let (r, w') = m w in elim r [ ok a ↦ f a w' | err e ↦ (err e, w') ]

abbrev pub ◌>>◌ : {A B : Type 0} → Exec A → Exec B → Exec B
m >> k = m >>= λ _. k

abbrev pub settle :
    {A : Type 0}
    → Option Exc
    → Bool
    → PlatformWorld
    → Result A × PlatformWorld
    → Result A × PlatformWorld
settle none took_effect before o = o
settle (some e) true before o = (err e, o.1)
settle (some e) false before o = (err e, before)

-- The world when the next call is made.
unfoldable pub next : PlatformWorld → PlatformWorld
next w = record w { db = run_changes (w.moments w.calls).before w.db; calls = w.calls + 1 }

-- A call of a library: `f` says what it does.
unfoldable pub call :
    {A : Type 0} → (PlatformMoment → PlatformWorld → Result A × PlatformWorld) → Exec A
unfolding next
call f w = let m = w.moments w.calls in settle m.fault m.took_effect (next w) (f m (next w))

abbrev pub commit :
    {A : Type 0} → Result (A × PlatformTables) → PlatformWorld → Result A × PlatformWorld
commit (ok (a, db)) w = (ok a, record w { db = db })
commit (err e) w = (err e, w)

-- `with self.database.transaction()`
unfoldable pub transaction :
    {A : Type 0} → (PlatformMoment → PlatformTables → Result (A × PlatformTables)) → Exec A
unfolding call
transaction body = call (λ m w. commit (body m w.db) w)
