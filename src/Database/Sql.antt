-- ===== src/Database/Sql.antt =====
-- What PostgreSQL does for the statements of application/shared/repository.py. A comparison with
-- NULL is not true. INSERT is refused where a key is taken. UPDATE changes the rows that its WHERE
-- clause selects, `rowcount` is their number, and RETURNING gives them as updated.
use production_cloud_reliabi.Prelude.{
  ℕ, ◌+◌, ◌*◌, String, Bool, false, Option, none, some, List, [], ◌∷◌, ◌++◌, map, ltb, ◌==◌,
  if◌then◌else◌, filter_if,
}
use production_cloud_reliabi.Errors.{Exc, Result, ok, err}
use production_cloud_reliabi.Database.Tables.{
  Uuid, Timestamp, JobRow, JobResultRow, ObjectMetadataRow, OutboxRow,
}

-- `column = value` for a nullable column.
abbrev pub eq_null : Option ℕ → ℕ → Bool
eq_null none x = false
eq_null (some y) x = y == x

-- `column < NOW() - (lease_seconds * INTERVAL '1 second')` for a nullable column.
abbrev pub lease_expired : Option Timestamp → Timestamp → ℕ → Bool
lease_expired none now lease_seconds = false
lease_expired (some t) now lease_seconds = ltb (t + lease_seconds * 1000000) now

module _ {Row : Type 0} where
  abbrev pub insert : Bool → Row → List Row → Result (List Row)
  insert taken row rows = if taken then err Exc.unique_violation else ok (rows ++ row ∷ [])

  abbrev pub update_where : (Row → Bool) → (Row → Row) → List Row → List Row
  update_where p f = map (λ r. if p r then f r else r)

  abbrev pub returning : (Row → Bool) → (Row → Row) → List Row → List Row
  returning p f rows = map f (filter_if p rows)

  -- `fetchone()`
  abbrev pub fetchone : List Row → Option Row
  fetchone [] = none
  fetchone (r ∷ _) = some r

-- The row that a primary key selects.
abbrev pub find_job : Uuid → List JobRow → Option JobRow
find_job i [] = none
find_job i (r ∷ rows) = if r.id == i then some r else find_job i rows

abbrev pub find_result : Uuid → List JobResultRow → Option JobResultRow
find_result i [] = none
find_result i (r ∷ rows) = if r.job_id == i then some r else find_result i rows

abbrev pub find_metadata : Uuid → List ObjectMetadataRow → Option ObjectMetadataRow
find_metadata i [] = none
find_metadata i (r ∷ rows) = if r.job_id == i then some r else find_metadata i rows

abbrev pub find_outbox : Uuid → List OutboxRow → Option OutboxRow
find_outbox i [] = none
find_outbox i (r ∷ rows) = if r.id == i then some r else find_outbox i rows

-- `error[:1000]` counts characters.
unfoldable pub take_chars : ℕ → String → String
take_chars Prim.Native.Nat.zero s = String.[]
take_chars (Prim.Native.Nat.suc n) String.[] = String.[]
take_chars (Prim.Native.Nat.suc n) (String.◌∷◌ c s) = String.◌∷◌ c (take_chars n s)

abbrev pub truncate : String → String
truncate = take_chars 1000
