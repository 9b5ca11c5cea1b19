-- ===== src/Api/Registration.antt =====
-- What the answers of POST /customers and GET /jobs/{job_id} mean (application/api/main.py).
use production_cloud_reliabi.Prelude.{
  ℕ, ◌≡◌, ◌≢◌, refl, ◌∙◌, ap, ◌&&◌, ◌||◌, ◌==◌, str_eq, any_of, ◌++◌, String, Bool, true, false,
  Option, none, some, [], ◌∷◌, Bool-cases, Option-cases, ◌⊎◌, inl, inr, leb, arith,
}
use production_cloud_reliabi.Errors.{Exc, Result, ok, err}
use production_cloud_reliabi.Codec.{Codec}
use production_cloud_reliabi.Database.{
  Uuid, Timestamp, CustomerRow, JobRow, AuditEventRow, Database, find_job, find_result,
  find_metadata,
}
use production_cloud_reliabi.Repository.Customers
use production_cloud_reliabi.Repository.Customers.{new_customer, as_duplicate}
use production_cloud_reliabi.Repository.Jobs
use production_cloud_reliabi.Repository.Jobs.{JobView}
use production_cloud_reliabi.World.{
  World, Moment, pure, catch, commit, settle, next, call, transaction, ◌>>=◌,
}
use production_cloud_reliabi.World.Rules.{Ends, Ends-bind, Ends-catch, Ends-map}
use production_cloud_reliabi.Worker.{get_job as repository_get_job}
use production_cloud_reliabi.Api.{
  Response, answered, refused, insert_customer, customer_failure, create_customer, view_failure,
  get_job, count_chars,
}

-- A name of 1 to 200 characters.
abbrev pub is_valid : String → Bool
is_valid name = leb 1 (count_chars name) && leb (count_chars name) 200

-- Some row is in the way of a new customer or of its audit event.
abbrev pub in_use : Uuid → String → Uuid → Database → Bool
in_use i email audit_id db =
    any_of (λ (r : CustomerRow). r.id == i || str_eq r.email email) db.customers
    || any_of (λ (r : AuditEventRow). r.id == audit_id) db.audit_events

-- The exceptions that say that a customer is a duplicate.
abbrev pub IsDuplicate : Exc → Type 0
IsDuplicate e = (e ≡ Exc.unique_violation) ⊎ (e ≡ Exc.duplicate_customer)

-- The customer is the one row that the table has more, it is the customer asked for, and nothing was in
-- its way.
pub record IsRegistered (name email : String) (m : Moment) (before : Database) (row : CustomerRow)
    (after : Database) : Type 0 where
  pub rows : after.customers ≡ before.customers ++ row ∷ []
  pub id : row.id ≡ m.uuid 0
  pub named : (row.name ≡ name) × (row.email ≡ email)
  pub created_at : row.created_at ≡ m.now
  pub unused : in_use (m.uuid 0) email (m.uuid 1) before ≡ false

-- The call was refused for a duplicate: the transaction met that failure, or something was in the way of
-- the customer, and then nothing is changed.
abbrev pub IsClash : String → Moment → World → World → Type 0
IsClash email m before v =
    ((e : Exc) × (m.fault ≡ some e) × IsDuplicate e)
    ⊎ ((m.fault ≡ none) × (in_use (m.uuid 0) email (m.uuid 1) before.db ≡ true) × (v ≡ before))

-- What POST /customers answers, where `address` is the validated email, in the world as the call finds
-- it, `before`.
abbrev pub Registered :
    String → Option String → World → World → Response CustomerRow → World → Type 0
Registered name address w before (answered code row) v =
    (email : String) × (address ≡ some email)
    × (is_valid name ≡ true)
    × (code ≡ 201)
    × ((w.moments w.calls).fault ≡ none)
    × IsRegistered name email (w.moments w.calls) before.db row v.db
Registered name address w before (refused code) v =
    ((code ≡ 422) × (v ≡ w) × ((address ≡ none) ⊎ (is_valid name ≡ false)))
    ⊎ ((email : String) × (address ≡ some email)
        × (is_valid name ≡ true)
        × (((code ≡ 409) × IsClash email (w.moments w.calls) before v)
            ⊎ ((code ≡ 503)
                × ((e : Exc) × ((w.moments w.calls).fault ≡ some e) × (IsDuplicate e → ⊥)))))

inserted :
    (now : Timestamp) (uuid : ℕ → Uuid) (name email : String) (db : Database) (row : CustomerRow)
    (db' : Database)
    → Customers.insert_customer now uuid name email db ≡ ok (row, db')
    → (row ≡ new_customer (uuid 0) name email now)
      × (db'.customers ≡ db.customers ++ row ∷ [])
      × (in_use (uuid 0) email (uuid 1) db ≡ false)
unfolding Customers.insert_customer
inserted now uuid name email db row db' h = ground arith

not_inserted :
    (now : Timestamp) (uuid : ℕ → Uuid) (name email : String) (db : Database) (e : Exc)
    → Customers.insert_customer now uuid name email db ≡ err e
    → (e ≡ Exc.unique_violation) × (in_use (uuid 0) email (uuid 1) db ≡ true)
unfolding Customers.insert_customer
not_inserted now uuid name email db e h = ground arith

-- Another exception is kept by the translation, and answered with 503.
abbrev IsOther : Exc → Type 0
IsOther e =
    (as_duplicate {A = CustomerRow} (err e) ≡ err e)
    × ((codec : Codec) (v : World) → customer_failure codec e v ≡ (ok (refused 503), v))
    × (IsDuplicate e → ⊥)

by_kind : (e : Exc) → (e ≡ Exc.unique_violation) ⊎ ((e ≡ Exc.duplicate_customer) ⊎ IsOther e)
unfolding customer_failure
by_kind Exc.unique_violation = inl refl
by_kind Exc.duplicate_customer = inr (inl refl)
by_kind Exc.not_found = inr (inr (refl, λ c v. refl, λ d. ground arith))
by_kind Exc.lost_job_claim = inr (inr (refl, λ c v. refl, λ d. ground arith))
by_kind Exc.foreign_key_violation = inr (inr (refl, λ c v. refl, λ d. ground arith))
by_kind Exc.value_error = inr (inr (refl, λ c v. refl, λ d. ground arith))
by_kind Exc.key_error = inr (inr (refl, λ c v. refl, λ d. ground arith))
by_kind Exc.attribute_error = inr (inr (refl, λ c v. refl, λ d. ground arith))
by_kind Exc.type_error = inr (inr (refl, λ c v. refl, λ d. ground arith))
by_kind (Exc.external s) = inr (inr (refl, λ c v. refl, λ d. ground arith))

module _ (codec : Codec) (name email : String) (w : World) where
  abbrev moment : Moment
  moment = w.moments w.calls

  abbrev found : World
  found = next codec w

  abbrev New : CustomerRow → World → Type 0
  New row v = (moment.fault ≡ none) × IsRegistered name email moment found.db row v.db

  -- The transaction raises what its call met, or the UniqueViolation of an INSERT.
  abbrev Raised : Exc → World → Type 0
  Raised e v =
      (moment.fault ≡ some e)
      ⊎ ((e ≡ Exc.unique_violation)
          × (moment.fault ≡ none)
          × (in_use (moment.uuid 0) email (moment.uuid 1) found.db ≡ true)
          × (v ≡ found))

  -- The failures of the method.
  abbrev Failed : Exc → World → Type 0
  Failed e v =
      ((e ≡ Exc.duplicate_customer) × IsClash email moment found v)
      ⊎ ((moment.fault ≡ some e) × (IsDuplicate e → ⊥))

  made :
      (r : Result (CustomerRow × Database))
      → Customers.insert_customer moment.now moment.uuid name email found.db ≡ r
      → moment.fault ≡ none
      → Ends New Raised (commit codec r found)
  made (err e) h f =
      let (same, used) = not_inserted moment.now moment.uuid name email found.db e h in
      inr (same, f, used, refl)
  made (ok (row, db)) h f =
      let (same, rows, unused) = inserted moment.now moment.uuid name email found.db row db h in
      (
        f,
        record {
          rows = rows;
          id = ap (λ (r : CustomerRow). r.id) same;
          named = (ap (λ (r : CustomerRow). r.name) same, ap (λ (r : CustomerRow). r.email) same);
          created_at = ap (λ (r : CustomerRow). r.created_at) same;
          unused = unused;
        },
      )

  ended :
      (fault : Option Exc) (took : Bool) (o : Result CustomerRow × World)
      → moment.fault ≡ fault
      → (moment.fault ≡ none → Ends New Raised o)
      → Ends New Raised (settle fault took found o)
  ended none took o f h = h f
  ended (some e) true o f h = inl f
  ended (some e) false o f h = inl f

  translated :
      (e : Exc) (v : World)
      → Raised e v
      → Ends New Failed (as_duplicate {A = CustomerRow} (err e), v)
  translated e v (inr (s, f, u, k)) = rw s (inl (refl, inr (f, u, k)))
  translated e v (inl f) = elim (by_kind e) [
    | inl p ↦ rw p (inl (refl, inl (Exc.unique_violation, f ∙ ap some p, inl refl)))
    | inr (inl p) ↦ rw p (inl (refl, inl (Exc.duplicate_customer, f ∙ ap some p, inr refl)))
    | inr (inr o) ↦ rw o.0 (inr (f, o.2))
  ]

  insert-Ends : Ends New Failed (insert_customer codec name email w)
  unfolding insert_customer transaction call
  insert-Ends =
      Ends-catch New Failed
        (transaction codec (λ m db. Customers.insert_customer m.now m.uuid name email db))
        (λ e v. (as_duplicate {A = CustomerRow} (err e), v)) w
        (Ends-map New New Raised _ _ (λ row v n. n) (λ e v r. translated e v r)
          (ended moment.fault moment.took_effect _ refl
            (made (Customers.insert_customer moment.now moment.uuid name email found.db) refl)))

  failure-Ends :
      (e : Exc) (v : World)
      → is_valid name ≡ true
      → Failed e v
      → Ends
          (λ a u. Registered name (some email) w found a u)
          (λ e u. ⊥)
          (customer_failure codec e v)
  unfolding customer_failure
  failure-Ends e v h (inl (s, c)) = rw s (inr (email, refl, h, inl (refl, c)))
  failure-Ends e v h (inr (f, d)) = elim (by_kind e) [
    | inl p ↦ absurd (d (inl p))
    | inr (inl p) ↦ absurd (d (inr p))
    | inr (inr o) ↦ rw (o.1 codec v) (inr (email, refl, h, inr (refl, (e, f, d))))
  ]

  accepted-Ends :
      is_valid name ≡ true
      → Ends
          (λ a u. Registered name (some email) w found a u)
          (λ e u. ⊥)
          (catch
            (insert_customer codec name email >>= λ row. pure (answered 201 row))
            (customer_failure codec)
            w)
  accepted-Ends h =
      Ends-catch _ _ (insert_customer codec name email >>= λ row. pure (answered 201 row))
        (customer_failure codec) w
        (Ends-bind _ _ (insert_customer codec name email) (λ row. pure (answered 201 row)) w
          (Ends-map New _ Failed _ (insert_customer codec name email w)
            (λ row v n. (email, refl, h, refl, n.0, n.1)) (λ e v f. failure-Ends e v h f)
            insert-Ends))

-- POST /customers never raises, whatever the database does. For an email that does not validate, or a
-- name of no or of over 200 characters, it answers 422 without a call of the database. Otherwise it
-- answers 201 where its transaction meets no failure, and the customer asked for is then added, under an id
-- and an email that no customer had; 409 where that id or email, or the audit event's id, is in use,
-- and then nothing is changed, or where the transaction itself raises the exception for a duplicate;
-- and 503 where the transaction meets another failure.
pub create_customer-Registered :
    (codec : Codec) (read_email : String → Option String) (name email : String) (w : World)
    → Ends
        (λ a v. Registered name (read_email email) w (next codec w) a v)
        (λ e v. ⊥)
        (create_customer codec read_email name email w)
unfolding create_customer
create_customer-Registered codec read_email name email w = elim (Option-cases (read_email email)) [
  | inl e ↦ rw (e, create_customer) (inl (refl, refl, inl refl))
  | inr (address, e) ↦ elim (Bool-cases (is_valid name)) [
    | inl y ↦ rw (e, y, create_customer) (accepted-Ends codec name address w y)
    | inr n ↦ rw (e, n, create_customer) (inl (refl, refl, inr n))
  ]
]

-- The body of GET /jobs/{job_id}, or of its 404.
abbrev pub found_or_404 : Uuid → Database → Option JobRow → Response JobView
found_or_404 i db none = refused 404
found_or_404 i db (some r) = answered 200 (record {
  job = r;
  result = find_result i db.job_results;
  artifact = find_metadata i db.object_metadata;
})

abbrev pub unless : {A : Type 0} → Option Exc → A → Result A
unless none a = ok a
unless (some e) a = err e

module _ (codec : Codec) (i : Uuid) (w : World) where
  reads :
      (m : Moment) (v : World)
      → commit codec (elim (Jobs.get_job i v.db) [ ok view ↦ ok (view, v.db) | err e ↦ err e ]) v
        ≡ (Jobs.get_job i v.db, v)
  unfolding Jobs.get_job
  reads m v = elim (Option-cases (find_job i v.db.jobs)) [
    | inl e ↦ rw (e, Jobs.get_job) refl
    | inr (r, e) ↦ rw (e, Jobs.get_job) refl
  ]

  -- What the handler makes of an answer of the repository.
  abbrev answer_to : Result JobView × World → Result (Response JobView) × World
  answer_to p = catch ((λ _. p) >>= λ view. pure (answered 200 view)) (view_failure codec) w

  viewed :
      (db : Database) (o : Option JobRow)
      → find_job i db.jobs ≡ o
      → Jobs.get_job i db ≡ elim o [
        | none ↦ err Exc.not_found
        | some r ↦ ok (record {
          job = r;
          result = find_result i db.job_results;
          artifact = find_metadata i db.object_metadata;
        })
      ]
  unfolding Jobs.get_job
  viewed db o e = rw (e, Jobs.get_job) refl

  shown :
      (v : World) (o : Option JobRow)
      → find_job i v.db.jobs ≡ o
      → answer_to (Jobs.get_job i v.db, v) ≡ (ok (found_or_404 i v.db o), v)
  unfolding view_failure
  shown v none e = ap (λ r. answer_to (r, v)) (viewed v.db none e)
  shown v (some r) e = ap (λ r. answer_to (r, v)) (viewed v.db (some r) e)

  failed : (e : Exc) (v : World) → some e ≢ some Exc.not_found → answer_to (err e, v) ≡ (err e, v)
  unfolding view_failure
  failed Exc.not_found v n = absurd (n refl)
  failed Exc.duplicate_customer v n = refl
  failed Exc.lost_job_claim v n = refl
  failed Exc.unique_violation v n = refl
  failed Exc.foreign_key_violation v n = refl
  failed Exc.value_error v n = refl
  failed Exc.key_error v n = refl
  failed Exc.attribute_error v n = refl
  failed Exc.type_error v n = refl
  failed (Exc.external s) v n = refl

  settled :
      (fault : Option Exc) (took : Bool) (v : World)
      → fault ≢ some Exc.not_found
      → answer_to (settle fault took v (Jobs.get_job i v.db, v))
        ≡ (unless fault (found_or_404 i v.db (find_job i v.db.jobs)), v)
  settled none took v n = shown v (find_job i v.db.jobs) refl
  settled (some e) true v n = failed e v n
  settled (some e) false v n = failed e v n

  -- GET /jobs/{job_id} changes no table. If its transaction fails, with another exception than the
  -- repository's own NotFoundError, the handler raises that exception; otherwise it answers 200 with the
  -- job, its result and its object if the job is in the tables when the transaction runs, and 404 if it
  -- is not.
  pub get_job-found_or_404 :
      (w.moments w.calls).fault ≢ some Exc.not_found
      → let m = w.moments w.calls in
        let v = next codec w in
        get_job codec i w ≡ (unless m.fault (found_or_404 i v.db (find_job i v.db.jobs)), v)
  unfolding get_job repository_get_job transaction call
  get_job-found_or_404 n =
      let m : Moment = w.moments w.calls in
      let v : World = next codec w in
      ap (λ o. answer_to (settle m.fault m.took_effect v o)) (reads m v)
      ∙ settled m.fault m.took_effect v n
