-- ===== src/Repository/Lookup.antt =====
-- How the row that an id selects depends on INSERT and UPDATE.
use mathlib.Core.Option
use production_cloud_reliabi.Prelude.{
  ◌≤◌, ◌≡◌, refl, Bool, false, none, some, List, [], ◌∷◌, ◌++◌, ◌&&◌, ◌==◌, if◌then◌else◌, count_if,
  filter_if, is_some, arith,
}
use production_cloud_reliabi.Database.{Uuid, JobRow, find_job, update_where, returning, fetchone}
use production_cloud_reliabi.Repository.Jobs.{has_job}

abbrev pub id_is : Uuid → JobRow → Bool
id_is i r = r.id == i

-- The selection of a statement that names one job.
abbrev pub job_where : Uuid → (JobRow → Bool) → JobRow → Bool
job_where i c r = r.id == i && c r

-- What an UPDATE of one job makes of the row that it selects.
abbrev pub change_if : (JobRow → Bool) → (JobRow → JobRow) → JobRow → JobRow
change_if c f r = if c r then f r else r

module _ (c : JobRow → Bool) (f : JobRow → JobRow) (same_id : (r : JobRow) → (f r).id ≡ r.id) where
  pub find_job-update_self :
      (i : Uuid) (rows : List JobRow)
      → find_job i (update_where (job_where i c) f rows)
        ≡ Option.map (change_if c f) (find_job i rows)
  find_job-update_self i [] = refl
  find_job-update_self i (r ∷ rows) = ground (arith, find_job-update_self i rows, same_id r)

  pub find_job-update_ne :
      (i j : Uuid) (rows : List JobRow)
      → (j == i) ≡ false
      → find_job j (update_where (job_where i c) f rows) ≡ find_job j rows
  find_job-update_ne i j [] h = refl
  find_job-update_ne i j (r ∷ rows) h = ground (arith, find_job-update_ne i j rows h, same_id r)

  pub count_if-update :
      (i j : Uuid) (rows : List JobRow)
      → count_if (id_is j) (update_where (job_where i c) f rows) ≡ count_if (id_is j) rows
  count_if-update i j [] = refl
  count_if-update i j (r ∷ rows) = ground (arith, count_if-update i j rows, same_id r)

  pub has_job-update :
      (i j : Uuid) (rows : List JobRow)
      → has_job j (update_where (job_where i c) f rows) ≡ has_job j rows
  has_job-update i j [] = refl
  has_job-update i j (r ∷ rows) = ground (arith, has_job-update i j rows, same_id r)

pub find_job-append_new :
    (i : Uuid) (rows : List JobRow) (row : JobRow)
    → find_job i rows ≡ none
    → find_job i (rows ++ row ∷ []) ≡ (if row.id == i then some row else none)
find_job-append_new i [] row h = refl
find_job-append_new i (r ∷ rows) row h = ground (arith, find_job-append_new i rows row)

pub find_job-append_old :
    (i : Uuid) (rows : List JobRow) (row r : JobRow)
    → find_job i rows ≡ some r
    → find_job i (rows ++ row ∷ []) ≡ some r
find_job-append_old i [] row r h = ground arith
find_job-append_old i (s ∷ rows) row r h = ground (arith, find_job-append_old i rows row r)

pub find_job-has_job : (i : Uuid) (rows : List JobRow) → is_some (find_job i rows) ≡ has_job i rows
find_job-has_job i [] = refl
find_job-has_job i (r ∷ rows) = ground (arith, find_job-has_job i rows)

-- With unique ids, a statement that names a job touches that job's row alone, and only if the row
-- passes the rest of its WHERE clause.
abbrev pub UniqueIds : List JobRow → Type 0
UniqueIds rows = (i : Uuid) → count_if (id_is i) rows ≤ 1

pub find_job-none_count :
    (i : Uuid) (rows : List JobRow) → find_job i rows ≡ none → count_if (id_is i) rows ≡ 0
find_job-none_count i [] h = refl
find_job-none_count i (r ∷ rows) h = ground (arith, find_job-none_count i rows)

module _ (c : JobRow → Bool) (i : Uuid) where
  filter_if-absent :
      (rows : List JobRow) → count_if (id_is i) rows ≡ 0 → filter_if (job_where i c) rows ≡ []
  filter_if-absent [] h = refl
  filter_if-absent (r ∷ rows) h = ground (arith, filter_if-absent rows)

  pub count_if-absent :
      (rows : List JobRow) → count_if (id_is i) rows ≡ 0 → count_if (job_where i c) rows ≡ 0
  count_if-absent [] h = refl
  count_if-absent (r ∷ rows) h = ground (arith, count_if-absent rows)

  pub filter_if-present :
      (rows : List JobRow) (r : JobRow)
      → count_if (id_is i) rows ≤ 1
      → find_job i rows ≡ some r
      → filter_if (job_where i c) rows ≡ (if c r then r ∷ [] else [])
  filter_if-present [] r u h = ground arith
  filter_if-present (s ∷ rows) r u h =
      ground (arith, filter_if-present rows r, filter_if-absent rows)

  pub count_if-present :
      (rows : List JobRow) (r : JobRow)
      → count_if (id_is i) rows ≤ 1
      → find_job i rows ≡ some r
      → count_if (job_where i c) rows ≡ (if c r then 1 else 0)
  count_if-present [] r u h = ground arith
  count_if-present (s ∷ rows) r u h = ground (arith, count_if-present rows r, count_if-absent rows)

  -- Where no row passes, an UPDATE leaves the table as it is.
  pub update_where-none :
      (f : JobRow → JobRow) (rows : List JobRow)
      → count_if (job_where i c) rows ≡ 0
      → update_where (job_where i c) f rows ≡ rows
  update_where-none f [] h = refl
  update_where-none f (r ∷ rows) h = ground (arith, update_where-none f rows)

  pub fetchone-absent :
      (f : JobRow → JobRow) (rows : List JobRow)
      → count_if (job_where i c) rows ≡ 0
      → fetchone (returning (job_where i c) f rows) ≡ none
  fetchone-absent f [] h = refl
  fetchone-absent f (r ∷ rows) h = ground (arith, fetchone-absent f rows)
