-- ===== src/Repository/Rows.antt =====
-- How uniqueness of ids, facts about every row, and the number of completed jobs fare under the
-- statements of application/shared/repository.py.
use mathlib.Core.Option
use mathlib.Core.Path.{subst}
use production_cloud_reliabi.Prelude.{
  ℕ, ◌≡◌, ◌+◌, refl, sym, ◌∙◌, Bool, true, false, Option, none, some, List, [], ◌∷◌, ◌++◌, ◌==◌,
  inl, inr, Bool-cases, Option-cases, ==→≡, is_some, if◌then◌else◌, count_if, any_of,
  count_if-append, some_eq, arith,
}
use production_cloud_reliabi.Database.{Uuid, JobStatus, JobRow, find_job}
use production_cloud_reliabi.Repository.Jobs.{is_processing, holds_claim}
use production_cloud_reliabi.Repository.Lookup.{
  UniqueIds, id_is, change_if, find_job-update_self, find_job-update_ne, find_job-append_new,
  find_job-append_old, find_job-none_count, count_if-update,
}
use production_cloud_reliabi.Repository.Steps.{Update, test, change, update, change-id}
use production_cloud_reliabi.Repository.Transitions.{status_in}

pub update-UniqueIds :
    (u : Update) (i : Uuid) (rows : List JobRow) → UniqueIds rows → UniqueIds (update u i rows)
update-UniqueIds u i rows h j =
    rw (count_if-update (test u) (change u) (change-id u) i j rows) (h j)

pub append-UniqueIds :
    (row : JobRow) (rows : List JobRow)
    → find_job row.id rows ≡ none
    → UniqueIds rows
    → UniqueIds (rows ++ row ∷ [])
append-UniqueIds row rows new h j =
    rw (count_if-append (id_is j) rows (row ∷ []))
      (ground (arith, h j, find_job-none_count row.id rows new, ==→≡ row.id j))

-- A fact about every row that an id selects.
abbrev pub AllFound : (JobRow → Type 0) → List JobRow → Type 0
AllFound P rows = (i : Uuid) (r : JobRow) → find_job i rows ≡ some r → P r

module _ (P : JobRow → Type 0) where
  map-found :
      (u : Update) (o : Option JobRow) (r : JobRow)
      → ((s : JobRow) → P s → P (change_if (test u) (change u) s))
      → ((s : JobRow) → o ≡ some s → P s)
      → Option.map (change_if (test u) (change u)) o ≡ some r
      → P r
  map-found u none r keep h e = cc
  map-found u (some s) r keep h e = subst P (some_eq _ r e) (keep s (h s refl))

  pub update-AllFound :
      (u : Update) (i : Uuid) (rows : List JobRow)
      → ((r : JobRow) → P r → P (change_if (test u) (change u) r))
      → AllFound P rows
      → AllFound P (update u i rows)
  update-AllFound u i rows keep h j r e = elim (Bool-cases (j == i)) [
    | inl same ↦ map-found u (find_job j rows) r keep (h j) (sym (find_self same) ∙ e)
    | inr other ↦
        h j r (sym (find_job-update_ne (test u) (change u) (change-id u) i j rows other) ∙ e)
  ]
    where
      find_self :
          (j == i) ≡ true
          → find_job j (update u i rows)
            ≡ Option.map (change_if (test u) (change u)) (find_job j rows)
      find_self p =
          subst
            (λ k.
              find_job k (update u i rows)
              ≡ Option.map (change_if (test u) (change u)) (find_job k rows))
            (sym (==→≡ j i p)) (find_job-update_self (test u) (change u) (change-id u) i rows)

  pub append-AllFound :
      (row : JobRow) (rows : List JobRow) → P row → AllFound P rows → AllFound P (rows ++ row ∷ [])
  append-AllFound row rows p h j r e = elim (Option-cases (find_job j rows)) [
    | inl absent ↦ of_new (sym (find_job-append_new j rows row absent) ∙ e)
    | inr (s, found) ↦
        subst P (some_eq s r (sym (find_job-append_old j rows row s found) ∙ e)) (h j s found)
  ]
    where
      none_ne : none ≡ some r → ⊥
      none_ne q = cc

      of_new : (if row.id == j then some row else none) ≡ some r → P r
      of_new q = elim (Bool-cases (row.id == j)) [
        | inl y ↦ subst P (some_eq row r (rw y at q)) p
        | inr n ↦ absurd (none_ne (rw n at q))
      ]

-- Exactly the processing jobs have a token and the start of a lease.
abbrev pub ClaimRecorded : JobRow → Type 0
ClaimRecorded r =
    (is_some r.processing_token ≡ is_processing r.status)
    × (is_some r.processing_started_at ≡ is_processing r.status)

pub change-ClaimRecorded :
    (u : Update) (r : JobRow) → ClaimRecorded r → ClaimRecorded (change_if (test u) (change u) r)
change-ClaimRecorded (Update.claim now lease_seconds token) r h = ground arith
change-ClaimRecorded _ r h = ground arith

-- 1 for a completed job, and 0 for any other and for none.
abbrev pub done : Option JobStatus → ℕ
done (some JobStatus.completed) = 1
done _ = 0

abbrev pub is_finish : Update → Bool
is_finish (Update.finish now token) = true
is_finish _ = false

change-done :
    (u : Update) (r : JobRow)
    → is_finish u ≡ false
    → done (some (change_if (test u) (change u) r).status) ≡ done (some r.status)
change-done (Update.claim now lease_seconds token) r h = ground arith
change-done _ r h = ground arith

map-done :
    (u : Update) (o : Option JobRow)
    → is_finish u ≡ false
    → done (Option.map (λ (r : JobRow). r.status) (Option.map (change_if (test u) (change u)) o))
      ≡ done (Option.map (λ (r : JobRow). r.status) o)
map-done u none h = refl
map-done u (some r) h = change-done u r h

pub update-done :
    (u : Update) (i j : Uuid) (rows : List JobRow)
    → is_finish u ≡ false
    → done (status_in j (update u i rows)) ≡ done (status_in j rows)
update-done u i j rows h = elim (Bool-cases (j == i)) [
  | inl e ↦
      rw (==→≡ j i e, find_job-update_self (test u) (change u) (change-id u) i rows)
        (map-done u (find_job i rows) h)
  | inr e ↦ rw (find_job-update_ne (test u) (change u) (change-id u) i j rows e)
]

pub finish-done :
    (now token i j : Uuid) (rows : List JobRow) (r : JobRow)
    → find_job i rows ≡ some r
    → holds_claim token r ≡ true
    → done (status_in j (update (Update.finish now token) i rows))
      ≡ done (status_in j rows) + (if i == j then 1 else 0)
finish-done now token i j rows r e h =
    let u : Update = Update.finish now token in
    elim (Bool-cases (j == i)) [
      | inl p ↦
          rw (==→≡ j i p, find_job-update_self (test u) (change u) (change-id u) i rows, e)
            (ground arith)
      | inr p ↦ rw (find_job-update_ne (test u) (change u) (change-id u) i j rows p) (ground arith)
    ]

pub append-done :
    (row : JobRow) (j : Uuid) (rows : List JobRow)
    → row.status ≡ JobStatus.pending
    → done (status_in j (rows ++ row ∷ [])) ≡ done (status_in j rows)
append-done row j rows p = elim (Option-cases (find_job j rows)) [
  | inl e ↦ rw (e, find_job-append_new j rows row e) (ground arith)
  | inr (r, e) ↦ rw (e, find_job-append_old j rows row r e)
]

-- A count of zero is the absence that an INSERT tests for.
pub any_of-none {ℓ} :
    {A : Type ℓ} (p : A → Bool) (xs : List A) → count_if p xs ≡ 0 → any_of p xs ≡ false
any_of-none p [] h = refl
any_of-none p (x ∷ xs) h = ground (arith, any_of-none p xs)
