-- ===== src/Migrations/Rerun.antt =====
-- Running the migrations again (application/migrations.py).
use text.Mathlib.Text.{is_eq}
use text.Mathlib.TextPositions.{compare_refl}
use production_cloud_reliabi.Prelude.{
  ◌≡◌, refl, sym, ◌∙◌, ap, String, true, false, List, [], ◌∷◌, ◌++◌, ◌||◌, str_eq, Bool-cases, inl,
  inr, All, arith,
}
use production_cloud_reliabi.Errors.{Result, ok, err}
use production_cloud_reliabi.Migrations.{
  Migration, Schema, is_applied, apply_migrations, run_migrations,
}

is_applied-append :
    (n : String) (versions : List String) (v : String)
    → is_applied n (versions ++ v ∷ []) ≡ (is_applied n versions || str_eq v n)
is_applied-append n [] v = ground arith
is_applied-append n (u ∷ versions) v = ground (arith, is_applied-append n versions v)

str_eq_refl : (s : String) → str_eq s s ≡ true
str_eq_refl s = ap is_eq (compare_refl s)

module _ {Tables : Type 0} (execute : String → Tables → Result Tables) where
  -- One step of the loop that applies a script.
  applied_step :
      (m : Migration) (migrations : List Migration) (applied : List String) (s t : Schema Tables)
      → is_applied m.name applied ≡ false
      → apply_migrations execute (m ∷ migrations) applied s ≡ ok t
      → (tables : Tables) × (apply_migrations execute migrations applied
            (record { tables = tables; versions = s.versions ++ m.name ∷ [] })
          ≡ ok t)
  unfolding apply_migrations
  applied_step m migrations applied s t n h =
      executed (execute m.text s.tables) (sym (rw (apply_migrations, n) refl) ∙ h)
    where
      rest : Tables → Result (Schema Tables)
      rest tables =
          apply_migrations execute migrations applied
            (record { tables = tables; versions = s.versions ++ m.name ∷ [] })

      executed :
          (r : Result Tables)
          → (elim r [ err e ↦ err e | ok tables ↦ rest tables ]) ≡ ok t
          → (tables : Tables) × (rest tables ≡ ok t)
      executed (ok tables) h = (tables, h)
      executed (err e) h = ground arith

  skipped_step :
      (m : Migration) (migrations : List Migration) (applied : List String) (s : Schema Tables)
      → is_applied m.name applied ≡ true
      → apply_migrations execute (m ∷ migrations) applied s
        ≡ apply_migrations execute migrations applied s
  unfolding apply_migrations
  skipped_step m migrations applied s y = rw (apply_migrations, y) refl

  -- Versions are only added.
  apply_migrations-keeps :
      (migrations : List Migration) (applied : List String) (s t : Schema Tables) (n : String)
      → apply_migrations execute migrations applied s ≡ ok t
      → is_applied n s.versions ≡ true
      → is_applied n t.versions ≡ true
  unfolding apply_migrations
  apply_migrations-keeps [] applied s t n h a = ground arith
  apply_migrations-keeps (m ∷ migrations) applied s t n h a =
      elim (Bool-cases (is_applied m.name applied)) [
        | inl y ↦
            apply_migrations-keeps migrations applied s t n
              (sym (skipped_step m migrations applied s y) ∙ h) a
        | inr k ↦
            let (tables, e) = applied_step m migrations applied s t k h in
            apply_migrations-keeps migrations applied
              (record { tables = tables; versions = s.versions ++ m.name ∷ [] }) t n e
              (is_applied-append n s.versions m.name ∙ ground (arith, a))
      ]

  -- Each migration was applied before, or its version is there afterwards.
  apply_migrations-All :
      (migrations : List Migration) (applied : List String) (s t : Schema Tables)
      → apply_migrations execute migrations applied s ≡ ok t
      → All (λ m. (is_applied m.name applied || is_applied m.name t.versions) ≡ true) migrations
  apply_migrations-All [] applied s t h = tt
  apply_migrations-All (m ∷ migrations) applied s t h =
      elim (Bool-cases (is_applied m.name applied)) [
        | inl y ↦ (
          ground arith,
          apply_migrations-All migrations applied s t
              (sym (skipped_step m migrations applied s y) ∙ h),
        )
        | inr k ↦
            let (tables, e) = applied_step m migrations applied s t k h in
            let after : Schema Tables = record {
              tables = tables;
              versions = s.versions ++ m.name ∷ [];
            } in
            (
              ground (
                arith,
                apply_migrations-keeps migrations applied after t m.name e (
                    is_applied-append m.name s.versions m.name
                    ∙ ground (arith, str_eq_refl m.name)),
              ),
              apply_migrations-All migrations applied after t e,
            )
      ]

  -- Migrations that are all applied leave everything as it is.
  apply_migrations-none :
      (migrations : List Migration) (applied : List String) (s : Schema Tables)
      → All (λ m. is_applied m.name applied ≡ true) migrations
      → apply_migrations execute migrations applied s ≡ ok s
  unfolding apply_migrations
  apply_migrations-none [] applied s h = refl
  apply_migrations-none (m ∷ migrations) applied s h =
      skipped_step m migrations applied s h.0 ∙ apply_migrations-none migrations applied s h.1

  versions_recorded :
      (migrations : List Migration) (applied versions : List String)
      → ((n : String) → is_applied n applied ≡ true → is_applied n versions ≡ true)
      → All (λ m. (is_applied m.name applied || is_applied m.name versions) ≡ true) migrations
      → All (λ m. is_applied m.name versions ≡ true) migrations
  versions_recorded [] applied versions keep h = tt
  versions_recorded (m ∷ migrations) applied versions keep h = (
    elim (Bool-cases (is_applied m.name applied)) [
      | inl y ↦ keep m.name y
      | inr n ↦ ground (arith, h.0)
    ],
    versions_recorded migrations applied versions keep h.1,
  )

  -- After a run of the migrations that succeeds, every migration's version is recorded, and running
  -- the same migrations again executes no script: it succeeds and changes nothing.
  pub run_migrations-again :
      (migrations : List Migration) (s t : Schema Tables)
      → run_migrations execute migrations s ≡ ok t
      → All (λ m. is_applied m.name t.versions ≡ true) migrations
        × (run_migrations execute migrations t ≡ ok t)
  unfolding run_migrations
  run_migrations-again migrations s t h =
      let recorded =
        versions_recorded migrations s.versions t.versions
          (λ n a. apply_migrations-keeps migrations s.versions s t n h a)
          (apply_migrations-All migrations s.versions s t h) in
      (recorded, apply_migrations-none migrations t.versions t recorded)
