-- ===== src/Migrations.antt =====
-- run_migrations of application/migrations.py. The scripts are given in the order of their paths; what
-- PostgreSQL makes of a script is a parameter.
pub mod Rerun
use production_cloud_reliabi.Prelude.{
  String, Bool, true, false, List, [], ◌∷◌, ◌++◌, ◌||◌, str_eq, if◌then◌else◌,
}
use production_cloud_reliabi.Errors.{Result, ok, err, ◌>>=◌}

-- A file of the migrations' directory.
pub record Migration : Type 0 where
  pub name : String
  pub text : String

-- The database with the column `version` of schema_migrations.
pub record Schema (Tables : Type 0) : Type 0 where
  pub tables : Tables
  pub versions : List String

-- `name in applied`
abbrev pub is_applied : String → List String → Bool
is_applied name [] = false
is_applied name (v ∷ versions) = str_eq v name || is_applied name versions

module _ {Tables : Type 0} (execute : String → Tables → Result Tables) where
  -- The loop; `applied` was read before it.
  unfoldable pub apply_migrations :
      List Migration → List String → Schema Tables → Result (Schema Tables)
  apply_migrations [] applied s = ok s
  apply_migrations (m ∷ migrations) applied s = elim (is_applied m.name applied) [
    | true ↦ apply_migrations migrations applied s
    | false ↦ elim (execute m.text s.tables) [
      | err e ↦ err e
      | ok tables ↦
          apply_migrations migrations applied
            (record { tables = tables; versions = s.versions ++ m.name ∷ [] })
    ]
  ]

  -- The transaction; schema_migrations exists from the first run on.
  unfoldable pub run_migrations : List Migration → Schema Tables → Result (Schema Tables)
  unfolding apply_migrations
  run_migrations migrations s = apply_migrations migrations s.versions s
