-- ===== src/Tests/Api.antt =====
-- The theorems about application/api/main.py and application/migrations.py at concrete inputs.
use production_cloud_reliabi.Prelude.{
  ℕ, suc, ◌≡◌, refl, String, false, true, none, some, List, [], ◌∷◌, All,
}
use production_cloud_reliabi.Errors.{Exc, Result, ok}
use production_cloud_reliabi.Codec.{Json}
use production_cloud_reliabi.World.Rules.{Ends}
use production_cloud_reliabi.Adapters.{JobPublisher}
use production_cloud_reliabi.Adapters.Factories.{create_job_publisher}
use production_cloud_reliabi.Api.{create_job, create_customer, get_job, count_chars}
use production_cloud_reliabi.Api.Registration.{
  Registered, create_customer-Registered, found_or_404, get_job-found_or_404,
}
use production_cloud_reliabi.Database.{find_job}
use production_cloud_reliabi.World.{next}
use production_cloud_reliabi.Api.Acceptance.{Answered, create_job-Answered}
use production_cloud_reliabi.Migrations.{Migration, Schema, is_applied, run_migrations}
use production_cloud_reliabi.Migrations.Rerun.{run_migrations-again}
use production_cloud_reliabi.Tests.Fixtures.{codec, round_trips, world, settings}

cloud_publisher : create_job_publisher settings false ≡ ok JobPublisher.noop
unfolding create_job_publisher
cloud_publisher = refl

create_job-Answered_example :
    Ends
      (λ a v. Answered codec round_trips a v)
      (λ e v. ⊥)
      (create_job codec JobPublisher.noop (some "c") "csv_report" Json.null world)
create_job-Answered_example =
    create_job-Answered codec round_trips settings JobPublisher.noop (some "c") "csv_report"
      Json.null world cloud_publisher

create_customer-Registered_example :
    Ends
      (λ a v. Registered "name" (some "a@example.com") world (next codec world) a v)
      (λ e v. ⊥)
      (create_customer codec (λ email. some email) "name" "a@example.com" world)
unfolding count_chars
create_customer-Registered_example =
    create_customer-Registered codec (λ email. some email) "name" "a@example.com" world

no_fault : none ≡ some Exc.not_found → ⊥
no_fault e = cc

get_job-found_or_404_example :
    let v = next codec world in
    get_job codec 0 world ≡ (ok (found_or_404 0 v.db (find_job 0 v.db.jobs)), v)
get_job-found_or_404_example = get_job-found_or_404 codec 0 world no_fault

-- Executing a script counts it.
abbrev executes : String → ℕ → Result ℕ
executes text n = ok (suc n)

abbrev scripts : List Migration
scripts = record { name = "001"; text = "a" } ∷ record { name = "002"; text = "b" } ∷ []

abbrev first_applied : Schema ℕ
first_applied = record { tables = 1; versions = "001" ∷ [] }

abbrev both_applied : Schema ℕ
both_applied = record { tables = 2; versions = "001" ∷ "002" ∷ [] }

first_run : run_migrations executes scripts first_applied ≡ ok both_applied
unfolding run_migrations
first_run = refl

run_migrations-again_example :
    All (λ m. is_applied m.name both_applied.versions ≡ true) scripts
    × (run_migrations executes scripts both_applied ≡ ok both_applied)
run_migrations-again_example =
    run_migrations-again executes scripts first_applied both_applied first_run
