-- ===== src/Tests/Board.antt =====
-- The theorems about the board of jobs and about lists of customers at concrete tables.
use production_cloud_reliabi.Prelude.{
  ℕ, ◌≡◌, ◌+◌, ◌⊎◌, refl, [], ◌∷◌, true, is_some, if◌then◌else◌, arith,
}
use production_cloud_reliabi.Errors.{Exc, err}
use production_cloud_reliabi.Codec.{Json}
use production_cloud_reliabi.Database.{Uuid, CustomerRow, Database}
use production_cloud_reliabi.Database.Newest.{IsNewest}
use production_cloud_reliabi.Repository.Customers.{list_customers, list_customers-IsNewest}
use production_cloud_reliabi.Repository.Jobs.{
  mark_job_processing, renew_job_processing_lease, complete_job_with_report, fail_job,
}
use production_cloud_reliabi.Repository.Actions.{Action, run_action}
use production_cloud_reliabi.Repository.Board.{board, effect, raises}
use production_cloud_reliabi.Repository.Refinement.{run_action-board}
use production_cloud_reliabi.Repository.Dispatch.{UniqueEvents}
use production_cloud_reliabi.Repository.EventLife.{Lives, run_action-Lives}
use production_cloud_reliabi.Repository.BoardAnswers.{is_free, is_held, answers-board}
use production_cloud_reliabi.Tests.Fixtures.{
  codec, processing_tables, processing-IsConsistent, publishing_event,
}

abbrev draws : ℕ → Uuid
draws n = n + 10

abbrev completing : Action
completing = Action.complete_job_with_report 0 5 Json.null "key" "text/csv"

run_action-board_example : board (run_action codec 200 draws completing processing_tables) 0 ≡ (
    if raises codec 200 draws completing processing_tables
    then board processing_tables 0
    else effect 200 draws completing (board processing_tables) 0)
run_action-board_example =
    run_action-board codec 200 draws completing processing_tables 0 processing-IsConsistent

answers-board_example :
    (is_some (mark_job_processing 200 draws 0 60 processing_tables).0
      ≡ is_free 200 60 (board processing_tables 0))
    × ((renew_job_processing_lease 200 0 6 processing_tables).0
        ≡ is_held 6 (board processing_tables 0))
    × ((fail_job 200 0 6 "error" processing_tables).0 ≡ is_held 6 (board processing_tables 0))
    × ((is_held 6 (board processing_tables 0) ≡ true)
        ⊎ (complete_job_with_report 200 draws 0 6 Json.null "key" "text/csv" processing_tables
            ≡ err Exc.lost_job_claim))
answers-board_example =
    answers-board 200 0 processing_tables processing-IsConsistent draws 60 6 Json.null "key"
      "text/csv" "error"

abbrev customer : ℕ → CustomerRow
customer n = record { id = n; name = "name"; email = "a@example.com"; created_at = n }

abbrev customer_tables : Database
customer_tables = record processing_tables { customers = customer 3 ∷ customer 9 ∷ [] }

list_customers-IsNewest_example :
    IsNewest
      (λ (r : CustomerRow). r.created_at)
      100
      (customer 3 ∷ customer 9 ∷ [])
      (list_customers customer_tables)
list_customers-IsNewest_example = list_customers-IsNewest customer_tables

one_event : UniqueEvents processing_tables.job_outbox
one_event k = ground arith

run_action-Lives_example :
    Lives 1 publishing_event
      (run_action codec 200 draws
        (Action.mark_outbox_failed 1 6 "error")
        processing_tables).job_outbox
run_action-Lives_example =
    run_action-Lives codec 200 draws processing_tables 1 publishing_event one_event refl
      (Action.mark_outbox_failed 1 6 "error")
