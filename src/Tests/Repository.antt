-- ===== src/Tests/Repository.antt =====
-- The theorems about application/shared/repository.py and application/shared/config.py, applied to
-- job 0 and its event.
use production_cloud_reliabi.Prelude.{
  ℕ, ◌≡◌, ◌≢◌, ◌+◌, ◌≤◌, ◌<◌, refl, true, false, none, some, [], ◌⊎◌, inr, length, All, arith,
}
use production_cloud_reliabi.Errors.{Exc, ok, err}
use production_cloud_reliabi.Codec.{Json}
use production_cloud_reliabi.Database.{
  Uuid, JobStatus, JobRow, JobResultRow, ObjectMetadataRow, OutboxRow, Database, find_job,
  find_outbox,
}
use production_cloud_reliabi.Repository.Jobs.{
  mark_job_processing, renew_job_processing_lease, complete_job_with_report, fail_job, get_job,
}
use production_cloud_reliabi.Repository.Outbox.{
  claim_outbox_events, mark_outbox_published, mark_outbox_failed,
}
use production_cloud_reliabi.Repository.Actions.{Action, run_action}
use production_cloud_reliabi.Repository.Consistency.{IsConsistent}
use production_cloud_reliabi.Repository.Preservation.{run_action-IsConsistent}
use production_cloud_reliabi.Repository.Announcement.{IsAnnounced, run_action-IsAnnounced}
use production_cloud_reliabi.Repository.Claiming.{IsFree, IsTaken, mark_job_processing-IsTaken}
use production_cloud_reliabi.Repository.Publishing.{
  IsOpen, IsHandedOut, claim_outbox_events-IsHandedOut, Holds, IsPublished, IsFailed,
  mark_outbox-held,
}
use production_cloud_reliabi.Repository.Finished.{IsDone, IsResult, IsObject, complete-get_job_lem}
use production_cloud_reliabi.Repository.Fencing.{
  lost_claim_changes_nothing, IsHeld, run_action-IsHeld,
}
use production_cloud_reliabi.Repository.Transitions.{status_of, may_move, run_action-may_move}
use production_cloud_reliabi.Repository.Completion.{FreshIds}
use production_cloud_reliabi.Repository.DueEvents.{In, NotAfter}
use production_cloud_reliabi.Repository.Dispatch.{UniqueEvents}
use production_cloud_reliabi.Config.{create_settings, validate_worker_runtime}
use production_cloud_reliabi.Config.Intervals.{create_settings-ok, beating_claim_is_kept}
use production_cloud_reliabi.Config.Runtime.{Provided, validate_worker_runtime-Provided}
use production_cloud_reliabi.Tests.Fixtures.{
  codec, round_trips, pending_job, processing_job, pending_event, publishing_event, pending_tables,
  processing_tables, pending-IsConsistent, processing-IsConsistent, pending-IsAnnounced, settings,
}

abbrev ids_from : ℕ → ℕ → Uuid
ids_from k n = k + n

abbrev claim : Action
claim = Action.mark_job_processing 0 120

abbrev completion : Action
completion = Action.complete_job_with_report 0 5 Json.null "key" "text/csv"

run_action-IsConsistent_example :
    IsConsistent (run_action codec 200 (ids_from 10) completion processing_tables)
run_action-IsConsistent_example =
    run_action-IsConsistent codec 200 (ids_from 10) completion processing_tables
      processing-IsConsistent

run_action-IsAnnounced_example : IsAnnounced codec (
    run_action codec 200
      (ids_from 10)
      (Action.create_job "report" Json.null (some "c"))
      pending_tables)
run_action-IsAnnounced_example =
    run_action-IsAnnounced codec round_trips 200 (ids_from 10)
      (Action.create_job "report" Json.null (some "c")) pending_tables pending-IsAnnounced

-- Token 4 is not the token 5 in the row.
other_token :
    (processing_job.status ≢ JobStatus.processing) ⊎ (processing_job.processing_token ≢ some 4)
other_token = inr (λ e. ground (arith, e))

lost_claim_changes_nothing_example :
    (complete_job_with_report 200 (ids_from 10) 0 4 Json.null "key" "text/csv" processing_tables
      ≡ err Exc.lost_job_claim)
    × (renew_job_processing_lease 200 0 4 processing_tables ≡ (false, processing_tables))
    × (fail_job 200 0 4 "error" processing_tables ≡ (false, processing_tables))
lost_claim_changes_nothing_example =
    lost_claim_changes_nothing 200 (ids_from 10) 0 4 Json.null "key" "text/csv" "error"
      processing_tables processing_job processing-IsConsistent.unique refl other_token

mark_job_processing-IsTaken_example :
    let (answer, db') = mark_job_processing 200 (ids_from 10) 0 120 pending_tables in
    ((IsFree 200 120 pending_job
        × ((r' : JobRow) × IsTaken 200 10 pending_job r'
            × (answer ≡ some r')
            × (find_job 0 db'.jobs ≡ some r')))
      ⊎ ((IsFree 200 120 pending_job → ⊥)
          × (answer ≡ none)
          × (find_job 0 db'.jobs ≡ some pending_job)))
    × ((j : Uuid) → (j ≡ 0) ⊎ (find_job j db'.jobs ≡ find_job j pending_tables.jobs))
mark_job_processing-IsTaken_example =
    mark_job_processing-IsTaken 200 (ids_from 10) 0 120 pending_tables pending_job
      pending-IsConsistent.unique refl

processing-IsHeld : IsHeld 0 5 100 processing_tables processing_job
processing-IsHeld = record { found = refl; is_processing = refl; token_in_row = refl; since = refl }

run_action-IsHeld_example :
    IsHeld 0 5 100 (run_action codec 200 (ids_from 10) claim processing_tables) processing_job
run_action-IsHeld_example =
    run_action-IsHeld codec 200 (ids_from 10) claim processing_tables 0 5 100 processing_job
      processing-IsHeld refl

run_action-may_move_example :
    may_move
      (status_of 0 processing_tables)
      (status_of 0 (run_action codec 200 (ids_from 10) completion processing_tables))
    ≡ true
run_action-may_move_example =
    run_action-may_move codec 200 (ids_from 10) completion processing_tables 0

nothing_drawn : FreshIds (ids_from 10) processing_tables
nothing_drawn = record { result_id = refl; object_id = refl; audit_id = refl }

complete-get_job_lem_example :
    (after : Database) × (complete_job_with_report 200
        (ids_from 10)
        0
        5
        Json.null
        "key"
        "text/csv"
        processing_tables
      ≡ ok (tt, after))
    × ((r' : JobRow) × IsDone 200 processing_job r'
        × ((row : JobResultRow) × IsResult 0 Json.null row
            × ((object : ObjectMetadataRow) × IsObject 0 "key" "text/csv" object
                × (get_job 0 after
                    ≡ ok (record { job = r'; result = some row; artifact = some object })))))
complete-get_job_lem_example =
    complete-get_job_lem 200 (ids_from 10) 0 5 Json.null "key" "text/csv" processing_tables
      processing_job processing-IsConsistent refl refl refl nothing_drawn

one_event : UniqueEvents pending_tables.job_outbox
one_event k = ground arith

one_publishing_event : UniqueEvents processing_tables.job_outbox
one_publishing_event k = ground arith

claim_outbox_events-IsHandedOut_example :
    let (events, db') = claim_outbox_events 200 (ids_from 10) 5 60 [] pending_tables in
    (length events ≤ 5)
    × (((IsOpen 200 60 [] pending_event → ⊥) × (find_outbox 1 db'.job_outbox ≡ some pending_event))
        ⊎ (IsOpen 200 60 [] pending_event
            × (((e' : OutboxRow) × IsHandedOut 200 10 pending_event e'
                  × (find_outbox 1 db'.job_outbox ≡ some e')
                  × In e' events)
                ⊎ ((find_outbox 1 db'.job_outbox ≡ some pending_event)
                    × (length events ≡ 5)
                    × All (λ s. NotAfter s pending_event) events))))
claim_outbox_events-IsHandedOut_example =
    claim_outbox_events-IsHandedOut 200 (ids_from 10) 5 60 [] pending_tables 1 pending_event
      one_event refl

mark_outbox-held_example :
    let (published, db1) = mark_outbox_published 200 1 6 processing_tables in
    let (failed, db2) = mark_outbox_failed 200 1 6 "error" processing_tables in
    (Holds 6 publishing_event
      × ((published ≡ true)
          × ((e1 : OutboxRow) × IsPublished 200 publishing_event e1
              × (find_outbox 1 db1.job_outbox ≡ some e1)))
      × ((failed ≡ true)
          × ((e2 : OutboxRow) × IsFailed "error" publishing_event e2
              × (find_outbox 1 db2.job_outbox ≡ some e2))))
    ⊎ ((Holds 6 publishing_event → ⊥)
        × ((published ≡ false) × (find_outbox 1 db1.job_outbox ≡ some publishing_event))
        × ((failed ≡ false) × (find_outbox 1 db2.job_outbox ≡ some publishing_event)))
mark_outbox-held_example =
    mark_outbox-held 200 1 6 "error" processing_tables publishing_event one_publishing_event refl

accepted : create_settings settings ≡ ok settings
unfolding create_settings
accepted = refl

create_settings-ok_example :
    (settings ≡ settings)
    × (0 < settings.sqs_visibility_heartbeat_seconds)
    × (settings.sqs_visibility_heartbeat_seconds < settings.sqs_visibility_timeout_seconds)
    × (settings.sqs_visibility_heartbeat_seconds < settings.job_processing_lease_seconds)
create_settings-ok_example = create_settings-ok settings settings accepted

beating_claim_is_kept_example :
    IsHeld 0 5 100 (run_action codec 200 (ids_from 10) claim processing_tables) processing_job
beating_claim_is_kept_example =
    beating_claim_is_kept codec settings settings 200 100 (ids_from 10) 0 0 5 processing_tables
      processing_job accepted processing-IsHeld (ground arith)

worker_accepted : validate_worker_runtime settings ≡ ok tt
unfolding validate_worker_runtime
worker_accepted = refl

validate_worker_runtime-Provided_example : Provided settings
validate_worker_runtime-Provided_example =
    validate_worker_runtime-Provided settings refl worker_accepted
