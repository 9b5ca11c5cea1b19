-- ===== src/Tests/Worker.antt =====
-- The theorems about application/worker/main.py, applied to a worker that finds job 0 pending and a
-- message of it in the queue.
use production_cloud_reliabi.Prelude.{
  ℕ, ◌≡◌, ◌≤◌, ◌++◌, refl, String, true, false, some, [], ◌∷◌, length,
}
use production_cloud_reliabi.Errors.{ok}
use production_cloud_reliabi.Codec.{of_optional}
use production_cloud_reliabi.World.{World, next, call, transaction}
use production_cloud_reliabi.World.Rules.{Ends}
use production_cloud_reliabi.Adapters.{
  JobPublisher, ArtifactStore, job_message, parse_messages, receive_job, put_csv_report, delete,
}
use production_cloud_reliabi.Repository.Jobs.{outbox_payload}
use production_cloud_reliabi.Repository.Jobs
use production_cloud_reliabi.Worker.{
  claim_job, mark_job_processing, complete_claimed_job, complete_job_with_report,
}
use production_cloud_reliabi.Worker.Consume.{ConsumeOptions, consume_one_message}
use production_cloud_reliabi.Worker.Dispatch.{publish_payload, dispatch_outbox}
use production_cloud_reliabi.Worker.Tally.{Tallied, claimed_events, dispatch_outbox-Tallied}
use production_cloud_reliabi.Worker.Loop.{run_worker}
use production_cloud_reliabi.Worker.Order.{InOrder, run_worker-InOrder}
use production_cloud_reliabi.Worker.Acknowledgement.{Accounted, consume_one_message-Accounted}
use production_cloud_reliabi.Worker.Success.{IsProcessed, consume_one_message-IsProcessed}
use production_cloud_reliabi.Worker.Delivery.{given, outbox_payload-received}
use production_cloud_reliabi.Tests.Fixtures.{
  codec, count_letters, round_trips, loads_back, pending_tables, pending-IsConsistent,
  pending-IsAnnounced, pending_job, moment, world, settings,
}

abbrev options : ConsumeOptions
options = record {
  processing_lease_seconds = 120;
  visibility_timeout_seconds = 120;
  visibility_heartbeat_seconds = 30;
}

abbrev bucket : ArtifactStore
bucket = ArtifactStore.s3 "bucket" "reports"

pending-InOrder : InOrder codec pending_tables
pending-InOrder = record { consistent = pending-IsConsistent; announced = pending-IsAnnounced }

run_worker-InOrder_example : InOrder codec (run_worker codec settings 2 world).1.db
run_worker-InOrder_example = run_worker-InOrder codec round_trips settings 2 world pending-InOrder

consume_one_message-Accounted_example :
    Ends
      (λ b v. Accounted codec b world v)
      (λ e v. Accounted codec false world v)
      (consume_one_message codec bucket options world)
consume_one_message-Accounted_example =
    consume_one_message-Accounted codec world bucket options pending-IsConsistent

-- The pending job is completed and its message deleted.
consumed : (consume_one_message codec bucket options world).0 ≡ ok true
unfolding consume_one_message receive_job call claim_job mark_job_processing transaction
    Jobs.mark_job_processing count_letters complete_claimed_job put_csv_report
    complete_job_with_report Jobs.renew_job_processing_lease Jobs.complete_job_with_report
    Jobs.record_completion delete
consumed = refl

outbox_payload-received_example :
    let body : String = codec.dumps (job_message codec 0 (of_optional (given (some "c")))) in
    let v : World = next codec world in
    (publish_payload codec (JobPublisher.sqs "queue") (outbox_payload codec 0 (some "c")) world
      ≡ (ok tt, record v { sent = v.sent ++ ("queue", body) ∷ [] }))
    × (parse_messages codec (record { body = body; receipt_handle = "r" } ∷ [])
        ≡ ok (some (0, "r")))
outbox_payload-received_example =
    outbox_payload-received codec round_trips "queue" 0 (some "c") world "r" [] loads_back refl

-- Nobody else acts, and no call fails.
abbrev quiet_world : World
quiet_world = record world { moments = λ _. record moment { before = [] } }

received : parse_messages codec moment.messages ≡ ok (some (0, "r"))
unfolding count_letters parse_messages
received = refl

consume_one_message-IsProcessed_example : IsProcessed codec bucket options quiet_world 0 "r"
consume_one_message-IsProcessed_example =
    consume_one_message-IsProcessed codec bucket options quiet_world 0 "r" pending_job
      (λ n. (refl, refl)) received pending-IsConsistent refl refl
      (record { result_id = refl; object_id = refl; audit_id = refl })

dispatch_outbox-Tallied_example :
    let claimed = claimed_events codec 10 120 world in
    (length claimed ≤ 10)
    × Ends
        (λ n v. Tallied n (length claimed) world v)
        (λ e v. (n tried : ℕ) × Tallied n tried world v × (tried ≤ length claimed))
        (dispatch_outbox codec (JobPublisher.sqs "queue") 10 120 world)
dispatch_outbox-Tallied_example =
    dispatch_outbox-Tallied codec (JobPublisher.sqs "queue") 10 120 world
