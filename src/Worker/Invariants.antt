-- ===== src/Worker/Invariants.antt =====
-- Invariants of the worker's loop and of its parts (application/worker/main.py), among any other
-- processes and whatever fails.
use production_cloud_reliabi.Prelude.{
  ℕ, zero, suc, String, Bool, true, false, not, ◌||◌, ◌==◌, str_eq, Option, none, some, List, [],
  ◌∷◌, if◌then◌else◌,
}
use production_cloud_reliabi.Errors.{Exc}
use production_cloud_reliabi.Codec.{Codec, Json}
use production_cloud_reliabi.Database.{Uuid, JobRow, OutboxRow}
use production_cloud_reliabi.World.{World, VisibilityHeartbeat, Metric, Exec, pure, raise, count}
use production_cloud_reliabi.World.Keeps.{
  Keeps, IsStable, Keeps-pure, Keeps-raise, Keeps-lift, Keeps-catch, Keeps-bind, Keeps-call,
  Keeps-count,
}
use production_cloud_reliabi.Config.{Settings}
use production_cloud_reliabi.Adapters.{JobPublisher, ArtifactStore, publish, receive_job, delete}
use production_cloud_reliabi.Worker.{
  completed, duplicate_completed, in_progress_not_owned, Claim, claimed, refused,
}
use production_cloud_reliabi.Worker.Keeping.{
  claim_job-Keeps, complete_claimed_job-Keeps, fail_job-Keeps, claim_outbox_events-Keeps,
  mark_outbox_published-Keeps, mark_outbox_failed-Keeps,
}
use production_cloud_reliabi.Worker.Consume.{
  ConsumeOptions, with_heartbeat, give_up, complete_and_delete, handle_claim, handle_message,
  receive_or_none, consume_one_message,
}
use production_cloud_reliabi.Worker.Dispatch.{
  publish_payload, check_schema, count_success, try_dispatch, record_failure, dispatch_event,
  dispatch_events, dispatch_outbox,
}
use production_cloud_reliabi.Worker.Loop.{
  consume_if_cloud, check_consumer, worker_round, worker_loop, run_worker,
}

module _ (codec : Codec) (I : World → Type 0) (s : IsStable codec I) where
  ruleset keeps_rules = (Keeps-pure, Keeps-raise, Keeps-lift, Keeps-catch, Keeps-bind)

  receive_job-Keeps : Keeps I (receive_job codec)
  unfolding receive_job
  receive_job-Keeps = Keeps-call s _ (λ m w h. h)

  pub receive_or_none-Keeps : Keeps I (receive_or_none codec)
  unfolding receive_or_none
  receive_or_none-Keeps = search (keeps_rules, receive_job-Keeps)

  publish-Keeps : (p : JobPublisher) (i : Uuid) (c : Json) → Keeps I (publish codec p i c)
  unfolding publish
  publish-Keeps JobPublisher.local i c = record { at = λ w h. s.at_publish _ w h }
  publish-Keeps JobPublisher.noop i c = Keeps-pure tt
  publish-Keeps (JobPublisher.sqs url) i c = Keeps-call s _ (λ m w h. s.at_send _ w h)

  publish_payload-Keeps : (p : JobPublisher) (j : Json) → Keeps I (publish_payload codec p j)
  unfolding publish_payload
  publish_payload-Keeps p (Json.obj d) = search (keeps_rules, publish-Keeps)
  publish_payload-Keeps p _ = search keeps_rules

  check_schema-Keeps : (p : JobPublisher) (e : OutboxRow) → Keeps I (check_schema codec p e)
  unfolding check_schema
  check_schema-Keeps p e = either (not (str_eq e.event_type "job.created") || not (e.version == 1))
    where
      either : (b : Bool) → Keeps I (if b then raise Exc.value_error else pure tt)
      either true = Keeps-raise Exc.value_error
      either false = Keeps-pure tt

  count_success-Keeps : (p : JobPublisher) (b : Bool) → Keeps I (count_success codec p b)
  unfolding count_success
  count_success-Keeps p true = search (keeps_rules, Keeps-count s)
  count_success-Keeps p false = search keeps_rules

  try_dispatch-Keeps : (p : JobPublisher) (e : OutboxRow) → Keeps I (try_dispatch codec p e)
  unfolding try_dispatch
  try_dispatch-Keeps p e =
      search
        (
          keeps_rules,
          Keeps-count s,
          check_schema-Keeps,
          publish_payload-Keeps,
          mark_outbox_published-Keeps codec I s,
          count_success-Keeps,
        )
        depth 8

  record_failure-Keeps :
      (p : JobPublisher) (e : OutboxRow) (x : Exc) → Keeps I (record_failure codec p e x)
  unfolding record_failure
  record_failure-Keeps p e x =
      search (keeps_rules, Keeps-count s, mark_outbox_failed-Keeps codec I s)

  count_if_reclaimed-Keeps :
      (b : Bool) → Keeps I (if b then count (Metric.outbox_reclaims "reclaimed") else pure tt)
  count_if_reclaimed-Keeps true = Keeps-count s (Metric.outbox_reclaims "reclaimed")
  count_if_reclaimed-Keeps false = Keeps-pure tt

  dispatch_event-Keeps : (p : JobPublisher) (e : OutboxRow) → Keeps I (dispatch_event codec p e)
  unfolding dispatch_event
  dispatch_event-Keeps p e =
      search (keeps_rules, count_if_reclaimed-Keeps, try_dispatch-Keeps, record_failure-Keeps)

  dispatch_events-Keeps :
      (p : JobPublisher) (events : List OutboxRow) (n : ℕ)
      → Keeps I (dispatch_events codec p events n)
  unfolding dispatch_events
  dispatch_events-Keeps p [] n = Keeps-pure n
  dispatch_events-Keeps p (e ∷ events) n =
      Keeps-bind _ _ (dispatch_event-Keeps p e) (λ k. dispatch_events-Keeps p events _)

  -- Dispatching keeps what the environment and the transactions keep.
  pub dispatch_outbox-Keeps :
      (p : JobPublisher) (limit lease : ℕ) → Keeps I (dispatch_outbox codec p limit lease)
  unfolding dispatch_outbox
  dispatch_outbox-Keeps p limit lease =
      search (keeps_rules, claim_outbox_events-Keeps codec I s, dispatch_events-Keeps)

  pub with_heartbeat-Keeps :
      {A : Type 0} (h : VisibilityHeartbeat) (m : Exec A) → Keeps I m → Keeps I (with_heartbeat h m)
  unfolding with_heartbeat
  with_heartbeat-Keeps h m k = record {
    at = λ w i. s.at_heartbeat none _ (k.at _ (s.at_heartbeat (some h) w i));
  }

  pub give_up-Keeps : (i : Uuid) (job : JobRow) (e : Exc) → Keeps I (give_up codec i job e)
  unfolding give_up
  give_up-Keeps i job Exc.lost_job_claim = search keeps_rules
  give_up-Keeps i job _ = search (keeps_rules, fail_job-Keeps codec I s)

  module _
      (removes : (deleted : List String) (w : World)
        → I w
        → I (record w { deleted = deleted })) where
    delete-Keeps : (h : String) → Keeps I (delete codec h)
    unfolding delete
    delete-Keeps h = Keeps-call s _ (λ m w i. removes _ w i)

    complete_and_delete-Keeps :
        (store : ArtifactStore) (o : ConsumeOptions) (i : Uuid) (h : String) (job : JobRow)
        → Keeps I (complete_and_delete codec store o i h job)
    unfolding complete_and_delete
    complete_and_delete-Keeps store o i h job =
        search
          (keeps_rules, with_heartbeat-Keeps, complete_claimed_job-Keeps codec I s, delete-Keeps)

    handle_claim-Keeps :
        (store : ArtifactStore) (o : ConsumeOptions) (i : Uuid) (h : String) (c : Claim)
        → Keeps I (handle_claim codec store o i h c)
    unfolding handle_claim
    handle_claim-Keeps store o i h (refused duplicate_completed) =
        search (keeps_rules, delete-Keeps)
    handle_claim-Keeps store o i h (refused in_progress_not_owned) = search keeps_rules
    handle_claim-Keeps store o i h (refused completed) = search keeps_rules
    handle_claim-Keeps store o i h (claimed job) =
        search (keeps_rules, complete_and_delete-Keeps, give_up-Keeps)

    handle_message-Keeps :
        (store : ArtifactStore) (o : ConsumeOptions) (m : Option (Uuid × String))
        → Keeps I (handle_message codec store o m)
    unfolding handle_message
    handle_message-Keeps store o none = search keeps_rules
    handle_message-Keeps store o (some (i, h)) =
        search (keeps_rules, claim_job-Keeps codec I s, handle_claim-Keeps)

    pub consume_one_message-Keeps :
        (store : ArtifactStore) (o : ConsumeOptions) → Keeps I (consume_one_message codec store o)
    unfolding consume_one_message
    consume_one_message-Keeps store o =
        search (keeps_rules, receive_or_none-Keeps, handle_message-Keeps)

    consume_if_cloud-Keeps :
        (settings : Settings) (store : ArtifactStore) (b : Bool)
        → Keeps I (consume_if_cloud codec settings store b)
    consume_if_cloud-Keeps settings store true = search (keeps_rules, consume_one_message-Keeps)
    consume_if_cloud-Keeps settings store false = Keeps-pure tt

    worker_round-Keeps :
        (settings : Settings) (p : JobPublisher) (store : ArtifactStore)
        → Keeps I (worker_round codec settings p store)
    unfolding worker_round
    worker_round-Keeps settings p store =
        search (keeps_rules, dispatch_outbox-Keeps, consume_if_cloud-Keeps)

    worker_loop-Keeps :
        (settings : Settings) (p : JobPublisher) (store : ArtifactStore) (rounds : ℕ)
        → Keeps I (worker_loop codec settings p store rounds)
    unfolding worker_loop
    worker_loop-Keeps settings p store zero = Keeps-pure tt
    worker_loop-Keeps settings p store (suc rounds) =
        Keeps-bind (worker_round codec settings p store)
          (λ _. worker_loop codec settings p store rounds) (worker_round-Keeps settings p store)
          (λ _. worker_loop-Keeps settings p store rounds)

    check_consumer-Keeps :
        (settings : Settings) (b : Bool) → Keeps I (check_consumer codec settings b)
    check_consumer-Keeps settings true = search keeps_rules
    check_consumer-Keeps settings false = Keeps-pure tt

    pub run_worker-Keeps :
        (settings : Settings) (rounds : ℕ) → Keeps I (run_worker codec settings rounds)
    unfolding run_worker
    run_worker-Keeps settings rounds =
        search (keeps_rules, check_consumer-Keeps, worker_loop-Keeps) depth 10
