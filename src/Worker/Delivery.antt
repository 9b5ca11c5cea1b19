-- ===== src/Worker/Delivery.antt =====
-- The way of a job from the outbox (create_job of application/shared/repository.py) through
-- publish_payload of the dispatcher (application/worker/main.py) and SQS to the consumer.
use production_cloud_reliabi.Prelude.{
  ◌≡◌, ◌∙◌, refl, String, Option, none, some, List, [], ◌∷◌, ◌++◌, str_eq, Bool-cases, inl, inr,
  if◌then◌else◌,
}
use production_cloud_reliabi.Errors.{ok}
use production_cloud_reliabi.Codec.{Codec, UuidRoundTrips, LoadsBack, of_optional}
use production_cloud_reliabi.Database.{Uuid}
use production_cloud_reliabi.World.{World, SqsMessage, next}
use production_cloud_reliabi.World.Rules.{call-quiet}
use production_cloud_reliabi.Adapters.{JobPublisher, job_message, publish, parse_messages}
use production_cloud_reliabi.Adapters.Messages.{uuid_of-str, parse-sent}
use production_cloud_reliabi.Repository.Jobs.{outbox_payload}
use production_cloud_reliabi.Worker.Dispatch.{publish_payload}

-- The correlation id that is published: an empty one is none.
abbrev pub given : Option String → Option String
given none = none
given (some c) = if str_eq c "" then none else some c

module _ (codec : Codec) (law : UuidRoundTrips codec) where
  -- Publishing the payload that create_job wrote is publishing its job.
  publish_payload-outbox_payload :
      (p : JobPublisher) (i : Uuid) (c : Option String) (w : World)
      → publish_payload codec p (outbox_payload codec i c) w
        ≡ publish codec p i (of_optional (given c)) w
  unfolding publish_payload
  publish_payload-outbox_payload p i none w = rw (publish_payload, uuid_of-str codec law i) refl
  publish_payload-outbox_payload p i (some c) w = elim (Bool-cases (str_eq c "")) [
    | inl e ↦ rw (e, publish_payload, uuid_of-str codec law i) refl
    | inr e ↦ rw (e, publish_payload, uuid_of-str codec law i) refl
  ]

  -- The payload that create_job writes for a job, published by a dispatcher to SQS in a call that
  -- succeeds, sends one message to the dispatcher's queue and changes nothing else; and whichever
  -- receipt handle that message is delivered with, the consumer reads from it the job and the handle.
  -- UUIDs are read back from their texts, and JSON reads back the messages about this job.
  pub outbox_payload-received :
      (url : String) (i : Uuid) (c : Option String) (w : World) (h : String)
      (rest : List SqsMessage)
      → ((c : Option String) → LoadsBack codec (job_message codec i (of_optional c)))
      → (w.moments w.calls).fault ≡ none
      → let body : String = codec.dumps (job_message codec i (of_optional (given c))) in
        let v : World = next codec w in
        (publish_payload codec (JobPublisher.sqs url) (outbox_payload codec i c) w
          ≡ (ok tt, record v { sent = v.sent ++ (url, body) ∷ [] }))
        × (parse_messages codec (record { body = body; receipt_handle = h } ∷ rest)
            ≡ ok (some (i, h)))
  unfolding publish
  outbox_payload-received url i c w h rest back quiet = (
    publish_payload-outbox_payload (JobPublisher.sqs url) i c w ∙ call-quiet codec _ w quiet,
    parse-sent codec law i (of_optional (given c)) h rest (back (given c)),
  )
