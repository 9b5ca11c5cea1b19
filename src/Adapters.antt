-- ===== src/Adapters.antt =====
-- The adapters of application/shared/adapters.py to SQS, to S3 and to the local stand-ins.
pub mod Factories
pub mod Messages
use Prim.Native.Char.{Char, code}
use Prim.Native.String.{◌++◌ as str_append}
use production_cloud_reliabi.Prelude.{
  ℕ, String, Bool, true, false, not, Option, none, some, List, [], ◌∷◌, ◌++◌, ◌&&◌, ◌==◌, str_eq,
  if◌then◌else◌,
}
use production_cloud_reliabi.Errors.{Exc, Result, ok, err, ◌>>=◌ as bind_result}
use production_cloud_reliabi.Codec.{
  Json, Fields, Codec, get, set, truthy, is_one, is_text, job_id_of,
}
use production_cloud_reliabi.Database.{Uuid}
use production_cloud_reliabi.World.{
  World, Moment, SqsMessage, StoredReport, Exec, pure, modify, call, ◌>>=◌,
}

pub data JobPublisher : Type 0 where
  local noop : JobPublisher
  -- the URL of the queue
  sqs : String → JobPublisher

-- `str.strip("/")`
is_slash : Char → Bool
is_slash c = code c == b'/'

strip_left : String → String
unfolding is_slash
strip_left String.[] = String.[]
strip_left (String.◌∷◌ c s) = if is_slash c then strip_left s else String.◌∷◌ c s

strip_right : String → String
unfolding is_slash
strip_right String.[] = String.[]
strip_right (String.◌∷◌ c s) =
    let rest = strip_right s in
    if is_slash c && str_eq rest "" then String.[] else String.◌∷◌ c rest

unfoldable pub strip : String → String
unfolding strip_left strip_right
strip s = strip_right (strip_left s)

pub data ArtifactStore : Type 0 where
  -- the root directory and the prefix as it was given
  local : String → String → ArtifactStore
  -- the bucket and the prefix as it was given
  s3 : String → String → ArtifactStore

abbrev pub container_of : ArtifactStore → String
container_of (ArtifactStore.local root prefix) = root
container_of (ArtifactStore.s3 bucket prefix) = bucket

abbrev pub prefix_of : ArtifactStore → String
prefix_of (ArtifactStore.local root prefix) = strip prefix
prefix_of (ArtifactStore.s3 bucket prefix) = strip prefix

module _ (codec : Codec) where
  -- The body that SqsJobPublisher.publish sends.
  abbrev pub job_message : Uuid → Json → Json
  job_message job_id correlation_id =
      let message : Fields = Fields.field "version" (Json.num 1) (
        Fields.field "event_type" (Json.str "job.created")
          (Fields.field "job_id" (Json.str (codec.str_uuid job_id)) Fields.end)) in
      if truthy correlation_id
      then Json.obj (set "correlation_id" correlation_id message)
      else Json.obj message

  unfoldable pub publish : JobPublisher → Uuid → Json → Exec (Unit {0})
  publish JobPublisher.local job_id correlation_id =
      modify (λ w. record w { published = w.published ++ (job_id, correlation_id) ∷ [] })
  publish JobPublisher.noop job_id correlation_id = pure tt
  publish (JobPublisher.sqs queue_url) job_id correlation_id = call codec (λ m w. (
    ok tt,
    record w { sent = w.sent ++ (queue_url, codec.dumps (job_message job_id correlation_id)) ∷ [] },
  ))

  -- What receive_job makes of the payload of a message.
  unfoldable pub parse_payload : Json → String → Result (Option (Uuid × String))
  parse_payload (Json.obj d) receipt_handle =
      if is_one (get "version" d) && is_text "job.created" (get "event_type" d)
      then bind_result (job_id_of codec d) (λ job_id. ok (some (job_id, receipt_handle)))
      else err Exc.value_error
  parse_payload _ receipt_handle = err Exc.attribute_error

  unfoldable pub parse_messages : List SqsMessage → Result (Option (Uuid × String))
  unfolding parse_payload
  parse_messages [] = ok none
  parse_messages (message ∷ _) = elim (codec.loads message.body) [
    | none ↦ err (Exc.external "JSONDecodeError")
    | some payload ↦ parse_payload payload message.receipt_handle
  ]

  -- SqsJobConsumer.receive_job
  unfoldable pub receive_job : Exec (Option (Uuid × String))
  unfolding parse_messages
  receive_job = call codec (λ m w. (parse_messages m.messages, w))

  -- SqsJobConsumer.delete
  unfoldable pub delete : String → Exec (Unit {0})
  delete receipt_handle =
      call codec (λ m w. (ok tt, record w { deleted = w.deleted ++ receipt_handle ∷ [] }))

  -- f"{prefix}/{job_id}/{report_id}.csv"
  unfoldable pub object_key : ArtifactStore → Uuid → Uuid → String
  unfolding strip
  object_key store job_id report_id = str_append (prefix_of store) (
      str_append "/" (
        str_append (codec.str_uuid job_id)
          (str_append "/" (str_append (codec.str_uuid report_id) ".csv"))))

  abbrev pub csv_records : List (String × String) → List (String × String)
  csv_records rows = ("field", "value") ∷ rows

  -- put_csv_report of LocalArtifactStore and of S3ArtifactStore; the report's id is drawn first.
  unfoldable pub put_csv_report :
      ArtifactStore → Uuid → List (String × String) → Exec (String × String)
  unfolding object_key
  put_csv_report store job_id rows = call codec (λ m w.
      let key = object_key store job_id (m.uuid 0) in
      (
        ok (key, "text/csv"),
        record w {
          reports =
              w.reports
              ++ record {
                container = container_of store;
                object_key = key;
                records = csv_records rows;
              }
                ∷ [];
        },
      ))
