-- ===== src/Adapters/Messages.antt =====
-- The messages that SqsJobPublisher sends and SqsJobConsumer reads (application/shared/adapters.py).
use production_cloud_reliabi.Prelude.{◌≡◌, refl, String, some, List, ◌∷◌, Bool-cases, inl, inr}
use production_cloud_reliabi.Errors.{ok}
use production_cloud_reliabi.Codec.{Json, Codec, UuidRoundTrips, LoadsBack, truthy, uuid_of}
use production_cloud_reliabi.Database.{Uuid}
use production_cloud_reliabi.World.{SqsMessage}
use production_cloud_reliabi.Adapters.{job_message, parse_payload, parse_messages}

module _ (codec : Codec) (law : UuidRoundTrips codec) where
  pub uuid_of-str : (i : Uuid) → uuid_of codec (Json.str (codec.str_uuid i)) ≡ ok i
  uuid_of-str i = rw (uuid_of, law i) refl

  -- What a consumer makes of the payload of a publisher's message: its job, whatever the correlation id.
  parse-job_message :
      (i : Uuid) (c : Json) (h : String)
      → parse_payload codec (job_message codec i c) h ≡ ok (some (i, h))
  unfolding parse_payload
  parse-job_message i c h = elim (Bool-cases (truthy c)) [
    | inl e ↦ rw (e, parse_payload, uuid_of-str i) refl
    | inr e ↦ rw (e, parse_payload, uuid_of-str i) refl
  ]

  -- The same through the queue's text.
  pub parse-sent :
      (i : Uuid) (c : Json) (h : String) (rest : List SqsMessage)
      → LoadsBack codec (job_message codec i c)
      → parse_messages codec
          (record { body = codec.dumps (job_message codec i c); receipt_handle = h } ∷ rest)
        ≡ ok (some (i, h))
  unfolding parse_messages
  parse-sent i c h rest back = rw (parse_messages, back) (parse-job_message i c h)
