-- ===== src/Platform/Sending.antt =====
-- What an answer of POST /jobs says in the earlier generation of the services
-- (services/platform_app/api/main.py).
use mathlib.Core.Path.{subst}
use production_cloud_reliabi.Prelude.{
  ◌≡◌, refl, sym, ap, ◌&&◌, leb, String, Option, none, some, List, [], ◌∷◌, ◌++◌, Bool-cases, ◌⊎◌,
  inl, inr,
}
use production_cloud_reliabi.Errors.{Result, ok, err}
use production_cloud_reliabi.Codec.{Json, Codec}
use production_cloud_reliabi.Database.{Uuid}
use production_cloud_reliabi.Api.{Response, answered, refused, count_chars}
use production_cloud_reliabi.Platform.Tables
use production_cloud_reliabi.Platform.Tables.{PlatformJob, PlatformTables}
use production_cloud_reliabi.Platform.World.{
  PlatformWorld, pure, call, transaction, commit, next, ◌>>◌,
}
use production_cloud_reliabi.Platform.Queue.{
  send_job, queue_url, known_queue_url, create_queue, nonempty,
}
use production_cloud_reliabi.Platform.Api.{create_job}
use production_cloud_reliabi.Platform.Rules.{Ends, Ends-bind, Ends-map, Ends-call}

module _ (codec : Codec) (w : PlatformWorld) where
  abbrev pub message_for : Uuid → String → String × String × Option String
  message_for i url = (url, codec.str_uuid i, nonempty w.correlation_id)

  -- A 202 comes with one message more, of the job's id and of the correlation id of the request if that
  -- is no empty text; a 422 with nothing done.
  abbrev pub Sent : Response PlatformJob → PlatformWorld → Type 0
  Sent (answered code job) v =
      (code ≡ 202) × ((url : String) × (v.sent ≡ w.sent ++ message_for job.id url ∷ []))
  Sent (refused code) v = (code ≡ 422) × (v ≡ w)

  -- After an exception at most one message was sent.
  abbrev pub AtMostOne : PlatformWorld → Type 0
  AtMostOne v =
      (v.sent ≡ w.sent)
      ⊎ ((i : Uuid) × (url : String) × (v.sent ≡ w.sent ++ message_for i url ∷ []))

  -- Nothing sent yet.
  abbrev Unsent : PlatformWorld → Type 0
  Unsent v = (v.sent ≡ w.sent) × (v.correlation_id ≡ w.correlation_id)

  next-Unsent : (v : PlatformWorld) → Unsent v → Unsent (next v)
  unfolding next
  next-Unsent v u = u

  insert-Ends :
      (job_type : String) (payload : Json)
      → Ends
          (λ job v. Unsent v)
          AtMostOne
          (transaction (λ m db. Tables.create_job m.now m.uuid job_type payload db) w)
  unfolding transaction
  insert-Ends job_type payload =
      let n : Unsent (next w) = next-Unsent w (refl, refl) in
      Ends-call (λ job v. Unsent v) AtMostOne
        (λ m w. commit (Tables.create_job m.now m.uuid job_type payload w.db) w) w (inl n.0)
        (committed (next w) n (
          Tables.create_job (w.moments w.calls).now (w.moments w.calls).uuid job_type payload
            (next w).db))
    where
      committed :
          (v : PlatformWorld)
          → Unsent v
          → (r : Result (PlatformJob × PlatformTables))
          → Ends (λ job v. Unsent v × AtMostOne v) AtMostOne (commit r v)
      committed v n (ok (job, db)) = (n, inl n.0)
      committed v n (err e) = inl n.0

  url-Ends : (v : PlatformWorld) → Unsent v → Ends (λ url v. Unsent v) AtMostOne (queue_url v)
  unfolding queue_url create_queue
  url-Ends v u = known (nonempty v.queue_url)
    where
      known : (url : Option String) → Ends (λ url v. Unsent v) AtMostOne (known_queue_url url v)
      known (some url) = u
      known none =
          let n : Unsent (next v) = next-Unsent v u in
          Ends-bind (λ url v. Unsent v) AtMostOne (call (λ m w. (ok m.created_queue_url, w)))
            (λ url w. (ok url, record w { queue_url = some url })) v
            (Ends-call _ AtMostOne (λ m w. (ok m.created_queue_url, w)) v (inl n.0) (n, inl n.0))

  abbrev SentFor : Uuid → PlatformWorld → Type 0
  SentFor i v = (url : String) × (v.sent ≡ w.sent ++ message_for i url ∷ [])

  send-Ends :
      (i : Uuid) (v : PlatformWorld)
      → Unsent v
      → Ends (λ _ v. SentFor i v) AtMostOne (send_job (codec.str_uuid i) w.correlation_id v)
  unfolding send_job
  send-Ends i v u =
      let body : String = codec.str_uuid i in
      Ends-bind (λ _ v. SentFor i v) AtMostOne queue_url
        (λ url. call (λ m w'.
          (ok tt, record w' { sent = w'.sent ++ (url, body, nonempty w.correlation_id) ∷ [] })))
        v
        (Ends-map (λ url v. Unsent v) _ AtMostOne AtMostOne (queue_url v)
          (λ url x n.
            let k : Unsent (next x) = next-Unsent x n in
            let more =
              ap (λ (l : List (String × String × Option String)). l ++ message_for i url ∷ [])
                k.0 in
            Ends-call (λ _ v. SentFor i v) AtMostOne _ x (inl k.0)
              ((url, more), inr (i, url, more)))
          (λ x a. a) (url-Ends v u))

  answer-Ends :
      (job : PlatformJob) (v : PlatformWorld)
      → Unsent v
      → Ends Sent AtMostOne (
          ((λ x. send_job (codec.str_uuid job.id) x.correlation_id x) >> pure (answered 202 job)) v)
  answer-Ends job v u =
      Ends-bind Sent AtMostOne (λ x. send_job (codec.str_uuid job.id) x.correlation_id x)
        (λ _. pure (answered 202 job)) v
        (Ends-map (λ _ v. SentFor job.id v) _ AtMostOne AtMostOne
          (send_job (codec.str_uuid job.id) v.correlation_id v) (λ _ v s. (refl, s)) (λ v a. a)
          (subst
            (λ c. Ends (λ _ v. SentFor job.id v) AtMostOne (send_job (codec.str_uuid job.id) c v))
            (sym u.1) (send-Ends job.id v u)))

  -- Whatever fails and whoever else acts, POST /jobs of the earlier services answers 202 only after one
  -- message was sent, of the id of the job that it answers and of the correlation id of the request,
  -- if that is not empty; it answers 422 without any call; and if it raises, it has sent at most one
  -- message.
  pub create_job-Sent :
      (job_type : String) (payload : Json)
      → Ends Sent AtMostOne (create_job codec job_type payload w)
  unfolding create_job
  create_job-Sent job_type payload =
      elim (Bool-cases (leb 1 (count_chars job_type) && leb (count_chars job_type) 100)) [
        | inl y ↦
            rw (y, create_job)
              (Ends-bind Sent AtMostOne
                (transaction (λ m db. Tables.create_job m.now m.uuid job_type payload db))
                (λ job.
                  (λ x. send_job (codec.str_uuid job.id) x.correlation_id x)
                  >> pure (answered 202 job))
                w
                (Ends-map (λ job v. Unsent v) _ AtMostOne AtMostOne
                  (transaction (λ m db. Tables.create_job m.now m.uuid job_type payload db) w)
                  answer-Ends (λ v a. a) (insert-Ends job_type payload)))
        | inr n ↦ rw (n, create_job) (refl, refl)
      ]
