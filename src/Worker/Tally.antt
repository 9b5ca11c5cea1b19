-- ===== src/Worker/Tally.antt =====
-- How dispatch_outbox of application/worker/main.py counts what it dispatches.

use production_cloud_reliabi.Prelude.{
  ℕ, suc, ◌≡◌, ◌+◌, ◌≤◌, refl, ap, Bool, true, false, not, ◌||◌, List, [], ◌∷◌, str_eq, ◌==◌, ltb,
  length, length-map, length-take_le, filter_if, Bool-cases, inl, inr, arith,
}
use production_cloud_reliabi.Errors.{Exc, Result, ok, err, type_name}
use production_cloud_reliabi.Codec.{Codec, Json, get, job_id_of}
use production_cloud_reliabi.Database.{OutboxRow, Database}
use production_cloud_reliabi.Repository.Outbox
use production_cloud_reliabi.World.{
  World, Moment, Metric, pure, catch, lift, commit, transaction, next, inc, ◌>>=◌, ◌>>◌,
}
use production_cloud_reliabi.World.Rules.{Ends, Ends-bind, Ends-catch, Ends-map, Ends-call}
use production_cloud_reliabi.Adapters.{JobPublisher, publish}
use production_cloud_reliabi.Worker.{claim_outbox_events, mark_outbox_published, mark_outbox_failed}
use production_cloud_reliabi.Worker.Dispatch.{
  publish_payload, check_schema, count_success, try_dispatch, record_failure, count_reclaim,
  dispatch_event, dispatch_events, dispatch_outbox, claim_token_of,
}
use production_cloud_reliabi.Worker.Counts.{
  total, Counts, inc-Counts, next-Counts, published-Counts, failed-Counts,
}

module _ (codec : Codec) (publisher : JobPublisher) where
  publish-Counts :
      {s a : ℕ} (i : ℕ) (c : Json) (w : World)
      → Counts s a w
      → Ends (λ x v. Counts s a v) (λ e v. Counts s a v) (publish codec publisher i c w)
  unfolding publish
  publish-Counts {s} {a} i c w n = by_publisher publisher
    where
      by_publisher :
          (p : JobPublisher)
          → Ends (λ x v. Counts s a v) (λ e v. Counts s a v) (publish codec p i c w)
      by_publisher JobPublisher.local = record { successes = n.successes; attempts = n.attempts }
      by_publisher JobPublisher.noop = n
      by_publisher (JobPublisher.sqs url) =
          let k = next-Counts codec w n in
          Ends-call codec (λ x v. Counts s a v) (λ e v. Counts s a v) _ w (λ e. k)
            (λ e. record { successes = k.successes; attempts = k.attempts })
            (record { successes = k.successes; attempts = k.attempts })

  payload-Counts :
      {s a : ℕ} (payload : Json) (w : World)
      → Counts s a w
      → Ends (λ x v. Counts s a v) (λ e v. Counts s a v) (publish_payload codec publisher payload w)
  unfolding publish_payload
  payload-Counts {s} {a} (Json.obj d) w n =
      Ends-bind _ _ (lift (job_id_of codec d))
        (λ i. publish codec publisher i (get "correlation_id" d)) w (read (job_id_of codec d))
    where
      read :
          (r : Result ℕ)
          → Ends
              (λ i v.
                Ends
                  (λ x v. Counts s a v)
                  (λ e v. Counts s a v)
                  (publish codec publisher i (get "correlation_id" d) v))
              (λ e v. Counts s a v)
              (r, w)
      read (ok i) = publish-Counts i (get "correlation_id" d) w n
      read (err e) = n
  payload-Counts _ w n = n

  schema-Counts :
      {s a : ℕ} (event : OutboxRow) (w : World)
      → Counts s a w
      → Ends (λ x v. Counts s a v) (λ e v. Counts s a v) (check_schema codec publisher event w)
  unfolding check_schema
  schema-Counts event w n =
      elim (Bool-cases (not (str_eq event.event_type "job.created") || not (event.version == 1))) [
        | inl y ↦ rw (y, check_schema) n
        | inr f ↦ rw (f, check_schema) n
      ]

  -- One attempt more, and as many successes more as the result says.
  abbrev Tried : ℕ → ℕ → ℕ → World → Type 0
  Tried s a n v = Counts (s + n) (a + 1) v × (n ≤ 1)

  success-Tried :
      (s a : ℕ) (marked : Bool) (w : World)
      → Counts s (a + 1) w
      → Ends (Tried s a) (λ e v. Counts s (a + 1) v) (count_success codec publisher marked w)
  unfolding count_success
  success-Tried s a true w c =
      let k = inc-Counts (Metric.outbox_dispatch "success") w c in
      (record { successes = k.successes; attempts = omega (arith, k.attempts) }, omega arith)
  success-Tried s a false w c =
      (record { successes = omega (arith, c.successes); attempts = c.attempts }, omega arith)

  try-Tried :
      {s a : ℕ} (event : OutboxRow) (w : World)
      → Counts s a w
      → Ends (Tried s a) (λ e v. Counts s (a + 1) v) (try_dispatch codec publisher event w)
  unfolding try_dispatch
  try-Tried {s} {a} event w c =
      let k = inc-Counts (Metric.outbox_dispatch "attempt") w c in
      let start : Counts s (a + 1) (inc (Metric.outbox_dispatch "attempt") w) = record {
        successes = omega (arith, k.successes);
        attempts = k.attempts;
      } in
      let E : Exc → World → Type 0 = λ e v. Counts s (a + 1) v in
      Ends-bind (Tried s a) E (check_schema codec publisher event)
        (λ _. do
          publish_payload codec publisher event.payload
          marked ← mark_outbox_published codec event.id (claim_token_of event)
          count_success codec publisher marked)
        (inc (Metric.outbox_dispatch "attempt") w)
        (Ends-map (λ _ v. Counts s (a + 1) v) _ E E _
          (λ x v d.
            Ends-bind (Tried s a) E (publish_payload codec publisher event.payload)
              (λ _. do
                marked ← mark_outbox_published codec event.id (claim_token_of event)
                count_success codec publisher marked)
              v
              (Ends-map (λ _ v. Counts s (a + 1) v) _ E E _
                (λ y u b.
                  Ends-bind (Tried s a) E
                    (mark_outbox_published codec event.id (claim_token_of event))
                    (count_success codec publisher) u
                    (Ends-map (λ _ v. Counts s (a + 1) v) _ E E _
                      (λ marked x m. success-Tried s a marked x m) (λ e x m. m)
                      (published-Counts codec event.id (claim_token_of event) u b)))
                (λ e u b. b) (payload-Counts event.payload v d)))
          (λ e v d. d) (schema-Counts event (inc (Metric.outbox_dispatch "attempt") w) start))

  event-Tried :
      {s a : ℕ} (event : OutboxRow) (w : World)
      → Counts s a w
      → Ends (Tried s a) (λ e v. Counts s (a + 1) v) (dispatch_event codec publisher event w)
  unfolding dispatch_event record_failure
  event-Tried {s} {a} event w c =
      let E : Exc → World → Type 0 = λ e v. Counts s (a + 1) v in
      Ends-bind (Tried s a) E (count_reclaim codec publisher event)
        (λ _. catch (try_dispatch codec publisher event) (record_failure codec publisher event)) w
        (Ends-map (λ _ v. Counts s a v) _ E E (count_reclaim codec publisher event w)
          (λ x v d.
            Ends-catch (Tried s a) E (try_dispatch codec publisher event)
              (record_failure codec publisher event) v
              (Ends-map (Tried s a) (Tried s a) E _ (try_dispatch codec publisher event v)
                (λ n u t. t) (λ e u b. failed e u b) (try-Tried event v d)))
          (λ e v d. d) reclaimed)
    where
      reclaimed :
          Ends
            (λ _ v. Counts s a v)
            (λ e v. Counts s (a + 1) v)
            (count_reclaim codec publisher event w)
      reclaimed = elim (Bool-cases (ltb 1 event.attempts)) [
        | inl y ↦
            let k = inc-Counts (Metric.outbox_reclaims "reclaimed") w c in
            rw y (record {
              successes = omega (arith, k.successes);
              attempts = omega (arith, k.attempts);
            })
        | inr n ↦ rw n c
      ]

      failed :
          (e : Exc) (u : World)
          → Counts s (a + 1) u
          → Ends (Tried s a) (λ e v. Counts s (a + 1) v) (record_failure codec publisher event e u)
      failed e u b =
          let k = inc-Counts (Metric.outbox_dispatch "failure") u b in
          let counted : Counts s (a + 1) (inc (Metric.outbox_dispatch "failure") u) = record {
            successes = omega (arith, k.successes);
            attempts = omega (arith, k.attempts);
          } in
          Ends-bind (Tried s a) (λ e v. Counts s (a + 1) v)
            (mark_outbox_failed codec event.id (claim_token_of event) (type_name e)) (λ _. pure 0)
            (inc (Metric.outbox_dispatch "failure") u)
            (Ends-map (λ _ v. Counts s (a + 1) v) _ (λ e v. Counts s (a + 1) v) _ _
              (λ x v m. (
                record { successes = omega (arith, m.successes); attempts = m.attempts },
                omega arith,
              ))
              (λ x v m. m)
              (failed-Counts codec event.id (claim_token_of event) (type_name e)
                (inc (Metric.outbox_dispatch "failure") u) counted))

  -- So many of the events are dispatched, and so many were tried.
  record Partial (s a dispatched tried : ℕ) (v : World) : Type 0 where
    counts : Counts (s + dispatched) (a + tried) v
    bounded : dispatched ≤ tried

  events-Partial :
      (events : List OutboxRow) (s a d : ℕ) (w : World)
      → Counts s a w
      → Ends
          (λ n v. (k : ℕ) × (n ≡ d + k) × Partial s a k (length events) v)
          (λ e v. (k l : ℕ) × Partial s a k l v × (l ≤ length events))
          (dispatch_events codec publisher events d w)
  unfolding dispatch_events
  events-Partial [] s a d w c = (
    0,
    omega arith,
    record {
      counts = record {
        successes = omega (arith, c.successes);
        attempts = omega (arith, c.attempts);
      };
      bounded = omega arith;
    },
  )
  events-Partial (event ∷ events) s a d w c =
      Ends-bind _ _ (dispatch_event codec publisher event)
        (λ n. dispatch_events codec publisher events (d + n)) w
        (Ends-map (Tried s a) _ (λ e v. Counts s (a + 1) v) _
          (dispatch_event codec publisher event w)
          (λ n v t.
            Ends-map _ _ _ _ (dispatch_events codec publisher events (d + n) v)
              (λ m u q. (n + q.0, omega (arith, q.1), more n (q.0) (length events) u (t.1) q.2))
              (λ e u q. (n + q.0, suc q.1, more n (q.0) (q.1) u (t.1) q.2, omega (arith, q.3)))
              (events-Partial events (s + n) (a + 1) (d + n) v t.0))
          (λ e v b. (
            0,
            1,
            record {
              counts = record { successes = omega (arith, b.successes); attempts = b.attempts };
              bounded = omega arith;
            },
            omega arith,
          ))
          (event-Tried event w c))
    where
      more :
          (n k l : ℕ) (u : World)
          → n ≤ 1
          → Partial (s + n) (a + 1) k l u
          → Partial s a (n + k) (suc l) u
      more n k l u h q = record {
        counts = record {
          successes = omega (arith, q.counts.successes);
          attempts = omega (arith, q.counts.attempts);
        };
        bounded = omega (arith, q.bounded);
      }

length_claimed :
    (now : ℕ) (uuid : ℕ → ℕ) (limit lease : ℕ) (locked : List ℕ) (db : Database)
    → length (Outbox.claim_outbox_events now uuid limit lease locked db).0 ≤ limit
unfolding Outbox.claim_outbox_events Outbox.select_due
length_claimed now uuid limit lease locked db =
    let due = filter_if (Outbox.is_due now lease locked) db.job_outbox in
    omega (
      arith,
      length-map (Outbox.publishing_under now (uuid 0))
          (Outbox.select_due now limit lease locked db.job_outbox),
      length-take_le limit (Outbox.oldest_first due),
    )

-- So many attempts and successes were counted in between.
pub record Tallied (dispatched tried : ℕ) (before after : World) : Type 0 where
  pub successes : total "success" after ≡ total "success" before + dispatched
  pub attempts : total "attempt" after ≡ total "attempt" before + tried
  pub within : dispatched ≤ tried

-- The events that dispatch_outbox claims, from the tables as its first call finds them.
abbrev pub claimed_events : Codec → ℕ → ℕ → World → List OutboxRow
claimed_events codec limit lease w =
    let m : Moment = w.moments w.calls in
    (Outbox.claim_outbox_events m.now m.uuid limit lease m.locked (next codec w).db).0

module _ (codec : Codec) (publisher : JobPublisher) (limit lease : ℕ) (w : World) where
  abbrev claimed : List OutboxRow
  claimed = claimed_events codec limit lease w

  claim-Counts :
      Ends
        (λ events v. Counts (total "success" w) (total "attempt" w) v × (events ≡ claimed))
        (λ e v. Counts (total "success" w) (total "attempt" w) v)
        (claim_outbox_events codec limit lease w)
  unfolding claim_outbox_events transaction
  claim-Counts =
      let started : Counts (total "success" w) (total "attempt" w) w = record {
        successes = refl;
        attempts = refl;
      } in
      let n = next-Counts codec w started in
      Ends-call codec
        (λ events v. Counts (total "success" w) (total "attempt" w) v × (events ≡ claimed))
        (λ e v. Counts (total "success" w) (total "attempt" w) v)
        (λ m w.
          commit codec (ok (Outbox.claim_outbox_events m.now m.uuid limit lease m.locked w.db)) w)
        w (λ e. n) (λ e. record { successes = n.successes; attempts = n.attempts })
        (record { successes = n.successes; attempts = n.attempts }, refl)

  -- dispatch_outbox claims at most `limit` events. If it returns, its counter of attempts has grown by
  -- the number of the claimed events, and its counter of successes by the number that it returns, which
  -- is no greater. If it raises, it has counted an attempt for at most each claimed event, and at
  -- most as many successes as attempts. This holds whatever other processes and the heartbeat do and
  -- whichever calls fail.
  pub dispatch_outbox-Tallied :
      (length claimed ≤ limit)
      × Ends
          (λ n v. Tallied n (length claimed) w v)
          (λ e v. (n tried : ℕ) × Tallied n tried w v × (tried ≤ length claimed))
          (dispatch_outbox codec publisher limit lease w)
  unfolding dispatch_outbox
  dispatch_outbox-Tallied = (
    length_claimed (w.moments w.calls).now (w.moments w.calls).uuid limit lease
        (w.moments w.calls).locked (next codec w).db,
    Ends-bind _ _ (claim_outbox_events codec limit lease)
        (λ events. dispatch_events codec publisher events 0) w
        (Ends-map _ _ _ _ (claim_outbox_events codec limit lease w)
          (λ events v c.
            Ends-map _ _ _ _ (dispatch_events codec publisher events 0 v)
              (λ n u q. record {
                successes = omega (arith, q.2.counts.successes, q.1);
                attempts = omega (arith, q.2.counts.attempts, ap length c.1);
                within = omega (arith, q.2.bounded, q.1, ap length c.1);
              })
              (λ e u q. (
                q.0,
                q.1,
                record {
                  successes = q.2.counts.successes;
                  attempts = q.2.counts.attempts;
                  within = q.2.bounded;
                },
                omega (arith, q.3, ap length c.1),
              ))
              (events-Partial codec publisher events (total "success" w) (total "attempt" w) 0 v
                c.0))
          (λ e v c. (
            0,
            0,
            record {
              successes = omega (arith, c.successes);
              attempts = omega (arith, c.attempts);
              within = omega arith;
            },
            omega arith,
          ))
          claim-Counts),
  )
