-- ===== src/Repository/Publishing.antt =====
-- Which events of the outbox a dispatcher is given, and who may say what became of them
-- (claim_outbox_events, mark_outbox_published and mark_outbox_failed of
-- application/shared/repository.py).
use production_cloud_reliabi.Prelude.{
  ℕ, ◌≡◌, ◌⊎◌, ◌+◌, ◌*◌, ◌<◌, ◌≤◌, refl, ◌∙◌, ap, String, true, false, Option, none, some, List,
  ==→≡, inl, inr, Bool-cases, Bool-clash, length, All, contains, arith,
}
use production_cloud_reliabi.Database.{
  Uuid, Timestamp, OutboxStatus, OutboxRow, Database, find_outbox, truncate,
}
use production_cloud_reliabi.Repository.Outbox.{
  claim_outbox_events, mark_outbox_published, mark_outbox_failed, is_due, publishing_under,
  published_at_time, not_published, holds_event,
}
use production_cloud_reliabi.Repository.DueEvents.{In, NotAfter}
use production_cloud_reliabi.Repository.Dispatch.{
  UniqueEvents, find_outbox-In, claim_outbox_events_lem, mark_outbox_lem,
}

-- An event that may be handed out: no other transaction has it locked, and it is pending, or failed, or
-- publishing under a lease that has expired.
pub data IsOpen (now : Timestamp) (lease_seconds : ℕ) (locked : List Uuid) (e : OutboxRow)
    : Type 0 where
  is_pending :
      contains e.id locked ≡ false
      → e.status ≡ OutboxStatus.pending
      → IsOpen now lease_seconds locked e
  is_failed :
      contains e.id locked ≡ false
      → e.status ≡ OutboxStatus.failed
      → IsOpen now lease_seconds locked e
  is_expired :
      (t : Timestamp)
      → contains e.id locked ≡ false
      → e.status ≡ OutboxStatus.publishing
      → e.locked_at ≡ some t
      → t + lease_seconds * 1000000 < now
      → IsOpen now lease_seconds locked e

-- What an event announces, which no statement alters.
pub record SameEvent (e : OutboxRow) (e' : OutboxRow) : Type 0 where
  pub id : e'.id ≡ e.id
  pub event_type : e'.event_type ≡ e.event_type
  pub version : e'.version ≡ e.version
  pub payload : e'.payload ≡ e.payload
  pub created_at : e'.created_at ≡ e.created_at

-- An event in the hands of the dispatcher with this token, since now.
pub record IsHandedOut (now : Timestamp) (token : Uuid) (e : OutboxRow) (e' : OutboxRow)
    : Type 0 where
  pub same : SameEvent e e'
  pub status : e'.status ≡ OutboxStatus.publishing
  pub attempts : e'.attempts ≡ e.attempts + 1
  pub claim_token : e'.claim_token ≡ some token
  pub locked_at : e'.locked_at ≡ some now

due-IsOpen :
    (now : Timestamp) (lease : ℕ) (locked : List Uuid) (e : OutboxRow)
    → is_due now lease locked e ≡ true
    → IsOpen now lease locked e
due-IsOpen now lease locked e h = by_status e.status refl h
  where
    expired :
        (o : Option Timestamp)
        → e.status ≡ OutboxStatus.publishing
        → e.locked_at ≡ o
        → is_due now lease locked e ≡ true
        → IsOpen now lease locked e
    expired none s l h = ground arith
    expired (some t) s l h = is_expired t (ground arith) s l (ground arith)

    by_status :
        (s : OutboxStatus)
        → e.status ≡ s
        → is_due now lease locked e ≡ true
        → IsOpen now lease locked e
    by_status OutboxStatus.pending s h = is_pending (ground arith) s
    by_status OutboxStatus.failed s h = is_failed (ground arith) s
    by_status OutboxStatus.publishing s h = expired e.locked_at s refl h
    by_status OutboxStatus.published s h = ground arith

IsOpen-due :
    (now : Timestamp) (lease : ℕ) (locked : List Uuid) (e : OutboxRow)
    → IsOpen now lease locked e
    → is_due now lease locked e ≡ true
IsOpen-due now lease locked e (is_pending l s) = ground arith
IsOpen-due now lease locked e (is_failed l s) = ground arith
IsOpen-due now lease locked e (is_expired t l s a h) = ground arith

-- Ids of events being unique, claim_outbox_events hands out at most `limit` events. An event that is
-- not open (published, publishing under a lease that lasts, or locked) stays as it is. An open one is
-- handed out, and stands in the outbox as handed out, publishing since now under the claim's token
-- and with one attempt more; or it stays as it is, and `limit` events are handed out of which none was
-- created later.
pub claim_outbox_events-IsHandedOut :
    (now : Timestamp) (uuid : ℕ → Uuid) (limit lease_seconds : ℕ) (locked : List Uuid)
    (db : Database) (k : Uuid) (e : OutboxRow)
    → UniqueEvents db.job_outbox
    → find_outbox k db.job_outbox ≡ some e
    → let (events, db') = claim_outbox_events now uuid limit lease_seconds locked db in
      (length events ≤ limit)
      × (((IsOpen now lease_seconds locked e → ⊥) × (find_outbox k db'.job_outbox ≡ some e))
          ⊎ (IsOpen now lease_seconds locked e
              × (((e' : OutboxRow) × IsHandedOut now (uuid 0) e e'
                    × (find_outbox k db'.job_outbox ≡ some e')
                    × In e' events)
                  ⊎ ((find_outbox k db'.job_outbox ≡ some e)
                      × (length events ≡ limit)
                      × All (λ s. NotAfter s e) events))))
claim_outbox_events-IsHandedOut now uuid limit lease locked db k e u found =
    let (bound, kept, handed) =
      claim_outbox_events_lem now uuid limit lease locked db k e u found in
    (
      bound,
      elim (Bool-cases (is_due now lease locked e)) [
        | inr n ↦ inl (
          λ o. Bool-clash (is_due now lease locked e) (IsOpen-due now lease locked e o) n,
          kept n,
        )
        | inl y ↦ inr (
          due-IsOpen now lease locked e y,
          elim (handed y) [
            | inl (stands, given) ↦ inl (
              publishing_under now (uuid 0) e,
              record {
                same = record {
                  id = refl;
                  event_type = refl;
                  version = refl;
                  payload = refl;
                  created_at = refl;
                };
                status = refl;
                attempts = refl;
                claim_token = refl;
                locked_at = refl;
              },
              stands,
              given,
            )
            | inr others ↦ inr others
          ],
        )
      ],
    )

-- The dispatcher with this token holds the event.
pub record Holds (token : Uuid) (e : OutboxRow) : Type 0 where
  pub status : e.status ≡ OutboxStatus.publishing
  pub claim_token : e.claim_token ≡ some token

-- An event that is published, out of every dispatcher's hands.
pub record IsPublished (now : Timestamp) (e : OutboxRow) (e' : OutboxRow) : Type 0 where
  pub same : SameEvent e e'
  pub status : e'.status ≡ OutboxStatus.published
  pub attempts : e'.attempts ≡ e.attempts
  pub published_at : e'.published_at ≡ some now
  pub last_error : e'.last_error ≡ none
  pub unclaimed : (e'.claim_token ≡ none) × (e'.locked_at ≡ none)

-- An event whose dispatch failed, out of every dispatcher's hands.
pub record IsFailed (error : String) (e : OutboxRow) (e' : OutboxRow) : Type 0 where
  pub same : SameEvent e e'
  pub status : e'.status ≡ OutboxStatus.failed
  pub attempts : e'.attempts ≡ e.attempts
  pub published_at : e'.published_at ≡ e.published_at
  pub last_error : e'.last_error ≡ some (truncate error)
  pub unclaimed : (e'.claim_token ≡ none) × (e'.locked_at ≡ none)

holds_event-Holds : (k token : Uuid) (e : OutboxRow) → holds_event k token e ≡ true → Holds token e
holds_event-Holds k token e h = by_status e.status refl h
  where
    by_token :
        (o : Option Uuid)
        → e.status ≡ OutboxStatus.publishing
        → e.claim_token ≡ o
        → holds_event k token e ≡ true
        → Holds token e
    by_token none s c h = ground arith
    by_token (some t) s c h = record {
      status = s;
      claim_token = c ∙ ap some (==→≡ t token (ground arith));
    }

    by_status : (s : OutboxStatus) → e.status ≡ s → holds_event k token e ≡ true → Holds token e
    by_status OutboxStatus.publishing s h = by_token e.claim_token s refl h
    by_status OutboxStatus.pending s h = ground arith
    by_status OutboxStatus.failed s h = ground arith
    by_status OutboxStatus.published s h = ground arith

Holds-holds_event :
    (k token : Uuid) (e : OutboxRow) → e.id ≡ k → Holds token e → holds_event k token e ≡ true
Holds-holds_event k token e i h = rw (i, h.status, h.claim_token) (ground arith)

IsPublished-published_at_time :
    (now : Timestamp) (e : OutboxRow) → IsPublished now e (published_at_time now e)
IsPublished-published_at_time now e = record {
  same = record { id = refl; event_type = refl; version = refl; payload = refl; created_at = refl };
  status = refl;
  attempts = refl;
  published_at = refl;
  last_error = refl;
  unclaimed = (refl, refl);
}

IsFailed-not_published :
    (now : Timestamp) (error : String) (e : OutboxRow)
    → IsFailed error e (not_published now error e)
IsFailed-not_published now error e = record {
  same = record { id = refl; event_type = refl; version = refl; payload = refl; created_at = refl };
  status = refl;
  attempts = refl;
  published_at = refl;
  last_error = refl;
  unclaimed = (refl, refl);
}

-- Ids of events being unique, the dispatcher that holds an event in the outbox, by its status and
-- claim token, can mark it published, and can mark it failed: it is answered True, and the row then
-- says so, with the event's contents and attempts as before and no claim on it. Every other
-- dispatcher is answered False both times, and the event stays as it is.
pub mark_outbox-held :
    (now : Timestamp) (k token : Uuid) (error : String) (db : Database) (e : OutboxRow)
    → UniqueEvents db.job_outbox
    → find_outbox k db.job_outbox ≡ some e
    → let (published, db1) = mark_outbox_published now k token db in
      let (failed, db2) = mark_outbox_failed now k token error db in
      (Holds token e
        × ((published ≡ true)
            × ((e1 : OutboxRow) × IsPublished now e e1 × (find_outbox k db1.job_outbox ≡ some e1)))
        × ((failed ≡ true)
            × ((e2 : OutboxRow) × IsFailed error e e2 × (find_outbox k db2.job_outbox ≡ some e2))))
      ⊎ ((Holds token e → ⊥)
          × ((published ≡ false) × (find_outbox k db1.job_outbox ≡ some e))
          × ((failed ≡ false) × (find_outbox k db2.job_outbox ≡ some e)))
mark_outbox-held now k token error db e u found =
    let (p, published, f, failed) = mark_outbox_lem now k token error db e u found in
    elim (Bool-cases (holds_event k token e)) [
      | inl y ↦ inl (
        holds_event-Holds k token e y,
        (
          p ∙ y,
          (published_at_time now e, IsPublished-published_at_time now e, published ∙ rw y refl),
        ),
        (
          f ∙ y,
          (not_published now error e, IsFailed-not_published now error e, failed ∙ rw y refl),
        ),
      )
      | inr n ↦ inr (
        λ h.
            Bool-clash (holds_event k token e)
              (Holds-holds_event k token e (find_outbox-In k db.job_outbox e found).1 h) n,
        (p ∙ n, published ∙ rw n refl),
        (f ∙ n, failed ∙ rw n refl),
      )
    ]
