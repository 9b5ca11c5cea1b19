-- ===== src/Repository/Outbox.antt =====
-- The transactional outbox: claim_outbox_events, mark_outbox_published and mark_outbox_failed of
-- application/shared/repository.py.
use production_cloud_reliabi.Prelude.{
  ℕ, ◌+◌, String, Bool, true, false, not, Option, none, some, List, [], ◌∷◌, map, ◌&&◌, ltb, ◌==◌,
  if◌then◌else◌, count_if, filter_if, take, contains,
}
use production_cloud_reliabi.Database.{
  Uuid, Timestamp, OutboxStatus, OutboxRow, Database, eq_null, lease_expired, update_where,
  truncate,
}

-- status IN ('pending', 'failed') OR (status = 'publishing' AND the lease has expired)
abbrev pub may_publish : OutboxStatus → Option Timestamp → Timestamp → ℕ → Bool
may_publish OutboxStatus.pending locked_at now lease_seconds = true
may_publish OutboxStatus.failed locked_at now lease_seconds = true
may_publish OutboxStatus.publishing locked_at now lease_seconds =
    lease_expired locked_at now lease_seconds
may_publish OutboxStatus.published locked_at now lease_seconds = false

-- The WHERE clause; SKIP LOCKED passes over the rows that another transaction has locked.
abbrev pub is_due : Timestamp → ℕ → List Uuid → OutboxRow → Bool
is_due now lease_seconds locked r =
    may_publish r.status r.locked_at now lease_seconds && not (contains r.id locked)

-- ORDER BY created_at, an insertion sort that keeps the order of equal keys.
unfoldable pub insert_oldest : OutboxRow → List OutboxRow → List OutboxRow
insert_oldest r [] = r ∷ []
insert_oldest r (s ∷ rows) =
    if ltb s.created_at r.created_at then s ∷ insert_oldest r rows else r ∷ s ∷ rows

unfoldable pub oldest_first : List OutboxRow → List OutboxRow
oldest_first [] = []
oldest_first (r ∷ rows) = insert_oldest r (oldest_first rows)

-- The rows that the common table expression `claimed` selects.
unfoldable pub select_due : Timestamp → ℕ → ℕ → List Uuid → List OutboxRow → List OutboxRow
unfolding insert_oldest oldest_first
select_due now limit lease_seconds locked rows =
    take limit (oldest_first (filter_if (is_due now lease_seconds locked) rows))

abbrev pub publishing_under : Timestamp → Uuid → OutboxRow → OutboxRow
publishing_under now token r = record r {
  status = OutboxStatus.publishing;
  attempts = r.attempts + 1;
  locked_at = some now;
  claim_token = some token;
  updated_at = now;
}

abbrev pub ids : List OutboxRow → List Uuid
ids = map (λ (r : OutboxRow). r.id)

-- The rows are returned in the order of selection.
unfoldable pub claim_outbox_events :
    Timestamp → (ℕ → Uuid) → ℕ → ℕ → List Uuid → Database → List OutboxRow × Database
unfolding select_due
claim_outbox_events now uuid limit lease_seconds locked db =
    let selected = select_due now limit lease_seconds locked db.job_outbox in
    (
      map (publishing_under now (uuid 0)) selected,
      record db {
        job_outbox =
            update_where (λ r. contains r.id (ids selected)) (publishing_under now (uuid 0))
              db.job_outbox;
      },
    )

abbrev pub is_publishing : OutboxStatus → Bool
is_publishing OutboxStatus.publishing = true
is_publishing _ = false

-- WHERE id = %s AND status = 'publishing' AND claim_token = %s
abbrev pub holds_event : Uuid → Uuid → OutboxRow → Bool
holds_event event_id token r =
    r.id == event_id && is_publishing r.status && eq_null r.claim_token token

abbrev pub published_at_time : Timestamp → OutboxRow → OutboxRow
published_at_time now r = record r {
  status = OutboxStatus.published;
  published_at = some now;
  updated_at = now;
  last_error = none;
  locked_at = none;
  claim_token = none;
}

unfoldable pub mark_outbox_published : Timestamp → Uuid → Uuid → Database → Bool × Database
mark_outbox_published now event_id token db = (
  count_if (holds_event event_id token) db.job_outbox == 1,
  record db {
    job_outbox = update_where (holds_event event_id token) (published_at_time now) db.job_outbox;
  },
)

abbrev pub not_published : Timestamp → String → OutboxRow → OutboxRow
not_published now error r = record r {
  status = OutboxStatus.failed;
  last_error = some (truncate error);
  locked_at = none;
  claim_token = none;
  updated_at = now;
}

unfoldable pub mark_outbox_failed : Timestamp → Uuid → Uuid → String → Database → Bool × Database
mark_outbox_failed now event_id token error db = (
  count_if (holds_event event_id token) db.job_outbox == 1,
  record db {
    job_outbox = update_where (holds_event event_id token) (not_published now error) db.job_outbox;
  },
)
