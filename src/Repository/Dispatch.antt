-- ===== src/Repository/Dispatch.antt =====
-- What a claim of outbox events does to each event, and who may mark an event published or failed
-- (claim_outbox_events, mark_outbox_published, mark_outbox_failed of
-- application/shared/repository.py).
use mathlib.Core.Option
use mathlib.Core.Path.{subst}
use production_cloud_reliabi.Prelude.{
  ℕ, ◌≡◌, ◌≤◌, refl, sym, ◌∙◌, ap, String, Bool, true, false, some, List, [], ◌∷◌, map, ◌==◌, ◌⊎◌,
  inl, inr, Bool-cases, Bool-clash, ==→≡, if◌then◌else◌, count_if, length, length-map, some_eq, All,
  contains, arith,
}
use production_cloud_reliabi.Database.{
  Uuid, Timestamp, OutboxRow, Database, find_outbox, update_where,
}
use production_cloud_reliabi.Repository.Outbox.{
  claim_outbox_events, mark_outbox_published, mark_outbox_failed, select_due, is_due,
  publishing_under, published_at_time, not_published, holds_event, ids,
}
use production_cloud_reliabi.Repository.DueEvents.{In, NotAfter, select_due_lem}

abbrev pub event_is : Uuid → OutboxRow → Bool
event_is k e = e.id == k

-- The primary key of job_outbox.
abbrev pub UniqueEvents : List OutboxRow → Type 0
UniqueEvents rows = (k : Uuid) → count_if (event_is k) rows ≤ 1

pub find_outbox-update :
    (p : OutboxRow → Bool) (f : OutboxRow → OutboxRow) (k : Uuid) (rows : List OutboxRow)
    → ((e : OutboxRow) → (f e).id ≡ e.id)
    → find_outbox k (update_where p f rows)
      ≡ Option.map (λ (e : OutboxRow). if p e then f e else e) (find_outbox k rows)
find_outbox-update p f k [] h = refl
find_outbox-update p f k (e ∷ rows) h = ground (arith, h e, find_outbox-update p f k rows h)

In-count : (e : OutboxRow) (rows : List OutboxRow) → In e rows → 1 ≤ count_if (event_is e.id) rows
In-count e [] i = absurd i
In-count e (r ∷ rows) (inl p) = rw p (ground arith)
In-count e (r ∷ rows) (inr i) = ground (arith, In-count e rows i)

In-find_outbox :
    (e : OutboxRow) (rows : List OutboxRow)
    → UniqueEvents rows
    → In e rows
    → find_outbox e.id rows ≡ some e
In-find_outbox e rows u i = go rows (u e.id) i
  where
    go :
        (l : List OutboxRow) → count_if (event_is e.id) l ≤ 1 → In e l → find_outbox e.id l ≡ some e
    go [] u i = absurd i
    go (r ∷ l) u (inl p) = rw p (ground arith)
    go (r ∷ l) u (inr i) = ground (arith, In-count e l i, go l)

pub find_outbox-In :
    (k : Uuid) (rows : List OutboxRow) (e : OutboxRow)
    → find_outbox k rows ≡ some e
    → In e rows × (e.id ≡ k)
find_outbox-In k [] e h = cc
find_outbox-In k (r ∷ rows) e h = elim (Bool-cases (r.id == k)) [
  | inl y ↦
      let q = some_eq r e (rw y at h) in
      (inl (sym q), ap (λ (x : OutboxRow). x.id) (sym q) ∙ ==→≡ r.id k y)
  | inr n ↦ let (i, q) = find_outbox-In k rows e (rw n at h) in (inr i, q)
]

In-contains : (e : OutboxRow) (rows : List OutboxRow) → In e rows → contains e.id (ids rows) ≡ true
In-contains e [] i = absurd i
In-contains e (r ∷ rows) (inl p) = rw p (ground arith)
In-contains e (r ∷ rows) (inr i) = ground (arith, In-contains e rows i)

contains-In :
    (k : Uuid) (rows : List OutboxRow)
    → contains k (ids rows) ≡ true
    → (e : OutboxRow) × In e rows × (e.id ≡ k)
contains-In k [] h = absurd (cc)
contains-In k (r ∷ rows) h = elim (Bool-cases (r.id == k)) [
  | inl y ↦ (r, inl refl, ==→≡ r.id k y)
  | inr n ↦ let (e, i, q) = contains-In k rows (rw n at h) in (e, inr i, q)
]

In-map_publishing :
    (now token : Uuid) (e : OutboxRow) (rows : List OutboxRow)
    → In e rows
    → In (publishing_under now token e) (map (publishing_under now token) rows)
In-map_publishing now token e [] i = i
In-map_publishing now token e (r ∷ rows) (inl p) = inl (ap (publishing_under now token) p)
In-map_publishing now token e (r ∷ rows) (inr i) = inr (In-map_publishing now token e rows i)

All-map_publishing :
    (now token : Uuid) (e : OutboxRow) (rows : List OutboxRow)
    → All (λ s. NotAfter s e) rows
    → All (λ s. NotAfter s e) (map (publishing_under now token) rows)
All-map_publishing now token e [] h = tt
All-map_publishing now token e (r ∷ rows) h = (h.0, All-map_publishing now token e rows h.1)

module _ (now : Timestamp) (uuid : ℕ → Uuid) (limit lease_seconds : ℕ) (locked : List Uuid)
    (db : Database) (k : Uuid) (e : OutboxRow) (u : UniqueEvents db.job_outbox)
    (found : find_outbox k db.job_outbox ≡ some e) where
  abbrev selected : List OutboxRow
  selected = select_due now limit lease_seconds locked db.job_outbox

  row_found : In e db.job_outbox
  row_found = (find_outbox-In k db.job_outbox e found).0

  chosen : contains e.id (ids selected) ≡ true → In e selected
  chosen h =
      let (s, i, q) = contains-In e.id selected h in
      let in_rows = ((select_due_lem now limit lease_seconds locked db.job_outbox s).1 i).0 in
      let s_found = In-find_outbox s db.job_outbox u in_rows in
      let e_found = In-find_outbox e db.job_outbox u row_found in
      let same =
        some_eq s e (sym s_found ∙ ap (λ (j : Uuid). find_outbox j db.job_outbox) q ∙ e_found) in
      subst (λ x. In x selected) same i

  row_after :
      find_outbox k (claim_outbox_events now uuid limit lease_seconds locked db).1.job_outbox
      ≡ some (if contains e.id (ids selected) then publishing_under now (uuid 0) e else e)
  unfolding claim_outbox_events
  row_after =
      rw
        (
          find_outbox-update (λ (r : OutboxRow). contains r.id (ids selected))
              (publishing_under now (uuid 0)) k db.job_outbox (λ r. refl),
          found,
        )
        refl

  -- Of a claim of events, with event k in the outbox and ids of events unique: an event that is not due (published, or being published under a lease that lasts, or locked) is
  -- left as it is. One that is due is handed out, publishing under the claim's token with one attempt
  -- more; or it is left as it is, and `limit` other events are handed out, none of them created
  -- later. Never more than `limit` are handed out.
  pub claim_outbox_events_lem :
      let (events, db') = claim_outbox_events now uuid limit lease_seconds locked db in
      let taken = publishing_under now (uuid 0) e in
      (length events ≤ limit)
      × (is_due now lease_seconds locked e ≡ false → find_outbox k db'.job_outbox ≡ some e)
      × (is_due now lease_seconds locked e ≡ true
          → ((find_outbox k db'.job_outbox ≡ some taken) × In taken events)
            ⊎ ((find_outbox k db'.job_outbox ≡ some e)
                × (length events ≡ limit)
                × All (λ s. NotAfter s e) events))
  unfolding claim_outbox_events
  claim_outbox_events_lem =
      let facts = select_due_lem now limit lease_seconds locked db.job_outbox e in
      let same_length = length-map (publishing_under now (uuid 0)) selected in
      elim (Bool-cases (contains e.id (ids selected))) [
        | inl y ↦ (
          rw same_length facts.0,
          λ d. absurd (Bool-clash (is_due now lease_seconds locked e) (facts.1 (chosen y)).1 d),
          λ d. inl (row_after ∙ rw y refl, In-map_publishing now (uuid 0) e selected (chosen y)),
        )
        | inr n ↦ (
          rw same_length facts.0,
          λ d. row_after ∙ rw n refl,
          λ d. elim (facts.2 row_found d) [
            | inl i ↦
                absurd (Bool-clash (contains e.id (ids selected)) (In-contains e selected i) n)
            | inr (l, a) ↦ inr (
              row_after ∙ rw n refl,
              rw same_length l,
              All-map_publishing now (uuid 0) e selected a,
            )
          ],
        )
      ]

holds_event-absent :
    (k token : Uuid) (rows : List OutboxRow)
    → count_if (event_is k) rows ≡ 0
    → count_if (holds_event k token) rows ≡ 0
holds_event-absent k token [] h = refl
holds_event-absent k token (r ∷ rows) h = ground (arith, holds_event-absent k token rows)

holds_event-present :
    (k token : Uuid) (rows : List OutboxRow) (e : OutboxRow)
    → count_if (event_is k) rows ≤ 1
    → find_outbox k rows ≡ some e
    → count_if (holds_event k token) rows ≡ (if holds_event k token e then 1 else 0)
holds_event-present k token [] e u h = ground arith
holds_event-present k token (r ∷ rows) e u h =
    ground (arith, holds_event-present k token rows e, holds_event-absent k token rows)

-- Ids of events being unique, only the dispatcher that holds an event, by the claim token in its row, can mark it published or
-- failed, and it is told so; for any other dispatcher the answer is False and the event stays as it
-- is, so that a slow dispatcher cannot overwrite what the one after it has recorded.
pub mark_outbox_lem :
    (now : Timestamp) (k token : Uuid) (error : String) (db : Database) (e : OutboxRow)
    → UniqueEvents db.job_outbox
    → find_outbox k db.job_outbox ≡ some e
    → let (published, db1) = mark_outbox_published now k token db in
      let (failed, db2) = mark_outbox_failed now k token error db in
      let held = holds_event k token e in
      (published ≡ held)
      × (find_outbox k db1.job_outbox ≡ some (if held then published_at_time now e else e))
      × (failed ≡ held)
      × (find_outbox k db2.job_outbox ≡ some (if held then not_published now error e else e))
unfolding mark_outbox_published mark_outbox_failed
mark_outbox_lem now k token error db e u found =
    let one = holds_event-present k token db.job_outbox e (u k) found in
    (
      rw one (counted (holds_event k token e)),
      rw
          (
            find_outbox-update (holds_event k token) (published_at_time now) k db.job_outbox
                (λ r. refl),
            found,
          )
          refl,
      rw one (counted (holds_event k token e)),
      rw
          (
            find_outbox-update (holds_event k token) (not_published now error) k db.job_outbox
                (λ r. refl),
            found,
          )
          refl,
    )
  where
    counted : (b : Bool) → ((if b then 1 else 0) == 1) ≡ b
    counted true = refl
    counted false = refl
