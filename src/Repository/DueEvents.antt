-- ===== src/Repository/DueEvents.antt =====
-- The rows that the query of claim_outbox_events (application/shared/repository.py) selects: ORDER BY
-- created_at, and LIMIT.
use production_cloud_reliabi.Prelude.{
  ℕ, zero, suc, ◌≡◌, ◌≤◌, refl, sym, ◌∙◌, ap, Bool, true, List, [], ◌∷◌, ◌==◌, ◌⊎◌, inl, inr,
  Bool-cases, ltb, count_if, filter_if, take, length, length-take_le, All, arith,
}
use production_cloud_reliabi.Database.{Uuid, Timestamp, OutboxRow}
use production_cloud_reliabi.Repository.Outbox.{select_due, oldest_first, insert_oldest, is_due}

abbrev pub event_is : Uuid → OutboxRow → Bool
event_is k e = e.id == k

abbrev pub UniqueEvents : List OutboxRow → Type 0
UniqueEvents rows = (k : Uuid) → count_if (event_is k) rows ≤ 1

-- A row stands in a list.
abbrev pub In : OutboxRow → List OutboxRow → Type 0
In e [] = ⊥
In e (r ∷ rows) = (e ≡ r) ⊎ In e rows

abbrev pub NotAfter : OutboxRow → OutboxRow → Type 0
NotAfter e r = e.created_at ≤ r.created_at

abbrev IsSorted : List OutboxRow → Type 0
IsSorted [] = Unit
IsSorted (r ∷ rows) = All (NotAfter r) rows × IsSorted rows

All-insert_oldest :
    (e r : OutboxRow) (rows : List OutboxRow)
    → NotAfter e r
    → All (NotAfter e) rows
    → All (NotAfter e) (insert_oldest r rows)
unfolding insert_oldest
All-insert_oldest e r [] p h = (p, tt)
All-insert_oldest e r (s ∷ rows) p h = elim (Bool-cases (ltb s.created_at r.created_at)) [
  | inl y ↦ rw y (h.0, All-insert_oldest e r rows p h.1)
  | inr n ↦ rw n (p, h)
]

All-NotAfter_trans :
    (e r : OutboxRow) (rows : List OutboxRow)
    → NotAfter e r
    → All (NotAfter r) rows
    → All (NotAfter e) rows
All-NotAfter_trans e r [] p h = tt
All-NotAfter_trans e r (s ∷ rows) p h = (omega (arith, h.0), All-NotAfter_trans e r rows p h.1)

insert_oldest-IsSorted :
    (r : OutboxRow) (rows : List OutboxRow) → IsSorted rows → IsSorted (insert_oldest r rows)
unfolding insert_oldest
insert_oldest-IsSorted r [] h = (tt, tt)
insert_oldest-IsSorted r (s ∷ rows) h = elim (Bool-cases (ltb s.created_at r.created_at)) [
  | inl y ↦ rw y (All-insert_oldest s r rows (ground arith) h.0, insert_oldest-IsSorted r rows h.1)
  | inr n ↦
      let first : NotAfter r s = ground arith in
      rw n ((first, All-NotAfter_trans r s rows first h.0), h)
]

oldest_first-IsSorted : (rows : List OutboxRow) → IsSorted (oldest_first rows)
unfolding oldest_first
oldest_first-IsSorted [] = tt
oldest_first-IsSorted (r ∷ rows) =
    insert_oldest-IsSorted r (oldest_first rows) (oldest_first-IsSorted rows)

In-insert_oldest :
    (e r : OutboxRow) (rows : List OutboxRow) → (e ≡ r) ⊎ In e rows → In e (insert_oldest r rows)
unfolding insert_oldest
In-insert_oldest e r [] h = h
In-insert_oldest e r (s ∷ rows) (inl p) = elim (Bool-cases (ltb s.created_at r.created_at)) [
  | inl y ↦ rw y (inr (In-insert_oldest e r rows (inl p)))
  | inr n ↦ rw n (inl p)
]
In-insert_oldest e r (s ∷ rows) (inr (inl p)) = elim (Bool-cases (ltb s.created_at r.created_at)) [
  | inl y ↦ rw y (inl p)
  | inr n ↦ rw n (inr (inl p))
]
In-insert_oldest e r (s ∷ rows) (inr (inr q)) = elim (Bool-cases (ltb s.created_at r.created_at)) [
  | inl y ↦ rw y (inr (In-insert_oldest e r rows (inr q)))
  | inr n ↦ rw n (inr (inr q))
]

after_head :
    (e r s : OutboxRow) (rows : List OutboxRow) → ((e ≡ r) ⊎ In e rows) → (e ≡ r) ⊎ In e (s ∷ rows)
after_head e r s rows (inl p) = inl p
after_head e r s rows (inr q) = inr (inr q)

insert_oldest-In :
    (e r : OutboxRow) (rows : List OutboxRow) → In e (insert_oldest r rows) → (e ≡ r) ⊎ In e rows
unfolding insert_oldest
insert_oldest-In e r [] h = h
insert_oldest-In e r (s ∷ rows) h = elim (Bool-cases (ltb s.created_at r.created_at)) [
  | inl y ↦ later (rw y at h) (insert_oldest-In e r rows)
  | inr n ↦ rw n at h
]
  where
    later :
        (e ≡ s) ⊎ In e (insert_oldest r rows)
        → (In e (insert_oldest r rows) → (e ≡ r) ⊎ In e rows)
        → (e ≡ r) ⊎ In e (s ∷ rows)
    later (inl p) ih = inr (inl p)
    later (inr q) ih = after_head e r s rows (ih q)

In-oldest_first : (e : OutboxRow) (rows : List OutboxRow) → In e rows → In e (oldest_first rows)
unfolding oldest_first
In-oldest_first e [] h = h
In-oldest_first e (r ∷ rows) (inl p) = In-insert_oldest e r (oldest_first rows) (inl p)
In-oldest_first e (r ∷ rows) (inr q) =
    In-insert_oldest e r (oldest_first rows) (inr (In-oldest_first e rows q))

oldest_first-In : (e : OutboxRow) (rows : List OutboxRow) → In e (oldest_first rows) → In e rows
unfolding oldest_first
oldest_first-In e [] h = h
oldest_first-In e (r ∷ rows) h =
    below (insert_oldest-In e r (oldest_first rows) h) (oldest_first-In e rows)
  where
    below :
        (e ≡ r) ⊎ In e (oldest_first rows)
        → (In e (oldest_first rows) → In e rows)
        → In e (r ∷ rows)
    below (inl p) ih = inl p
    below (inr q) ih = inr (ih q)

filter_if-In :
    (p : OutboxRow → Bool) (e : OutboxRow) (rows : List OutboxRow)
    → In e (filter_if p rows)
    → In e rows × (p e ≡ true)
filter_if-In p e [] h = absurd h
filter_if-In p e (r ∷ rows) h = elim (Bool-cases (p r)) [
  | inl y ↦ kept y (rw y at h) (filter_if-In p e rows)
  | inr n ↦ let (q, t) = filter_if-In p e rows (rw n at h) in (inr q, t)
]
  where
    kept :
        p r ≡ true
        → (e ≡ r) ⊎ In e (filter_if p rows)
        → (In e (filter_if p rows) → In e rows × (p e ≡ true))
        → In e (r ∷ rows) × (p e ≡ true)
    kept y (inl q) ih = (inl q, ap p q ∙ y)
    kept y (inr q) ih = (inr (ih q).0, (ih q).1)

In-filter_if :
    (p : OutboxRow → Bool) (e : OutboxRow) (rows : List OutboxRow)
    → In e rows
    → p e ≡ true
    → In e (filter_if p rows)
In-filter_if p e [] h t = absurd h
In-filter_if p e (r ∷ rows) (inl q) t = rw (sym (ap p q) ∙ t) (inl q)
In-filter_if p e (r ∷ rows) (inr q) t = elim (Bool-cases (p r)) [
  | inl y ↦ rw y (inr (In-filter_if p e rows q t))
  | inr n ↦ rw n (In-filter_if p e rows q t)
]

-- A row of a sorted list is in the prefix of n rows, or the prefix is full and none of it is later.
take-oldest :
    (n : ℕ) (e : OutboxRow) (rows : List OutboxRow)
    → IsSorted rows
    → In e rows
    → In e (take n rows) ⊎ ((length (take n rows) ≡ n) × All (λ s. NotAfter s e) (take n rows))
take-oldest n e [] h q = absurd q
take-oldest zero e (r ∷ rows) h q = inr (refl, tt)
take-oldest (suc n) e (r ∷ rows) h (inl p) = inl (inl p)
take-oldest (suc n) e (r ∷ rows) h (inr q) = more (take-oldest n e rows h.1 q) (of_all rows h.0 q)
  where
    of_all : (l : List OutboxRow) → All (NotAfter r) l → In e l → NotAfter r e
    of_all [] a i = absurd i
    of_all (s ∷ l) a (inl p) = rw p a.0
    of_all (s ∷ l) a (inr i) = of_all l a.1 i

    more :
        In e (take n rows) ⊎ ((length (take n rows) ≡ n) × All (λ s. NotAfter s e) (take n rows))
        → NotAfter r e
        → In e (r ∷ take n rows)
          ⊎ ((suc (length (take n rows)) ≡ suc n) × All (λ s. NotAfter s e) (r ∷ take n rows))
    more (inl i) f = inl (inr i)
    more (inr (l, a)) f = inr (ap suc l, (f, a))

take-In : (n : ℕ) (e : OutboxRow) (rows : List OutboxRow) → In e (take n rows) → In e rows
take-In zero e rows h = absurd h
take-In (suc n) e [] h = absurd h
take-In (suc n) e (r ∷ rows) (inl p) = inl p
take-In (suc n) e (r ∷ rows) (inr q) = inr (take-In n e rows q)

-- What is selected is due, and there are at most `limit` rows of it. A row that is due is selected,
-- or `limit` rows are and none of them was created later.
pub select_due_lem :
    (now : Timestamp) (limit lease_seconds : ℕ) (locked : List Uuid) (rows : List OutboxRow)
    (e : OutboxRow)
    → let selected = select_due now limit lease_seconds locked rows in
      (length selected ≤ limit)
      × (In e selected → In e rows × (is_due now lease_seconds locked e ≡ true))
      × (In e rows
          → is_due now lease_seconds locked e ≡ true
          → In e selected ⊎ ((length selected ≡ limit) × All (λ s. NotAfter s e) selected))
unfolding select_due
select_due_lem now limit lease_seconds locked rows e =
    let due = is_due now lease_seconds locked in
    let queue = oldest_first (filter_if due rows) in
    (
      length-take_le limit queue,
      λ i.
          filter_if-In due e rows
            (oldest_first-In e (filter_if due rows) (take-In limit e queue i)),
      λ i d.
          take-oldest limit e queue (oldest_first-IsSorted (filter_if due rows))
            (In-oldest_first e (filter_if due rows) (In-filter_if due e rows i d)),
    )
