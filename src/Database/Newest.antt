-- ===== src/Database/Newest.antt =====
-- `ORDER BY created_at DESC LIMIT n`, with which the lists of application/shared/repository.py and
-- services/platform_app/db/repository.py are read: an insertion sort that keeps the order of equal
-- times.
use production_cloud_reliabi.Prelude.{
  ℕ, zero, suc, ◌≡◌, ◌+◌, ◌≤◌, refl, ◌∙◌, Bool, List, [], ◌∷◌, ◌⊎◌, inl, inr, ltb, if◌then◌else◌,
  take, length, All, count_if, arith, Bool-cases, length-take_le,
}

module _ {Row : Type 0} (created_at : Row → ℕ) where
  unfoldable pub insert_newest : Row → List Row → List Row
  insert_newest r [] = r ∷ []
  insert_newest r (s ∷ rows) =
      if ltb (created_at r) (created_at s) then s ∷ insert_newest r rows else r ∷ s ∷ rows

  unfoldable pub newest_first : List Row → List Row
  unfolding insert_newest
  newest_first [] = []
  newest_first (r ∷ rows) = insert_newest r (newest_first rows)

  -- `LIMIT n`
  unfoldable pub newest : ℕ → List Row → List Row
  unfolding newest_first
  newest n rows = take n (newest_first rows)

  -- None of the rows is newer than r.
  abbrev pub NoneNewer : Row → List Row → Type 0
  NoneNewer r = All (λ s. created_at s ≤ created_at r)

  abbrev pub IsSorted : List Row → Type 0
  IsSorted [] = Unit {0}
  IsSorted (r ∷ rows) = NoneNewer r rows × IsSorted rows

  NoneNewer-insert :
      (r s : Row) (rows : List Row)
      → created_at s ≤ created_at r
      → NoneNewer r rows
      → NoneNewer r (insert_newest s rows)
  unfolding insert_newest
  NoneNewer-insert r s [] h a = (h, tt)
  NoneNewer-insert r s (t ∷ rows) h a = elim (Bool-cases (ltb (created_at s) (created_at t))) [
    | inl e ↦ rw (e, insert_newest) (a.0, NoneNewer-insert r s rows h a.1)
    | inr e ↦ rw (e, insert_newest) (h, a)
  ]

  NoneNewer-older :
      (r s : Row) (rows : List Row)
      → created_at s ≤ created_at r
      → NoneNewer s rows
      → NoneNewer r rows
  NoneNewer-older r s [] h a = tt
  NoneNewer-older r s (t ∷ rows) h a = (omega (arith, a.0), NoneNewer-older r s rows h a.1)

  insert-IsSorted : (r : Row) (rows : List Row) → IsSorted rows → IsSorted (insert_newest r rows)
  unfolding insert_newest
  insert-IsSorted r [] h = (tt, tt)
  insert-IsSorted r (s ∷ rows) h = elim (Bool-cases (ltb (created_at r) (created_at s))) [
    | inl e ↦
        rw (e, insert_newest)
          (NoneNewer-insert s r rows (ground (arith, e)) h.0, insert-IsSorted r rows h.1)
    | inr e ↦
        rw (e, insert_newest)
          ((ground (arith, e), NoneNewer-older r s rows (ground (arith, e)) h.0), h)
  ]

  newest_first-IsSorted : (rows : List Row) → IsSorted (newest_first rows)
  unfolding newest_first
  newest_first-IsSorted [] = tt
  newest_first-IsSorted (r ∷ rows) =
      insert-IsSorted r (newest_first rows) (newest_first-IsSorted rows)

  count_if-insert :
      (p : Row → Bool) (r : Row) (rows : List Row)
      → count_if p (insert_newest r rows) ≡ count_if p (r ∷ rows)
  unfolding insert_newest
  count_if-insert p r [] = refl
  count_if-insert p r (s ∷ rows) = ground (arith, count_if-insert p r rows)

  count_if-newest_first :
      (p : Row → Bool) (rows : List Row) → count_if p (newest_first rows) ≡ count_if p rows
  unfolding newest_first
  count_if-newest_first p [] = refl
  count_if-newest_first p (r ∷ rows) =
      count_if-insert p r (newest_first rows) ∙ ground (arith, count_if-newest_first p rows)

  -- The listed rows, and a rest that is left out: together they are the rows of the table, the list is
  -- sorted, nothing left out is newer than anything listed, and something is left out only if n rows
  -- are listed.
  pub record IsNewest (n : ℕ) (rows : List Row) (listed : List Row) : Type 0 where
    pub rest : List Row
    pub together : (p : Row → Bool) → count_if p listed + count_if p rest ≡ count_if p rows
    pub sorted : IsSorted listed
    pub newer : All (λ r. NoneNewer r rest) listed
    pub bounded : length listed ≤ n
    pub needed : (rest ≡ []) ⊎ (length listed ≡ n)

  drop : ℕ → List Row → List Row
  drop zero rows = rows
  drop (suc n) [] = []
  drop (suc n) (r ∷ rows) = drop n rows

  All-take : (P : Row → Type 0) (n : ℕ) (rows : List Row) → All P rows → All P (take n rows)
  All-take P zero rows h = tt
  All-take P (suc n) [] h = tt
  All-take P (suc n) (r ∷ rows) h = (h.0, All-take P n rows h.1)

  All-drop : (P : Row → Type 0) (n : ℕ) (rows : List Row) → All P rows → All P (drop n rows)
  unfolding drop
  All-drop P zero rows h = h
  All-drop P (suc n) [] h = tt
  All-drop P (suc n) (r ∷ rows) h = All-drop P n rows h.1

  take-IsSorted : (n : ℕ) (rows : List Row) → IsSorted rows → IsSorted (take n rows)
  take-IsSorted zero rows h = tt
  take-IsSorted (suc n) [] h = tt
  take-IsSorted (suc n) (r ∷ rows) h =
      (All-take (λ s. created_at s ≤ created_at r) n rows h.0, take-IsSorted n rows h.1)

  take-newer :
      (n : ℕ) (rows : List Row) → IsSorted rows → All (λ r. NoneNewer r (drop n rows)) (take n rows)
  unfolding drop
  take-newer zero rows h = tt
  take-newer (suc n) [] h = tt
  take-newer (suc n) (r ∷ rows) h =
      (All-drop (λ s. created_at s ≤ created_at r) n rows h.0, take-newer n rows h.1)

  take-together :
      (p : Row → Bool) (n : ℕ) (rows : List Row)
      → count_if p (take n rows) + count_if p (drop n rows) ≡ count_if p rows
  unfolding drop
  take-together p zero rows = omega arith
  take-together p (suc n) [] = refl
  take-together p (suc n) (r ∷ rows) = ground (arith, take-together p n rows)

  take-needed : (n : ℕ) (rows : List Row) → (drop n rows ≡ []) ⊎ (length (take n rows) ≡ n)
  unfolding drop
  take-needed zero rows = inr refl
  take-needed (suc n) [] = inl refl
  take-needed (suc n) (r ∷ rows) = elim (take-needed n rows) [
    | inl e ↦ inl e
    | inr e ↦ inr (omega (arith, e))
  ]

  pub newest-IsNewest : (n : ℕ) (rows : List Row) → IsNewest n rows (newest n rows)
  unfolding newest
  newest-IsNewest n rows =
      let sorted = newest_first rows in
      let h = newest_first-IsSorted rows in
      record {
        rest = drop n sorted;
        together = λ p. take-together p n sorted ∙ count_if-newest_first p rows;
        sorted = take-IsSorted n sorted h;
        newer = take-newer n sorted h;
        bounded = length-take_le n sorted;
        needed = take-needed n sorted;
      }
