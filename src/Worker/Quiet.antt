-- ===== src/Worker/Quiet.antt =====
-- A process whose calls do not fail and that nobody else comes between.
use mathlib.Core.Path.{subst}
use production_cloud_reliabi.Prelude.{
  ℕ, ◌≡◌, ◌+◌, refl, sym, ◌∙◌, ap, none, some, List, [], ◌∷◌, arith,
}
use production_cloud_reliabi.Errors.{Result}
use production_cloud_reliabi.Codec.{Codec}
use production_cloud_reliabi.Database.{Uuid, JobRow, Database, find_job}
use production_cloud_reliabi.World.{World, Moment, call, next}
use production_cloud_reliabi.World.Rules.{Ends}

pub find_job-id : (j : Uuid) (rows : List JobRow) (r : JobRow) → find_job j rows ≡ some r → r.id ≡ j
find_job-id j [] r h = ground arith
find_job-id j (s ∷ rows) r h = ground (arith, find_job-id j rows r)

-- No call meets a fault, and nobody else acts.
abbrev pub IsQuiet : World → Type 0
IsQuiet w = (n : ℕ) → ((w.moments n).fault ≡ none) × ((w.moments n).before ≡ [])

abbrev pub tick : World → World
tick v = record v { calls = v.calls + 1 }

module _ (w : World) where
  -- k calls later, with these tables.
  pub record At (k : ℕ) (db : Database) (v : World) : Type 0 where
    pub moments : v.moments ≡ w.moments
    pub calls : v.calls ≡ w.calls + k
    pub tables : v.db ≡ db

  -- The moment of the call that comes next.
  abbrev pub moment : ℕ → Moment
  moment k = w.moments (w.calls + k)

  -- Another call later, with other tables and whatever else has changed.
  pub later :
      {k : ℕ} {db : Database} {v : World} (db' : Database) (u : World)
      → At k db v
      → u.moments ≡ v.moments
      → u.calls ≡ v.calls + 1
      → u.db ≡ db'
      → At (k + 1) db' u
  later db' u a m c d = record {
    moments = m ∙ a.moments;
    calls = omega (arith, c, a.calls);
    tables = d;
  }

module _ (codec : Codec) (w : World) (quiet : IsQuiet w) where
  call-At :
      {A : Type 0} (f : Moment → World → Result A × World) {k : ℕ} {db : Database} (v : World)
      → At w k db v
      → call codec f v ≡ f (moment w k) (tick v)
  unfolding call next
  call-At f {k} v a =
      let e : v.moments v.calls ≡ moment w k =
        ap (λ (m : ℕ → Moment). m v.calls) a.moments ∙ ap w.moments a.calls in
      rw (e, (quiet (w.calls + k)).0, (quiet (w.calls + k)).1) refl

  -- A call ends as its effect does.
  pub Ends-call_at :
      {A : Type 0} (Q : A → World → Type 0) (f : Moment → World → Result A × World) {k : ℕ}
      {db : Database} (v : World)
      → At w k db v
      → Ends Q (λ e u. ⊥) (f (moment w k) (tick v))
      → Ends Q (λ e u. ⊥) (call codec f v)
  Ends-call_at Q f v a h = subst (Ends Q (λ e u. ⊥)) (sym (call-At f v a)) h
