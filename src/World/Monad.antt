-- ===== src/World/Monad.antt =====
-- Methods that call the outside and may raise. What was done before a raise stays done, so the world
-- comes back beside the exception.
use production_cloud_reliabi.Prelude.{◌+◌, Bool, Option, none, some, true, false}
use production_cloud_reliabi.Errors.{Exc, Result, ok, err}
use production_cloud_reliabi.Codec.{Codec}
use production_cloud_reliabi.Database.{Database}
use production_cloud_reliabi.World.State.{World, Moment, Metric, inc, run_events}

abbrev pub Exec : Type 0 → Type 0
Exec A = World → Result A × World

module _ {A : Type 0} where
  abbrev pub pure : A → Exec A
  pure a w = (ok a, w)

  abbrev pub raise : Exc → Exec A
  raise e w = (err e, w)

  -- `try: m  except Exception as exc: handler(exc)`
  abbrev pub catch : Exec A → (Exc → Exec A) → Exec A
  catch m handler w = let (r, w') = m w in elim r [ ok a ↦ (ok a, w') | err e ↦ handler e w' ]

infixl 5 ◌>>=◌ ◌>>◌
abbrev pub ◌>>=◌ : {A B : Type 0} → Exec A → (A → Exec B) → Exec B
◌>>=◌ m f w = let (r, w') = m w in elim r [ ok a ↦ f a w' | err e ↦ (err e, w') ]

abbrev pub ◌>>◌ : {A B : Type 0} → Exec A → Exec B → Exec B
m >> k = m >>= λ _. k

abbrev pub modify : (World → World) → Exec (Unit {0})
modify f w = (ok tt, f w)

-- `COUNTER.labels(...).inc()`
abbrev pub count : Metric → Exec (Unit {0})
count m = modify (inc m)

abbrev pub lift : {A : Type 0} → Result A → Exec A
lift r w = (r, w)

-- How a call ends whose effect would end in `o`: with a fault it raises, before or after the effect.
abbrev pub settle : {A : Type 0} → Option Exc → Bool → World → Result A × World → Result A × World
settle none took_effect before o = o
settle (some e) true before o = (err e, o.1)
settle (some e) false before o = (err e, before)

module _ (codec : Codec) where
  -- The world when the next call is made.
  unfoldable pub next : World → World
  unfolding run_events
  next w = run_events codec (w.moments w.calls).before (record w { calls = w.calls + 1 })

  -- A call of a library: `f` says what it does.
  unfoldable pub call : {A : Type 0} → (Moment → World → Result A × World) → Exec A
  unfolding next
  call f w = let m = w.moments w.calls in settle m.fault m.took_effect (next w) (f m (next w))

  -- `with self.database.transaction()`: an exception of its own, or of the statements, rolls back.
  abbrev pub commit : {A : Type 0} → Result (A × Database) → World → Result A × World
  commit (ok (a, db)) w = (ok a, record w { db = db })
  commit (err e) w = (err e, w)

  unfoldable pub transaction : {A : Type 0} → (Moment → Database → Result (A × Database)) → Exec A
  unfolding call
  transaction body = call (λ m w. commit (body m w.db) w)
