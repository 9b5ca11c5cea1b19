-- ===== src/World/Keeps.antt =====
-- Invariants of methods: a predicate of the world that the environment and the parts of a method
-- keep is kept by the method, whether it returns or raises.
use production_cloud_reliabi.Prelude.{ℕ, ◌≡◌, String, Bool, true, false, Option, none, some, List}
use mathlib.Core.Path.{sym, subst}
use production_cloud_reliabi.Errors.{Exc, Result, ok, err}
use production_cloud_reliabi.Codec.{Codec, Json}
use production_cloud_reliabi.Database.{Uuid, Timestamp, Database}
use production_cloud_reliabi.Repository.Actions.{Action, run_action, committed}
use production_cloud_reliabi.World.State.{
  World, Moment, Metric, VisibilityHeartbeat, StoredReport, inc,
}
use production_cloud_reliabi.World.Monad.{
  Exec, pure, raise, catch, count, lift, ◌>>=◌, next, call, commit, transaction, settle,
}
use production_cloud_reliabi.World.Rules.{Ends}

pub record Keeps {A : Type 0} (I : World → Type 0) (m : Exec A) : Type 0 where
  pub at : (w : World) → I w → I (m w).1

-- What the worker does to the world, other than to delete a message.
pub record IsStable (codec : Codec) (I : World → Type 0) : Type 0 where
  pub at_next : (w : World) → I w → I (next codec w)
  pub at_action :
      (now : Timestamp) (uuid : ℕ → Uuid) (a : Action) (w : World)
      → I w
      → I (record w { db = run_action codec now uuid a w.db })
  pub at_inc : (m : Metric) (w : World) → I w → I (inc m w)
  pub at_heartbeat :
      (h : Option VisibilityHeartbeat) (w : World) → I w → I (record w { heartbeat = h })
  pub at_report :
      (reports : List StoredReport) (w : World) → I w → I (record w { reports = reports })
  pub at_send : (sent : List (String × String)) (w : World) → I w → I (record w { sent = sent })
  pub at_publish :
      (published : List (Uuid × Json)) (w : World) → I w → I (record w { published = published })

module _ {I : World → Type 0} {A : Type 0} where
  pub Keeps-pure : (a : A) → Keeps I (pure a)
  Keeps-pure a = record { at = λ w h. h }

  pub Keeps-raise : (e : Exc) → Keeps I (raise {A = A} e)
  Keeps-raise e = record { at = λ w h. h }

  pub Keeps-lift : (r : Result A) → Keeps I (lift r)
  Keeps-lift r = record { at = λ w h. h }

  go_catch :
      (handler : Exc → Exec A)
      → ((e : Exc) → Keeps I (handler e))
      → (r : Result A) (w : World) → I w
      → I (catch (λ (_ : World). (r, w)) handler w).1
  go_catch handler kh (ok a) w h = h
  go_catch handler kh (err e) w h = (kh e).at w h

  pub Keeps-catch :
      (m : Exec A) (handler : Exc → Exec A)
      → Keeps I m
      → ((e : Exc) → Keeps I (handler e))
      → Keeps I (catch m handler)
  Keeps-catch m handler km kh = record {
    at = λ w h. let (r, v) = m w in go_catch handler kh r v (km.at w h);
  }

module _ {I : World → Type 0} {A B : Type 0} where
  go_bind :
      (f : A → Exec B)
      → ((a : A) → Keeps I (f a))
      → (r : Result A) (w : World) → I w
      → I (((λ (_ : World). (r, w)) >>= f) w).1
  go_bind f kf (ok a) w h = (kf a).at w h
  go_bind f kf (err e) w h = h

  pub Keeps-bind :
      (m : Exec A) (f : A → Exec B) → Keeps I m → ((a : A) → Keeps I (f a)) → Keeps I (m >>= f)
  Keeps-bind m f km kf = record { at = λ w h. let (r, v) = m w in go_bind f kf r v (km.at w h) }

settle-keeps :
    {A : Type 0} (I : World → Type 0) (fault : Option Exc) (took_effect : Bool) (before : World)
    (o : Result A × World)
    → I before
    → I o.1
    → I (settle fault took_effect before o).1
settle-keeps I none took_effect before o b a = a
settle-keeps I (some e) true before o b a = a
settle-keeps I (some e) false before o b a = b

module _ {codec : Codec} {I : World → Type 0} (s : IsStable codec I) where
  pub Keeps-call :
      {A : Type 0} (f : Moment → World → Result A × World)
      → ((m : Moment) (w : World) → I w → I (f m w).1)
      → Keeps I (call codec f)
  unfolding call
  Keeps-call f k = record {
    at = λ w h.
        let m = w.moments w.calls in
        let v = next codec w in
        let n = s.at_next w h in settle-keeps I m.fault m.took_effect v (f m v) n (k m v n);
  }

  commit-keeps :
      {A : Type 0} (r : Result (A × Database)) (w : World)
      → I w
      → I (record w { db = committed w.db r })
      → I (commit codec r w).1
  commit-keeps (ok (a, db)) w h k = k
  commit-keeps (err e) w h k = h

  -- A transaction that does what an action does.
  pub Keeps-transaction :
      {A : Type 0} (body : Moment → Database → Result (A × Database)) (a : Moment → Action)
      → ((m : Moment) (db : Database)
          → committed db (body m db) ≡ run_action codec m.now m.uuid (a m) db)
      → Keeps I (transaction codec body)
  unfolding transaction
  Keeps-transaction body a same =
      Keeps-call (λ m w. commit codec (body m w.db) w)
        (λ m w h. commit-keeps (body m w.db) w h (
          subst (λ db. I (record w { db = db })) (sym (same m w.db))
            (s.at_action m.now m.uuid (a m) w h)))

  -- A transaction that only reads.
  pub Keeps-read :
      {A : Type 0} (body : Moment → Database → Result (A × Database))
      → ((m : Moment) (db : Database) → committed db (body m db) ≡ db)
      → Keeps I (transaction codec body)
  unfolding transaction
  Keeps-read body same =
      Keeps-call (λ m w. commit codec (body m w.db) w)
        (λ m w h.
          commit-keeps (body m w.db) w h
            (subst (λ db. I (record w { db = db })) (sym (same m w.db)) h))

  pub Keeps-count : (m : Metric) → Keeps I (count m)
  Keeps-count m = record { at = s.at_inc m }

-- What a keeper of I guarantees of each outcome.
pub Ends-Keeps :
    {A : Type 0} (I : World → Type 0) (m : Exec A)
    → Keeps I m
    → (w : World) → I w
    → Ends (λ a v. I v) (λ e v. I v) (m w)
Ends-Keeps {A} I m k w h = let (r, v) = m w in go r v (k.at w h)
  where
    go : (r : Result A) (v : World) → I v → Ends (λ a u. I u) (λ e u. I u) (r, v)
    go (ok a) v i = i
    go (err e) v i = i

-- Two facts about the same outcome.
pub Ends-both :
    {A : Type 0} (Q Q' : A → World → Type 0) (E E' : Exc → World → Type 0) (o : Result A × World)
    → Ends Q E o
    → Ends Q' E' o
    → Ends (λ a v. Q a v × Q' a v) (λ e v. E e v × E' e v) o
Ends-both Q Q' E E' (ok a, v) h k = (h, k)
Ends-both Q Q' E E' (err e, v) h k = (h, k)
