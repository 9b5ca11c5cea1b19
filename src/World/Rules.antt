-- ===== src/World/Rules.antt =====
-- Rules for how a method ends, one for each way to build a method, and what the calls of the
-- outside leave alone.
use production_cloud_reliabi.Prelude.{
  ℕ, ◌≡◌, ◌+◌, ◌⊎◌, refl, ◌∙◌, Bool, true, false, Option, none, some, List, [], ◌∷◌, Option-cases,
  inl, inr, arith,
}
use production_cloud_reliabi.Errors.{Exc, Result, ok, err}
use production_cloud_reliabi.Codec.{Codec}
use production_cloud_reliabi.Database.{Uuid, Timestamp, JobStatus, Database}
use production_cloud_reliabi.Repository.Actions.{Action, run_action}
use production_cloud_reliabi.Repository.Jobs
use production_cloud_reliabi.Repository.Transitions.{status_of, run_action-completed}
use production_cloud_reliabi.World.State.{
  World, Moment, Event, Beat, VisibilityHeartbeat, run_beat, run_event, run_events,
}
use production_cloud_reliabi.World.Monad.{Exec, catch, ◌>>=◌, next, call, settle}

-- An outcome: Q of the value and the world after a return, E of the exception and the world after a
-- raise.
abbrev pub Ends :
    {A : Type 0} → (A → World → Type 0) → (Exc → World → Type 0) → Result A × World → Type 0
Ends Q E (ok a, w) = Q a w
Ends Q E (err e, w) = E e w

module _ {A : Type 0} where
  Ends-return :
      {B : Type 0} (Q : B → World → Type 0) (E : Exc → World → Type 0) (f : A → Exec B)
      (r : Result A) (w : World)
      → Ends (λ a v. Ends Q E (f a v)) E (r, w)
      → Ends Q E (elim r [ ok a ↦ f a w | err e ↦ (err e, w) ])
  Ends-return Q E f (ok a) w h = h
  Ends-return Q E f (err e) w h = h

  pub Ends-bind :
      {B : Type 0} (Q : B → World → Type 0) (E : Exc → World → Type 0) (m : Exec A) (f : A → Exec B)
      (w : World)
      → Ends (λ a v. Ends Q E (f a v)) E (m w)
      → Ends Q E ((m >>= f) w)
  Ends-bind Q E m f w h = let (r, v) = m w in Ends-return Q E f r v h

  Ends-handled :
      (Q : A → World → Type 0) (E : Exc → World → Type 0) (handler : Exc → Exec A) (r : Result A)
      (w : World)
      → Ends Q (λ e v. Ends Q E (handler e v)) (r, w)
      → Ends Q E (elim r [ ok a ↦ (ok a, w) | err e ↦ handler e w ])
  Ends-handled Q E handler (ok a) w h = h
  Ends-handled Q E handler (err e) w h = h

  pub Ends-catch :
      (Q : A → World → Type 0) (E : Exc → World → Type 0) (m : Exec A) (handler : Exc → Exec A)
      (w : World)
      → Ends Q (λ e v. Ends Q E (handler e v)) (m w)
      → Ends Q E (catch m handler w)
  Ends-catch Q E m handler w h = let (r, v) = m w in Ends-handled Q E handler r v h

  -- Weakening.
  pub Ends-map :
      (Q Q' : A → World → Type 0) (E E' : Exc → World → Type 0) (o : Result A × World)
      → ((a : A) (v : World) → Q a v → Q' a v)
      → ((e : Exc) (v : World) → E e v → E' e v)
      → Ends Q E o
      → Ends Q' E' o
  Ends-map Q Q' E E' (ok a, v) q e h = q a v h
  Ends-map Q Q' E E' (err x, v) q e h = e x v h

Ends-settle :
    {A : Type 0} (Q : A → World → Type 0) (E : Exc → World → Type 0) (fault : Option Exc)
    (took_effect : Bool) (before : World) (o : Result A × World)
    → ((e : Exc) → E e before)
    → ((e : Exc) → E e o.1)
    → Ends Q E o
    → Ends Q E (settle fault took_effect before o)
Ends-settle Q E none took_effect before o b a h = h
Ends-settle Q E (some e) true before o b a h = a e
Ends-settle Q E (some e) false before o b a h = b e

-- A completed job.
abbrev pub IsCompleted : Uuid → World → Type 0
IsCompleted j w = status_of j w.db ≡ some JobStatus.completed

-- Neither other processes nor the heartbeat delete messages.
run_beat-deleted :
    (b : Beat) (h : VisibilityHeartbeat) (w : World) → (run_beat b h w).deleted ≡ w.deleted
unfolding run_beat
run_beat-deleted b h w = ground arith

module _ (codec : Codec) where
  -- A call ends as its effect does, or raises before or after it.
  pub Ends-call :
      {A : Type 0} (Q : A → World → Type 0) (E : Exc → World → Type 0)
      (f : Moment → World → Result A × World) (w : World)
      → ((e : Exc) → E e (next codec w))
      → ((e : Exc) → E e (f (w.moments w.calls) (next codec w)).1)
      → Ends Q E (f (w.moments w.calls) (next codec w))
      → Ends Q E (call codec f w)
  unfolding call
  Ends-call Q E f w =
      let m = w.moments w.calls in
      Ends-settle Q E m.fault m.took_effect (next codec w) (f m (next codec w))

  -- A call that meets no fault returns what it does.
  pub call-quiet :
      {A : Type 0} (f : Moment → World → Result A × World) (w : World)
      → (w.moments w.calls).fault ≡ none
      → call codec f w ≡ f (w.moments w.calls) (next codec w)
  unfolding call
  call-quiet f w quiet = rw (call, quiet) refl

  run_event-deleted : (e : Event) (w : World) → (run_event codec e w).deleted ≡ w.deleted
  unfolding run_event
  run_event-deleted (Event.other now uuid a) w = refl
  run_event-deleted (Event.beat b) w = elim (Option-cases w.heartbeat) [
    | inl e ↦ rw (e, run_event) refl
    | inr (h, e) ↦ rw (e, run_event) (run_beat-deleted b h w)
  ]

  run_events-deleted :
      (events : List Event) (w : World) → (run_events codec events w).deleted ≡ w.deleted
  unfolding run_events
  run_events-deleted [] w = refl
  run_events-deleted (e ∷ events) w =
      run_events-deleted events (run_event codec e w) ∙ run_event-deleted e w

  pub next-deleted : (w : World) → (next codec w).deleted ≡ w.deleted
  unfolding next
  next-deleted w = run_events-deleted (w.moments w.calls).before (record w { calls = w.calls + 1 })

  -- The heartbeat leaves the tables alone or renews a lease.
  run_beat-db :
      (b : Beat) (h : VisibilityHeartbeat) (w : World)
      → ((run_beat b h w).db ≡ w.db)
        ⊎ ((run_beat b h w).db
            ≡ (Jobs.renew_job_processing_lease b.now h.job_id h.processing_token w.db).1)
  unfolding run_beat
  run_beat-db b h w = ground arith

  module _ (P : Database → Type 0)
      (keep : (now : Timestamp) (uuid : ℕ → Uuid) (a : Action) (db : Database)
        → P db
        → P (run_action codec now uuid a db)) where
    run_beat-keeps :
        (b : Beat) (h : VisibilityHeartbeat) (w : World) → P w.db → P (run_beat b h w).db
    unfolding run_action
    run_beat-keeps b h w p = elim (run_beat-db b h w) [
      | inl e ↦ rw e p
      | inr e ↦ rw e (
          keep b.now (λ _. 0) (Action.renew_job_processing_lease h.job_id h.processing_token) w.db
            p)
    ]

    run_event-keeps : (e : Event) (w : World) → P w.db → P (run_event codec e w).db
    unfolding run_event
    run_event-keeps (Event.other now uuid a) w p = keep now uuid a w.db p
    run_event-keeps (Event.beat b) w p = elim (Option-cases w.heartbeat) [
      | inl e ↦ rw (e, run_event) p
      | inr (h, e) ↦ rw (e, run_event) (run_beat-keeps b h w p)
    ]

    run_events-keeps : (events : List Event) (w : World) → P w.db → P (run_events codec events w).db
    unfolding run_events
    run_events-keeps [] w p = p
    run_events-keeps (e ∷ events) w p =
        run_events-keeps events (run_event codec e w) (run_event-keeps e w p)

    -- What every transaction keeps, holds still when the next call is made.
    pub next-keeps : (w : World) → P w.db → P (next codec w).db
    unfolding next
    next-keeps w p =
        run_events-keeps (w.moments w.calls).before (record w { calls = w.calls + 1 }) p

  pub next-IsCompleted : (j : Uuid) (w : World) → IsCompleted j w → IsCompleted j (next codec w)
  next-IsCompleted j =
      next-keeps (λ db. status_of j db ≡ some JobStatus.completed)
        (λ now uuid a db. run_action-completed codec now uuid a db j)
