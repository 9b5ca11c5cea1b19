-- ===== src/Platform/Rules.antt =====
-- Rules for how a method of the earlier generation of the services ends (services/platform_app), whose
-- calls may fail before or after their effect.
use production_cloud_reliabi.Prelude.{Bool, true, false, Option, none, some}
use production_cloud_reliabi.Errors.{Exc, Result, ok, err}
use production_cloud_reliabi.Platform.World.{
  PlatformMoment, PlatformWorld, Exec, catch, settle, next, call, ◌>>=◌,
}

-- Q of the value and the world after a return, E of the world after a raise.
abbrev pub Ends :
    {A : Type 0}
    → (A → PlatformWorld → Type 0)
    → (PlatformWorld → Type 0)
    → Result A × PlatformWorld
    → Type 0
Ends Q E (ok a, w) = Q a w
Ends Q E (err e, w) = E w

module _ {A : Type 0} where
  pub Ends-bind :
      {B : Type 0} (Q : B → PlatformWorld → Type 0) (E : PlatformWorld → Type 0) (m : Exec A)
      (f : A → Exec B) (w : PlatformWorld)
      → Ends (λ a v. Ends Q E (f a v)) E (m w)
      → Ends Q E ((m >>= f) w)
  Ends-bind Q E m f w h = let (r, v) = m w in returned r v h
    where
      returned :
          (r : Result A) (v : PlatformWorld)
          → Ends (λ a v. Ends Q E (f a v)) E (r, v)
          → Ends Q E (elim r [ ok a ↦ f a v | err e ↦ (err e, v) ])
      returned (ok a) v h = h
      returned (err e) v h = h

  pub Ends-catch :
      (Q : A → PlatformWorld → Type 0) (E : PlatformWorld → Type 0) (m : Exec A) (f : Exc → Exec A)
      (w : PlatformWorld)
      → Ends Q (λ v. (e : Exc) → Ends Q E (f e v)) (m w)
      → Ends Q E (catch m f w)
  Ends-catch Q E m f w h = let (r, v) = m w in handled r v h
    where
      handled :
          (r : Result A) (v : PlatformWorld)
          → Ends Q (λ v. (e : Exc) → Ends Q E (f e v)) (r, v)
          → Ends Q E (elim r [ ok a ↦ (ok a, v) | err e ↦ f e v ])
      handled (ok a) v h = h
      handled (err e) v h = h e

  pub Ends-map :
      (Q Q' : A → PlatformWorld → Type 0) (E E' : PlatformWorld → Type 0)
      (o : Result A × PlatformWorld)
      → ((a : A) (v : PlatformWorld) → Q a v → Q' a v)
      → ((v : PlatformWorld) → E v → E' v)
      → Ends Q E o
      → Ends Q' E' o
  Ends-map Q Q' E E' (ok a, v) f g h = f a v h
  Ends-map Q Q' E E' (err e, v) f g h = g v h

  -- A call: what holds after its effect, or with a fault before or after that.
  pub Ends-call :
      (Q : A → PlatformWorld → Type 0) (E : PlatformWorld → Type 0)
      (f : PlatformMoment → PlatformWorld → Result A × PlatformWorld) (w : PlatformWorld)
      → E (next w)
      → Ends (λ a v. Q a v × E v) E (f (w.moments w.calls) (next w))
      → Ends Q E (call f w)
  unfolding call
  Ends-call Q E f w e h =
      let m : PlatformMoment = w.moments w.calls in settled m.fault m.took_effect (f m (next w)) h
    where
      settled :
          (fault : Option Exc) (took : Bool) (o : Result A × PlatformWorld)
          → Ends (λ a v. Q a v × E v) E o
          → Ends Q E (settle fault took (next w) o)
      settled none took (ok a, v) h = h.0
      settled none took (err x, v) h = h
      settled (some x) true (ok a, v) h = h.1
      settled (some x) true (err y, v) h = h
      settled (some x) false o h = e
