-- ===== src/Http/Observed.antt =====
-- What RequestContextMiddleware of application/shared/logging.py adds to a handler, whatever it does.
use text.Mathlib.TextEquality.{eq_iff}
use production_cloud_reliabi.Prelude.{
  ◌≡◌, refl, String, false, Option, none, some, List, [], ◌∷◌, str_eq, if◌then◌else◌, Bool-cases,
  inl, inr, arith,
}
use production_cloud_reliabi.Errors.{Result, ok, err}
use production_cloud_reliabi.Http.{Response, LogRecord, set_header}
use production_cloud_reliabi.Http.Context.{or_else}

abbrev pub header : String → List (String × String) → Option String
header name [] = none
header name ((n, v) ∷ headers) = if str_eq n name then some v else header name headers

pub header-set_header :
    (j k v : String) (headers : List (String × String))
    → header j (set_header k v headers) ≡ (if str_eq k j then some v else header j headers)
header-set_header j k v [] = refl
header-set_header j k v ((n, u) ∷ headers) =
    ground (arith, eq_iff k j, eq_iff n k, eq_iff n j, header-set_header j k v headers)

-- The response with the two headers of the ids and every other header as it was, or the same exception.
abbrev pub SameOutcome : String → String → Result Response → Result Response → Type 0
SameOutcome request_id correlation_id (ok inner) (ok outer) =
    (outer.status_code ≡ inner.status_code)
    × ((name : String)
        → header name outer.headers ≡ (
            if str_eq "x-correlation-id" name
            then some correlation_id
            else if str_eq "x-request-id" name
            then some request_id
            else header name inner.headers))
SameOutcome request_id correlation_id (err e) (err e') = e ≡ e'
SameOutcome request_id correlation_id _ _ = ⊥

pub or_else-not_empty :
    (o : Option String) (fallback : String)
    → str_eq fallback "" ≡ false
    → str_eq (or_else o fallback) "" ≡ false
or_else-not_empty none fallback h = h
or_else-not_empty (some v) fallback h = elim (Bool-cases (str_eq v "")) [
  | inl e ↦ rw e h
  | inr n ↦ rw n n
]

-- The request that is logged: at INFO with its status, or at ERROR with its exception.
abbrev pub Logs : Result Response → LogRecord → Type 0
Logs (ok response) entry = (entry.level ≡ "INFO") × (entry.exc_info ≡ none)
Logs (err e) entry = (entry.level ≡ "ERROR") × ((t : String) × (entry.exc_info ≡ some t))
