-- ===== src/Errors.antt =====
-- Python's exceptions as the repository and the worker raise and catch them
-- (application/shared/repository.py), and fallible results.
use production_cloud_reliabi.Prelude.{◌≡◌, String}

-- `external` is an exception of a library the program calls, by its class name.
pub data Exc : Type 0 where
  duplicate_customer not_found lost_job_claim : Exc
  unique_violation foreign_key_violation : Exc
  value_error key_error attribute_error type_error : Exc
  external : String → Exc

-- `type(exc).__name__`
unfoldable pub type_name : Exc → String
type_name Exc.duplicate_customer = "DuplicateCustomerError"
type_name Exc.not_found = "NotFoundError"
type_name Exc.lost_job_claim = "LostJobClaimError"
type_name Exc.unique_violation = "UniqueViolation"
type_name Exc.foreign_key_violation = "ForeignKeyViolation"
type_name Exc.value_error = "ValueError"
type_name Exc.key_error = "KeyError"
type_name Exc.attribute_error = "AttributeError"
type_name Exc.type_error = "TypeError"
type_name (Exc.external name) = name

pub data Result {ℓ} (A : Type ℓ) : Type ℓ where
  ok : A → Result A
  err : Exc → Result A

infixl 5 ◌>>=◌
abbrev pub ◌>>=◌ {ℓ κ} : {A : Type ℓ} {B : Type κ} → Result A → (A → Result B) → Result B
ok a >>= f = f a
err e >>= f = err e

pub err-ne-ok {ℓ} : {A : Type ℓ} (e : Exc) (a : A) → err e ≡ ok a → ⊥
err-ne-ok e a h = cc
