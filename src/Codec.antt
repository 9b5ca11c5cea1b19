-- ===== src/Codec.antt =====
-- JSON values as psycopg's `Jsonb` and Python's `json` hold them, the part of `dict` and of truth
-- testing that the program uses on them, and the text conversions of Python's `json` and `uuid`
-- modules, which the program only calls. A JSON number is a natural number: the program writes
-- no other itself, and reads none of those in the payload of a job.
use production_cloud_reliabi.Prelude.{
  ℕ, ◌≡◌, String, Bool, true, false, not, Option, none, some, str_eq, ◌==◌, if◌then◌else◌,
}
use production_cloud_reliabi.Errors.{Exc, Result, ok, err}

mutual
  pub data Json : Type 0 where
    null : Json
    bool : Bool → Json
    num : ℕ → Json
    str : String → Json
    arr : Items → Json
    obj : Fields → Json

  pub data Items : Type 0 where
    nil : Items
    cons : Json → Items → Items

  pub data Fields : Type 0 where
    end : Fields
    field : String → Json → Fields → Fields

-- `key in d` with its value.
abbrev pub lookup : String → Fields → Option Json
lookup key Fields.end = none
lookup key (Fields.field k v rest) = if str_eq k key then some v else lookup key rest

-- `d.get(key)`, which is `None` (the JSON null) for a missing key.
abbrev pub get : String → Fields → Json
get key Fields.end = Json.null
get key (Fields.field k v rest) = if str_eq k key then v else get key rest

-- `d[key] = value`
abbrev pub set : String → Json → Fields → Fields
set key v Fields.end = Fields.field key v Fields.end
set key v (Fields.field k w rest) =
    if str_eq k key then Fields.field k v rest else Fields.field k w (set key v rest)

-- `if value:`
abbrev pub truthy : Json → Bool
truthy Json.null = false
truthy (Json.bool b) = b
truthy (Json.num n) = not (n == 0)
truthy (Json.str s) = not (str_eq s "")
truthy (Json.arr Items.nil) = false
truthy (Json.arr (Items.cons _ _)) = true
truthy (Json.obj Fields.end) = false
truthy (Json.obj (Fields.field _ _ _)) = true

-- `value == 1`, which holds of JSON's true as well.
abbrev pub is_one : Json → Bool
is_one (Json.num n) = n == 1
is_one (Json.bool b) = b
is_one _ = false

-- `value == text`
abbrev pub is_text : String → Json → Bool
is_text s (Json.str t) = str_eq t s
is_text s _ = false

-- `None` or a string, as a JSON value.
abbrev pub of_optional : Option String → Json
of_optional none = Json.null
of_optional (some s) = Json.str s

-- `json.dumps`, `json.loads` (`none` for a text that is not JSON), `str` of a UUID, `UUID` of a text
-- (`none` where it raises ValueError), and `str` of a JSON value that is no string.
pub record Codec : Type 0 where
  pub dumps : Json → String
  pub loads : String → Option Json
  pub str_uuid : ℕ → String
  pub parse_uuid : String → Option ℕ
  pub str_json : Json → String

-- The documented behaviour of `uuid.UUID`: `UUID(str(u)) == u`.
abbrev pub UuidRoundTrips : Codec → Type 0
UuidRoundTrips codec = (u : ℕ) → codec.parse_uuid (codec.str_uuid u) ≡ some u

-- The documented behaviour of `json`, at one value: `json.loads(json.dumps(v)) == v`.
abbrev pub LoadsBack : Codec → Json → Type 0
LoadsBack codec v = codec.loads (codec.dumps v) ≡ some v

module _ (codec : Codec) where
  -- `UUID(str(value))`
  abbrev pub text_of : Json → String
  text_of (Json.str s) = s
  text_of v = codec.str_json v

  abbrev pub uuid_of : Json → Result ℕ
  uuid_of v = elim (codec.parse_uuid (text_of v)) [ none ↦ err Exc.value_error | some u ↦ ok u ]

  -- `UUID(str(d["job_id"]))`
  abbrev pub job_id_of : Fields → Result ℕ
  job_id_of d = elim (lookup "job_id" d) [ none ↦ err Exc.key_error | some v ↦ uuid_of v ]
