-- ===== src/Config.antt =====
-- The settings of the API and the worker (application/shared/config.py): the fields on which their
-- behaviour depends, the checks when they are read, and the checks of each runtime. An empty text and
-- an unset one are different values, as in the source.
pub mod Intervals
pub mod Runtime
use production_cloud_reliabi.Prelude.{
  ℕ, String, Bool, true, false, not, Option, none, some, List, [], ◌∷◌, ◌++◌, ◌&&◌, ◌||◌, ltb, leb,
  str_eq, is_some, if◌then◌else◌,
}
use production_cloud_reliabi.Errors.{Exc, Result, ok, err, ◌>>=◌}
use production_cloud_reliabi.Codec.{truthy, of_optional}

pub data RuntimeMode : Type 0 where
  local cloud : RuntimeMode

pub data ArtifactBackend : Type 0 where
  local s3 : ArtifactBackend

pub record Settings : Type 0 where
  pub runtime_mode : RuntimeMode
  pub database_url : Option String
  -- whether "database_url" is in model_fields_set
  pub database_url_given : Bool
  pub db_host : Option String
  pub db_port : ℕ
  pub db_name : Option String
  pub db_username : Option String
  pub db_password : Option String
  pub aws_region : String
  pub sqs_queue_url : Option String
  pub artifact_backend : ArtifactBackend
  pub artifact_bucket_name : Option String
  pub artifact_prefix : String
  pub local_artifact_root : String
  pub job_processing_lease_seconds : ℕ
  pub outbox_claim_lease_seconds : ℕ
  pub sqs_visibility_timeout_seconds : ℕ
  pub sqs_visibility_heartbeat_seconds : ℕ
  pub metrics_enabled : Bool
  pub worker_metrics_host : String
  pub worker_metrics_port : ℕ

-- Field(gt=0) and Field(gt=0, le=65535)
abbrev fields_in_range : Settings → Bool
fields_in_range s =
    ltb 0 s.job_processing_lease_seconds
    && ltb 0 s.outbox_claim_lease_seconds
    && ltb 0 s.sqs_visibility_timeout_seconds
    && ltb 0 s.sqs_visibility_heartbeat_seconds
    && ltb 0 s.worker_metrics_port
    && leb s.worker_metrics_port 65535

-- The two checks are ValueErrors of the validator.
unfoldable pub validate_runtime_intervals : Settings → Result Settings
validate_runtime_intervals s =
    if leb s.sqs_visibility_timeout_seconds s.sqs_visibility_heartbeat_seconds
    then err Exc.value_error
    else if leb s.job_processing_lease_seconds s.sqs_visibility_heartbeat_seconds
    then err Exc.value_error
    else ok s

-- `Settings()` with these field values.
unfoldable pub create_settings : Settings → Result Settings
unfolding validate_runtime_intervals
create_settings s = if fields_in_range s then validate_runtime_intervals s else err Exc.value_error

abbrev pub is_cloud : Settings → Bool
is_cloud s = elim s.runtime_mode [ RuntimeMode.local ↦ false | RuntimeMode.cloud ↦ true ]

-- A connection string: the URL as it was given, or what make_conninfo makes of the parts. An empty
-- password is passed as None, which make_conninfo leaves out.
pub data ConnInfo : Type 0 where
  url : String → ConnInfo
  parts : String → ℕ → String → String → Option String → ConnInfo

abbrev name_if_missing : String → Option String → List String
name_if_missing name none = name ∷ []
name_if_missing name (some _) = []

-- The names in the message of the ValueError.
unfoldable pub missing_database : Settings → List String
missing_database s =
    name_if_missing "DB_HOST" s.db_host
    ++ (name_if_missing "DB_NAME" s.db_name
        ++ (name_if_missing "DB_USERNAME" s.db_username
            ++ name_if_missing "DB_PASSWORD" s.db_password))

abbrev conninfo_of_parts :
    ℕ → Option String → Option String → Option String → Option String → Result ConnInfo
conninfo_of_parts port (some host) (some name) (some user) (some password) =
    ok (ConnInfo.parts host port name user (if str_eq password "" then none else some password))
conninfo_of_parts port _ _ _ _ = err Exc.value_error

-- `self.database_url and (not self.is_cloud or "database_url" in self.model_fields_set)`
abbrev pub uses_url : Settings → Bool
uses_url s = truthy (of_optional s.database_url) && (not (is_cloud s) || s.database_url_given)

unfoldable pub database_conninfo : Settings → Result ConnInfo
unfolding missing_database
database_conninfo s =
    if uses_url s
    then elim s.database_url [ none ↦ err Exc.value_error | some u ↦ ok (ConnInfo.url u) ]
    else elim (missing_database s) [
      | [] ↦ conninfo_of_parts s.db_port s.db_host s.db_name s.db_username s.db_password
      | _ ∷ _ ↦ err Exc.value_error
    ]

abbrev raise_if_missing : List String → Result (Unit {0})
raise_if_missing [] = ok tt
raise_if_missing (_ ∷ _) = err Exc.value_error

abbrev name_if : Bool → String → List String
name_if b name = if b then name ∷ [] else []

unfoldable pub validate_database : Settings → Result (Unit {0})
unfolding database_conninfo
validate_database s = do _ ← database_conninfo s; ok tt

unfoldable pub missing_queue : Settings → List String
missing_queue s =
    name_if (str_eq s.aws_region "") "AWS_REGION"
    ++ name_if (not (truthy (of_optional s.sqs_queue_url))) "SQS_QUEUE_URL"

unfoldable pub validate_queue : Settings → Result (Unit {0})
unfolding missing_queue
validate_queue s = raise_if_missing (missing_queue s)

abbrev pub is_s3 : Settings → Bool
is_s3 s = elim s.artifact_backend [ ArtifactBackend.local ↦ false | ArtifactBackend.s3 ↦ true ]

unfoldable pub missing_artifact_store : Settings → List String
missing_artifact_store s =
    name_if (str_eq s.aws_region "") "AWS_REGION"
    ++ (name_if (not (is_s3 s)) "ARTIFACT_BACKEND=s3"
        ++ name_if (not (truthy (of_optional s.artifact_bucket_name))) "ARTIFACT_BUCKET_NAME")

unfoldable pub validate_artifact_store : Settings → Result (Unit {0})
unfolding missing_artifact_store
validate_artifact_store s = raise_if_missing (missing_artifact_store s)

unfoldable pub validate_api_runtime : Settings → Result (Unit {0})
unfolding validate_database
validate_api_runtime s = if is_cloud s then validate_database s else ok tt

unfoldable pub validate_worker_runtime : Settings → Result (Unit {0})
unfolding validate_database validate_queue validate_artifact_store
validate_worker_runtime s =
    if is_cloud s
    then (do _ ← validate_database s; _ ← validate_queue s; validate_artifact_store s)
    else ok tt
