-- ===== src/Database/Tables.antt =====
-- The tables of application/shared/migrations/001_initial_schema.sql and 002_processing_fencing.sql,
-- a record for each row. A table is the list of its rows in the order of insertion. A UUID is the
-- number it encodes. A timestamp counts microseconds. A nullable column is an Option.
use production_cloud_reliabi.Prelude.{ℕ, String, Option, List}
use production_cloud_reliabi.Codec.{Json}

abbrev pub Uuid : Type 0
Uuid = ℕ

abbrev pub Timestamp : Type 0
Timestamp = ℕ

pub record CustomerRow : Type 0 where
  pub id : Uuid
  pub name : String
  pub email : String
  pub created_at : Timestamp

-- CHECK (status IN ('pending', 'processing', 'completed', 'failed'))
pub data JobStatus : Type 0 where
  pending processing completed failed : JobStatus

pub record JobRow : Type 0 where
  pub id : Uuid
  pub job_type : String
  pub status : JobStatus
  pub payload : Json
  pub attempts : ℕ
  pub last_error : Option String
  pub processing_token : Option Uuid
  pub processing_started_at : Option Timestamp
  pub created_at : Timestamp
  pub updated_at : Timestamp

pub record JobResultRow : Type 0 where
  pub id : Uuid
  pub job_id : Uuid
  pub result : Json
  pub created_at : Timestamp

-- The values that the program writes to entity_type and to action.
pub data EntityType : Type 0 where
  customer job : EntityType

pub data AuditAction : Type 0 where
  created completed : AuditAction

pub record AuditEventRow : Type 0 where
  pub id : Uuid
  pub entity_type : EntityType
  pub entity_id : Uuid
  pub action : AuditAction
  pub details : Json
  pub created_at : Timestamp

pub record ObjectMetadataRow : Type 0 where
  pub id : Uuid
  pub job_id : Uuid
  pub object_key : String
  pub object_type : String
  pub owner_ref : String
  pub created_at : Timestamp

-- CHECK (status IN ('pending', 'publishing', 'published', 'failed'))
pub data OutboxStatus : Type 0 where
  pending publishing published failed : OutboxStatus

pub record OutboxRow : Type 0 where
  pub id : Uuid
  pub event_type : String
  pub version : ℕ
  pub payload : Json
  pub status : OutboxStatus
  pub attempts : ℕ
  pub locked_at : Option Timestamp
  pub claim_token : Option Uuid
  pub published_at : Option Timestamp
  pub last_error : Option String
  pub created_at : Timestamp
  pub updated_at : Timestamp

pub record Database : Type 0 where
  pub customers : List CustomerRow
  pub jobs : List JobRow
  pub job_results : List JobResultRow
  pub audit_events : List AuditEventRow
  pub object_metadata : List ObjectMetadataRow
  pub job_outbox : List OutboxRow
