-- ===== src/Schema.antt =====
-- packages/db/src/schema/*.ts and packages/types/src/enums.ts: the rows of the four tables and the
-- two status enumerations. Identifiers are texts and dates are milliseconds since the epoch.
use Prim.Native.Nat.{ℕ}
use Prim.Native.String.{String}
use mathlib.Core.Bool.{Bool, true, false}
use mathlib.Core.Option.{Option}

pub data FileStatus : Type 0 where
  pending ready deleted : FileStatus

pub data JobStatus : Type 0 where
  pending active completed failed : JobStatus

abbrev pub file_status_eq : FileStatus → FileStatus → Bool
file_status_eq FileStatus.pending FileStatus.pending = true
file_status_eq FileStatus.ready FileStatus.ready = true
file_status_eq FileStatus.deleted FileStatus.deleted = true
file_status_eq _ _ = false

abbrev pub job_status_eq : JobStatus → JobStatus → Bool
job_status_eq JobStatus.pending JobStatus.pending = true
job_status_eq JobStatus.active JobStatus.active = true
job_status_eq JobStatus.completed JobStatus.completed = true
job_status_eq JobStatus.failed JobStatus.failed = true
job_status_eq _ _ = false

-- `User` of schema/users.ts
pub record DbUser : Type 0 where
  pub id : String
  pub email : String
  pub password_hash : String
  pub refresh_token_hash : Option String
  pub is_guest : Bool
  pub created_at : ℕ
  pub updated_at : ℕ

-- `File` of schema/files.ts
pub record DbFile : Type 0 where
  pub id : String
  pub user_id : String
  pub original_name : String
  pub mime_type : String
  pub size : ℕ
  pub storage_path : String
  pub status : FileStatus
  pub created_at : ℕ
  pub updated_at : ℕ

-- `NewFile`: the columns that callers give; the others have defaults.
pub record NewFile : Type 0 where
  pub user_id : String
  pub original_name : String
  pub mime_type : String
  pub size : ℕ
  pub storage_path : String
  pub status : FileStatus

-- `Job` of schema/jobs.ts
pub record DbJob : Type 0 where
  pub id : String
  pub file_id : String
  pub user_id : String
  pub type : String
  pub status : JobStatus
  pub progress : ℕ
  pub output_path : Option String
  pub output_file_id : Option String
  pub error_message : Option String
  pub created_at : ℕ
  pub updated_at : ℕ

-- `NewJob`: the columns that callers give.
pub record NewJob : Type 0 where
  pub user_id : String
  pub file_id : String
  pub type : String
  pub status : JobStatus
  pub progress : ℕ

-- `ApiKeyRow` of schema/apiKeys.ts
pub record ApiKeyRow : Type 0 where
  pub id : String
  pub user_id : String
  pub key_hash : String
  pub key_prefix : String
  pub last_four : String
  pub created_at : ℕ

-- `NewApiKey`
pub record NewApiKey : Type 0 where
  pub user_id : String
  pub key_hash : String
  pub key_prefix : String
  pub last_four : String
