-- ===== src/Api/Schemas.antt =====
-- apps/api/src/routes/*/schemas.ts: the JSON schemas of the requests, as checks of what a request
-- holds once ajv has made the coercions of its types. A number below 0 fails every check that 0
-- fails, and is read as 0.
use file_processing_platform.Common.{
  ℕ, String, Bool, true, Option, none, some, ◌&&◌, ◌==◌, leb, or_else, if◌then◌else◌,
}
use file_processing_platform.Common.Exec.{Exec, throw_if}
use file_processing_platform.Common.{not}
use file_processing_platform.Errors.{validation_error}
use file_processing_platform.Schema.{JobStatus}
use file_processing_platform.Db.Files.{ListOptions}
use file_processing_platform.Db.Jobs.{ListJobOptions}

-- ajv and ajv-formats: the formats that the schemas name, the length of a text in code points,
-- which `minLength` and `maxLength` count, and the message for the first part that is refused.
pub record Ajv : Type 0 where
  pub is_email : String → Bool
  pub is_uuid : String → Bool
  pub code_points : String → ℕ
  pub message : String → String

-- A part that is required, and one that may be left out.
abbrev pub required {ℓ} : {A : Type ℓ} → (A → Bool) → Option A → Bool
required check none = Bool.false
required check (some a) = check a

abbrev pub optional {ℓ} : {A : Type ℓ} → (A → Bool) → Option A → Bool
optional check none = true
optional check (some a) = check a

-- `JSON` bodies, with the fields that a client may leave out
pub record Credentials : Type 0 where
  pub email : Option String
  pub password : Option String

pub record PasswordChange : Type 0 where
  pub current_password : Option String
  pub new_password : Option String

pub record UploadBody : Type 0 where
  pub filename : Option String
  pub mime_type : Option String
  pub size : Option ℕ

-- `quality` stands for `options.quality`; other options are removed.
pub record JobBody : Type 0 where
  pub file_id : Option String
  pub type : Option String
  pub quality : Option ℕ

pub record ListQuery : Type 0 where
  pub page : Option ℕ
  pub limit : Option ℕ
  pub search : Option String

pub record JobQuery : Type 0 where
  pub page : Option ℕ
  pub limit : Option ℕ
  pub status : Option String
  pub file_id : Option String

module _ (ajv : Ajv) where
  -- `minLength` and `maxLength`
  abbrev pub at_least : ℕ → String → Bool
  at_least n text = leb n (ajv.code_points text)

  abbrev pub at_most : ℕ → String → Bool
  at_most n text = leb (ajv.code_points text) n

  unfoldable pub register_body : Credentials → Bool
  register_body b =
      required (λ s. ajv.is_email s && at_most 255 s) b.email
      && required (λ s. at_least 8 s && at_most 128 s) b.password

  unfoldable pub login_body : Credentials → Bool
  login_body b = required (at_least 1) b.email && required (at_least 1) b.password

  unfoldable pub change_password_body : PasswordChange → Bool
  change_password_body b =
      required (at_least 1) b.current_password
      && required (λ s. at_least 8 s && at_most 128 s) b.new_password

  -- `fileParamsSchema`, `jobParamsSchema` and that of the API keys
  unfoldable pub id_params : String → Bool
  id_params id = ajv.is_uuid id

  unfoldable pub create_upload_url_body : UploadBody → Bool
  create_upload_url_body b =
      required (λ s. at_least 1 s && at_most 255 s) b.filename
      && required (λ s. at_least 1 s && at_most 127 s) b.mime_type
      && required (λ n. leb 1 n) b.size

  unfoldable pub create_job_body : JobBody → Bool
  create_job_body b =
      required ajv.is_uuid b.file_id
      && optional (at_least 1) b.type
      && optional (λ n. leb 1 n && leb n 100) b.quality

  abbrev is_page : ℕ → Bool
  is_page n = leb 1 n

  abbrev is_limit : ℕ → Bool
  is_limit n = leb 1 n && leb n 100

  unfoldable pub list_files_query : ListQuery → Bool
  list_files_query q =
      optional is_page q.page && optional is_limit q.limit && optional (at_least 1) q.search

  -- the enumeration of statuses
  unfoldable pub read_status : String → Option JobStatus
  read_status s =
      if s == "pending"
      then some JobStatus.pending
      else if s == "active"
      then some JobStatus.active
      else if s == "completed"
      then some JobStatus.completed
      else if s == "failed"
      then some JobStatus.failed
      else none

  abbrev is_status : String → Bool
  is_status s = elim (read_status s) [ none ↦ Bool.false | some st ↦ true ]

  unfoldable pub list_jobs_query : JobQuery → Bool
  unfolding read_status
  list_jobs_query q =
      optional is_page q.page
      && optional is_limit q.limit
      && optional is_status q.status
      && optional ajv.is_uuid q.file_id

  -- The defaults of the queries: page 1, and 20 rows.
  unfoldable pub list_options : ListQuery → ListOptions
  list_options q = record { page = or_else q.page 1; limit = or_else q.limit 20; search = q.search }

  abbrev status_filter : Option String → Option JobStatus
  status_filter none = none
  status_filter (some s) = read_status s

  unfoldable pub list_job_options : JobQuery → ListJobOptions
  unfolding read_status
  list_job_options q = record {
    page = or_else q.page 1;
    limit = or_else q.limit 20;
    status = status_filter q.status;
    file_id = q.file_id;
  }

-- The request is refused where the schema does not hold of it.
abbrev pub validate : {S : Type 0} → Ajv → String → Bool → Exec S (Unit {0})
validate ajv part valid = throw_if (not valid) (validation_error (ajv.message part))

-- A required text behind its check.
abbrev pub text_of : Option String → String
text_of o = or_else o ""
