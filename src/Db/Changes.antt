-- ===== src/Db/Changes.antt =====
-- The rows that the repositories of packages/db/src/repositories write: the values of their
-- `insert` and the assignments of their `update … set`. `now` is the time of the call.
use file_processing_platform.Common.{
  ℕ, String, Bool, true, false, ◌&&◌, ◌==◌, if◌then◌else◌, Option, none, some, map_some, keep_if,
}
use file_processing_platform.Schema.{
  FileStatus, JobStatus, DbUser, DbFile, NewFile, DbJob, NewJob, ApiKeyRow, NewApiKey,
}

-- The row that `insert(files).values(data)` makes; the other columns have their defaults.
abbrev pub new_file : NewFile → ℕ → String → DbFile
new_file d now id = record {
  id = id;
  user_id = d.user_id;
  original_name = d.original_name;
  mime_type = d.mime_type;
  size = d.size;
  storage_path = d.storage_path;
  status = d.status;
  created_at = now;
  updated_at = now;
}

-- `set({ status: 'deleted', updatedAt: new Date() })`
abbrev pub set_deleted : ℕ → DbFile → DbFile
set_deleted now f = record f { status = FileStatus.deleted; updated_at = now }

-- `set({ status: 'ready', updatedAt: new Date() })`
abbrev pub set_ready : ℕ → DbFile → DbFile
set_ready now f = record f { status = FileStatus.ready; updated_at = now }

abbrev pub new_job : NewJob → ℕ → String → DbJob
new_job d now id = record {
  id = id;
  file_id = d.file_id;
  user_id = d.user_id;
  type = d.type;
  status = d.status;
  progress = d.progress;
  output_path = none;
  output_file_id = none;
  error_message = none;
  created_at = now;
  updated_at = now;
}

-- The optional argument `extra` of `updateStatus`.
pub record Extra : Type 0 where
  pub error_message : Option String
  pub output_path : Option String
  pub output_file_id : Option String
  pub progress : Option ℕ

abbrev pub no_extra : Extra
no_extra = record {
  error_message = none;
  output_path = none;
  output_file_id = none;
  progress = none;
}

-- A column of `...extra`: one that is left out keeps its value.
abbrev pub overwrite : Option String → Option String → Option String
overwrite none old = old
overwrite (some new) old = some new

abbrev pub overwrite_progress : Option ℕ → ℕ → ℕ
overwrite_progress none old = old
overwrite_progress (some new) old = new

-- `set({ status, updatedAt: new Date(), ...extra })`
abbrev pub set_status : JobStatus → Extra → ℕ → DbJob → DbJob
set_status status extra now j = record j {
  status = status;
  progress = overwrite_progress extra.progress j.progress;
  output_path = overwrite extra.output_path j.output_path;
  output_file_id = overwrite extra.output_file_id j.output_file_id;
  error_message = overwrite extra.error_message j.error_message;
  updated_at = now;
}

-- `set({ status: 'failed', updatedAt: new Date(), errorMessage: 'Cancelled by user' })`
abbrev pub set_cancelled : ℕ → DbJob → DbJob
set_cancelled now j = record j {
  status = JobStatus.failed;
  error_message = some "Cancelled by user";
  updated_at = now;
}

-- `set({ progress, updatedAt: new Date() })`
abbrev pub set_progress : ℕ → ℕ → DbJob → DbJob
set_progress progress now j = record j { progress = progress; updated_at = now }

abbrev pub new_user : String → String → ℕ → String → DbUser
new_user email password_hash now id = record {
  id = id;
  email = email;
  password_hash = password_hash;
  refresh_token_hash = none;
  is_guest = false;
  created_at = now;
  updated_at = now;
}

-- `set({ refreshTokenHash: hash, updatedAt: new Date() })`
abbrev pub set_refresh_hash : Option String → ℕ → DbUser → DbUser
set_refresh_hash hash now u = record u { refresh_token_hash = hash; updated_at = now }

-- `set({ passwordHash, updatedAt: new Date() })`
abbrev pub set_password : String → ℕ → DbUser → DbUser
set_password hash now u = record u { password_hash = hash; updated_at = now }

abbrev pub new_api_key : NewApiKey → ℕ → String → ApiKeyRow
new_api_key d now id = record {
  id = id;
  user_id = d.user_id;
  key_hash = d.key_hash;
  key_prefix = d.key_prefix;
  last_four = d.last_four;
  created_at = now;
}

-- `onDelete: 'set null'` of `outputFileId`, and `onDelete: 'cascade'` of `fileId`, when the file `k` is
-- removed: what becomes of a job's row. `gone` tells whether a row was removed.
abbrev pub outputs : String → DbJob → Bool
outputs k j = elim j.output_file_id [ none ↦ false | some id ↦ id == k ]

abbrev pub forget_output : DbJob → DbJob
forget_output j = record j { output_file_id = none }

abbrev pub is_cascaded : Bool → String → DbJob → Bool
is_cascaded gone k j = gone && j.file_id == k

abbrev pub is_unlinked : Bool → String → DbJob → Bool
is_unlinked gone k j = gone && outputs k j

abbrev pub after_removal : Bool → String → Option DbJob → Option DbJob
after_removal gone k o =
    map_some (λ j. if is_unlinked gone k j then forget_output j else j)
      (keep_if (λ j. if is_cascaded gone k j then false else true) o)
