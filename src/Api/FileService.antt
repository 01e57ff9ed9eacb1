-- ===== src/Api/FileService.antt =====
-- apps/api/src/services/FileService.ts, each method as an action on the database, and
-- `toPublicStorageUrl` of apps/api/src/storage.ts. `now` is the time of the call and `uuid` the
-- identifier that it draws.
pub mod Upload
pub mod Access
pub mod Pages
pub mod Confirm
use file_processing_platform.Common.{
  ℕ, ◌+◌, ◌*◌, String, Bool, Option, none, some, List, [], ◌∷◌, ltb, leb, eqb, not, concat,
  if◌then◌else◌, map_some,
}
use file_processing_platform.Common.Exec.{
  Exec, pure, throw, gets, run, require, throw_if, ◌>>=◌, ◌>>◌,
}
use file_processing_platform.Errors.{bad_request, conflict, not_found, other_error, value_too_long}
use file_processing_platform.Schema.{DbFile, NewFile, FileStatus, file_status_eq}
use file_processing_platform.Db.Files.{FileRepo, ListOptions}
use file_processing_platform.Api.Platform.{Storage, Runtime, Config, UrlParser, ceil_div, decimal}

pub record CreateUploadUrlInput : Type 0 where
  pub filename : String
  pub mime_type : String
  pub size : ℕ

pub record CreateUploadUrlResult : Type 0 where
  pub file_id : String
  pub upload_url : String
  pub form_fields : List (String × String)
  pub expires_at : String

-- `meta` of a page
pub record PageMeta : Type 0 where
  pub total : ℕ
  pub page : ℕ
  pub limit : ℕ
  pub total_pages : ℕ

pub record Paginated (R : Type 0) : Type 0 where
  pub rows : List R
  pub meta : PageMeta

-- The assignments to `target` in `toPublicStorageUrl`; `none` is the `TypeError` of `new URL`.
unfoldable pub to_public_storage_url : UrlParser → String → String → Option String
to_public_storage_url urls public_url internal_url = elim (urls.parse internal_url) [
  | none ↦ none
  | some target ↦ elim (urls.parse public_url) [
    | none ↦ none
    | some base ↦ some (
        urls.print
          (record target { protocol = base.protocol; hostname = base.hostname; port = base.port }))
  ]
]

-- `${userId}/${randomUUID()}${ext}`
unfoldable pub object_key : Runtime → String → String → String → String
object_key runtime user_id uuid filename =
    concat (user_id ∷ "/" ∷ uuid ∷ runtime.extname filename ∷ [])

module _ {S : Type 0} (files : FileRepo S) (storage : Storage) (runtime : Runtime)
    (urls : UrlParser) (config : Config) where
  unfoldable pub create_upload_url :
      String → CreateUploadUrlInput → String → ℕ → Exec S CreateUploadUrlResult
  unfolding object_key to_public_storage_url
  create_upload_url user_id input uuid now = do
    throw_if (leb input.size 0) (bad_request "INVALID_FILE_SIZE" "File size must be greater than 0")
    throw_if (ltb config.max_file_size_bytes input.size) (
        bad_request "FILE_TOO_LARGE" (
          concat (
            "File exceeds the maximum allowed size of "
            ∷ decimal config.max_file_size_bytes
            ∷ " bytes"
            ∷ [])))
    let key = object_key runtime user_id uuid input.filename
    let values : NewFile = record {
      user_id = user_id;
      original_name = input.filename;
      mime_type = input.mime_type;
      size = input.size;
      storage_path = key;
      status = FileStatus.pending;
    }
    throw_if (not (files.accepts values)) value_too_long
    file ← run (files.create values now)
    let expires_at = now + config.presigned_url_ttl_seconds * 1000
    post ←
        require
          (storage.presigned_post_policy (record {
            bucket = config.bucket;
            key = key;
            expires = expires_at;
            min_length = input.size;
            max_length = input.size;
            content_type = input.mime_type;
          }))
          (other_error "presignedPostPolicy failed")
    url ←
        require (to_public_storage_url urls config.public_url post.post_url)
          (other_error "Invalid URL")
    pure (record {
      file_id = file.id;
      upload_url = url;
      form_fields = post.form_data;
      expires_at = runtime.to_iso_string expires_at;
    })

  -- The part of `confirmUpload` for a file that is still pending.
  unfoldable pub confirm_pending : String → DbFile → String → ℕ → Exec S DbFile
  confirm_pending user_id file file_id now = do
    size ←
        require (storage.stat_object config.bucket file.storage_path)
          (conflict "UPLOAD_NOT_FOUND" "No uploaded object was found for this file")
    throw_if (not (eqb size file.size)) (
        conflict "UPLOAD_SIZE_MISMATCH"
          "Uploaded object size does not match the reserved file size")
    updated ← run (files.mark_ready user_id file_id now)
    require updated (conflict "FILE_NOT_PENDING" "File is not awaiting upload confirmation")

  unfoldable pub confirm_upload : String → String → ℕ → Exec S DbFile
  unfolding confirm_pending
  confirm_upload user_id file_id now = do
    found ← gets (files.find_by_id user_id file_id)
    file ← require found (not_found "FILE_NOT_FOUND" "File not found")
    if file_status_eq file.status FileStatus.ready then pure file else do
      throw_if (not (file_status_eq file.status FileStatus.pending))
          (conflict "FILE_NOT_PENDING" "File is not awaiting upload confirmation")
      confirm_pending user_id file file_id now

  unfoldable pub list : String → ListOptions → Exec S (Paginated DbFile)
  list user_id opts = do
    found ← gets (files.find_all_by_user user_id opts)
    pure (record {
      rows = found.rows;
      meta = record {
        total = found.total;
        page = opts.page;
        limit = opts.limit;
        total_pages = ceil_div found.total opts.limit;
      };
    })

  -- `!file || file.status === 'deleted'`
  abbrev pub not_deleted : Option DbFile → Option DbFile
  not_deleted none = none
  not_deleted (some file) =
      if file_status_eq file.status FileStatus.deleted then none else some file

  unfoldable pub find_by_id : String → String → Exec S DbFile
  find_by_id user_id file_id = do
    found ← gets (files.find_by_id user_id file_id)
    require (not_deleted found) (not_found "FILE_NOT_FOUND" "File not found")

  unfoldable pub delete : String → String → ℕ → Exec S (Unit {0})
  delete user_id file_id now = do
    found ← gets (files.find_by_id user_id file_id)
    file ← require found (not_found "FILE_NOT_FOUND" "File not found")
    throw_if (file_status_eq file.status FileStatus.deleted)
        (conflict "FILE_ALREADY_DELETED" "File is already deleted")
    run (files.soft_delete user_id file_id now)
    pure tt

  -- `{ stream, file }`
  unfoldable pub get_download_stream : String → String → Exec S (String × DbFile)
  unfolding find_by_id
  get_download_stream user_id file_id = do
    file ← find_by_id user_id file_id
    stream ←
        require (storage.get_object config.bucket file.storage_path)
          (other_error "getObject failed")
    pure (stream, file)
