-- ===== src/Api/Routes/Files.antt =====
-- apps/api/src/routes/files/index.ts: the six handlers. The schema of a request is checked before
-- `authenticate`, which is a hook of all of them.
use file_processing_platform.Common.{ℕ, String, Option, List, [], ◌∷◌, concat, or_else}
use file_processing_platform.Common.Exec.{Exec, pure, ◌>>=◌, ◌>>◌}
use file_processing_platform.Schema.{DbFile}
use file_processing_platform.Db.Files.{FileRepo}
use file_processing_platform.Api.Platform.{Storage, Runtime, UrlParser, Config, decimal}
use file_processing_platform.Api.AuthService.{Crypto}
use file_processing_platform.Api.Guards.{authenticate}
use file_processing_platform.Api.FileService.{
  CreateUploadUrlResult, Paginated, create_upload_url, confirm_upload, list, find_by_id, delete,
  get_download_stream,
}
use file_processing_platform.Api.Schemas.{
  Ajv, UploadBody, ListQuery, create_upload_url_body, id_params, list_files_query, list_options,
  validate, text_of,
}
use file_processing_platform.Api.Routes.{Reply, guarded}

-- A download: the headers, in the order in which they are set, and the stream.
pub record Download : Type 0 where
  pub headers : List (String × String)
  pub stream : String

module _ {S : Type 0} (files : FileRepo S) (storage : Storage) (runtime : Runtime)
    (urls : UrlParser) (config : Config) (crypto : Crypto) (access_secret : String)
    (ajv : Ajv) where
  -- `POST /files/upload-url`
  unfoldable pub post_upload_url :
      Option String → UploadBody → String → ℕ → Exec S (Reply CreateUploadUrlResult)
  post_upload_url header body uuid now = do
    validate ajv "body" (create_upload_url_body ajv body)
    caller ← guarded (authenticate crypto access_secret header now)
    result ←
        create_upload_url files storage runtime urls config caller.user_id
          (record {
            filename = text_of body.filename;
            mime_type = text_of body.mime_type;
            size = or_else body.size 0;
          })
          uuid now
    pure (record { status = 201; body = result })

  -- `POST /files/:id/confirm-upload`
  unfoldable pub post_confirm_upload : Option String → String → ℕ → Exec S (Reply DbFile)
  post_confirm_upload header id now = do
    validate ajv "params/id" (id_params ajv id)
    caller ← guarded (authenticate crypto access_secret header now)
    file ← confirm_upload files storage runtime urls config caller.user_id id now
    pure (record { status = 200; body = file })

  -- `GET /files`
  unfoldable pub get_files : Option String → ListQuery → ℕ → Exec S (Reply (Paginated DbFile))
  get_files header query now = do
    validate ajv "querystring" (list_files_query ajv query)
    caller ← guarded (authenticate crypto access_secret header now)
    result ← list files storage runtime urls config caller.user_id (list_options ajv query)
    pure (record { status = 200; body = result })

  -- `GET /files/:id`
  unfoldable pub get_file : Option String → String → ℕ → Exec S (Reply DbFile)
  get_file header id now = do
    validate ajv "params/id" (id_params ajv id)
    caller ← guarded (authenticate crypto access_secret header now)
    file ← find_by_id files storage runtime urls config caller.user_id id
    pure (record { status = 200; body = file })

  -- `DELETE /files/:id`
  unfoldable pub delete_file : Option String → String → ℕ → Exec S (Reply (Unit {0}))
  delete_file header id now = do
    validate ajv "params/id" (id_params ajv id)
    caller ← guarded (authenticate crypto access_secret header now)
    delete files storage runtime urls config caller.user_id id now
    pure (record { status = 204; body = tt })

  -- `GET /files/:id/download`
  unfoldable pub get_download : Option String → String → ℕ → Exec S (Reply Download)
  get_download header id now = do
    validate ajv "params/id" (id_params ajv id)
    caller ← guarded (authenticate crypto access_secret header now)
    (stream, file) ← get_download_stream files storage runtime urls config caller.user_id id
    let disposition = concat ("attachment; filename=\"" ∷ file.original_name ∷ "\"" ∷ [])
    pure (record {
      status = 200;
      body = record {
        headers =
            ("Content-Type", file.mime_type)
            ∷ ("Content-Disposition", disposition)
            ∷ ("Content-Length", decimal file.size)
            ∷ [];
        stream = stream;
      };
    })
