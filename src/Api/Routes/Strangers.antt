-- ===== src/Api/Routes/Strangers.antt =====
-- A request without a valid token.
use file_processing_platform.Common.{ℕ, String, ◌≡◌, ◌⊎◌, Option, arith}
use file_processing_platform.Common.Exec.{Result, ok, err}
use file_processing_platform.Errors.{Exception, error_handler}
use file_processing_platform.Db.Files.{FileRepo}
use file_processing_platform.Db.Jobs.{JobRepo}
use file_processing_platform.Api.Platform.{Storage, Runtime, UrlParser, Config}
use file_processing_platform.Api.AuthService.{Crypto}
use file_processing_platform.Api.Guards.{authenticate}
use file_processing_platform.Api.JobService.{JobWorld}
use file_processing_platform.Api.Schemas.{Ajv, UploadBody, ListQuery, JobBody, JobQuery}
use file_processing_platform.Api.Routes.Files.{
  post_upload_url, post_confirm_upload, get_files, get_file, delete_file, get_download,
}
use file_processing_platform.Api.Routes.Jobs.{post_job, get_jobs, get_job, delete_job}

-- An answer with status 401, or 422 where the schema of the request fails.
abbrev pub IsRefusal : {A : Type 0} → Result A → Type 0
IsRefusal (ok a) = ⊥
IsRefusal (err e) = ((error_handler e).status ≡ 401) ⊎ ((error_handler e).status ≡ 422)

-- And nothing is written.
abbrev pub IsRefused : {S A : Type 0} → S → Result A × S → Type 0
IsRefused s outcome = IsRefusal outcome.0 × (outcome.1 ≡ s)

pub authenticate_status :
    (crypto : Crypto) (access_secret : String) (header : Option String) (now : ℕ) (e : Exception)
    → (authenticate crypto access_secret header now tt).0 ≡ err e
    → (error_handler e).status ≡ 401
unfolding authenticate error_handler
authenticate_status crypto access_secret header now e h = ground arith

module _ {S : Type 0} (files : FileRepo S) (storage : Storage) (runtime : Runtime)
    (urls : UrlParser) (config : Config) (crypto : Crypto) (access_secret : String)
    (ajv : Ajv) where
  -- A request whose token `authenticate` refuses is answered by each of the six file routes with
  -- status 401, or 422 where its schema fails, and nothing is written.
  pub stranger_files :
      (header : Option String) (now : ℕ) (s : S) (e : Exception) (body : UploadBody)
      (query : ListQuery) (id uuid : String)
      → (authenticate crypto access_secret header now tt).0 ≡ err e
      → IsRefused s (
          post_upload_url files storage runtime urls config crypto access_secret ajv header body
            uuid now s)
        × IsRefused s (
            post_confirm_upload files storage runtime urls config crypto access_secret ajv header id
              now s)
        × IsRefused s (
            get_files files storage runtime urls config crypto access_secret ajv header query now s)
        × IsRefused s
            (get_file files storage runtime urls config crypto access_secret ajv header id now s)
        × IsRefused s
            (delete_file files storage runtime urls config crypto access_secret ajv header id now s)
        × IsRefused s (
            get_download files storage runtime urls config crypto access_secret ajv header id now s)
  unfolding post_upload_url post_confirm_upload get_files get_file delete_file get_download
      error_handler
  stranger_files header now s e body query id uuid h =
      let status = authenticate_status crypto access_secret header now e h in
      (
        ground (arith, h, status),
        ground (arith, h, status),
        ground (arith, h, status),
        ground (arith, h, status),
        ground (arith, h, status),
        ground (arith, h, status),
      )

module _ {S : Type 0} (files : FileRepo S) (jobs : JobRepo S files) (crypto : Crypto)
    (access_secret : String) (ajv : Ajv) where
  -- A request whose token `authenticate` refuses is answered by each of the four job routes with
  -- status 401, or 422 where its schema fails, and nothing is written or queued.
  stranger_jobs :
      (header : Option String) (now : ℕ) (w : JobWorld S) (e : Exception) (body : JobBody)
      (query : JobQuery) (id : String)
      → (authenticate crypto access_secret header now tt).0 ≡ err e
      → IsRefused w (post_job files jobs crypto access_secret ajv header body now w)
        × IsRefused w (get_jobs files jobs crypto access_secret ajv header query now w)
        × IsRefused w (get_job files jobs crypto access_secret ajv header id now w)
        × IsRefused w (delete_job files jobs crypto access_secret ajv header id now w)
  unfolding post_job get_jobs get_job delete_job error_handler
  stranger_jobs header now w e body query id h =
      let status = authenticate_status crypto access_secret header now e h in
      (
        ground (arith, h, status),
        ground (arith, h, status),
        ground (arith, h, status),
        ground (arith, h, status),
      )
