-- ===== src/Api/Routes/Statuses.antt =====
-- The statuses with which the routes answer.
use file_processing_platform.Common.{
  ℕ, String, Bool, ◌≡◌, refl, ◌⊎◌, inl, inr, Option, [], ◌∷◌, arith, eq_iff,
}
use file_processing_platform.Common.Lists.{Elem}
use file_processing_platform.Common.Exec.{Result, ok, err}
use file_processing_platform.Errors.{Exception, error_handler}
use file_processing_platform.Db.Files.{FileRepo}
use file_processing_platform.Db.Jobs.{JobRepo}
use file_processing_platform.Db.Users.{UserRepo}
use file_processing_platform.Api.Platform.{Storage, Runtime, UrlParser, Config}
use file_processing_platform.Api.AuthService.{
  Crypto, AuthServiceConfig, login, register, refresh, refresh_for,
}
use file_processing_platform.Api.Guards.{authenticate}
use file_processing_platform.Api.FileService.{
  create_upload_url, confirm_upload, confirm_pending, find_by_id, delete, get_download_stream,
}
use file_processing_platform.Api.JobService.{JobWorld, create, cancel}
use file_processing_platform.Api.Schemas.{Ajv, Credentials, UploadBody, JobBody}
use file_processing_platform.Api.Routes.{Reply}
use file_processing_platform.Api.Routes.Strangers.{authenticate_status}
use file_processing_platform.Api.Routes.Auth.{AuthReply, post_login, post_register, post_refresh}
use file_processing_platform.Api.Routes.Files.{
  post_upload_url, post_confirm_upload, delete_file, get_download,
}
use file_processing_platform.Api.Routes.Jobs.{post_job, delete_job}

pub Result-cases :
    {A : Type 0} (r : Result A) → ((a : A) × (r ≡ ok a)) ⊎ ((e : Exception) × (r ≡ err e))
Result-cases (ok a) = inl (a, refl)
Result-cases (err e) = inr (e, refl)

-- The status of the response: that of the reply, or that of the error handler.
abbrev pub response_status : {A : Type 0} → Result (Reply A) → ℕ
response_status (ok reply) = reply.status
response_status (err e) = (error_handler e).status

abbrev pub auth_status : {A : Type 0} → Result (AuthReply A) → ℕ
auth_status (ok a) = a.reply.status
auth_status (err e) = (error_handler e).status

module _ {S : Type 0} (users : UserRepo S) (crypto : Crypto) (cfg : AuthServiceConfig) (ajv : Ajv)
    (is_production : Bool) where
  login_statuses :
      (body : Credentials) (now : ℕ) (s : S)
      → Elem
          (auth_status (post_login users crypto cfg ajv is_production body now s).0)
          (200 ∷ 401 ∷ 422 ∷ [])
  unfolding post_login login error_handler
  login_statuses body now s = ground arith

  register_statuses :
      (body : Credentials) (salt : String) (now : ℕ) (s : S)
      → Elem
          (auth_status (post_register users crypto cfg ajv is_production body salt now s).0)
          (201 ∷ 409 ∷ 422 ∷ [])
  unfolding post_register register error_handler
  register_statuses body salt now s = ground arith

  refresh_statuses :
      (cookie : Option String) (now : ℕ) (s : S)
      → Elem
          (response_status (post_refresh users crypto cfg ajv is_production cookie now s).0)
          (200 ∷ 401 ∷ [])
  unfolding post_refresh refresh refresh_for error_handler
  refresh_statuses cookie now s = ground arith

module _ {S : Type 0} (files : FileRepo S) (storage : Storage) (runtime : Runtime)
    (urls : UrlParser) (config : Config) (crypto : Crypto) (access_secret : String)
    (ajv : Ajv) where
  upload_statuses :
      (header : Option String) (body : UploadBody) (uuid : String) (now : ℕ) (s : S)
      → Elem
          (response_status
            (post_upload_url files storage runtime urls config crypto access_secret ajv header body
              uuid now s).0)
          (201 ∷ 400 ∷ 401 ∷ 422 ∷ 500 ∷ [])
  unfolding post_upload_url create_upload_url authenticate error_handler
  upload_statuses header body uuid now s = ground arith

  confirm_statuses :
      (header : Option String) (id : String) (now : ℕ) (s : S)
      → Elem
          (response_status
            (post_confirm_upload files storage runtime urls config crypto access_secret ajv header
              id now s).0)
          (200 ∷ 401 ∷ 404 ∷ 409 ∷ 422 ∷ [])
  unfolding post_confirm_upload confirm_upload confirm_pending authenticate error_handler
  confirm_statuses header id now s = ground arith

  delete_statuses :
      (header : Option String) (id : String) (now : ℕ) (s : S)
      → Elem
          (response_status
            (delete_file files storage runtime urls config crypto access_secret ajv header id now
              s).0)
          (204 ∷ 401 ∷ 404 ∷ 409 ∷ 422 ∷ [])
  unfolding delete_file delete authenticate error_handler
  delete_statuses header id now s = ground arith

  download_statuses :
      (header : Option String) (id : String) (now : ℕ) (s : S)
      → Elem
          (response_status
            (get_download files storage runtime urls config crypto access_secret ajv header id now
              s).0)
          (200 ∷ 401 ∷ 404 ∷ 422 ∷ 500 ∷ [])
  unfolding get_download get_download_stream find_by_id authenticate error_handler
  download_statuses header id now s = ground arith

module _ {S : Type 0} (files : FileRepo S) (jobs : JobRepo S files) (crypto : Crypto)
    (access_secret : String) (ajv : Ajv) where
  submit_statuses :
      (header : Option String) (body : JobBody) (now : ℕ) (w : JobWorld S)
      → Elem
          (response_status (post_job files jobs crypto access_secret ajv header body now w).0)
          (201 ∷ 401 ∷ 404 ∷ 409 ∷ 422 ∷ 500 ∷ [])
  unfolding post_job create authenticate error_handler
  submit_statuses header body now w = ground arith

  -- `DELETE /jobs/:id`: the `FORBIDDEN` of the service, with status 403, is never answered, since the
  -- job was looked up among those of the caller.
  withdraw_statuses :
      (header : Option String) (id : String) (now : ℕ) (w : JobWorld S)
      → Elem
          (response_status (delete_job files jobs crypto access_secret ajv header id now w).0)
          (204 ∷ 400 ∷ 401 ∷ 404 ∷ 422 ∷ [])
  unfolding delete_job cancel error_handler
  withdraw_statuses header id now w =
      elim (Result-cases (authenticate crypto access_secret header now tt).0) [
        | inl (caller, known) ↦
            ground
              (arith, known, jobs.find_by_id_lem caller.user_id id w.db, eq_iff id caller.user_id)
        | inr (e, refused) ↦
            let status = authenticate_status crypto access_secret header now e refused in
            ground (arith, refused, status)
      ]
