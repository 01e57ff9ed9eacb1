-- ===== src/Api/Routes/Jobs.antt =====
-- apps/api/src/routes/jobs/index.ts: the four handlers. The schema of a request is checked before
-- `authenticate`, which is a hook of all of them.
use file_processing_platform.Common.{ℕ, String, Option}
use file_processing_platform.Common.Exec.{Exec, pure, ◌>>=◌, ◌>>◌}
use file_processing_platform.Schema.{DbJob}
use file_processing_platform.Db.Files.{FileRepo}
use file_processing_platform.Db.Jobs.{JobRepo}
use file_processing_platform.Api.AuthService.{Crypto}
use file_processing_platform.Api.Guards.{authenticate}
use file_processing_platform.Api.FileService.{Paginated}
use file_processing_platform.Api.JobService.{JobWorld, create, list, find_by_id, cancel}
use file_processing_platform.Api.Schemas.{
  Ajv, JobBody, JobQuery, create_job_body, id_params, list_jobs_query, list_job_options, validate,
  text_of,
}
use file_processing_platform.Api.Routes.{Reply, guarded}

module _ {S : Type 0} (files : FileRepo S) (jobs : JobRepo S files) (crypto : Crypto)
    (access_secret : String) (ajv : Ajv) where
  -- `POST /jobs`
  unfoldable pub post_job : Option String → JobBody → ℕ → Exec (JobWorld S) (Reply DbJob)
  post_job header body now = do
    validate ajv "body" (create_job_body ajv body)
    caller ← guarded (authenticate crypto access_secret header now)
    job ← create files jobs caller.user_id (text_of body.file_id) body.type body.quality now
    pure (record { status = 201; body = job })

  -- `GET /jobs`
  unfoldable pub get_jobs :
      Option String → JobQuery → ℕ → Exec (JobWorld S) (Reply (Paginated DbJob))
  get_jobs header query now = do
    validate ajv "querystring" (list_jobs_query ajv query)
    caller ← guarded (authenticate crypto access_secret header now)
    result ← list files jobs caller.user_id (list_job_options ajv query)
    pure (record { status = 200; body = result })

  -- `GET /jobs/:id`
  unfoldable pub get_job : Option String → String → ℕ → Exec (JobWorld S) (Reply DbJob)
  get_job header id now = do
    validate ajv "params/id" (id_params ajv id)
    caller ← guarded (authenticate crypto access_secret header now)
    job ← find_by_id files jobs caller.user_id id
    pure (record { status = 200; body = job })

  -- `DELETE /jobs/:id`
  unfoldable pub delete_job : Option String → String → ℕ → Exec (JobWorld S) (Reply (Unit {0}))
  delete_job header id now = do
    validate ajv "params/id" (id_params ajv id)
    caller ← guarded (authenticate crypto access_secret header now)
    cancel files jobs caller.user_id id now
    pure (record { status = 204; body = tt })
