-- ===== src/Api/JobService.antt =====
-- apps/api/src/services/JobService.ts, each method as an action on the database and the queue, and
-- the payload type of packages/types/src/domain.ts. `now` is the time of the call.
pub mod Create
pub mod Cancel
use file_processing_platform.Common.{
  ℕ, String, Bool, true, false, Option, none, some, List, [], ◌∷◌, ◌++◌, ◌==◌, not, or_else,
  if◌then◌else◌,
}
use file_processing_platform.Common.Exec.{
  Exec, pure, gets, run, require, throw, throw_if, ◌>>=◌, ◌>>◌,
}
use file_processing_platform.Errors.{
  bad_request, conflict, forbidden, not_found, other_error, value_too_long,
}
use file_processing_platform.Schema.{
  DbFile, DbJob, NewJob, FileStatus, file_status_eq, JobStatus, job_status_eq,
}
use file_processing_platform.Db.Files.{FileRepo}
use file_processing_platform.Db.Jobs.{JobRepo, ListJobOptions}
use file_processing_platform.Api.Platform.{ceil_div}
use file_processing_platform.Api.FileService.{Paginated}

-- `JobPayload`, with the one option there is
pub record JobPayload : Type 0 where
  pub job_id : String
  pub file_id : String
  pub type : String
  pub user_id : String
  pub quality : Option ℕ

-- The database, the payloads that were added to the queue, oldest first, and whether Redis takes the
-- next one.
pub record JobWorld (S : Type 0) : Type 0 where
  pub db : S
  pub queue : List JobPayload
  pub queue_up : Bool

-- A query of a repository.
abbrev pub read : {S A : Type 0} → (S → A) → Exec (JobWorld S) A
read f = gets (λ w. f w.db)

-- A write of a repository.
abbrev pub write : {S A : Type 0} → (S → A × S) → Exec (JobWorld S) A
write f = run (λ w. ((f w.db).0, record w { db = (f w.db).1 }))

-- `queue.add('process', payload)`, whose promise is rejected where Redis does not take the payload
abbrev pub add_or_throw : {S : Type 0} → Bool → JobPayload → Exec (JobWorld S) (Unit {0})
add_or_throw true p = run (λ w. (tt, record w { queue = w.queue ++ p ∷ [] }))
add_or_throw false p = throw (other_error "queue.add failed")

abbrev pub enqueue : {S : Type 0} → JobPayload → Exec (JobWorld S) (Unit {0})
enqueue p w = add_or_throw w.queue_up p w

-- `!file || file.status === 'deleted'`
abbrev pub live_file : Option DbFile → Option DbFile
live_file none = none
live_file (some file) = if file_status_eq file.status FileStatus.deleted then none else some file

module _ {S : Type 0} (files : FileRepo S) (jobs : JobRepo S files) where
  -- `type` is 'default' where the caller leaves it out.
  unfoldable pub create : String → String → Option String → Option ℕ → ℕ → Exec (JobWorld S) DbJob
  create user_id file_id given_type quality now = do
    let type = or_else given_type "default"
    found ← read (files.find_by_id user_id file_id)
    file ← require (live_file found) (not_found "FILE_NOT_FOUND" "File not found")
    throw_if (not (file_status_eq file.status FileStatus.ready))
        (conflict "FILE_NOT_READY" "File is not ready for processing")
    let values : NewJob = record {
      user_id = user_id;
      file_id = file_id;
      type = type;
      status = JobStatus.pending;
      progress = 0;
    }
    throw_if (not (jobs.accepts values)) value_too_long
    job ← write (jobs.create values now)
    enqueue (record {
      job_id = job.id;
      file_id = file_id;
      type = type;
      user_id = user_id;
      quality = quality;
    })
    pure job

  unfoldable pub list : String → ListJobOptions → Exec (JobWorld S) (Paginated DbJob)
  list user_id opts = do
    found ← read (jobs.find_all_by_user user_id opts)
    pure (record {
      rows = found.rows;
      meta = record {
        total = found.total;
        page = opts.page;
        limit = opts.limit;
        total_pages = ceil_div found.total opts.limit;
      };
    })

  unfoldable pub find_by_id : String → String → Exec (JobWorld S) DbJob
  find_by_id user_id job_id = do
    found ← read (jobs.find_by_id user_id job_id)
    require found (not_found "JOB_NOT_FOUND" "Job not found")

  unfoldable pub cancel : String → String → ℕ → Exec (JobWorld S) (Unit {0})
  cancel user_id job_id now = do
    found ← read (jobs.find_by_id user_id job_id)
    job ← require found (not_found "JOB_NOT_FOUND" "Job not found")
    throw_if (not (job.user_id == user_id))
        (forbidden "FORBIDDEN" "You do not have access to this job")
    throw_if (not (job_status_eq job.status JobStatus.pending))
        (bad_request "JOB_NOT_CANCELLABLE" "Only pending jobs can be cancelled")
    write (jobs.cancel user_id job_id now)
    pure tt
