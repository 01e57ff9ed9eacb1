-- ===== src/System/History.antt =====
-- Histories of the whole program: requests to the API, deliveries to the worker and sweeps of files
-- that were never uploaded, one after the other, each with any state of the packages around it.
use file_processing_platform.Common.{Bool, ℕ, String, ◌≡◌, Option, some, List}
use file_processing_platform.Schema.{DbFile, DbJob}
use file_processing_platform.Db.Files.{FileRepo}
use file_processing_platform.Db.Jobs.{JobRepo}
use file_processing_platform.Api.Platform.{Storage, Runtime, UrlParser, Config}
use file_processing_platform.Api.FileService.{
  CreateUploadUrlInput, create_upload_url, confirm_upload, delete,
}
use file_processing_platform.Api.JobService.{JobPayload, create, cancel}
use file_processing_platform.Worker.Platform.{ObjectStore, Sharp, PathModule, Message}
use file_processing_platform.Worker.Consumer.{attempt}
use file_processing_platform.Worker.Consumer.Rows.{SameJob}
use file_processing_platform.Worker.Cleanup.{cleanup_pending_uploads, cleanup_guest_resources}
use file_processing_platform.System.{Writes, here, Writes-trans}
use file_processing_platform.System.Lifecycle.{FileLater, file_lifecycle}
use file_processing_platform.System.Jobs.{job_identity, IsBounded, Writes-IsBounded}
use file_processing_platform.System.Ownership.{IsOwned, Writes-IsOwned}
use file_processing_platform.System.Guests.{
  cleanup_guest_resources-IsOwned, cleanup_guest_resources-IsBounded,
}
use file_processing_platform.System.Runs.{
  create_upload_url-Writes, confirm_upload-Writes, delete-Writes, create-Writes, cancel-Writes,
}
use file_processing_platform.System.Processing.{attempt-Writes, cleanup_pending_uploads-Writes}

module _ {S O B : Type 0} (files : FileRepo S) (jobs : JobRepo S files) (runtime : Runtime)
    (urls : UrlParser) (config : Config) (minio : ObjectStore O B) (sharp : Sharp B)
    (path : PathModule) where
  pub data Step (s : S) : S → Type 0 where
    reserve :
        (storage : Storage) (u : String) (input : CreateUploadUrlInput) (uuid : String) (now : ℕ)
        → Step s (create_upload_url files storage runtime urls config u input uuid now s).1
    confirm :
        (storage : Storage) (u k : String) (now : ℕ)
        → Step s (confirm_upload files storage runtime urls config u k now s).1
    remove :
        (storage : Storage) (u k : String) (now : ℕ)
        → Step s (delete files storage runtime urls config u k now s).1
    submit :
        (queue : List JobPayload) (up : Bool) (u k : String) (type : Option String)
        (quality : Option ℕ) (now : ℕ)
        → Step s
            (create files jobs u k type quality now
              (record { db = s; queue = queue; queue_up = up })).1.db
    withdraw :
        (queue : List JobPayload) (up : Bool) (u k : String) (now : ℕ)
        → Step s (cancel files jobs u k now (record { db = s; queue = queue; queue_up = up })).1.db
    deliver :
        (objects : O) (published : List Message) (told : List ℕ) (p : JobPayload) (clock : ℕ → ℕ)
        → Step s
            (attempt files jobs minio sharp path config.bucket p clock (record {
              db = s;
              objects = objects;
              published = published;
              bull_progress = told;
            })).db
    sweep :
        (objects : O) (ttl_seconds now : ℕ) (clock : ℕ → ℕ)
        → Step s
            (cleanup_pending_uploads files minio config.bucket ttl_seconds now clock
              (record { db = s; objects = objects })).1.db

  pub data History (s : S) : S → Type 0 where
    start : History s s
    step : {t u : S} → History s t → Step t u → History s u

  Step-Writes : {s t : S} → Step s t → Writes files jobs s t
  Step-Writes {s} (reserve storage u input uuid now) =
      create_upload_url-Writes files jobs storage runtime urls config u input uuid now s
  Step-Writes {s} (confirm storage u k now) =
      confirm_upload-Writes files jobs storage runtime urls config u k now s
  Step-Writes {s} (remove storage u k now) =
      delete-Writes files jobs storage runtime urls config u k now s
  Step-Writes {s} (submit queue up u k type quality now) =
      create-Writes files jobs u k type quality now _
  Step-Writes {s} (withdraw queue up u k now) = cancel-Writes files jobs u k now _
  Step-Writes {s} (deliver objects published told p clock) =
      attempt-Writes files jobs minio sharp path config.bucket p clock _
  Step-Writes {s} (sweep objects ttl_seconds now clock) =
      cleanup_pending_uploads-Writes files jobs minio sharp path config.bucket ttl_seconds now clock
        _

  History-Writes : {s t : S} → History s t → Writes files jobs s t
  History-Writes start = here
  History-Writes (step before last) =
      Writes-trans files jobs (History-Writes before) (Step-Writes last)

  -- Through any history a file that is in the table stays there. Its owner, name, type, size, path
  -- and time of creation never change, and its status only moves forward in the order pending,
  -- ready, deleted.
  pub file_history :
      {s t : S} (k : String) (f : DbFile)
      → History s t
      → files.row s k ≡ some f
      → (g : DbFile) × (files.row t k ≡ some g) × FileLater f g
  file_history k f h found = file_lifecycle files jobs k f (History-Writes h) found

  -- Through any history a job that is in the table stays there, with its file, owner and type.
  pub job_history :
      {s t : S} (k : String) (j : DbJob)
      → History s t
      → jobs.row s k ≡ some j
      → (i : DbJob) × (jobs.row t k ≡ some i) × SameJob j i
  job_history k j h found = job_identity files jobs k j (History-Writes h) found

  -- A life of the program: a history in which the sweep of guest resources runs too, and removes rows.
  pub data Life (s : S) : S → Type 0 where
    begun : Life s s
    request : {t u : S} → Life s t → Step t u → Life s u
    swept :
        {t : S} (objects : O) (ttl_seconds now : ℕ)
        → Life s t
        → Life s
            (cleanup_guest_resources files minio config.bucket ttl_seconds now
              (record { db = t; objects = objects })).1.db

  -- If every job's progress is at most 100, it is so after any life.
  pub progress_life : {s t : S} → Life s t → IsBounded files jobs s → IsBounded files jobs t
  progress_life begun h = h
  progress_life (request before last) h =
      Writes-IsBounded files jobs (Step-Writes last) (progress_life before h)
  progress_life (swept objects ttl_seconds now before) h =
      cleanup_guest_resources-IsBounded files jobs minio config.bucket ttl_seconds now _
        (progress_life before h)

  -- If the file of every job is in the table and has the job's owner, it is so after any life.
  pub owner_life : {s t : S} → Life s t → IsOwned files jobs s → IsOwned files jobs t
  owner_life begun h = h
  owner_life (request before last) h =
      Writes-IsOwned files jobs (Step-Writes last) (owner_life before h)
  owner_life (swept objects ttl_seconds now before) h =
      cleanup_guest_resources-IsOwned files jobs minio config.bucket ttl_seconds now _
        (owner_life before h)
