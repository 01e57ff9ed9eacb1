-- ===== src/Examples/Queue.antt =====
-- The theorems about the retries of a job, applied to the small database: the object is missing at
-- the first run and there at the second.
use file_processing_platform.Common.{ℕ, ◌≤◌, String, ◌≡◌, refl, some, List, [], ◌∷◌, ◌++◌}
use file_processing_platform.Common.Exec.{ok, err}
use file_processing_platform.Errors.{other_error}
use file_processing_platform.Schema.{DbJob, JobStatus}
use file_processing_platform.Db.FileRepository
use file_processing_platform.Db.FileRepository.Laws.{file_repo}
use file_processing_platform.Db.JobRepository.Laws.{job_repo}
use file_processing_platform.Api.JobService.{JobPayload}
use file_processing_platform.Worker.Platform.{WorkerWorld, Message, failed_event}
use file_processing_platform.Worker.Processors
use file_processing_platform.Worker.Consumer.{dispatch, attempt}
use file_processing_platform.Worker.Consumer.Rows.{SameJob}
use file_processing_platform.Worker.Queue.{Deliveries, returned, again, tries}
use file_processing_platform.Worker.Queue.Retries.{Finished, job_finishes, early_failure_stays}
use file_processing_platform.Examples.ListTable.{list_table}
use file_processing_platform.Examples.Engine.{Db, files, jobs, minio, sharp, path}
use file_processing_platform.Examples.Data.{pending_job, payload, world}

abbrev png_payload : JobPayload
png_payload = record payload { type = "png" }

abbrev clock : ℕ → ℕ
clock k = k

abbrev empty_world : WorkerWorld Db (String × String)
empty_world = record world { objects = ("", "") }

abbrev refilled : WorkerWorld Db (String × String)
refilled = record (attempt files jobs minio sharp path "files" png_payload clock empty_world) {
  objects = ("files/ann/b.png", "pixels");
}

first_throws :
    (dispatch files jobs minio sharp path "files" png_payload clock empty_world).0
    ≡ err (other_error "getObject failed")
unfolding dispatch job_repo file_repo list_table Processors.process_convert
    FileRepository.find_by_id
first_throws = refl

second_returns : (dispatch files jobs minio sharp path "files" png_payload clock refilled).0 ≡ ok tt
unfolding dispatch attempt job_repo file_repo list_table Processors.process_convert
    FileRepository.find_by_id
second_returns = refl

abbrev two_runs :
    Deliveries files jobs minio sharp path "files" png_payload 3 empty_world
      (attempt files jobs minio sharp path "files" png_payload clock refilled)
two_runs =
    again 1 clock empty_world refilled _ (other_error "getObject failed") first_throws refl
      (returned 1 clock refilled second_returns)

job_finishes_example :
    (k : DbJob) × (jobs.row
        (attempt files jobs minio sharp path "files" png_payload clock refilled).db
        "j1"
      ≡ some k)
    × SameJob pending_job k
    × (tries files jobs minio sharp path "files" two_runs ≤ 3)
    × Finished files jobs minio sharp path "files" k
        (tries files jobs minio sharp path "files" two_runs)
        3
unfolding job_repo list_table
job_finishes_example =
    job_finishes files jobs minio sharp path "files" png_payload empty_world
      (attempt files jobs minio sharp path "files" png_payload clock refilled) pending_job two_runs
      refl

early_failure_stays_example :
    ((before : List Message) × ((attempt files jobs minio sharp path "files" png_payload clock
          empty_world).published
        ≡ before
          ++ record { channel = "job:failed:j1"; event = failed_event "getObject failed" } ∷ []))
    × (k : DbJob) × (jobs.row
          (attempt files jobs minio sharp path "files" png_payload clock refilled).db
          "j1"
        ≡ some k)
    × (k.status ≡ JobStatus.completed)
    × (k.progress ≡ 100)
    × (k.error_message ≡ some "getObject failed")
unfolding job_repo list_table
early_failure_stays_example =
    early_failure_stays files jobs minio sharp path "files" png_payload clock clock empty_world
      refilled pending_job (other_error "getObject failed") refl first_throws refl second_returns
