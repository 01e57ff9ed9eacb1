-- ===== src/Worker/Consumer.antt =====
-- apps/worker/src/worker.ts: the dispatch by job type, and the handler of a failed attempt.
pub mod Rows
pub mod Stages
pub mod Settles
pub mod Output
pub mod Cancelled
pub mod Unsupported
use file_processing_platform.Common.{ℕ, String, Option, none, some, ◌==◌, if◌then◌else◌}
use file_processing_platform.Common.Exec.{Exec, Result, ok, err, ◌>>=◌, ◌>>◌}
use file_processing_platform.Errors.{Exception}
use file_processing_platform.Schema.{JobStatus}
use file_processing_platform.Db.Changes.{no_extra}
use file_processing_platform.Db.Files.{FileRepo}
use file_processing_platform.Db.Jobs.{JobRepo}
use file_processing_platform.Api.JobService.{JobPayload}
use file_processing_platform.Worker.Platform.{
  jpeg, png, webp, ObjectStore, Sharp, PathModule, failed_event, WorkerWorld, write, publish,
  failed_channel, message_of,
}
use file_processing_platform.Worker.Processors.{process_default, process_convert, process_compress}

module _ {S O B : Type 0} (files : FileRepo S) (jobs : JobRepo S files) (minio : ObjectStore O B)
    (sharp : Sharp B) (path : PathModule) (bucket : String) where
  -- The `switch` of the consumer.
  unfoldable pub dispatch : JobPayload → (ℕ → ℕ) → Exec (WorkerWorld S O) (Unit {0})
  dispatch p clock =
      if p.type == "compress"
      then process_compress files jobs minio sharp path bucket p clock
      else if p.type == "jpeg"
      then process_convert files jobs minio sharp path bucket jpeg p clock
      else if p.type == "png"
      then process_convert files jobs minio sharp path bucket png p clock
      else if p.type == "webp"
      then process_convert files jobs minio sharp path bucket webp p clock
      else process_default files jobs minio sharp path bucket p clock

  -- `worker.on('failed', …)`
  unfoldable pub on_failed : JobPayload → Exception → ℕ → Exec (WorkerWorld S O) (Unit {0})
  on_failed p e now = do
    write (
        jobs.update_status p.job_id JobStatus.failed
          (record no_extra { error_message = some (message_of e) }) now)
    publish (failed_channel p.job_id) (failed_event (message_of e))

  -- What follows a run.
  unfoldable pub settle : JobPayload → ℕ → Result (Unit {0}) → WorkerWorld S O → WorkerWorld S O
  unfolding on_failed
  settle p now (ok _) w = w
  settle p now (err e) w = (on_failed p e now w).1

  -- One delivery of a payload: the run, and the handler if it threw.
  unfoldable pub attempt : JobPayload → (ℕ → ℕ) → WorkerWorld S O → WorkerWorld S O
  unfolding dispatch settle
  attempt p clock w = settle p (clock 7) (dispatch p clock w).0 (dispatch p clock w).1
