-- ===== src/Worker/Queue.antt =====
-- apps/api/src/queue/jobQueue.ts: the options that every queued job has, and the deliveries that
-- they make BullMQ do. BullMQ's documented rule is the relation `Deliveries`: a job whose run threw
-- is run again until it has been tried `attempts` times.
pub mod Retries
use file_processing_platform.Common.{ℕ, suc, String, ◌≡◌}
use file_processing_platform.Common.Exec.{ok, err}
use file_processing_platform.Errors.{Exception}
use file_processing_platform.Db.Files.{FileRepo}
use file_processing_platform.Db.Jobs.{JobRepo}
use file_processing_platform.Api.JobService.{JobPayload}
use file_processing_platform.Worker.Platform.{ObjectStore, Sharp, PathModule, WorkerWorld}
use file_processing_platform.Worker.Consumer.{dispatch, attempt}

-- `defaultJobOptions`
pub record JobOptions : Type 0 where
  pub attempts : ℕ
  pub backoff_delay : ℕ
  pub remove_on_complete : ℕ
  pub remove_on_fail : ℕ

abbrev pub default_job_options : JobOptions
default_job_options = record {
  attempts = 3;
  backoff_delay = 2000;
  remove_on_complete = 500;
  remove_on_fail = 200;
}

module _ {S O B : Type 0} (files : FileRepo S) (jobs : JobRepo S files) (minio : ObjectStore O B)
    (sharp : Sharp B) (path : PathModule) (bucket : String) where
  -- The deliveries of a payload, of which at most the given number are left. Between two of them
  -- anything may happen that leaves the row of the job alone.
  pub data Deliveries (p : JobPayload) : ℕ → WorkerWorld S O → WorkerWorld S O → Type 0 where
    returned :
        (left : ℕ) (clock : ℕ → ℕ) (w : WorkerWorld S O)
        → (dispatch files jobs minio sharp path bucket p clock w).0 ≡ ok tt
        → Deliveries p (suc left) w (attempt files jobs minio sharp path bucket p clock w)
    gave_up :
        (clock : ℕ → ℕ) (w : WorkerWorld S O) (e : Exception)
        → (dispatch files jobs minio sharp path bucket p clock w).0 ≡ err e
        → Deliveries p 1 w (attempt files jobs minio sharp path bucket p clock w)
    again :
        (left : ℕ) (clock : ℕ → ℕ) (w v w' : WorkerWorld S O) (e : Exception)
        → (dispatch files jobs minio sharp path bucket p clock w).0 ≡ err e
        → jobs.row v.db p.job_id
          ≡ jobs.row (attempt files jobs minio sharp path bucket p clock w).db p.job_id
        → Deliveries p (suc left) v w'
        → Deliveries p (suc (suc left)) w w'

  -- How many runs there were.
  abbrev pub tries : {p : JobPayload} {n : ℕ} {w w' : WorkerWorld S O} → Deliveries p n w w' → ℕ
  tries (returned left clock w h) = 1
  tries (gave_up clock w e h) = 1
  tries (again left clock w v w' e h kept rest) = suc (tries rest)
