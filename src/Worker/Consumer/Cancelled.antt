-- ===== src/Worker/Consumer/Cancelled.antt =====
-- `JobService.cancel` and the consumer together: the queue still delivers a cancelled job.
use file_processing_platform.Common.{ℕ, String, ◌≡◌, refl, some}
use file_processing_platform.Common.Lists.{Elem}
use file_processing_platform.Common.Exec.{ok}
use file_processing_platform.Schema.{DbJob, JobStatus}
use file_processing_platform.Db.Changes.{set_cancelled}
use file_processing_platform.Db.Files.{FileRepo}
use file_processing_platform.Db.Jobs.{JobRepo}
use file_processing_platform.Api.JobService.{JobPayload, JobWorld, cancel}
use file_processing_platform.Api.JobService.Cancel.{cancel_pending}
use file_processing_platform.Worker.Platform.{ObjectStore, Sharp, PathModule, WorkerWorld}
use file_processing_platform.Worker.Processors.{process_default}
use file_processing_platform.Worker.Consumer.{attempt, dispatch}
use file_processing_platform.Worker.Consumer.Stages.{process_default_row}

module _ {S O B : Type 0} (files : FileRepo S) (jobs : JobRepo S files) (minio : ObjectStore O B)
    (sharp : Sharp B) (path : PathModule) (bucket : String) where
  dispatch_default :
      (p : JobPayload) (clock : ℕ → ℕ) (w : WorkerWorld S O)
      → p.type ≡ "default"
      → dispatch files jobs minio sharp path bucket p clock w
        ≡ process_default files jobs minio sharp path bucket p clock w
  unfolding dispatch
  dispatch_default p clock w is = rw is refl

  -- Cancelling a pending default job succeeds and marks its row failed, but leaves its payload in the
  -- queue; and the delivery of that payload, on a worker that sees the same database, completes the
  -- job.
  pub cancelled_job_completes :
      (user_id : String) (now : ℕ) (api : JobWorld S) (w : WorkerWorld S O) (p : JobPayload)
      (j : DbJob) (clock : ℕ → ℕ)
      → jobs.row api.db p.job_id ≡ some j
      → j.user_id ≡ user_id
      → j.status ≡ JobStatus.pending
      → p.type ≡ "default"
      → Elem p api.queue
      → w.db ≡ (cancel files jobs user_id p.job_id now api).1.db
      → ((cancel files jobs user_id p.job_id now api).0 ≡ ok tt)
        × (jobs.row w.db p.job_id ≡ some (set_cancelled now j))
        × Elem p (cancel files jobs user_id p.job_id now api).1.queue
        × (k : DbJob) × (jobs.row (attempt files jobs minio sharp path bucket p clock w).db p.job_id
            ≡ some k)
        × (k.status ≡ JobStatus.completed)
  unfolding attempt
  cancelled_job_completes user_id now api w p j clock found own pending is queued shared =
      let (done, row, kept) =
        cancel_pending files jobs user_id p.job_id now api j found own pending in
      let failed : jobs.row w.db p.job_id ≡ some (set_cancelled now j) = rw shared row in
      let run = process_default_row files jobs minio sharp path bucket p clock w _ failed in
      (done, failed, rw kept queued, run.1, rw (dispatch_default p clock w is, run.0) run.2, run.4)
