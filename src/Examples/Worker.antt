-- ===== src/Examples/Worker.antt =====
-- The theorems about the worker, applied to the small database.
use file_processing_platform.Common.{
  ◌++◌, ℕ, String, ◌≡◌, refl, ◌≢◌, ◌⊎◌, inl, none, some, [], ◌∷◌, ◌<◌, ◌≤◌, ◌-◌, ◌*◌, concat,
}
use file_processing_platform.Common.Lists.{Elem}
use file_processing_platform.Common.Exec.{ok}
use file_processing_platform.Schema.{DbFile, FileStatus, DbJob, JobStatus}
use file_processing_platform.Db.Changes.{set_cancelled}
use file_processing_platform.Db.FileRepository.Laws.{file_repo}
use file_processing_platform.Db.JobRepository.Laws.{job_repo}
use file_processing_platform.Api.JobService.{JobWorld, cancel}
use file_processing_platform.Worker.Platform.{WorkerWorld, webp}
use file_processing_platform.Worker.Processors.{process_default, process_convert, format_config}
use file_processing_platform.Worker.Consumer.{dispatch, attempt}
use file_processing_platform.Worker.Consumer.Rows.{SameJob}
use file_processing_platform.Worker.Consumer.Stages.{process_default_run, default_messages}
use file_processing_platform.Worker.Consumer.Settles.{Settled, attempt-Settled}
use file_processing_platform.Worker.Consumer.Output.{HasOutput, process_convert-HasOutput}
use file_processing_platform.Worker.Consumer.Cancelled.{cancelled_job_completes}
use file_processing_platform.Worker.Cleanup.{cleanup_pending_uploads, cleanup_guest_resources}
use file_processing_platform.Worker.Cleanup.Pending.{DeletedFrom, cleanup_pending_uploads_exact}
use file_processing_platform.Worker.Cleanup.Guests.{IsExpired, cleanup_guest_resources_exact}
use file_processing_platform.Examples.ListTable.{list_table}
use file_processing_platform.Examples.Engine.{Db, files, jobs, minio, sharp, path}
use file_processing_platform.Examples.Data.{pending_job, ready_file, db, api, payload, world, sweep}

abbrev clock : ℕ → ℕ
clock k = k

process_default_run_example :
    ((process_default files jobs minio sharp path "files" payload clock world).1.published
      ≡ world.published ++ default_messages files jobs minio sharp path "files" payload)
    × ((process_default files jobs minio sharp path "files" payload clock world).1.bull_progress
        ≡ world.bull_progress ++ 20 ∷ 40 ∷ 60 ∷ 80 ∷ 100 ∷ [])
    × ((process_default files jobs minio sharp path "files" payload clock world).1.objects
        ≡ world.objects)
    × (j' : DbJob) × (jobs.row
          (process_default files jobs minio sharp path "files" payload clock world).1.db
          "j1"
        ≡ some j')
    × SameJob pending_job j'
    × (j'.status ≡ JobStatus.completed)
    × (j'.progress ≡ 100)
    × (j'.output_path ≡ some (concat ("processed/" ∷ "f2" ∷ "/output.txt" ∷ [])))
    × (j'.output_file_id ≡ none)
    × (j'.error_message ≡ none)
unfolding job_repo list_table
process_default_run_example =
    process_default_run files jobs minio sharp path "files" payload clock world pending_job refl

attempt-Settled_example :
    (k : DbJob) × (jobs.row
        (attempt files jobs minio sharp path "files" payload clock world).db
        "j1"
      ≡ some k)
    × SameJob pending_job k
    × Settled files jobs minio sharp path "files" payload pending_job
        (dispatch files jobs minio sharp path "files" payload clock world).0
        k
        (attempt files jobs minio sharp path "files" payload clock world).published
unfolding job_repo list_table
attempt-Settled_example =
    attempt-Settled files jobs minio sharp path "files" payload clock world pending_job refl

process_convert-HasOutput_example :
    ((process_convert files jobs minio sharp path "files" webp payload clock world).0 ≡ ok tt)
    × HasOutput files jobs minio sharp path "files" payload "image/webp" "pixels" world
        (process_convert files jobs minio sharp path "files" webp payload clock world).1
unfolding file_repo list_table format_config
process_convert-HasOutput_example =
    process_convert-HasOutput files jobs minio sharp path "files" payload clock world webp
      ready_file "pixels" "pixels" ("files/processed/ann/j1/b.webp", "pixels") refl refl refl refl
      refl refl

abbrev cancelled : JobWorld Db
cancelled = (cancel files jobs "ann" "j1" 50 api).1

abbrev after_cancel : WorkerWorld Db (String × String)
after_cancel = record world { db = cancelled.db }

cancelled_job_completes_example :
    ((cancel files jobs "ann" "j1" 50 api).0 ≡ ok tt)
    × (jobs.row after_cancel.db "j1" ≡ some (set_cancelled 50 pending_job))
    × Elem payload (cancel files jobs "ann" "j1" 50 api).1.queue
    × (k : DbJob) × (jobs.row
          (attempt files jobs minio sharp path "files" payload clock after_cancel).db
          "j1"
        ≡ some k)
    × (k.status ≡ JobStatus.completed)
unfolding job_repo list_table
cancelled_job_completes_example =
    cancelled_job_completes files jobs minio sharp path "files" "ann" 50 api after_cancel payload
      pending_job clock refl refl refl refl (inl refl) refl

cleanup_pending_uploads_exact_example :
    ((f : DbFile)
      → files.row db f.id ≡ some f
      → f.status ≡ FileStatus.pending
      → f.created_at < 5000 - 3 * 1000
      → (g : DbFile) × (files.row
            (cleanup_pending_uploads files minio "files" 3 5000 clock sweep).1.db
            f.id
          ≡ some g)
        × DeletedFrom f g)
    × ((k : String)
        → ((f : DbFile)
            → files.row db k ≡ some f
            → (f.status ≢ FileStatus.pending) ⊎ (5000 - 3 * 1000 ≤ f.created_at))
        → files.row (cleanup_pending_uploads files minio "files" 3 5000 clock sweep).1.db k
          ≡ files.row db k)
cleanup_pending_uploads_exact_example =
    cleanup_pending_uploads_exact files minio "files" 3 5000 clock sweep

cleanup_guest_resources_exact_example :
    ((f : DbFile)
      → files.row db f.id ≡ some f
      → IsExpired files minio "files" (5000 - 3 * 1000) db f
      → files.row (cleanup_guest_resources files minio "files" 3 5000 sweep).1.db f.id ≡ none)
    × ((k : String)
        → ((f : DbFile)
            → files.row db k ≡ some f
            → ¬ (IsExpired files minio "files" (5000 - 3 * 1000) db f))
        → files.row (cleanup_guest_resources files minio "files" 3 5000 sweep).1.db k
          ≡ files.row db k)
cleanup_guest_resources_exact_example =
    cleanup_guest_resources_exact files minio "files" 3 5000 sweep
