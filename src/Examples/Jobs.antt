-- ===== src/Examples/Jobs.antt =====
-- The theorems about `JobService`, applied to the small database.
use file_processing_platform.Common.{
  false, String, ◌≡◌, refl, ◌≢◌, ne_of_eq, ◌⊎◌, inl, none, some, [], ◌∷◌, ◌++◌, ◌==◌, if◌then◌else◌,
  or_else,
}
use file_processing_platform.Common.Exec.{err}
use file_processing_platform.Errors.{other_error}
use file_processing_platform.Schema.{DbJob, JobStatus}
use file_processing_platform.Db.Changes.{new_job}
use file_processing_platform.Db.FileRepository
use file_processing_platform.Db.FileRepository.Laws.{file_repo}
use file_processing_platform.Db.JobRepository
use file_processing_platform.Db.JobRepository.Laws.{job_repo}
use file_processing_platform.Api.JobService.{JobWorld, create, cancel}
use file_processing_platform.Api.JobService.Create.{submitted, create_effects, create_orphan}
use file_processing_platform.Api.JobService.Cancel.{refusal, cancel-refuses}
use file_processing_platform.Examples.ListTable.{list_table}
use file_processing_platform.Examples.ListTable.Rows.{fresh_key}
use file_processing_platform.Examples.Engine.{Db, files, jobs}
use file_processing_platform.Examples.Data.{db, api, ready_file}

abbrev created : DbJob
created = record {
  id = "j1x";
  file_id = "f2";
  user_id = "ann";
  type = "png";
  status = JobStatus.pending;
  progress = 0;
  output_path = none;
  output_file_id = none;
  error_message = none;
  created_at = 50;
  updated_at = 50;
}

create_effects_example :
    (created
      ≡ new_job (submitted files jobs "ann" "f2" (some "png") none 50 api) 50 (jobs.next_id db))
    × (jobs.row db created.id ≡ none)
    × ((k : String)
        → jobs.row (create files jobs "ann" "f2" (some "png") none 50 api).1.db k
          ≡ (if created.id == k then some created else jobs.row db k))
    × ((create files jobs "ann" "f2" (some "png") none 50 api).1.queue
        ≡ api.queue
          ++ record {
            job_id = created.id;
            file_id = "f2";
            type = or_else (some "png") "default";
            user_id = "ann";
            quality = none;
          }
            ∷ [])
unfolding create file_repo job_repo list_table fresh_key FileRepository.find_by_id
    JobRepository.create
create_effects_example = create_effects files jobs "ann" "f2" (some "png") none 50 api created refl

not_bobs_job :
    (j : DbJob) → jobs.row db "j1" ≡ some j → (j.user_id ≢ "bob") ⊎ (j.status ≢ JobStatus.pending)
unfolding job_repo list_table
not_bobs_job j found = inl (λ e. ne_of_eq "ann" "bob" refl (cc))

cancel-refuses_example :
    cancel files jobs "bob" "j1" 50 api
    ≡ (err (refusal files jobs "bob" "j1" 50 api (jobs.row api.db "j1")), api)
cancel-refuses_example = cancel-refuses files jobs "bob" "j1" 50 api not_bobs_job

abbrev queue_down : JobWorld Db
queue_down = record api { queue_up = false }

create_orphan_example :
    ((create files jobs "ann" "f2" (some "png") none 50 queue_down).0
      ≡ err (other_error "queue.add failed"))
    × ((create files jobs "ann" "f2" (some "png") none 50 queue_down).1.queue ≡ queue_down.queue)
    × (jobs.row db (jobs.next_id db) ≡ none)
    × (jobs.row
          (create files jobs "ann" "f2" (some "png") none 50 queue_down).1.db
          (jobs.next_id db)
        ≡ some (
            new_job
              (submitted files jobs "ann" "f2" (some "png") none 50 queue_down)
              50
              (jobs.next_id db)))
unfolding job_repo file_repo list_table
create_orphan_example =
    create_orphan files jobs "ann" "f2" (some "png") none 50 queue_down ready_file refl refl refl
      refl refl
