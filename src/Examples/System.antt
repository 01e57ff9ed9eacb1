-- ===== src/Examples/System.antt =====
-- The theorems about histories, applied to one on the small database: the pending upload is
-- confirmed, the worker runs the job of the other file, and a file is removed or the sweeps run.
use file_processing_platform.Common.{ℕ, String, ◌≡◌, refl, some, [], arith}
use file_processing_platform.Schema.{DbFile, DbJob}
use file_processing_platform.Db.FileRepository.Laws.{file_repo}
use file_processing_platform.Db.JobRepository.Laws.{job_repo}
use file_processing_platform.Api.FileService.{confirm_upload, delete}
use file_processing_platform.Worker.Consumer.{attempt}
use file_processing_platform.Worker.Cleanup.{cleanup_guest_resources}
use file_processing_platform.System.Lifecycle.{FileLater}
use file_processing_platform.System.Jobs.{IsBounded}
use file_processing_platform.System.Ownership.{IsOwned}
use file_processing_platform.System.History.{
  History, start, step, confirm, deliver, remove, file_history, Life, begun, request, swept,
  progress_life, owner_life,
}
use file_processing_platform.Examples.ListTable.{list_table}
use file_processing_platform.Examples.Engine.{
  Db, files, jobs, storage, runtime, urls, config, minio, sharp, path,
}
use file_processing_platform.Examples.Data.{db, pending_file, pending_job, payload, world}

abbrev clock : ℕ → ℕ
clock k = k

abbrev confirmed : Db
confirmed = (confirm_upload files storage runtime urls config "ann" "f1" 50 db).1

abbrev ran : Db
ran =
    (attempt files jobs minio sharp path "files" payload clock (record world { db = confirmed })).db

abbrev last : Db
last = (delete files storage runtime urls config "ann" "f1" 70 ran).1

abbrev story : History files jobs runtime urls config minio sharp path db last
story =
    step
      (step (step start (confirm storage "ann" "f1" 50))
        (deliver world.objects [] [] payload clock))
      (remove storage "ann" "f1" 70)

abbrev swept_db : Db
swept_db =
    (cleanup_guest_resources files minio "files" 3 9000
      (record { db = ran; objects = world.objects })).1.db

abbrev life : Life files jobs runtime urls config minio sharp path db swept_db
life = swept world.objects 3 9000 (
    request (request begun (confirm storage "ann" "f1" 50))
      (deliver world.objects [] [] payload clock))

file_history_example : (g : DbFile) × (files.row last "f1" ≡ some g) × FileLater pending_file g
unfolding file_repo list_table
file_history_example =
    file_history files jobs runtime urls config minio sharp path "f1" pending_file story refl

only_job : (k : String) (j : DbJob) → jobs.row db k ≡ some j → j ≡ pending_job
unfolding job_repo list_table
only_job k j h = ground (arith, h)

db-IsBounded : IsBounded files jobs db
db-IsBounded = record { bound = λ k j h. rw (only_job k j h) (omega arith) }

progress_life_example : IsBounded files jobs swept_db
progress_life_example =
    progress_life files jobs runtime urls config minio sharp path life db-IsBounded

db-IsOwned : IsOwned files jobs db
unfolding file_repo list_table
db-IsOwned = record { owned = λ k j h. rw (only_job k j h) (_, refl, refl) }

owner_life_example : IsOwned files jobs swept_db
owner_life_example = owner_life files jobs runtime urls config minio sharp path life db-IsOwned
