-- ===== src/Examples/Journey.antt =====
-- An upload of `ann` to the small database, with a deletion in between, and a job on it; and a job of
-- a type without a processor.
use file_processing_platform.Common.{
  true, ℕ, ◌≡◌, refl, some, none, List, [], ◌∷◌, ◌++◌, ◌==◌, if◌then◌else◌,
}
use file_processing_platform.Common.Exec.{ok}
use file_processing_platform.Schema.{DbFile, DbJob}
use file_processing_platform.Db.Changes.{new_file, set_ready}
use file_processing_platform.Db.FileRepository
use file_processing_platform.Db.JobRepository.Laws.{job_repo}
use file_processing_platform.Db.FileRepository.Laws.{file_repo}
use file_processing_platform.Api.Platform.{Storage}
use file_processing_platform.Api.FileService.{
  CreateUploadUrlInput, CreateUploadUrlResult, create_upload_url, confirm_upload, delete,
  object_key, to_public_storage_url,
}
use file_processing_platform.Api.FileService.Upload.{reserved}
use file_processing_platform.Api.JobService.{JobPayload, create}
use file_processing_platform.Worker.Platform.{Message, completed_event}
use file_processing_platform.Worker.Consumer.{dispatch}
use file_processing_platform.Worker.Consumer.Unsupported.{unsupported_returns_input}
use file_processing_platform.System.History.{start, step, remove}
use file_processing_platform.System.Journey.{upload_journey}
use file_processing_platform.Examples.ListTable.{list_table}
use file_processing_platform.Examples.ListTable.Rows.{fresh_key}
use file_processing_platform.Examples.Engine.{
  Db, files, jobs, storage, runtime, urls, config, minio, sharp, path,
}
use file_processing_platform.Examples.Data.{db, payload, world}

abbrev input : CreateUploadUrlInput
input = record { filename = "c.png"; mime_type = "image/png"; size = 9 }

abbrev later : Storage
later = record storage { stat_object = λ bucket key. if key == "ann/u1.png" then some 9 else none }

abbrev result : CreateUploadUrlResult
result = record {
  file_id = files.next_id db;
  upload_url = "http://minio:9000/files";
  form_fields = ("key", "ann/u1.png") ∷ [];
  expires_at = "soon";
}

abbrev reserved_db : Db
reserved_db = (create_upload_url files storage runtime urls config "ann" input "u1" 50 db).1

abbrev meanwhile : Db
meanwhile = (delete files storage runtime urls config "ann" "f2" 60 reserved_db).1

abbrev row : DbFile
row = new_file (reserved files storage runtime urls config "ann" input "u1") 50 (files.next_id db)

upload_journey_example :
    ((confirm_upload files later runtime urls config "ann" (files.next_id db) 70 meanwhile).0
      ≡ ok (set_ready 70 row))
    × (row.original_name ≡ input.filename)
    × (row.mime_type ≡ input.mime_type)
    × (row.size ≡ 9)
    × (job : DbJob) × ((create files jobs "ann" (files.next_id db) (some "webp") none 70 (record {
      db = (confirm_upload files later runtime urls config "ann" (files.next_id db) 70 meanwhile).1;
      queue = [];
      queue_up = true;
    })).0
        ≡ ok job)
unfolding create_upload_url delete object_key to_public_storage_url file_repo job_repo list_table
    FileRepository.find_by_id FileRepository.create FileRepository.soft_delete fresh_key
upload_journey_example =
    upload_journey files jobs runtime urls config minio sharp path "ann" input "u1" storage later 50
      70 db meanwhile result row (some "webp") none [] refl refl
      (step start (remove storage "ann" "f2" 60)) refl refl refl

abbrev docx_payload : JobPayload
docx_payload = record payload { type = "docx" }

abbrev clock : ℕ → ℕ
clock k = k

unsupported_returns_input_example :
    ((dispatch files jobs minio sharp path "files" docx_payload clock world).0 ≡ ok tt)
    × ((dispatch files jobs minio sharp path "files" docx_payload clock world).1.objects
        ≡ world.objects)
    × (files.row (dispatch files jobs minio sharp path "files" docx_payload clock world).1.db
        ≡ files.row db)
    × (before : List Message) × ((dispatch files jobs minio sharp path "files" docx_payload clock
          world).1.published
        ≡ before ++ record { channel = "job:completed:j1"; event = completed_event "f2" } ∷ [])
unsupported_returns_input_example =
    unsupported_returns_input files jobs minio sharp path "files" docx_payload clock world refl refl
      refl refl
