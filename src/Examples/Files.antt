-- ===== src/Examples/Files.antt =====
-- The theorems about `FileService`, applied to the small database.
use file_processing_platform.Common.{◌≡◌, refl, ◌≢◌, ne_of_eq, ◌⊎◌, some, [], ◌∷◌}
use file_processing_platform.Common.Exec.{err}
use file_processing_platform.Errors.{not_found}
use file_processing_platform.Schema.{DbFile, FileStatus}
use file_processing_platform.Db.Changes.{set_ready}
use file_processing_platform.Db.FileRepository.Laws.{file_repo}
use file_processing_platform.Db.FileRepository
use file_processing_platform.Api.FileService.{
  confirm_pending, CreateUploadUrlInput, CreateUploadUrlResult, confirm_upload, find_by_id, delete,
  get_download_stream,
}
use file_processing_platform.Api.FileService.Confirm.{confirm_upload-ok}
use file_processing_platform.Api.FileService.Access.{stranger_sees_nothing}
use file_processing_platform.Examples.ListTable.{list_table}
use file_processing_platform.Examples.Engine.{files, storage, runtime, urls, config}
use file_processing_platform.Examples.Data.{pending_file, ready_file, db}

abbrev image : CreateUploadUrlInput
image = record { filename = "a.png"; mime_type = "image/png"; size = 5 }

abbrev huge : CreateUploadUrlInput
huge = record { filename = "a.png"; mime_type = "image/png"; size = 101 }

abbrev upload : CreateUploadUrlResult
upload = record {
  file_id = "f1f2x";
  upload_url = "http://minio:9000/files";
  form_fields = ("key", "ann/x.png") ∷ [];
  expires_at = "soon";
}

abbrev confirmed : DbFile
confirmed = set_ready 50 pending_file

confirm_upload-ok_example :
    (confirmed.user_id ≡ "ann")
    × (confirmed.status ≡ FileStatus.ready)
    × ((files.row db "f1" ≡ some confirmed)
          × ((confirm_upload files storage runtime urls config "ann" "f1" 50 db).1 ≡ db)
        ⊎ ((old : DbFile) × (files.row db "f1" ≡ some old)
            × (old.status ≡ FileStatus.pending)
            × (confirmed ≡ set_ready 50 old)
            × (storage.stat_object config.bucket old.storage_path ≡ some old.size)))
unfolding confirm_upload file_repo list_table confirm_pending FileRepository.find_by_id
    FileRepository.mark_ready
confirm_upload-ok_example =
    confirm_upload-ok files storage runtime urls config "ann" "f1" 50 db confirmed refl

ready_file_live : ready_file.status ≢ FileStatus.deleted
ready_file_live e = absurd (cc)

no_file_of_bob : (f : DbFile) → files.row db "f2" ≡ some f → f.user_id ≢ "bob"
unfolding file_repo list_table
no_file_of_bob f found e = ne_of_eq "ann" "bob" refl (cc)

stranger_sees_nothing_example :
    (find_by_id files storage runtime urls config "bob" "f2" db
      ≡ (err (not_found "FILE_NOT_FOUND" "File not found"), db))
    × (delete files storage runtime urls config "bob" "f2" 50 db
        ≡ (err (not_found "FILE_NOT_FOUND" "File not found"), db))
    × (confirm_upload files storage runtime urls config "bob" "f2" 50 db
        ≡ (err (not_found "FILE_NOT_FOUND" "File not found"), db))
    × (get_download_stream files storage runtime urls config "bob" "f2" db
        ≡ (err (not_found "FILE_NOT_FOUND" "File not found"), db))
stranger_sees_nothing_example =
    stranger_sees_nothing files storage runtime urls config "bob" "f2" 50 db no_file_of_bob
