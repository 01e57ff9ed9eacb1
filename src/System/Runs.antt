-- ===== src/System/Runs.antt =====
-- The operations of the services are sequences of statements.
use file_processing_platform.Common.{
  ℕ, String, ◌≡◌, some, Option, arith, inl, inr, ◌⊎◌, Option-cases, eq_iff, or_else,
}
use file_processing_platform.Schema.{DbFile, FileStatus, JobStatus, NewFile, NewJob}
use file_processing_platform.Db.Files.{FileRepo}
use file_processing_platform.Db.Jobs.{JobRepo}
use file_processing_platform.Api.Platform.{Storage, Runtime, UrlParser, Config}
use file_processing_platform.Api.FileService.{
  CreateUploadUrlInput, create_upload_url, confirm_upload, delete, object_key,
}
use file_processing_platform.Api.JobService.{JobWorld, create, cancel}
use file_processing_platform.System.{
  Write, made_file, readied_file, deleted_file, made_job, cancelled_job, Writes, here, Writes-one,
}

module _ {S : Type 0} (files : FileRepo S) (jobs : JobRepo S files) where
  one_or_none : (s t u : S) → (u ≡ s) ⊎ (u ≡ t) → Write files jobs s t → Writes files jobs s u
  one_or_none s t u (inl e) w = rw e here
  one_or_none s t u (inr e) w = rw e (Writes-one files jobs w)

module _ {S : Type 0} (files : FileRepo S) (jobs : JobRepo S files) (storage : Storage)
    (runtime : Runtime) (urls : UrlParser) (config : Config) where
  pub create_upload_url-Writes :
      (u : String) (input : CreateUploadUrlInput) (uuid : String) (now : ℕ) (s : S)
      → Writes files jobs s
          (create_upload_url files storage runtime urls config u input uuid now s).1
  unfolding create_upload_url
  create_upload_url-Writes u input uuid now s =
      let d : NewFile = record {
        user_id = u;
        original_name = input.filename;
        mime_type = input.mime_type;
        size = input.size;
        storage_path = object_key runtime u uuid input.filename;
        status = FileStatus.pending;
      } in
      one_or_none files jobs s (files.create d now s).1 _ (ground arith) (made_file d now)

  pub confirm_upload-Writes :
      (u k : String) (now : ℕ) (s : S)
      → Writes files jobs s (confirm_upload files storage runtime urls config u k now s).1
  unfolding confirm_upload
  confirm_upload-Writes u k now s =
      one_or_none files jobs s (files.mark_ready u k now s).1 _ (ground arith)
        (readied_file u k now)

  pub delete-Writes :
      (u k : String) (now : ℕ) (s : S)
      → Writes files jobs s (delete files storage runtime urls config u k now s).1
  unfolding delete
  delete-Writes u k now s =
      one_or_none files jobs s (files.soft_delete u k now s).1 _ (ground arith)
        (deleted_file u k now)

module _ {S : Type 0} (files : FileRepo S) (jobs : JobRepo S files) where
  pub cancel-Writes :
      (u k : String) (now : ℕ) (w : JobWorld S)
      → Writes files jobs w.db (cancel files jobs u k now w).1.db
  unfolding cancel
  cancel-Writes u k now w =
      one_or_none files jobs w.db (jobs.cancel u k now w.db).1 _ (ground arith)
        (cancelled_job u k now)

  users_file :
      (u k : String) (f : DbFile) (s : S)
      → files.find_by_id u k s ≡ some f
      → (files.row s k ≡ some f) × (f.user_id ≡ u)
  users_file u k f s h = ground (arith, files.find_by_id_lem u k s, eq_iff f.user_id u)

  pub create-Writes :
      (u k : String) (type : Option String) (quality : Option ℕ) (now : ℕ) (w : JobWorld S)
      → Writes files jobs w.db (create files jobs u k type quality now w).1.db
  unfolding create
  create-Writes u k type quality now w = elim (Option-cases (files.find_by_id u k w.db)) [
    | inl missing ↦ rw missing here
    | inr (f, found) ↦
        let (row, own) = users_file u k f w.db found in
        let d : NewJob = record {
          user_id = u;
          file_id = k;
          type = or_else type "default";
          status = JobStatus.pending;
          progress = 0;
        } in
        one_or_none files jobs w.db (jobs.create d now w.db).1 _ (ground (arith, found))
          (made_job d now f (omega arith) row own)
  ]
