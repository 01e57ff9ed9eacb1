-- ===== src/System/Journey.antt =====
-- An upload, from its reservation to the job on it, with anything else in between.
use file_processing_platform.Common.{
  ℕ, String, ◌≡◌, refl, ap, sym, ◌∙◌, some, true, or_else, Option, eq_self, List,
}
use file_processing_platform.Common.Exec.{ok}
use file_processing_platform.Schema.{DbFile, DbJob, FileStatus, JobStatus}
use file_processing_platform.Db.Changes.{new_file, set_ready}
use file_processing_platform.Db.Files.{FileRepo}
use file_processing_platform.Db.Jobs.{JobRepo}
use file_processing_platform.Api.Platform.{Storage, Runtime, UrlParser, Config}
use file_processing_platform.Api.FileService.{
  CreateUploadUrlInput, CreateUploadUrlResult, create_upload_url, confirm_upload, object_key,
}
use file_processing_platform.Api.FileService.Upload.{
  reserved, create_upload_url-reserves, create_upload_url_result,
}
use file_processing_platform.Api.FileService.Confirm.{confirm_upload-accepts}
use file_processing_platform.Api.JobService.{JobPayload, create}
use file_processing_platform.Api.JobService.Create.{create_iff}
use file_processing_platform.Worker.Platform.{ObjectStore, Sharp, PathModule}
use file_processing_platform.System.History.{History, file_history}

module _ {S O B : Type 0} (files : FileRepo S) (jobs : JobRepo S files) (runtime : Runtime)
    (urls : UrlParser) (config : Config) (minio : ObjectStore O B) (sharp : Sharp B)
    (path : PathModule) (u : String) (input : CreateUploadUrlInput) (uuid : String) where
  -- The row that a reservation leaves, under the id that it returns.
  reserved_row :
      (storage : Storage) (now : ℕ) (s : S) (r : CreateUploadUrlResult)
      → (create_upload_url files storage runtime urls config u input uuid now s).0 ≡ ok r
      → files.row
          (create_upload_url files storage runtime urls config u input uuid now s).1
          r.file_id
        ≡ some (
            new_file
              (reserved files storage runtime urls config u input uuid)
              now
              (files.next_id s))
  reserved_row storage now s r e =
      let (pos, small, fits, id, post, signed, fields) =
        create_upload_url_result files storage runtime urls config u input uuid now s r e in
      let (fresh, rows) =
        create_upload_url-reserves files storage runtime urls config u input uuid now s pos small
          fits in
      ap (files.row (create_upload_url files storage runtime urls config u input uuid now s).1) id
      ∙ rows (files.next_id s)
      ∙ rw (eq_self (files.next_id s)) refl

  -- A reservation that returned, any history after it, a row that is still pending, and an object of
  -- the announced size under the reserved key: the confirmation returns the row as ready, with the
  -- announced name, type and size. A job on the file is accepted behind it, if its type fits its column
  -- and Redis takes the payload.
  pub upload_journey :
      (storage later : Storage) (now moment : ℕ) (s t : S) (r : CreateUploadUrlResult) (g : DbFile)
      (type : Option String) (quality : Option ℕ) (queue : List JobPayload)
      → jobs.accepts (record {
        user_id = u;
        file_id = r.file_id;
        type = or_else type "default";
        status = JobStatus.pending;
        progress = 0;
      })
        ≡ true
      → (create_upload_url files storage runtime urls config u input uuid now s).0 ≡ ok r
      → History files jobs runtime urls config minio sharp path
          (create_upload_url files storage runtime urls config u input uuid now s).1
          t
      → files.row t r.file_id ≡ some g
      → g.status ≡ FileStatus.pending
      → later.stat_object config.bucket (object_key runtime u uuid input.filename) ≡ some input.size
      → ((confirm_upload files later runtime urls config u r.file_id moment t).0
          ≡ ok (set_ready moment g))
        × (g.original_name ≡ input.filename)
        × (g.mime_type ≡ input.mime_type)
        × (g.size ≡ input.size)
        × (job : DbJob) × ((create files jobs u r.file_id type quality moment (record {
          db = (confirm_upload files later runtime urls config u r.file_id moment t).1;
          queue = queue;
          queue_up = true;
        })).0
            ≡ ok job)
  upload_journey storage later now moment s t r g type quality queue fits e h found pending stored =
      let (g', at, (id, owner, name, mime, size, place, made_at, order)) =
        file_history files jobs runtime urls config minio sharp path r.file_id _ h
          (reserved_row storage now s r e) in
      let same : g' ≡ g = cc in
      let own : g.user_id ≡ u = ap (λ f. f.user_id) (sym same) ∙ owner in
      let (confirmed, row) =
        confirm_upload-accepts files later runtime urls config u r.file_id moment t g found own
          pending
          (ap (later.stat_object config.bucket) (ap (λ f. f.storage_path) (sym same) ∙ place)
            ∙ stored
            ∙ ap some (sym (ap (λ f. f.size) (sym same) ∙ size))) in
      let (job, made) =
        (create_iff files jobs u r.file_id type quality moment (record {
          db = (confirm_upload files later runtime urls config u r.file_id moment t).1;
          queue = queue;
          queue_up = true;
        })).1
          (set_ready moment g, row, own, refl, fits, refl) in
      (
        confirmed,
        ap (λ f. f.original_name) (sym same) ∙ name,
        ap (λ f. f.mime_type) (sym same) ∙ mime,
        ap (λ f. f.size) (sym same) ∙ size,
        job,
        made,
      )
