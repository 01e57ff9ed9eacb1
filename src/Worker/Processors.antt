-- ===== src/Worker/Processors.antt =====
-- apps/worker/src/processors/*.ts: the three processors, each as an action on the database, the
-- object storage and the event bus. `clock k` is the time of the k-th write of a run; the three
-- calls under one `Promise.all` are made in the order in which they are listed.
use file_processing_platform.Common.{
  ℕ, zero, suc, ◌+◌, ◌*◌, ◌/◌, String, none, some, [], ◌∷◌, ◌==◌, concat, or_else, not,
  if◌then◌else◌,
}
use file_processing_platform.Common.Exec.{Exec, pure, gets, require, throw_if, ◌>>=◌, ◌>>◌}
use file_processing_platform.Errors.{other_error, value_too_long}
use file_processing_platform.Schema.{NewFile, FileStatus, JobStatus}
use file_processing_platform.Db.Changes.{Extra, no_extra}
use file_processing_platform.Db.Files.{FileRepo}
use file_processing_platform.Db.Jobs.{JobRepo}
use file_processing_platform.Api.JobService.{JobPayload}
use file_processing_platform.Worker.Platform.{
  ImageFormat, jpeg, png, webp, ObjectStore, Sharp, PathModule, progress_event, completed_event,
  WorkerWorld, read, write, write_, publish, bull_update, store, progress_channel,
  completed_channel,
}

-- `FORMAT_CONFIG`: the extension and the MIME type of a format
unfoldable pub format_config : ImageFormat → String × String
format_config jpeg = ("jpg", "image/jpeg")
format_config png = ("png", "image/png")
format_config webp = ("webp", "image/webp")

-- The encoder that `CompressProcessor` chooses for a MIME type.
unfoldable pub compress_format : String → ImageFormat
compress_format mime =
    if mime == "image/png" then png else if mime == "image/webp" then webp else jpeg

-- `Math.round((i / stages) * 100)`, of the exact quotient
unfoldable pub percent : ℕ → ℕ → ℕ
percent i stages = (i * 200 + stages) / (2 * stages)

abbrev pub with_progress : ℕ → Extra
with_progress progress = record no_extra { progress = some progress }

-- `{ progress: 100, outputFileId }`
abbrev pub with_output_file : String → Extra
with_output_file id = record no_extra { progress = some 100; output_file_id = some id }

module _ {S O B : Type 0} (files : FileRepo S) (jobs : JobRepo S files) (minio : ObjectStore O B)
    (sharp : Sharp B) (path : PathModule) (bucket : String) where
  -- The three calls of a progress report.
  unfoldable pub report : String → ℕ → ℕ → Exec (WorkerWorld S O) (Unit {0})
  report job_id progress now = do
    bull_update progress
    write_ (jobs.update_progress job_id progress now)
    publish (progress_channel job_id) (progress_event progress JobStatus.active)

  -- The loop of `DefaultProcessor`: `left` stages are to come, the first of them number `i`.
  unfoldable pub stages_from : String → ℕ → ℕ → (ℕ → ℕ) → Exec (WorkerWorld S O) (Unit {0})
  unfolding report percent
  stages_from job_id zero i clock = pure tt
  stages_from job_id (suc left) i clock = do
    report job_id (percent i 5) (clock i)
    stages_from job_id left (i + 1) clock

  -- `DefaultProcessor.process`
  unfoldable pub process_default : JobPayload → (ℕ → ℕ) → Exec (WorkerWorld S O) (Unit {0})
  process_default p clock = do
    write (jobs.update_status p.job_id JobStatus.active (with_progress 0) (clock 0))
    stages_from p.job_id 5 1 clock
    let output_path = concat ("processed/" ∷ p.file_id ∷ "/output.txt" ∷ [])
    write (
        jobs.update_status p.job_id JobStatus.completed
          (record no_extra { progress = some 100; output_path = some output_path }) (clock 6))
    publish (completed_channel p.job_id) (completed_event p.file_id)

  -- `ConvertProcessor.process` for a job whose type is `format`
  unfoldable pub process_convert :
      ImageFormat → JobPayload → (ℕ → ℕ) → Exec (WorkerWorld S O) (Unit {0})
  unfolding format_config report
  process_convert format p clock = do
    let (ext, mime) = format_config format
    write (jobs.update_status p.job_id JobStatus.active (with_progress 0) (clock 0))
    publish (progress_channel p.job_id) (progress_event 0 JobStatus.active)
    found ← read (files.find_by_id p.user_id p.file_id)
    input ← require found (other_error (concat ("Input file not found: " ∷ p.file_id ∷ [])))
    fetched ← gets (λ w. minio.get_object bucket input.storage_path w.objects)
    bytes ← require fetched (other_error "getObject failed")
    report p.job_id 33 (clock 1)
    encoded ← require (sharp.encode format none bytes) (other_error "sharp failed")
    report p.job_id 66 (clock 2)
    let stem = path.basename input.original_name (path.extname input.original_name)
    let output_name = concat (stem ∷ "." ∷ ext ∷ [])
    let output_path = concat ("processed/" ∷ p.user_id ∷ "/" ∷ p.job_id ∷ "/" ∷ output_name ∷ [])
    store (other_error "putObject failed") (minio.put_object bucket output_path encoded mime)
    let values : NewFile = record {
      user_id = p.user_id;
      original_name = output_name;
      mime_type = mime;
      size = minio.byte_length encoded;
      storage_path = output_path;
      status = FileStatus.ready;
    }
    throw_if (not (files.accepts values)) value_too_long
    output ← write (files.create values (clock 3))
    write (jobs.update_status p.job_id JobStatus.completed (with_output_file output.id) (clock 4))
    publish (completed_channel p.job_id) (completed_event output.id)

  -- `CompressProcessor.process`; the quality is 80 where the payload has none
  unfoldable pub process_compress : JobPayload → (ℕ → ℕ) → Exec (WorkerWorld S O) (Unit {0})
  unfolding compress_format report
  process_compress p clock = do
    let quality = or_else p.quality 80
    write (jobs.update_status p.job_id JobStatus.active (with_progress 0) (clock 0))
    publish (progress_channel p.job_id) (progress_event 0 JobStatus.active)
    found ← read (files.find_by_id p.user_id p.file_id)
    input ← require found (other_error (concat ("Input file not found: " ∷ p.file_id ∷ [])))
    fetched ← gets (λ w. minio.get_object bucket input.storage_path w.objects)
    bytes ← require fetched (other_error "getObject failed")
    report p.job_id 33 (clock 1)
    encoded ←
        require (sharp.encode (compress_format input.mime_type) (some quality) bytes)
          (other_error "sharp failed")
    report p.job_id 66 (clock 2)
    let output_path =
        concat ("processed/" ∷ p.user_id ∷ "/" ∷ p.job_id ∷ "/" ∷ input.original_name ∷ [])
    store (other_error "putObject failed")
        (minio.put_object bucket output_path encoded input.mime_type)
    let values : NewFile = record {
      user_id = p.user_id;
      original_name = input.original_name;
      mime_type = input.mime_type;
      size = minio.byte_length encoded;
      storage_path = output_path;
      status = FileStatus.ready;
    }
    throw_if (not (files.accepts values)) value_too_long
    output ← write (files.create values (clock 3))
    write (jobs.update_status p.job_id JobStatus.completed (with_output_file output.id) (clock 4))
    publish (completed_channel p.job_id) (completed_event output.id)
