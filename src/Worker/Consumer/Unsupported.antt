-- ===== src/Worker/Consumer/Unsupported.antt =====
-- A job of a type that no processor is written for.
use file_processing_platform.Common.{
  ℕ, zero, suc, ◌+◌, String, ◌≡◌, refl, ◌∙◌, false, ◌==◌, [], ◌∷◌, ◌++◌, List,
}
use file_processing_platform.Common.Exec.{ok}
use file_processing_platform.Schema.{JobStatus}
use file_processing_platform.Db.Files.{FileRepo}
use file_processing_platform.Db.Jobs.{JobRepo}
use file_processing_platform.Api.JobService.{JobPayload}
use file_processing_platform.Worker.Platform.{
  ObjectStore, Sharp, PathModule, WorkerWorld, Message, completed_event, completed_channel,
}
use file_processing_platform.Worker.Processors.{
  process_default, stages_from, percent, with_progress,
}
use file_processing_platform.Worker.Consumer.{dispatch}

module _ {S O B : Type 0} (files : FileRepo S) (jobs : JobRepo S files) (minio : ObjectStore O B)
    (sharp : Sharp B) (path : PathModule) (bucket : String) where
  -- The stages neither touch the objects nor the rows of files.
  stages_from_frame :
      (k : String) (left i : ℕ) (clock : ℕ → ℕ) (w : WorkerWorld S O)
      → ((stages_from files jobs minio sharp path bucket k left i clock w).0 ≡ ok tt)
        × ((stages_from files jobs minio sharp path bucket k left i clock w).1.objects ≡ w.objects)
        × (files.row (stages_from files jobs minio sharp path bucket k left i clock w).1.db
            ≡ files.row w.db)
  unfolding stages_from
  stages_from_frame k zero i clock w = (refl, refl, refl)
  stages_from_frame k (suc left) i clock w =
      let (done, objects, rows) = stages_from_frame k left (i + 1) clock _ in
      (done, objects, rows ∙ jobs.files-update_progress k (percent i 5) (clock i) w.db)

  -- A job of any type other than compress, jpeg, png and webp returns without touching the objects or
  -- the rows of files, and the last thing that it publishes names the input as the output file.
  pub unsupported_returns_input :
      (p : JobPayload) (clock : ℕ → ℕ) (w : WorkerWorld S O)
      → (p.type == "compress") ≡ false
      → (p.type == "jpeg") ≡ false
      → (p.type == "png") ≡ false
      → (p.type == "webp") ≡ false
      → ((dispatch files jobs minio sharp path bucket p clock w).0 ≡ ok tt)
        × ((dispatch files jobs minio sharp path bucket p clock w).1.objects ≡ w.objects)
        × (files.row (dispatch files jobs minio sharp path bucket p clock w).1.db ≡ files.row w.db)
        × (before : List Message) × ((dispatch files jobs minio sharp path bucket p clock
              w).1.published
            ≡ before
              ++ record { channel = completed_channel p.job_id; event = completed_event p.file_id }
                ∷ [])
  unfolding dispatch process_default
  unsupported_returns_input p clock w a b c d =
      let s1 = (jobs.update_status p.job_id JobStatus.active (with_progress 0) (clock 0) w.db).1 in
      let (done, objects, rows) = stages_from_frame p.job_id 5 1 clock (record w { db = s1 }) in
      rw (a, b, c, d, done)
        (
          refl,
          objects,
          jobs.files-update_status p.job_id JobStatus.completed _ (clock 6) _
              ∙ rows
              ∙ jobs.files-update_status p.job_id JobStatus.active (with_progress 0) (clock 0) w.db,
          _,
          refl,
        )
