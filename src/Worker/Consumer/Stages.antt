-- ===== src/Worker/Consumer/Stages.antt =====
-- The staged run of `DefaultProcessor`: what it does to the row of its job, and what it publishes.
use file_processing_platform.Common.{
  ℕ, zero, suc, ◌+◌, String, ◌≡◌, refl, some, [], ◌∷◌, arith, concat, List, ◌++◌,
}
use mathlib.Core.List.{append_assoc}
use file_processing_platform.Common.Exec.{ok}
use file_processing_platform.Schema.{DbJob, JobStatus}
use file_processing_platform.Db.Changes.{set_status, set_progress, Extra, no_extra}
use file_processing_platform.Db.Files.{FileRepo}
use file_processing_platform.Db.Jobs.{JobRepo}
use file_processing_platform.Api.JobService.{JobPayload}
use file_processing_platform.Worker.Platform.{
  ObjectStore, Sharp, PathModule, WorkerWorld, Message, progress_channel, progress_event,
  completed_channel, completed_event,
}
use file_processing_platform.Worker.Processors.{
  process_default, stages_from, percent, with_progress,
}
use file_processing_platform.Worker.Consumer.Rows.{SameJob, row-status, row-progress}

abbrev pub stage : JobPayload → ℕ → Message
stage p n = record {
  channel = progress_channel p.job_id;
  event = progress_event n JobStatus.active;
}

module _ {S O B : Type 0} (files : FileRepo S) (jobs : JobRepo S files) (minio : ObjectStore O B)
    (sharp : Sharp B) (path : PathModule) (bucket : String) where
  -- A row after the stages differs in its progress and its time of change only.
  abbrev Progressed : DbJob → DbJob → Type 0
  Progressed a b =
      SameJob a b × (b.output_file_id ≡ a.output_file_id) × (b.error_message ≡ a.error_message)

  stages_from_row :
      (k : String) (left i : ℕ) (clock : ℕ → ℕ) (w : WorkerWorld S O) (j : DbJob)
      → jobs.row w.db k ≡ some j
      → (j' : DbJob) × (jobs.row
            (stages_from files jobs minio sharp path bucket k left i clock w).1.db
            k
          ≡ some j')
        × Progressed j j'
        × ((stages_from files jobs minio sharp path bucket k left i clock w).0 ≡ ok tt)
  unfolding stages_from
  stages_from_row k zero i clock w j found =
      (j, found, ((refl, refl, refl, refl, refl), refl, refl), refl)
  stages_from_row k (suc left) i clock w j found =
      let first =
        row-progress files jobs minio sharp path bucket k (percent i 5) (clock i) w.db j found in
      let (j', later, same, done) =
        stages_from_row k left (i + 1) clock _ (set_progress (percent i 5) (clock i) j) first in
      (j', later, same, done)

  -- While the database, Redis and BullMQ answer, the run returns. Its job ends completed at progress 100 with an
  -- output path, but with the output file id and the error message that the row had before.
  pub process_default_row :
      (p : JobPayload) (clock : ℕ → ℕ) (w : WorkerWorld S O) (j : DbJob)
      → jobs.row w.db p.job_id ≡ some j
      → ((process_default files jobs minio sharp path bucket p clock w).0 ≡ ok tt)
        × (j' : DbJob) × (jobs.row
              (process_default files jobs minio sharp path bucket p clock w).1.db
              p.job_id
            ≡ some j')
        × SameJob j j'
        × (j'.status ≡ JobStatus.completed)
        × (j'.progress ≡ 100)
        × (j'.output_path ≡ some (concat ("processed/" ∷ p.file_id ∷ "/output.txt" ∷ [])))
        × (j'.output_file_id ≡ j.output_file_id)
        × (j'.error_message ≡ j.error_message)
  unfolding process_default
  process_default_row p clock w j found =
      let k = p.job_id in
      let s1 = (jobs.update_status k JobStatus.active (with_progress 0) (clock 0) w.db).1 in
      let j1 = set_status JobStatus.active (with_progress 0) (clock 0) j in
      let f1 =
        row-status files jobs minio sharp path bucket k JobStatus.active (with_progress 0) (clock 0)
          w.db j found in
      let (j2, f2, same, done) = stages_from_row k 5 1 clock (record w { db = s1 }) j1 f1 in
      let s2 =
        (stages_from files jobs minio sharp path bucket k 5 1 clock (record w { db = s1 })).1.db in
      let last : Extra = record no_extra {
        progress = some 100;
        output_path = some (concat ("processed/" ∷ p.file_id ∷ "/output.txt" ∷ []));
      } in
      let f3 =
        row-status files jobs minio sharp path bucket k JobStatus.completed last (clock 6) s2 j2
          f2 in
      (
        ground (arith, done),
        set_status JobStatus.completed last (clock 6) j2,
        rw done f3,
        same.0,
        refl,
        refl,
        refl,
        same.1,
        same.2,
      )

  -- The messages of a run of the default processor, in the order in which they are published.
  abbrev pub default_messages : JobPayload → List Message
  default_messages p =
      stage p 20
      ∷ stage p 40
      ∷ stage p 60
      ∷ stage p 80
      ∷ stage p 100
      ∷ record { channel = completed_channel p.job_id; event = completed_event p.file_id }
      ∷ []

  -- A run of the default processor, while the database, Redis and BullMQ answer, publishes the
  -- progress 20, 40, 60, 80 and 100 of its job and then its completion with the input file, and
  -- reports the same progress to BullMQ. The job ends completed at progress 100 with an output path,
  -- but with the output file id and the error message that the row had before.
  pub process_default_run :
      (p : JobPayload) (clock : ℕ → ℕ) (w : WorkerWorld S O) (j : DbJob)
      → jobs.row w.db p.job_id ≡ some j
      → ((process_default files jobs minio sharp path bucket p clock w).1.published
          ≡ w.published ++ default_messages p)
        × ((process_default files jobs minio sharp path bucket p clock w).1.bull_progress
            ≡ w.bull_progress ++ 20 ∷ 40 ∷ 60 ∷ 80 ∷ 100 ∷ [])
        × ((process_default files jobs minio sharp path bucket p clock w).1.objects ≡ w.objects)
        × (j' : DbJob) × (jobs.row
              (process_default files jobs minio sharp path bucket p clock w).1.db
              p.job_id
            ≡ some j')
        × SameJob j j'
        × (j'.status ≡ JobStatus.completed)
        × (j'.progress ≡ 100)
        × (j'.output_path ≡ some (concat ("processed/" ∷ p.file_id ∷ "/output.txt" ∷ [])))
        × (j'.output_file_id ≡ j.output_file_id)
        × (j'.error_message ≡ j.error_message)
  unfolding process_default stages_from
  process_default_run p clock w j found =
      let (done, j', row, same, full, hundred, output, kept, message) =
        process_default_row p clock w j found in
      (
        simp append_assoc,
        simp append_assoc,
        refl,
        j',
        row,
        same,
        full,
        hundred,
        output,
        kept,
        message,
      )
