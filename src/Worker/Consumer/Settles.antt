-- ===== src/Worker/Consumer/Settles.antt =====
-- How a delivery of a payload ends: the job's row is settled, and a cancelled job is run all the
-- same.
use file_processing_platform.Common.{
  ℕ, String, ◌≡◌, refl, inl, inr, Bool-cases, some, List, [], ◌∷◌, ◌++◌, ◌==◌,
}
use file_processing_platform.Common.Exec.{Result, ok, err}
use file_processing_platform.Schema.{DbJob, JobStatus}
use file_processing_platform.Db.Changes.{set_status, no_extra}
use file_processing_platform.Db.Files.{FileRepo}
use file_processing_platform.Db.Jobs.{JobRepo}
use file_processing_platform.Api.JobService.{JobPayload}
use file_processing_platform.Worker.Platform.{
  jpeg, png, webp, ObjectStore, Sharp, PathModule, WorkerWorld, Message, failed_event,
  failed_channel, message_of,
}
use file_processing_platform.Worker.Consumer.{dispatch, settle, attempt}
use file_processing_platform.Worker.Consumer.Rows.{
  SameJob, SameRun, row-status, process_convert_row, process_compress_row,
}
use file_processing_platform.Worker.Consumer.Stages.{process_default_row}

module _ {S O B : Type 0} (files : FileRepo S) (jobs : JobRepo S files) (minio : ObjectStore O B)
    (sharp : Sharp B) (path : PathModule) (bucket : String) where
  dispatch_row :
      (p : JobPayload) (clock : ℕ → ℕ) (w : WorkerWorld S O) (j : DbJob)
      → jobs.row w.db p.job_id ≡ some j
      → (j' : DbJob) × (jobs.row
            (dispatch files jobs minio sharp path bucket p clock w).1.db
            p.job_id
          ≡ some j')
        × SameRun j j'
        × ((dispatch files jobs minio sharp path bucket p clock w).0 ≡ ok tt
            → (j'.status ≡ JobStatus.completed) × (j'.progress ≡ 100))
  unfolding dispatch
  dispatch_row p clock w j found = elim (Bool-cases (p.type == "compress")) [
    | inl is ↦ rw is (process_compress_row files jobs minio sharp path bucket p clock w j found)
    | inr isnt ↦ rw isnt (elim (Bool-cases (p.type == "jpeg")) [
      | inl is ↦
          rw is (process_convert_row files jobs minio sharp path bucket jpeg p clock w j found)
      | inr isnt ↦ rw isnt (elim (Bool-cases (p.type == "png")) [
        | inl is ↦
            rw is (process_convert_row files jobs minio sharp path bucket png p clock w j found)
        | inr isnt ↦ rw isnt (elim (Bool-cases (p.type == "webp")) [
          | inl is ↦
              rw is (process_convert_row files jobs minio sharp path bucket webp p clock w j found)
          | inr isnt ↦ rw isnt (
              let r = process_default_row files jobs minio sharp path bucket p clock w j found in
              (r.1, r.2, (r.3, r.8), λ _. (r.4, r.5)))
        ])
      ])
    ])
  ]

  -- What a delivery promises of the row: a run that returned has completed the job and left its error
  -- message alone, and a run that threw has failed it with the message of the exception, which is also the last thing published.
  abbrev pub Settled : JobPayload → DbJob → Result (Unit {0}) → DbJob → List Message → Type 0
  Settled p j (ok _) j' published =
      (j'.status ≡ JobStatus.completed) × (j'.progress ≡ 100) × (j'.error_message ≡ j.error_message)
  Settled p j (err e) j' published =
      (j'.status ≡ JobStatus.failed)
      × (j'.error_message ≡ some (message_of e))
      × (before : List Message) × (published
          ≡ before
            ++ record { channel = failed_channel p.job_id; event = failed_event (message_of e) }
              ∷ [])

  settle_row :
      (p : JobPayload) (now : ℕ) (r : Result (Unit {0})) (w : WorkerWorld S O) (j j' : DbJob)
      → jobs.row w.db p.job_id ≡ some j'
      → SameRun j j'
      → (r ≡ ok tt → (j'.status ≡ JobStatus.completed) × (j'.progress ≡ 100))
      → (k : DbJob) × (jobs.row (settle files jobs minio sharp path bucket p now r w).db p.job_id
          ≡ some k)
        × SameJob j k
        × Settled p j r k (settle files jobs minio sharp path bucket p now r w).published
  unfolding settle
  settle_row p now (ok tt) w j j' found same done =
      (j', found, same.0, ((done refl).0, (done refl).1, same.1))
  settle_row p now (err e) w j j' found same done =
      let x = record no_extra { error_message = some (message_of e) } in
      (
        set_status JobStatus.failed x now j',
        row-status files jobs minio sharp path bucket p.job_id JobStatus.failed x now w.db j' found,
        same.0,
        (refl, refl, w.published, refl),
      )

  -- After a delivery the job is settled, whatever its status was before: completed at progress 100
  -- and with the error message it had if the run returned, failed with the exception's message, which is published last, if it threw.
  -- Its id, file, owner and type are the same.
  pub attempt-Settled :
      (p : JobPayload) (clock : ℕ → ℕ) (w : WorkerWorld S O) (j : DbJob)
      → jobs.row w.db p.job_id ≡ some j
      → (k : DbJob) × (jobs.row (attempt files jobs minio sharp path bucket p clock w).db p.job_id
          ≡ some k)
        × SameJob j k
        × Settled p j
            (dispatch files jobs minio sharp path bucket p clock w).0
            k
            (attempt files jobs minio sharp path bucket p clock w).published
  unfolding attempt
  attempt-Settled p clock w j found =
      let (j', later, same, done) = dispatch_row p clock w j found in
      settle_row p (clock 7) (dispatch files jobs minio sharp path bucket p clock w).0
        (dispatch files jobs minio sharp path bucket p clock w).1 j j' later same done
