-- ===== src/Worker/Consumer/Rows.antt =====
-- What a run does to the row of its job, whether it returns or throws.
use file_processing_platform.Common.{
  ℕ, String, ◌≡◌, refl, none, some, eq_self, arith, Option-cases, Bool-cases, inl, inr, concat,
  or_else, [], ◌∷◌,
}
use file_processing_platform.Common.Exec.{ok}
use file_processing_platform.Schema.{DbJob, JobStatus, NewFile, FileStatus}
use file_processing_platform.Db.Changes.{set_status, set_progress, Extra}
use file_processing_platform.Db.Files.{FileRepo}
use file_processing_platform.Db.Jobs.{JobRepo}
use file_processing_platform.Api.JobService.{JobPayload}
use file_processing_platform.Worker.Platform.{
  ImageFormat, ObjectStore, Sharp, PathModule, WorkerWorld,
}
use file_processing_platform.Worker.Processors.{
  process_convert, process_compress, format_config, compress_format, with_progress,
  with_output_file,
}

-- The columns that nothing changes after a job is made.
abbrev pub SameJob : DbJob → DbJob → Type 0
SameJob a b =
    (b.id ≡ a.id)
    × (b.file_id ≡ a.file_id)
    × (b.user_id ≡ a.user_id)
    × (b.type ≡ a.type)
    × (b.created_at ≡ a.created_at)

-- The columns that no run changes; a failed one sets the message afterwards.
abbrev pub SameRun : DbJob → DbJob → Type 0
SameRun a b = SameJob a b × (b.error_message ≡ a.error_message)

module _ {S O B : Type 0} (files : FileRepo S) (jobs : JobRepo S files) (minio : ObjectStore O B)
    (sharp : Sharp B) (path : PathModule) (bucket : String) where
  -- A write of a status or of a progress value, at the job's own row.
  pub row-status :
      (k : String) (st : JobStatus) (x : Extra) (n : ℕ) (s : S) (j : DbJob)
      → jobs.row s k ≡ some j
      → jobs.row (jobs.update_status k st x n s).1 k ≡ some (set_status st x n j)
  row-status k st x n s j found =
      rw (jobs.row-update_status k st x n s k, found, jobs.row_id s k j found, eq_self k) refl

  pub row-progress :
      (k : String) (p n : ℕ) (s : S) (j : DbJob)
      → jobs.row s k ≡ some j
      → jobs.row (jobs.update_progress k p n s) k ≡ some (set_progress p n j)
  row-progress k p n s j found =
      rw (jobs.row-update_progress k p n s k, found, jobs.row_id s k j found, eq_self k) refl

  -- The last two writes of a conversion: the output file, and the completed status.
  pub row-finish :
      (k : String) (d : NewFile) (m n : ℕ) (s : S) (j : DbJob)
      → jobs.row s k ≡ some j
      → jobs.row
          (jobs.update_status k JobStatus.completed
            (with_output_file (files.create d m s).0.id)
            n
            (files.create d m s).1).1
          k
        ≡ some (set_status JobStatus.completed (with_output_file (files.create d m s).0.id) n j)
  row-finish k d m n s j found =
      row-status k JobStatus.completed (with_output_file (files.create d m s).0.id) n
        (files.create d m s).1 j (rw (jobs.row-files_create d m s) found)

  pub process_convert_row :
      (format : ImageFormat) (p : JobPayload) (clock : ℕ → ℕ) (w : WorkerWorld S O) (j : DbJob)
      → jobs.row w.db p.job_id ≡ some j
      → (j' : DbJob) × (jobs.row
            (process_convert files jobs minio sharp path bucket format p clock w).1.db
            p.job_id
          ≡ some j')
        × SameRun j j'
        × ((process_convert files jobs minio sharp path bucket format p clock w).0 ≡ ok tt
            → (j'.status ≡ JobStatus.completed) × (j'.progress ≡ 100))
  unfolding process_convert
  process_convert_row format p clock w j found =
      let k = p.job_id in
      let s1 = (jobs.update_status k JobStatus.active (with_progress 0) (clock 0) w.db).1 in
      let s2 = jobs.update_progress k 33 (clock 1) s1 in
      let s3 = jobs.update_progress k 66 (clock 2) s2 in
      let j1 = set_status JobStatus.active (with_progress 0) (clock 0) j in
      let j2 = set_progress 33 (clock 1) j1 in
      let j3 = set_progress 66 (clock 2) j2 in
      let f1 = row-status k JobStatus.active (with_progress 0) (clock 0) w.db j found in
      let f2 = row-progress k 33 (clock 1) s1 _ f1 in
      let f3 = row-progress k 66 (clock 2) s2 _ f2 in
      elim (Option-cases (files.find_by_id p.user_id p.file_id s1)) [
        | inl missing ↦ (
          j1,
          rw missing f1,
          ((refl, refl, refl, refl, refl), refl),
          λ e. ground (arith, missing, e),
        )
        | inr (input, seen) ↦
            elim (Option-cases (minio.get_object bucket input.storage_path w.objects)) [
              | inl missing ↦ (
                j1,
                rw (seen, missing) f1,
                ((refl, refl, refl, refl, refl), refl),
                λ e. ground (arith, seen, missing, e),
              )
              | inr (bytes, fetched) ↦ elim (Option-cases (sharp.encode format none bytes)) [
                | inl failed ↦ (
                  j2,
                  rw (seen, fetched, failed) f2,
                  ((refl, refl, refl, refl, refl), refl),
                  λ e. ground (arith, seen, fetched, failed, e),
                )
                | inr (encoded, done) ↦
                    let (ext, mime) = format_config format in
                    let stem =
                      path.basename input.original_name (path.extname input.original_name) in
                    let name = concat (stem ∷ "." ∷ ext ∷ []) in
                    let target = concat ("processed/" ∷ p.user_id ∷ "/" ∷ k ∷ "/" ∷ name ∷ []) in
                    let output : NewFile = record {
                      user_id = p.user_id;
                      original_name = name;
                      mime_type = mime;
                      size = minio.byte_length encoded;
                      storage_path = target;
                      status = FileStatus.ready;
                    } in
                    elim (Option-cases (minio.put_object bucket target encoded mime w.objects)) [
                      | inl failed ↦ (
                        j3,
                        rw (seen, fetched, done, failed) f3,
                        ((refl, refl, refl, refl, refl), refl),
                        λ e. ground (arith, seen, fetched, done, failed, e),
                      )
                      | inr (o, put) ↦ elim (Bool-cases (files.accepts output)) [
                        | inl fits ↦ (
                          set_status JobStatus.completed
                              (with_output_file (files.create output (clock 3) s3).0.id) (clock 4)
                              j3,
                          rw (seen, fetched, done, put, fits)
                              (row-finish k output (clock 3) (clock 4) s3 _ f3),
                          ((refl, refl, refl, refl, refl), refl),
                          λ e. (refl, refl),
                        )
                        | inr long ↦ (
                          j3,
                          rw (seen, fetched, done, put, long) f3,
                          ((refl, refl, refl, refl, refl), refl),
                          λ e. ground (arith, seen, fetched, done, put, long, e),
                        )
                      ]
                    ]
              ]
            ]
      ]

  pub process_compress_row :
      (p : JobPayload) (clock : ℕ → ℕ) (w : WorkerWorld S O) (j : DbJob)
      → jobs.row w.db p.job_id ≡ some j
      → (j' : DbJob) × (jobs.row
            (process_compress files jobs minio sharp path bucket p clock w).1.db
            p.job_id
          ≡ some j')
        × SameRun j j'
        × ((process_compress files jobs minio sharp path bucket p clock w).0 ≡ ok tt
            → (j'.status ≡ JobStatus.completed) × (j'.progress ≡ 100))
  unfolding process_compress
  process_compress_row p clock w j found =
      let k = p.job_id in
      let s1 = (jobs.update_status k JobStatus.active (with_progress 0) (clock 0) w.db).1 in
      let s2 = jobs.update_progress k 33 (clock 1) s1 in
      let s3 = jobs.update_progress k 66 (clock 2) s2 in
      let j1 = set_status JobStatus.active (with_progress 0) (clock 0) j in
      let j2 = set_progress 33 (clock 1) j1 in
      let j3 = set_progress 66 (clock 2) j2 in
      let f1 = row-status k JobStatus.active (with_progress 0) (clock 0) w.db j found in
      let f2 = row-progress k 33 (clock 1) s1 _ f1 in
      let f3 = row-progress k 66 (clock 2) s2 _ f2 in
      elim (Option-cases (files.find_by_id p.user_id p.file_id s1)) [
        | inl missing ↦ (
          j1,
          rw missing f1,
          ((refl, refl, refl, refl, refl), refl),
          λ e. ground (arith, missing, e),
        )
        | inr (input, seen) ↦
            elim (Option-cases (minio.get_object bucket input.storage_path w.objects)) [
              | inl missing ↦ (
                j1,
                rw (seen, missing) f1,
                ((refl, refl, refl, refl, refl), refl),
                λ e. ground (arith, seen, missing, e),
              )
              | inr (bytes, fetched) ↦
                  elim (Option-cases (
                    sharp.encode (compress_format input.mime_type) (some (or_else p.quality 80))
                      bytes)) [
                        | inl failed ↦ (
                          j2,
                          rw (seen, fetched, failed) f2,
                          ((refl, refl, refl, refl, refl), refl),
                          λ e. ground (arith, seen, fetched, failed, e),
                        )
                        | inr (encoded, done) ↦
                            let target = concat (
                              "processed/" ∷ p.user_id ∷ "/" ∷ k ∷ "/" ∷ input.original_name
                              ∷ []) in
                            let output : NewFile = record {
                              user_id = p.user_id;
                              original_name = input.original_name;
                              mime_type = input.mime_type;
                              size = minio.byte_length encoded;
                              storage_path = target;
                              status = FileStatus.ready;
                            } in
                            elim (Option-cases
                              (minio.put_object bucket target encoded input.mime_type w.objects)) [
                                | inl failed ↦ (
                                  j3,
                                  rw (seen, fetched, done, failed) f3,
                                  ((refl, refl, refl, refl, refl), refl),
                                  λ e. ground (arith, seen, fetched, done, failed, e),
                                )
                                | inr (o, put) ↦ elim (Bool-cases (files.accepts output)) [
                                  | inl fits ↦ (
                                    set_status JobStatus.completed
                                        (with_output_file (files.create output (clock 3) s3).0.id)
                                        (clock 4) j3,
                                    rw (seen, fetched, done, put, fits)
                                        (row-finish k output (clock 3) (clock 4) s3 _ f3),
                                    ((refl, refl, refl, refl, refl), refl),
                                    λ e. (refl, refl),
                                  )
                                  | inr long ↦ (
                                    j3,
                                    rw (seen, fetched, done, put, long) f3,
                                    ((refl, refl, refl, refl, refl), refl),
                                    λ e. ground (arith, seen, fetched, done, put, long, e),
                                  )
                                ]
                              ]
                      ]
            ]
      ]
