-- ===== src/System/Processing.antt =====
-- The runs of the worker, and the sweep of files that were never uploaded, are sequences of
-- statements.
use file_processing_platform.Common.{
  ℕ, zero, suc, ◌+◌, ◌-◌, ◌*◌, ◌≤◌, String, ◌≡◌, refl, some, none, arith, inl, inr, Option-cases,
  Bool-cases, or_else, List, [], ◌∷◌, concat, ◌==◌,
}
use file_processing_platform.Common.Exec.{Result, ok, err}
use file_processing_platform.Schema.{DbFile, NewFile, FileStatus, JobStatus}
use file_processing_platform.Db.Changes.{Extra, no_extra}
use file_processing_platform.Db.Files.{FileRepo}
use file_processing_platform.Db.Jobs.{JobRepo}
use file_processing_platform.Api.JobService.{JobPayload}
use file_processing_platform.Worker.Platform.{
  ImageFormat, jpeg, png, webp, ObjectStore, Sharp, PathModule, WorkerWorld,
}
use file_processing_platform.Worker.Processors.{
  process_convert, process_compress, process_default, stages_from, percent, format_config,
  compress_format, with_progress,
}
use file_processing_platform.Worker.Consumer.{dispatch, settle, attempt}
use file_processing_platform.Worker.Cleanup.{
  SweepWorld, drop_pending, sweep_pending, cleanup_pending_uploads,
}
use file_processing_platform.System.{
  made_file, deleted_file, moved_job, advanced_job, Writes, here, next, Writes-trans, Writes-one,
}

percent_bound : (i : ℕ) → i ≤ 5 → percent i 5 ≤ 100
unfolding percent
percent_bound i h = omega arith

module _ {S O B : Type 0} (files : FileRepo S) (jobs : JobRepo S files) (minio : ObjectStore O B)
    (sharp : Sharp B) (path : PathModule) (bucket : String) where
  process_convert-Writes :
      (format : ImageFormat) (p : JobPayload) (clock : ℕ → ℕ) (w : WorkerWorld S O)
      → Writes files jobs w.db
          (process_convert files jobs minio sharp path bucket format p clock w).1.db
  unfolding process_convert
  process_convert-Writes format p clock w =
      let k = p.job_id in
      let b1 : 33 ≤ 100 = omega arith in
      let b2 : 66 ≤ 100 = omega arith in
      let w1 = next here (moved_job k JobStatus.active (with_progress 0) (clock 0) (omega arith)) in
      let w2 = next w1 (advanced_job k 33 (clock 1) b1) in
      let w3 = next w2 (advanced_job k 66 (clock 2) b2) in
      let s1 = (jobs.update_status k JobStatus.active (with_progress 0) (clock 0) w.db).1 in
      elim (Option-cases (files.find_by_id p.user_id p.file_id s1)) [
        | inl missing ↦ rw missing w1
        | inr (input, seen) ↦
            elim (Option-cases (minio.get_object bucket input.storage_path w.objects)) [
              | inl missing ↦ rw (seen, missing) w1
              | inr (bytes, fetched) ↦ elim (Option-cases (sharp.encode format none bytes)) [
                | inl failed ↦ rw (seen, fetched, failed) w2
                | inr (encoded, done) ↦
                    let (ext, mime) = format_config format in
                    let stem =
                      path.basename input.original_name (path.extname input.original_name) in
                    let name = concat (stem ∷ "." ∷ ext ∷ []) in
                    let target = concat ("processed/" ∷ p.user_id ∷ "/" ∷ k ∷ "/" ∷ name ∷ []) in
                    let output : NewFile = record {
                      user_id = p.user_id;
                      original_name = name;
                      mime_type = mime;
                      size = minio.byte_length encoded;
                      storage_path = target;
                      status = FileStatus.ready;
                    } in
                    elim (Option-cases (minio.put_object bucket target encoded mime w.objects)) [
                      | inl failed ↦ rw (seen, fetched, done, failed) w3
                      | inr (o, put) ↦ elim (Bool-cases (files.accepts output)) [
                        | inr long ↦ rw (seen, fetched, done, put, long) w3
                        | inl fits ↦
                            rw (seen, fetched, done, put, fits)
                              (next (next w3 (made_file _ (clock 3)))
                                (moved_job k JobStatus.completed _ (clock 4) (omega arith)))
                      ]
                    ]
              ]
            ]
      ]

  process_compress-Writes :
      (p : JobPayload) (clock : ℕ → ℕ) (w : WorkerWorld S O)
      → Writes files jobs w.db (process_compress files jobs minio sharp path bucket p clock w).1.db
  unfolding process_compress
  process_compress-Writes p clock w =
      let k = p.job_id in
      let b1 : 33 ≤ 100 = omega arith in
      let b2 : 66 ≤ 100 = omega arith in
      let w1 = next here (moved_job k JobStatus.active (with_progress 0) (clock 0) (omega arith)) in
      let w2 = next w1 (advanced_job k 33 (clock 1) b1) in
      let w3 = next w2 (advanced_job k 66 (clock 2) b2) in
      let s1 = (jobs.update_status k JobStatus.active (with_progress 0) (clock 0) w.db).1 in
      elim (Option-cases (files.find_by_id p.user_id p.file_id s1)) [
        | inl missing ↦ rw missing w1
        | inr (input, seen) ↦
            elim (Option-cases (minio.get_object bucket input.storage_path w.objects)) [
              | inl missing ↦ rw (seen, missing) w1
              | inr (bytes, fetched) ↦
                  elim (Option-cases (
                    sharp.encode (compress_format input.mime_type) (some (or_else p.quality 80))
                      bytes)) [
                        | inl failed ↦ rw (seen, fetched, failed) w2
                        | inr (encoded, done) ↦
                            let target = concat (
                              "processed/" ∷ p.user_id ∷ "/" ∷ k ∷ "/" ∷ input.original_name
                              ∷ []) in
                            let output : NewFile = record {
                              user_id = p.user_id;
                              original_name = input.original_name;
                              mime_type = input.mime_type;
                              size = minio.byte_length encoded;
                              storage_path = target;
                              status = FileStatus.ready;
                            } in
                            elim (Option-cases
                              (minio.put_object bucket target encoded input.mime_type w.objects)) [
                                | inl failed ↦ rw (seen, fetched, done, failed) w3
                                | inr (o, put) ↦ elim (Bool-cases (files.accepts output)) [
                                  | inr long ↦ rw (seen, fetched, done, put, long) w3
                                  | inl fits ↦
                                      rw (seen, fetched, done, put, fits)
                                        (next (next w3 (made_file _ (clock 3))) (
                                          moved_job k JobStatus.completed _ (clock 4)
                                            (omega arith)))
                                ]
                              ]
                      ]
            ]
      ]

  stages_from-Writes :
      (k : String) (left i : ℕ) (clock : ℕ → ℕ) (w : WorkerWorld S O)
      → i + left ≤ 6
      → ((stages_from files jobs minio sharp path bucket k left i clock w).0 ≡ ok tt)
        × Writes files jobs w.db
            (stages_from files jobs minio sharp path bucket k left i clock w).1.db
  unfolding stages_from
  stages_from-Writes k zero i clock w h = (refl, here)
  stages_from-Writes k (suc left) i clock w h =
      let (done, rest) = stages_from-Writes k left (i + 1) clock _ (omega arith) in
      (
        done,
        Writes-trans files jobs
            (Writes-one files jobs
              (advanced_job k (percent i 5) (clock i) (percent_bound i (omega arith))))
            rest,
      )

  process_default-Writes :
      (p : JobPayload) (clock : ℕ → ℕ) (w : WorkerWorld S O)
      → Writes files jobs w.db (process_default files jobs minio sharp path bucket p clock w).1.db
  unfolding process_default
  process_default-Writes p clock w =
      let k = p.job_id in
      let b1 : 100 ≤ 100 = omega arith in
      let s1 = (jobs.update_status k JobStatus.active (with_progress 0) (clock 0) w.db).1 in
      let last : Extra = record no_extra {
        progress = some 100;
        output_path = some (concat ("processed/" ∷ p.file_id ∷ "/output.txt" ∷ []));
      } in
      let low : 0 ≤ 100 = omega arith in
      let six : 1 + 5 ≤ 6 = omega arith in
      let first = moved_job k JobStatus.active (with_progress 0) (clock 0) low in
      let (done, stages) = stages_from-Writes k 5 1 clock (record w { db = s1 }) six in
      rw done (
        next (Writes-trans files jobs (Writes-one files jobs first) stages)
          (moved_job k JobStatus.completed last (clock 6) b1))

  dispatch-Writes :
      (p : JobPayload) (clock : ℕ → ℕ) (w : WorkerWorld S O)
      → Writes files jobs w.db (dispatch files jobs minio sharp path bucket p clock w).1.db
  unfolding dispatch
  dispatch-Writes p clock w = elim (Bool-cases (p.type == "compress")) [
    | inl is ↦ rw is (process_compress-Writes p clock w)
    | inr isnt ↦ rw isnt (elim (Bool-cases (p.type == "jpeg")) [
      | inl is ↦ rw is (process_convert-Writes jpeg p clock w)
      | inr isnt ↦ rw isnt (elim (Bool-cases (p.type == "png")) [
        | inl is ↦ rw is (process_convert-Writes png p clock w)
        | inr isnt ↦ rw isnt (elim (Bool-cases (p.type == "webp")) [
          | inl is ↦ rw is (process_convert-Writes webp p clock w)
          | inr isnt ↦ rw isnt (process_default-Writes p clock w)
        ])
      ])
    ])
  ]

  settle-Writes :
      (p : JobPayload) (now : ℕ) (r : Result (Unit {0})) (w : WorkerWorld S O)
      → Writes files jobs w.db (settle files jobs minio sharp path bucket p now r w).db
  unfolding settle
  settle-Writes p now (ok u) w = here
  settle-Writes p now (err e) w =
      Writes-one files jobs (moved_job p.job_id JobStatus.failed _ now (omega arith))

  -- A delivery of a payload, with what follows a run that threw, is a sequence of statements.
  pub attempt-Writes :
      (p : JobPayload) (clock : ℕ → ℕ) (w : WorkerWorld S O)
      → Writes files jobs w.db (attempt files jobs minio sharp path bucket p clock w).db
  unfolding attempt
  attempt-Writes p clock w = Writes-trans files jobs (dispatch-Writes p clock w) (
      settle-Writes p (clock 7) (dispatch files jobs minio sharp path bucket p clock w).0
        (dispatch files jobs minio sharp path bucket p clock w).1)

  sweep_pending-Writes :
      (fs : List DbFile) (i : ℕ) (clock : ℕ → ℕ) (w : SweepWorld S O)
      → Writes files jobs w.db (sweep_pending files minio bucket fs i clock w).db
  unfolding sweep_pending drop_pending
  sweep_pending-Writes [] i clock w = here
  sweep_pending-Writes (f ∷ rest) i clock w =
      Writes-trans files jobs (Writes-one files jobs (deleted_file f.user_id f.id (clock i)))
        (sweep_pending-Writes rest (i + 1) clock _)

  pub cleanup_pending_uploads-Writes :
      (ttl_seconds now : ℕ) (clock : ℕ → ℕ) (w : SweepWorld S O)
      → Writes files jobs w.db
          (cleanup_pending_uploads files minio bucket ttl_seconds now clock w).1.db
  unfolding cleanup_pending_uploads
  cleanup_pending_uploads-Writes ttl_seconds now clock w =
      sweep_pending-Writes (files.find_expired_pending (now - ttl_seconds * 1000) w.db) 0 clock w
