-- ===== src/Api/JobService/Create.antt =====
-- Submitting a job: `JobService.create`.
use file_processing_platform.Common.{
  ℕ, String, ◌≡◌, ap, inl, inr, ◌↔◌, Option, none, some, [], ◌∷◌, ◌++◌, ◌==◌, eq_iff, eq_self, true,
  false, arith, Option-cases, or_else, if◌then◌else◌,
}
use file_processing_platform.Common.Exec.{ok, err}
use file_processing_platform.Errors.{Exception, other_error}
use file_processing_platform.Schema.{DbFile, DbJob, NewJob, FileStatus, JobStatus}
use file_processing_platform.Db.Changes.{new_job}
use file_processing_platform.Db.Files.{FileRepo}
use file_processing_platform.Db.Jobs.{JobRepo}
use file_processing_platform.Api.JobService.{JobWorld, create}

module _ {S : Type 0} (files : FileRepo S) (jobs : JobRepo S files) where
  module _ (user_id file_id : String) (given_type : Option String) (quality : Option ℕ) (now : ℕ)
      (w : JobWorld S) where
    -- The values of the row that a submission inserts.
    abbrev pub submitted : NewJob
    submitted = record {
      user_id = user_id;
      file_id = file_id;
      type = or_else given_type "default";
      status = JobStatus.pending;
      progress = 0;
    }

    -- A job is created exactly for a ready file of the caller, with a type that fits its column, while
    -- Redis takes payloads.
    pub create_iff :
        ((job : DbJob) × ((create files jobs user_id file_id given_type quality now w).0 ≡ ok job))
        ↔ ((f : DbFile) × (files.row w.db file_id ≡ some f)
            × (f.user_id ≡ user_id)
            × (f.status ≡ FileStatus.ready)
            × (jobs.accepts submitted ≡ true)
            × (w.queue_up ≡ true))
    unfolding create
    create_iff = elim (Option-cases (files.row w.db file_id)) [
      | inl missing ↦ (
        λ h. absurd (ground (arith, missing, h.1, files.find_by_id_lem user_id file_id w.db)),
        λ h. absurd (ground (arith, missing, h.1)),
      )
      | inr (f, found) ↦ (
        λ h. (
          f,
          found,
          ground (
            arith,
            found,
            h.1,
            files.find_by_id_lem user_id file_id w.db,
            eq_iff f.user_id user_id,
          ),
          ground (
            arith,
            found,
            h.1,
            files.find_by_id_lem user_id file_id w.db,
            eq_iff f.user_id user_id,
          ),
          ground (arith, h.1),
          ground (arith, h.1),
        ),
        λ h. (
          (jobs.create submitted now w.db).0,
          ground (
            arith,
            found,
            h.1,
            h.2,
            h.3,
            h.4,
            h.5,
            files.find_by_id_lem user_id file_id w.db,
            eq_iff f.user_id user_id,
            eq_iff f.id file_id,
            files.row_id w.db file_id f found,
          ),
        ),
      )
    ]

    -- A created job is a pending row under an unused id, no other job has changed, and exactly one
    -- payload, for that row, stands at the end of the queue.
    pub create_effects :
        (job : DbJob)
        → (create files jobs user_id file_id given_type quality now w).0 ≡ ok job
        → (job ≡ new_job submitted now (jobs.next_id w.db))
          × (jobs.row w.db job.id ≡ none)
          × ((k : String)
              → jobs.row (create files jobs user_id file_id given_type quality now w).1.db k
                ≡ (if job.id == k then some job else jobs.row w.db k))
          × ((create files jobs user_id file_id given_type quality now w).1.queue
              ≡ w.queue
                ++ record {
                  job_id = job.id;
                  file_id = file_id;
                  type = or_else given_type "default";
                  user_id = user_id;
                  quality = quality;
                }
                  ∷ [])
    unfolding create
    create_effects job e =
        let made = jobs.create_returns submitted now w.db in
        let job_eq : job ≡ new_job submitted now (jobs.next_id w.db) = ground (arith, made) in
        let same_id : job.id ≡ jobs.next_id w.db = ap (λ j. j.id) job_eq in
        (
          job_eq,
          rw same_id (jobs.row-next_id w.db),
          λ k. ground (arith, same_id, job_eq, jobs.row-create submitted now w.db k),
          ground arith,
        )

    -- While Redis takes payloads, a submission that throws has written nothing and queued nothing.
    create_throws :
        (x : Exception)
        → w.queue_up ≡ true
        → (create files jobs user_id file_id given_type quality now w).0 ≡ err x
        → (create files jobs user_id file_id given_type quality now w).1 ≡ w
    unfolding create
    create_throws x up e = ground (arith, up)

    -- For a ready file of the caller and a type that fits, while Redis takes no payload: the
    -- submission throws, and yet leaves a new pending row, of which the queue has no payload.
    pub create_orphan :
        (f : DbFile)
        → files.row w.db file_id ≡ some f
        → f.user_id ≡ user_id
        → f.status ≡ FileStatus.ready
        → jobs.accepts submitted ≡ true
        → w.queue_up ≡ false
        → ((create files jobs user_id file_id given_type quality now w).0
            ≡ err (other_error "queue.add failed"))
          × ((create files jobs user_id file_id given_type quality now w).1.queue ≡ w.queue)
          × (jobs.row w.db (jobs.next_id w.db) ≡ none)
          × (jobs.row
                (create files jobs user_id file_id given_type quality now w).1.db
                (jobs.next_id w.db)
              ≡ some (new_job submitted now (jobs.next_id w.db)))
    unfolding create
    create_orphan f found own usable fits down =
        let seen : files.find_by_id user_id file_id w.db ≡ some f = ground (
          arith,
          found,
          own,
          files.find_by_id_lem user_id file_id w.db,
          eq_iff f.user_id user_id,
          eq_iff f.id file_id,
          files.row_id w.db file_id f found,
        ) in
        let made = jobs.row-create submitted now w.db (jobs.next_id w.db) in
        (
          ground (arith, seen, usable, fits, down),
          ground (arith, seen, usable, fits, down),
          jobs.row-next_id w.db,
          ground (arith, seen, usable, fits, down, made, eq_self (jobs.next_id w.db)),
        )
