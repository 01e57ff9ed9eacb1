-- ===== src/Api/JobService/Cancel.antt =====
-- Cancelling and reading a job: `JobService.cancel` and `findById`.
use file_processing_platform.Common.{
  ℕ, String, ◌≡◌, ◌≢◌, ◌⊎◌, inl, inr, some, none, Option, ◌==◌, if◌then◌else◌, eq_iff, arith,
  Option-cases,
}
use file_processing_platform.Common.Exec.{ok, err}
use file_processing_platform.Errors.{Exception, bad_request, not_found}
use file_processing_platform.Schema.{DbJob, JobStatus}
use file_processing_platform.Db.Changes.{set_cancelled}
use file_processing_platform.Db.Files.{FileRepo}
use file_processing_platform.Db.Jobs.{JobRepo}
use file_processing_platform.Api.JobService.{JobWorld, cancel}

module _ {S : Type 0} (files : FileRepo S) (jobs : JobRepo S files) where
  module _ (user_id job_id : String) (now : ℕ) (w : JobWorld S) where
    -- A pending job of the caller is cancelled: its row becomes a failed one that says so. The queue
    -- keeps every payload, that of the job included.
    pub cancel_pending :
        (j : DbJob)
        → jobs.row w.db job_id ≡ some j
        → j.user_id ≡ user_id
        → j.status ≡ JobStatus.pending
        → ((cancel files jobs user_id job_id now w).0 ≡ ok tt)
          × (jobs.row (cancel files jobs user_id job_id now w).1.db job_id
              ≡ some (set_cancelled now j))
          × ((cancel files jobs user_id job_id now w).1.queue ≡ w.queue)
    unfolding cancel
    cancel_pending j found own pending =
        let seen : jobs.find_by_id user_id job_id w.db ≡ some j = ground (
          arith,
          found,
          jobs.find_by_id_lem user_id job_id w.db,
          eq_iff j.user_id user_id,
          eq_iff j.id job_id,
          jobs.row_id w.db job_id j found,
        ) in
        (
          ground (arith, seen, eq_iff j.user_id user_id),
          ground (
            arith,
            seen,
            found,
            eq_iff j.user_id user_id,
            eq_iff j.id job_id,
            jobs.row_id w.db job_id j found,
            jobs.row-cancel user_id job_id now w.db job_id,
          ),
          ground (arith, seen, eq_iff j.user_id user_id),
        )

    -- The answer for a row that cannot be cancelled.
    abbrev pub refusal : Option DbJob → Exception
    refusal none = not_found "JOB_NOT_FOUND" "Job not found"
    refusal (some j) =
        if j.user_id == user_id
        then bad_request "JOB_NOT_CANCELLABLE" "Only pending jobs can be cancelled"
        else not_found "JOB_NOT_FOUND" "Job not found"

    -- Any other job is refused and nothing is written: one that is absent or another user's as not
    -- found, with status 404, and the caller's own that is no longer pending with status 400.
    pub cancel-refuses :
        ((j : DbJob)
          → jobs.row w.db job_id ≡ some j
          → (j.user_id ≢ user_id) ⊎ (j.status ≢ JobStatus.pending))
        → cancel files jobs user_id job_id now w ≡ (err (refusal (jobs.row w.db job_id)), w)
    unfolding cancel
    cancel-refuses other = elim (Option-cases (jobs.row w.db job_id)) [
      | inl missing ↦ ground (arith, missing, jobs.find_by_id_lem user_id job_id w.db)
      | inr (j, found) ↦ ground (
        arith,
        found,
        other j found,
        jobs.find_by_id_lem user_id job_id w.db,
        eq_iff j.user_id user_id,
        eq_iff j.id job_id,
        jobs.row_id w.db job_id j found,
      )
    ]
