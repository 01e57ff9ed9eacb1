-- ===== src/Db/JobRepository.antt =====
-- packages/db/src/repositories/JobRepository.ts: the class, its methods as functions on the state
-- of the database.
pub mod Laws
use file_processing_platform.Common.{ℕ, ◌-◌, ◌*◌, String, Bool, ◌&&◌, Option, List, ◌==◌}
use file_processing_platform.Common.Lists.{take, drop, head?}
use file_processing_platform.Schema.{DbJob, NewJob, JobStatus}
use file_processing_platform.Db.Sql.{SqlTable}
use file_processing_platform.Db.Tables.{Tables}
use file_processing_platform.Db.Changes.{Extra, new_job, set_status, set_cancelled, set_progress}
use file_processing_platform.Db.Files.{Listing}
use file_processing_platform.Db.Jobs.{
  ListJobOptions, has_job_id, is_users_job, is_cancellable, has_status, has_file,
}

-- `and(...conditions)`
unfoldable pub is_listed : String → Option JobStatus → Option String → DbJob → Bool
is_listed user_id status file_id j =
    j.user_id == user_id && has_status status j && has_file file_id j

module _ {U F J : Type 0} (jobs : SqlTable J DbJob (λ j. j.id)) where
  unfoldable pub create : NewJob → ℕ → Tables U F J → DbJob × Tables U F J
  create d now db =
      let (job, jobs') = jobs.insert (new_job d now) db.jobs in (job, record db { jobs = jobs' })

  unfoldable pub find_all_by_user : String → ListJobOptions → Tables U F J → Listing DbJob
  find_all_by_user user_id opts db =
      let offset = (opts.page - 1) * opts.limit in
      let chosen = is_listed user_id opts.status opts.file_id in
      record {
        rows =
            take opts.limit
              (drop offset (jobs.select_desc chosen (λ j. j.created_at) opts.limit offset db.jobs));
        total = jobs.count chosen db.jobs;
      }

  unfoldable pub find_by_id : String → String → Tables U F J → Option DbJob
  find_by_id user_id job_id db = head? (take 1 (jobs.select (is_users_job user_id job_id) db.jobs))

  unfoldable pub update_status :
      String → JobStatus → Extra → ℕ → Tables U F J → Option DbJob × Tables U F J
  update_status job_id status extra now db =
      let (changed, jobs') =
        jobs.update (has_job_id job_id) (set_status status extra now) db.jobs in
      (head? changed, record db { jobs = jobs' })

  unfoldable pub cancel : String → String → ℕ → Tables U F J → Option DbJob × Tables U F J
  cancel user_id job_id now db =
      let (changed, jobs') =
        jobs.update (is_cancellable user_id job_id) (set_cancelled now) db.jobs in
      (head? changed, record db { jobs = jobs' })

  unfoldable pub update_progress : String → ℕ → ℕ → Tables U F J → Tables U F J
  update_progress job_id progress now db = record db {
    jobs = (jobs.update (has_job_id job_id) (set_progress progress now) db.jobs).1;
  }
