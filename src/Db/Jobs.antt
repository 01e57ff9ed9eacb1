-- ===== src/Db/Jobs.antt =====
-- `IJobRepository` of packages/db/src/repositories/JobRepository.ts, over a database whose files
-- are seen through `IFileRepository`: the operations, what each one promises about the rows, and
-- that neither repository touches the rows of the other.
use file_processing_platform.Common.{
  ℕ, ◌-◌, ◌*◌, String, ◌≡◌, ◌↔◌, Bool, true, ◌&&◌, Option, none, some, List, ◌==◌, if◌then◌else◌,
  keep_if, map_some, not,
}
use file_processing_platform.Common.Lists.{Elem, take, drop, length, IsDescending}
use file_processing_platform.Schema.{NewFile, DbJob, NewJob, JobStatus, job_status_eq}
use file_processing_platform.Db.Changes.{
  Extra, new_job, set_status, set_cancelled, set_progress, after_removal,
}
use file_processing_platform.Db.Tables.{is_none}
use file_processing_platform.Db.Files.{FileRepo, Listing}

pub record ListJobOptions : Type 0 where
  pub page : ℕ
  pub limit : ℕ
  pub status : Option JobStatus
  pub file_id : Option String

-- `eq(jobs.id, jobId)`
abbrev pub has_job_id : String → DbJob → Bool
has_job_id job_id j = j.id == job_id

-- `and(eq(jobs.id, jobId), eq(jobs.userId, userId))`
abbrev pub is_users_job : String → String → DbJob → Bool
is_users_job user_id job_id j = j.id == job_id && j.user_id == user_id

-- the same with `inArray(jobs.status, ['pending'])`
abbrev pub is_cancellable : String → String → DbJob → Bool
is_cancellable user_id job_id j =
    j.id == job_id && j.user_id == user_id && job_status_eq j.status JobStatus.pending

-- `if (opts.status) conditions.push(eq(jobs.status, opts.status))`
abbrev pub has_status : Option JobStatus → DbJob → Bool
has_status none j = true
has_status (some status) j = job_status_eq j.status status

-- `if (opts.fileId) conditions.push(eq(jobs.fileId, opts.fileId))`
abbrev pub has_file : Option String → DbJob → Bool
has_file none j = true
has_file (some file_id) j = j.file_id == file_id

pub record JobRepo (S : Type 0) (files : FileRepo S) : Type 0 where
  -- the row with an id
  pub row : S → String → Option DbJob
  -- the id that the next insert draws
  pub next_id : S → String
  -- the type fits its column; an insert of any other throws, and nothing is inserted
  pub accepts : NewJob → Bool
  -- the rows of a user that pass the filters, newest first, in the order of a query with a limit and
  -- an offset
  pub listed : String → Option JobStatus → Option String → ℕ → ℕ → S → List DbJob
  pub create : NewJob → ℕ → S → DbJob × S
  pub find_all_by_user : String → ListJobOptions → S → Listing DbJob
  pub find_by_id : String → String → S → Option DbJob
  pub update_status : String → JobStatus → Extra → ℕ → S → Option DbJob × S
  pub cancel : String → String → ℕ → S → Option DbJob × S
  pub update_progress : String → ℕ → ℕ → S → S
  pub row_id : (s : S) (k : String) (j : DbJob) → row s k ≡ some j → j.id ≡ k
  pub row-next_id : (s : S) → row s (next_id s) ≡ none
  pub create_returns : (d : NewJob) (n : ℕ) (s : S) → (create d n s).0 ≡ new_job d n (next_id s)
  pub row-create :
      (d : NewJob) (n : ℕ) (s : S) (k : String)
      → row (create d n s).1 k
        ≡ (if next_id s == k then some (new_job d n (next_id s)) else row s k)
  pub find_by_id_lem :
      (u k : String) (s : S) → find_by_id u k s ≡ keep_if (is_users_job u k) (row s k)
  pub row-update_status :
      (k : String) (st : JobStatus) (x : Extra) (n : ℕ) (s : S) (j : String)
      → row (update_status k st x n s).1 j
        ≡ map_some (λ r. if has_job_id k r then set_status st x n r else r) (row s j)
  pub cancel_returns :
      (u k : String) (n : ℕ) (s : S)
      → (cancel u k n s).0 ≡ map_some (set_cancelled n) (keep_if (is_cancellable u k) (row s k))
  pub row-cancel :
      (u k : String) (n : ℕ) (s : S) (j : String)
      → row (cancel u k n s).1 j
        ≡ map_some (λ r. if is_cancellable u k r then set_cancelled n r else r) (row s j)
  pub row-update_progress :
      (k : String) (p n : ℕ) (s : S) (j : String)
      → row (update_progress k p n s) j
        ≡ map_some (λ r. if has_job_id k r then set_progress p n r else r) (row s j)
  pub Elem-listed :
      (u : String) (st : Option JobStatus) (f : Option String) (l o : ℕ) (s : S) (j : DbJob)
      → Elem j (listed u st f l o s) ↔ (
          (row s j.id ≡ some j)
          × (j.user_id ≡ u)
          × (has_status st j ≡ true)
          × (has_file f j ≡ true))
  pub listed-IsDescending :
      (u : String) (st : Option JobStatus) (f : Option String) (l o : ℕ) (s : S)
      → IsDescending (λ j. j.created_at) (listed u st f l o s)
  pub find_all_by_user_lem :
      (u : String) (o : ListJobOptions) (s : S)
      → find_all_by_user u o s ≡ record {
        rows = take o.limit (
            drop
              ((o.page - 1) * o.limit)
              (listed u o.status o.file_id o.limit ((o.page - 1) * o.limit) s));
        total = length (listed u o.status o.file_id o.limit ((o.page - 1) * o.limit) s);
      }
  -- the rows of this repository are those that the other one reads
  pub job_row-row : (s : S) (k : String) → files.job_row s k ≡ row s k
  -- the other repository's rows
  pub files-create : (d : NewJob) (n : ℕ) (s : S) → files.row (create d n s).1 ≡ files.row s
  pub files-update_status :
      (k : String) (st : JobStatus) (x : Extra) (n : ℕ) (s : S)
      → files.row (update_status k st x n s).1 ≡ files.row s
  pub files-cancel : (u k : String) (n : ℕ) (s : S) → files.row (cancel u k n s).1 ≡ files.row s
  pub files-update_progress :
      (k : String) (p n : ℕ) (s : S) → files.row (update_progress k p n s) ≡ files.row s
  pub row-files_create : (d : NewFile) (n : ℕ) (s : S) → row (files.create d n s).1 ≡ row s
  pub row-files_soft_delete :
      (u k : String) (n : ℕ) (s : S) → row (files.soft_delete u k n s).1 ≡ row s
  pub row-files_mark_ready :
      (u k : String) (n : ℕ) (s : S) → row (files.mark_ready u k n s).1 ≡ row s
  -- the foreign keys
  pub row-files_hard_delete :
      (u k : String) (s : S) (j : String)
      → row (files.hard_delete u k s) j
        ≡ after_removal (not (is_none (files.find_by_id u k s))) k (row s j)
