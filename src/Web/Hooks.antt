-- ===== src/Web/Hooks.antt =====
-- Hooks of the pages: features/jobs/hooks/useJobsPageState.ts, features/dashboard/hooks/
-- useDashboardStats.ts, useRecentJobs.ts and useJobRowState.ts, features/jobs/hooks/
-- useJobPageRowState.ts and features/landing/hooks/useGuestJob.ts, all of apps/web/src. The answers
-- to queries are arguments.
pub mod Rows
use file_processing_platform.Common.{
  ℕ, ◌+◌, ◌*◌, String, Bool, true, false, Option, none, some, List, [], ◌∷◌, ◌==◌, ltb, map,
  if◌then◌else◌, map_some,
}
use file_processing_platform.Schema.{DbFile, DbJob, JobStatus, job_status_eq}
use file_processing_platform.Api.FileService.{Paginated}
use file_processing_platform.Web.JobSocket.{JobWsState}
use file_processing_platform.Web.Client.{Stores, clear_guest}

-- `parseStatus`, with `VALID_STATUSES`
unfoldable pub parse_status : Option String → Option JobStatus
parse_status none = none
parse_status (some raw) =
    if raw == "active"
    then some JobStatus.active
    else if raw == "completed"
    then some JobStatus.completed
    else if raw == "failed"
    then some JobStatus.failed
    else none

-- The page, and the `status` of the search parameters.
pub record JobsPage : Type 0 where
  pub page : ℕ
  pub param : Option String

abbrev pub status_text : JobStatus → String
status_text JobStatus.pending = "pending"
status_text JobStatus.active = "active"
status_text JobStatus.completed = "completed"
status_text JobStatus.failed = "failed"

-- `setStatus` and `setPage`
unfoldable pub set_status : Option JobStatus → JobsPage → JobsPage
set_status next state = record { page = 1; param = map_some status_text next }

unfoldable pub set_page : ℕ → JobsPage → JobsPage
set_page p state = record state { page = p }

-- `DashboardStats`, from the answers to the two queries
pub record DashboardStats : Type 0 where
  pub file_count : Option ℕ
  pub job_count : Option ℕ
  pub storage_bytes : Option ℕ

abbrev pub sum_sizes : List DbFile → ℕ
sum_sizes [] = 0
sum_sizes (f ∷ fs) = f.size + sum_sizes fs

unfoldable pub dashboard_stats :
    Option (Paginated DbFile) → Option (Paginated DbJob) → DashboardStats
dashboard_stats files jobs = record {
  file_count = map_some (λ d. d.meta.total) files;
  job_count = map_some (λ d. d.meta.total) jobs;
  storage_bytes = map_some (λ d. sum_sizes d.rows) files;
}

-- `liveStatus` and `liveProgress` of a row
unfoldable pub row_state : DbJob → JobWsState → JobStatus × ℕ
row_state job ws =
    if job_status_eq job.status JobStatus.active
    then (ws.status, ws.progress)
    else (job.status, job.progress)

-- What the effect of a row does to the jobs of the cached list.
unfoldable pub patch_row : DbJob → JobWsState → List DbJob → List DbJob
patch_row job ws rows =
    if job_status_eq job.status JobStatus.active
    then map
        (λ j. if j.id == job.id then record j { progress = ws.progress; status = ws.status } else j)
        rows
    else rows

-- `isTokenExpiredOrMissing`; `exp` reads the expiry of a token, where it can be read.
unfoldable pub is_expired_or_missing : (String → Option ℕ) → ℕ → Option String → Bool
is_expired_or_missing exp now none = true
is_expired_or_missing exp now (some token) =
    if token == ""
    then true
    else elim (exp token) [ none ↦ true | some seconds ↦ ltb (seconds * 1000) (now + 60000) ]

-- The effect of `useGuestJob`: whether a session is asked for, and the stores afterwards.
unfoldable pub renew_guest : (String → Option ℕ) → ℕ → Stores → Bool × Stores
unfolding is_expired_or_missing
renew_guest exp now stores =
    if is_expired_or_missing exp now stores.guest_token
    then (true, clear_guest stores)
    else (false, stores)
