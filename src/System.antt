-- ===== src/System.antt =====
-- The API and the worker on one database: the statements with which they write to the tables of
-- files and jobs, and the sequences of statements that runs of them, interleaved in any order, are.
-- The removal of rows by the guest sweep (`hardDelete`) is left out.
pub mod Lifecycle
pub mod Jobs
pub mod Ownership
pub mod Runs
pub mod Processing
pub mod Guests
pub mod History
pub mod Journey
use file_processing_platform.Common.{ℕ, ◌≤◌, String, ◌≡◌, some, or_else}
use file_processing_platform.Schema.{DbFile, NewFile, NewJob, JobStatus}
use file_processing_platform.Db.Changes.{Extra}
use file_processing_platform.Db.Files.{FileRepo}
use file_processing_platform.Db.Jobs.{JobRepo}

module _ {S : Type 0} (files : FileRepo S) (jobs : JobRepo S files) where
  -- One statement. A job is made for a file of its owner, and no progress above 100 is written.
  pub data Write (s : S) : S → Type 0 where
    made_file : (d : NewFile) (n : ℕ) → Write s (files.create d n s).1
    readied_file : (u k : String) (n : ℕ) → Write s (files.mark_ready u k n s).1
    deleted_file : (u k : String) (n : ℕ) → Write s (files.soft_delete u k n s).1
    made_job :
        (d : NewJob) (n : ℕ) (f : DbFile)
        → d.progress ≤ 100
        → files.row s d.file_id ≡ some f
        → f.user_id ≡ d.user_id
        → Write s (jobs.create d n s).1
    moved_job :
        (k : String) (st : JobStatus) (x : Extra) (n : ℕ)
        → or_else x.progress 0 ≤ 100
        → Write s (jobs.update_status k st x n s).1
    cancelled_job : (u k : String) (n : ℕ) → Write s (jobs.cancel u k n s).1
    advanced_job : (k : String) (p n : ℕ) → p ≤ 100 → Write s (jobs.update_progress k p n s)

  pub data Writes (s : S) : S → Type 0 where
    here : Writes s s
    next : {t u : S} → Writes s t → Write t u → Writes s u

  pub Writes-trans : {s t u : S} → Writes s t → Writes t u → Writes s u
  Writes-trans a here = a
  Writes-trans a (next b w) = next (Writes-trans a b) w

  pub Writes-one : {s t : S} → Write s t → Writes s t
  Writes-one w = next here w
