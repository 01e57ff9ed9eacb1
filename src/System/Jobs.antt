-- ===== src/System/Jobs.antt =====
-- What holds of the rows of jobs after any sequence of statements.
use file_processing_platform.Common.{
  ℕ, ◌≤◌, String, ◌≡◌, refl, ap, ◌∙◌, some, none, Option, ◌==◌, Bool, true, false, if◌then◌else◌,
  map_some, inl, inr, ◌⊎◌, or_else, sym,
}
use file_processing_platform.Schema.{DbJob}
use file_processing_platform.Db.Changes.{
  set_status, set_cancelled, set_progress, overwrite_progress,
}
use file_processing_platform.Db.Files.{FileRepo}
use file_processing_platform.Db.Jobs.{JobRepo, has_job_id, is_cancellable}
use file_processing_platform.Worker.Consumer.Rows.{SameJob}
use file_processing_platform.Worker.Queue.Retries.{SameJob-trans}
use file_processing_platform.System.{
  Write, made_file, readied_file, deleted_file, made_job, moved_job, cancelled_job, advanced_job,
  Writes, here, next,
}
use file_processing_platform.System.Lifecycle.{kept_by_insert}

SameJob-refl : (j : DbJob) → SameJob j j
SameJob-refl j = (refl, refl, refl, refl, refl)

SameJob-changed : (b : Bool) (i j : DbJob) → SameJob i j → SameJob i (if b then j else i)
SameJob-changed true i j h = h
SameJob-changed false i j h = SameJob-refl i

-- A property of both rows is one of the chosen row.
chosen : (P : DbJob → Type 0) (b : Bool) (i j : DbJob) → P i → P j → P (if b then j else i)
chosen P true i j p q = q
chosen P false i j p q = p

progress_bound : (x : Option ℕ) (p : ℕ) → or_else x 0 ≤ 100 → p ≤ 100 → overwrite_progress x p ≤ 100
progress_bound none p hx hp = hp
progress_bound (some q) p hx hp = hx

-- A row that a map makes comes from a row.
mapped_from :
    (o : Option DbJob) (f : DbJob → DbJob) (k : DbJob)
    → map_some f o ≡ some k
    → (j : DbJob) × (o ≡ some j) × (k ≡ f j)
mapped_from none f k h = absurd (cc)
mapped_from (some j) f k h = (j, refl, cc)

pub inserted :
    (b : Bool) (new : DbJob) (o : Option DbJob) (j : DbJob)
    → (if b then some new else o) ≡ some j
    → (j ≡ new) ⊎ (o ≡ some j)
inserted true new o j h = inl (cc)
inserted false new o j h = inr h

module _ {S : Type 0} (files : FileRepo S) (jobs : JobRepo S files) where
  Write-SameJob :
      {s t : S} (k : String) (j : DbJob)
      → Write files jobs s t
      → jobs.row s k ≡ some j
      → (i : DbJob) × (jobs.row t k ≡ some i) × SameJob j i
  Write-SameJob {s} k j (made_file d n) found =
      (j, ap (λ r. r k) (jobs.row-files_create d n s) ∙ found, SameJob-refl j)
  Write-SameJob {s} k j (readied_file u i n) found =
      (j, ap (λ r. r k) (jobs.row-files_mark_ready u i n s) ∙ found, SameJob-refl j)
  Write-SameJob {s} k j (deleted_file u i n) found =
      (j, ap (λ r. r k) (jobs.row-files_soft_delete u i n s) ∙ found, SameJob-refl j)
  Write-SameJob {s} k j (made_job d n f b e o) found = (
    j,
    jobs.row-create d n s k
        ∙ kept_by_insert (jobs.row s) (jobs.next_id s) k _ j (jobs.row-next_id s) found,
    SameJob-refl j,
  )
  Write-SameJob {s} k j (moved_job i st x n b) found = (
    _,
    jobs.row-update_status i st x n s k
        ∙ ap (map_some (λ r. if has_job_id i r then set_status st x n r else r)) found,
    SameJob-changed (has_job_id i j) j (set_status st x n j) (refl, refl, refl, refl, refl),
  )
  Write-SameJob {s} k j (cancelled_job u i n) found = (
    _,
    jobs.row-cancel u i n s k
        ∙ ap (map_some (λ r. if is_cancellable u i r then set_cancelled n r else r)) found,
    SameJob-changed (is_cancellable u i j) j (set_cancelled n j) (refl, refl, refl, refl, refl),
  )
  Write-SameJob {s} k j (advanced_job i p n b) found = (
    _,
    jobs.row-update_progress i p n s k
        ∙ ap (map_some (λ r. if has_job_id i r then set_progress p n r else r)) found,
    SameJob-changed (has_job_id i j) j (set_progress p n j) (refl, refl, refl, refl, refl),
  )

  -- The row of a job after any sequence of statements: its id, file, owner, type and time of
  -- creation are the same.
  pub job_identity :
      {s t : S} (k : String) (j : DbJob)
      → Writes files jobs s t
      → jobs.row s k ≡ some j
      → (i : DbJob) × (jobs.row t k ≡ some i) × SameJob j i
  job_identity k j here found = (j, found, SameJob-refl j)
  job_identity k j (next before last) found =
      let (i, at, same) = job_identity k j before found in
      let (h, at', same') = Write-SameJob k i last at in (h, at', SameJob-trans j i h same same')

  -- Every job's progress is at most 100.
  pub record IsBounded (s : S) : Type 0 where
    pub bound : (k : String) (j : DbJob) → jobs.row s k ≡ some j → j.progress ≤ 100

  -- A row after a conditional change of all rows, at a progress that the change keeps in bounds.
  bound-changed :
      (s t : S) (test : DbJob → Bool) (change : DbJob → DbJob)
      → ((k : String)
          → jobs.row t k ≡ map_some (λ r. if test r then change r else r) (jobs.row s k))
      → ((r : DbJob) → r.progress ≤ 100 → (change r).progress ≤ 100)
      → IsBounded s
      → IsBounded t
  bound-changed s t test change rows safe h = record {
    bound = λ k j found.
        let (r, at, is) =
          mapped_from (jobs.row s k) (λ r. if test r then change r else r) j
            (sym (rows k) ∙ found) in
        let low = h.bound k r at in
        rw is (chosen (λ i. i.progress ≤ 100) (test r) r (change r) low (safe r low));
  }

  bound-same : (s t : S) → jobs.row t ≡ jobs.row s → IsBounded s → IsBounded t
  bound-same s t same h = record {
    bound = λ k j found. h.bound k j (ap (λ r. r k) (sym same) ∙ found);
  }

  Write-IsBounded : {s t : S} → Write files jobs s t → IsBounded s → IsBounded t
  Write-IsBounded {s} (made_file d n) h = bound-same s _ (jobs.row-files_create d n s) h
  Write-IsBounded {s} (readied_file u i n) h = bound-same s _ (jobs.row-files_mark_ready u i n s) h
  Write-IsBounded {s} (deleted_file u i n) h = bound-same s _ (jobs.row-files_soft_delete u i n s) h
  Write-IsBounded {s} (made_job d n f b e o) h = record {
    bound = λ k j found.
        elim (inserted (jobs.next_id s == k) _ (jobs.row s k) j
          (sym (jobs.row-create d n s k) ∙ found)) [
            | inl new ↦ rw new b
            | inr old ↦ h.bound k j old
          ];
  }
  Write-IsBounded {s} (moved_job i st x n b) h =
      bound-changed s _ (has_job_id i) (set_status st x n) (jobs.row-update_status i st x n s)
        (λ r low. progress_bound x.progress r.progress b low) h
  Write-IsBounded {s} (cancelled_job u i n) h =
      bound-changed s _ (is_cancellable u i) (set_cancelled n) (jobs.row-cancel u i n s)
        (λ r low. low) h
  Write-IsBounded {s} (advanced_job i p n b) h =
      bound-changed s _ (has_job_id i) (set_progress p n) (jobs.row-update_progress i p n s)
        (λ r low. b) h

  -- A progress of at most 100 in every row of a job stays so through any sequence of statements.
  pub Writes-IsBounded : {s t : S} → Writes files jobs s t → IsBounded s → IsBounded t
  Writes-IsBounded here h = h
  Writes-IsBounded (next before last) h = Write-IsBounded last (Writes-IsBounded before h)
