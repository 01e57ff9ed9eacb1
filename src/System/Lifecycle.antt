-- ===== src/System/Lifecycle.antt =====
-- What holds of the rows of files and jobs after any sequence of statements.
use file_processing_platform.Common.{
  ℕ, ◌≤◌, String, ◌≡◌, refl, ap, ◌∙◌, some, none, Option, arith, eq_iff, ◌==◌, Bool, true, false,
  if◌then◌else◌, map_some, Bool-cases, inl, inr,
}
use file_processing_platform.Schema.{DbFile, FileStatus, file_status_eq}
use file_processing_platform.Db.Changes.{set_ready, set_deleted}
use file_processing_platform.Db.Files.{FileRepo, is_users_file, is_users_pending}
use file_processing_platform.Db.Jobs.{JobRepo}
use file_processing_platform.System.{
  Write, made_file, readied_file, deleted_file, made_job, moved_job, cancelled_job, advanced_job,
  Writes, here, next,
}

-- The order in which a file passes its statuses.
abbrev pub stage : FileStatus → ℕ
stage FileStatus.pending = 0
stage FileStatus.ready = 1
stage FileStatus.deleted = 2

-- The row of one file at two times: what is fixed, and that the status did not go back.
abbrev pub FileLater : DbFile → DbFile → Type 0
FileLater f g =
    (g.id ≡ f.id)
    × (g.user_id ≡ f.user_id)
    × (g.original_name ≡ f.original_name)
    × (g.mime_type ≡ f.mime_type)
    × (g.size ≡ f.size)
    × (g.storage_path ≡ f.storage_path)
    × (g.created_at ≡ f.created_at)
    × (stage f.status ≤ stage g.status)

FileLater-refl : (f : DbFile) → FileLater f f
FileLater-refl f = (refl, refl, refl, refl, refl, refl, refl, omega arith)

FileLater-trans : (f g h : DbFile) → FileLater f g → FileLater g h → FileLater f h
FileLater-trans f g h (a0, a1, a2, a3, a4, a5, a6, a7) (b0, b1, b2, b3, b4, b5, b6, b7) =
    (b0 ∙ a0, b1 ∙ a1, b2 ∙ a2, b3 ∙ a3, b4 ∙ a4, b5 ∙ a5, b6 ∙ a6, omega (arith, a7, b7))

stage_top : (st : FileStatus) → stage st ≤ 2
stage_top FileStatus.pending = omega arith
stage_top FileStatus.ready = omega arith
stage_top FileStatus.deleted = omega arith

stage_pending : (st : FileStatus) → file_status_eq st FileStatus.pending ≡ true → stage st ≤ 1
stage_pending FileStatus.pending h = omega arith
stage_pending FileStatus.ready h = absurd (cc)
stage_pending FileStatus.deleted h = absurd (cc)

-- A row that is changed under a condition, and one that an insert leaves alone.
FileLater-changed :
    (b : Bool) (f g : DbFile) → (b ≡ true → FileLater f g) → FileLater f (if b then g else f)
FileLater-changed true f g h = h refl
FileLater-changed false f g h = FileLater-refl f

pub kept_by_insert :
    {R : Type 0} (row : String → Option R) (fresh k : String) (new r : R)
    → row fresh ≡ none
    → row k ≡ some r
    → (if fresh == k then some new else row k) ≡ some r
kept_by_insert row fresh k new r empty found = elim (Bool-cases (fresh == k)) [
  | inl same ↦ let at = (eq_iff fresh k).0 same in absurd (cc)
  | inr other ↦ rw other found
]

module _ {S : Type 0} (files : FileRepo S) (jobs : JobRepo S files) where
  Write-FileLater :
      {s t : S} (k : String) (f : DbFile)
      → Write files jobs s t
      → files.row s k ≡ some f
      → (g : DbFile) × (files.row t k ≡ some g) × FileLater f g
  Write-FileLater {s} k f (made_file d n) found = (
    f,
    files.row-create d n s k
        ∙ kept_by_insert (files.row s) (files.next_id s) k _ f (files.row-next_id s) found,
    FileLater-refl f,
  )
  Write-FileLater {s} k f (readied_file u i n) found = (
    _,
    files.row-mark_ready u i n s k
        ∙ ap (map_some (λ r. if is_users_pending u i r then set_ready n r else r)) found,
    FileLater-changed (is_users_pending u i f) f (set_ready n f)
        (λ h. (refl, refl, refl, refl, refl, refl, refl, stage_pending f.status (ground arith))),
  )
  Write-FileLater {s} k f (deleted_file u i n) found = (
    _,
    files.row-soft_delete u i n s k
        ∙ ap (map_some (λ r. if is_users_file u i r then set_deleted n r else r)) found,
    FileLater-changed (is_users_file u i f) f (set_deleted n f)
        (λ h. (refl, refl, refl, refl, refl, refl, refl, stage_top f.status)),
  )
  Write-FileLater {s} k f (made_job d n g b e o) found =
      (f, ap (λ r. r k) (jobs.files-create d n s) ∙ found, FileLater-refl f)
  Write-FileLater {s} k f (moved_job i st x n b) found =
      (f, ap (λ r. r k) (jobs.files-update_status i st x n s) ∙ found, FileLater-refl f)
  Write-FileLater {s} k f (cancelled_job u i n) found =
      (f, ap (λ r. r k) (jobs.files-cancel u i n s) ∙ found, FileLater-refl f)
  Write-FileLater {s} k f (advanced_job i p n b) found =
      (f, ap (λ r. r k) (jobs.files-update_progress i p n s) ∙ found, FileLater-refl f)

  -- The row of a file after any sequence of statements: its id, owner, name, type, size, path and
  -- time of creation are the same, and its status has not gone back in the order pending, ready,
  -- deleted.
  pub file_lifecycle :
      {s t : S} (k : String) (f : DbFile)
      → Writes files jobs s t
      → files.row s k ≡ some f
      → (g : DbFile) × (files.row t k ≡ some g) × FileLater f g
  file_lifecycle k f here found = (f, found, FileLater-refl f)
  file_lifecycle k f (next before last) found =
      let (g, at, later) = file_lifecycle k f before found in
      let (h, at', later') = Write-FileLater k g last at in
      (h, at', FileLater-trans f g h later later')
