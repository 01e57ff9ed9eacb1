-- ===== src/System/Ownership.antt =====
-- Every job works on a file of its owner.
use file_processing_platform.Common.{
  refl, String, ◌≡◌, ap, ◌∙◌, some, none, Option, ◌==◌, if◌then◌else◌, map_some, inl, inr,
  Option-cases, sym,
}
use file_processing_platform.Schema.{DbFile, DbJob}
use file_processing_platform.Db.Changes.{set_status, set_cancelled, set_progress}
use file_processing_platform.Db.Files.{FileRepo}
use file_processing_platform.Db.Jobs.{JobRepo, has_job_id, is_cancellable}
use file_processing_platform.System.{
  Write, made_file, readied_file, deleted_file, made_job, moved_job, cancelled_job, advanced_job,
  Writes, here, next, Writes-one,
}
use file_processing_platform.System.Lifecycle.{file_lifecycle}
use file_processing_platform.System.Jobs.{job_identity, inserted}

none_mapped :
    (o : Option DbJob) (f : DbJob → DbJob) (j : DbJob) → o ≡ none → map_some f o ≡ some j → ⊥
none_mapped none f j e h = cc
none_mapped (some i) f j e h = cc

module _ {S : Type 0} (files : FileRepo S) (jobs : JobRepo S files) where
  -- The file of a job is there, and has the same owner.
  abbrev pub HasFile : S → DbJob → Type 0
  HasFile s j = (f : DbFile) × (files.row s j.file_id ≡ some f) × (f.user_id ≡ j.user_id)

  pub record IsOwned (s : S) : Type 0 where
    pub owned : (k : String) (j : DbJob) → jobs.row s k ≡ some j → HasFile s j

  new_row :
      {s t : S} (k : String) (j : DbJob)
      → Write files jobs s t
      → jobs.row s k ≡ none
      → jobs.row t k ≡ some j
      → HasFile s j
  new_row {s} k j (made_file d n) empty found =
      let same = ap (λ r. r k) (jobs.row-files_create d n s) in absurd (cc)
  new_row {s} k j (readied_file u i n) empty found =
      let same = ap (λ r. r k) (jobs.row-files_mark_ready u i n s) in absurd (cc)
  new_row {s} k j (deleted_file u i n) empty found =
      let same = ap (λ r. r k) (jobs.row-files_soft_delete u i n s) in absurd (cc)
  new_row {s} k j (made_job d n f b e o) empty found =
      elim (inserted (jobs.next_id s == k) _ (jobs.row s k) j
        (sym (jobs.row-create d n s k) ∙ found)) [
          | inl new ↦
              (f, ap (λ r. files.row s r.file_id) new ∙ e, o ∙ sym (ap (λ r. r.user_id) new))
          | inr old ↦ absurd (cc)
        ]
  new_row {s} k j (moved_job i st x n b) empty found = absurd (
      none_mapped (jobs.row s k) (λ r. if has_job_id i r then set_status st x n r else r) j empty
        (sym (jobs.row-update_status i st x n s k) ∙ found))
  new_row {s} k j (cancelled_job u i n) empty found = absurd (
      none_mapped (jobs.row s k) (λ r. if is_cancellable u i r then set_cancelled n r else r) j
        empty (sym (jobs.row-cancel u i n s k) ∙ found))
  new_row {s} k j (advanced_job i p n b) empty found = absurd (
      none_mapped (jobs.row s k) (λ r. if has_job_id i r then set_progress p n r else r) j empty
        (sym (jobs.row-update_progress i p n s k) ∙ found))

  HasFile-later :
      {s t : S} (i j : DbJob)
      → Writes files jobs s t
      → j.file_id ≡ i.file_id
      → j.user_id ≡ i.user_id
      → HasFile s i
      → HasFile t j
  HasFile-later {s} {t} i j w same_file same_user (f, at, own) =
      let (g, at', later) = file_lifecycle files jobs i.file_id f w at in
      (g, ap (files.row t) same_file ∙ at', later.1 ∙ own ∙ sym same_user)

  Write-IsOwned : {s t : S} → Write files jobs s t → IsOwned s → IsOwned t
  Write-IsOwned {s} {t} w h = record {
    owned = λ k j found. elim (Option-cases (jobs.row s k)) [
      | inl empty ↦
          HasFile-later j j (Writes-one files jobs w) refl refl (new_row k j w empty found)
      | inr (i, at) ↦
          let (i', at', same) = job_identity files jobs k i (Writes-one files jobs w) at in
          let is : i' ≡ j = cc in
          HasFile-later i j (Writes-one files jobs w) (ap (λ r. r.file_id) (sym is) ∙ same.1)
            (ap (λ r. r.user_id) (sym is) ∙ same.2) (h.owned k i at)
    ];
  }

  -- That every job's file is there and belongs to the owner of the job stays so through any
  -- sequence of statements.
  pub Writes-IsOwned : {s t : S} → Writes files jobs s t → IsOwned s → IsOwned t
  Writes-IsOwned here h = h
  Writes-IsOwned (next before last) h = Write-IsOwned last (Writes-IsOwned before h)
