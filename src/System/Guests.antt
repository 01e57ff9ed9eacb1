-- ===== src/System/Guests.antt =====
-- The sweep of guest resources removes rows of files, and the foreign keys of jobs remove the jobs on
-- them: no job is left without its file.
use file_processing_platform.Common.{
  ℕ, ◌-◌, ◌*◌, String, ◌≡◌, refl, ap, ◌∙◌, sym, none, some, Option, Bool, true, false, not,
  if◌then◌else◌, keep_if, arith, eq_iff, List, [], ◌∷◌, Bool-cases, inl, inr,
}
use file_processing_platform.Schema.{DbFile, DbJob}
use file_processing_platform.Db.Changes.{after_removal, is_cascaded}
use file_processing_platform.Db.Tables.{is_none}
use file_processing_platform.Db.Files.{FileRepo, is_users_file}
use file_processing_platform.Db.Jobs.{JobRepo}
use file_processing_platform.Worker.Platform.{ObjectStore}
use file_processing_platform.Worker.Cleanup.{
  SweepWorld, drop_guest, sweep_guests, cleanup_guest_resources,
}
use file_processing_platform.System.Jobs.{IsBounded}
use file_processing_platform.System.Ownership.{IsOwned}

-- A job that is left was there, on the same file, of the same owner and with the same progress.
left_over :
    (gone : Bool) (k : String) (o : Option DbJob) (j : DbJob)
    → after_removal gone k o ≡ some j
    → (i : DbJob) × (o ≡ some i)
      × (is_cascaded gone k i ≡ false)
      × (j.file_id ≡ i.file_id)
      × (j.user_id ≡ i.user_id)
      × (j.progress ≡ i.progress)
left_over gone k none j h = absurd (cc)
left_over gone k (some i) j h =
    (i, refl, ground (arith, h), ground (arith, h), ground (arith, h), ground (arith, h))

module _ {S : Type 0} (files : FileRepo S) (jobs : JobRepo S files) where
  -- The file of a job that is left was not removed.
  file_left :
      (u k : String) (s : S) (i : DbJob) (f : DbFile)
      → files.row s i.file_id ≡ some f
      → is_cascaded (not (is_none (files.find_by_id u k s))) k i ≡ false
      → files.row (files.hard_delete u k s) i.file_id ≡ some f
  file_left u k s i f at kept = elim (Bool-cases (is_users_file u k f)) [
    | inr other ↦
        files.row-hard_delete u k s i.file_id
        ∙ ap (keep_if (λ r. if is_users_file u k r then false else true)) at
        ∙ ground (arith, other)
    | inl chosen ↦
        let same = (eq_iff f.id k).0 (ground (arith, chosen)) in
        let place : i.file_id ≡ k = sym (files.row_id s i.file_id f at) ∙ same in
        let there : files.row s k ≡ some f = ap (files.row s) (sym place) ∙ at in
        let found : files.find_by_id u k s ≡ some f =
          files.find_by_id_lem u k s
          ∙ ap (keep_if (is_users_file u k)) there
          ∙ ground (arith, chosen) in
        absurd (ground (arith, found, kept, (eq_iff i.file_id k).1 place))
  ]

  hard_delete-IsOwned :
      (u k : String) (s : S) → IsOwned files jobs s → IsOwned files jobs (files.hard_delete u k s)
  hard_delete-IsOwned u k s h = record {
    owned = λ n j found.
        let (i, at, kept, file, user, progress) =
          left_over (not (is_none (files.find_by_id u k s))) k (jobs.row s n) j
            (sym (jobs.row-files_hard_delete u k s n) ∙ found) in
        let (f, row, own) = h.owned n i at in
        (
          f,
          ap (files.row (files.hard_delete u k s)) file ∙ file_left u k s i f row kept,
          own ∙ sym user,
        );
  }

  hard_delete-IsBounded :
      (u k : String) (s : S)
      → IsBounded files jobs s
      → IsBounded files jobs (files.hard_delete u k s)
  hard_delete-IsBounded u k s h = record {
    bound = λ n j found.
        let (i, at, kept, file, user, progress) =
          left_over (not (is_none (files.find_by_id u k s))) k (jobs.row s n) j
            (sym (jobs.row-files_hard_delete u k s n) ∙ found) in
        rw progress (h.bound n i at);
  }

module _ {S O B : Type 0} (files : FileRepo S) (jobs : JobRepo S files) (minio : ObjectStore O B)
    (bucket : String) where
  sweep_guests-IsOwned :
      (fs : List DbFile) (w : SweepWorld S O)
      → IsOwned files jobs w.db
      → IsOwned files jobs (sweep_guests files minio bucket fs w).db
  unfolding sweep_guests drop_guest
  sweep_guests-IsOwned [] w h = h
  sweep_guests-IsOwned (f ∷ fs) w h =
      sweep_guests-IsOwned fs (drop_guest files minio bucket f w)
        (hard_delete-IsOwned files jobs f.user_id f.id w.db h)

  sweep_guests-IsBounded :
      (fs : List DbFile) (w : SweepWorld S O)
      → IsBounded files jobs w.db
      → IsBounded files jobs (sweep_guests files minio bucket fs w).db
  unfolding sweep_guests drop_guest
  sweep_guests-IsBounded [] w h = h
  sweep_guests-IsBounded (f ∷ fs) w h =
      sweep_guests-IsBounded fs (drop_guest files minio bucket f w)
        (hard_delete-IsBounded files jobs f.user_id f.id w.db h)

  pub cleanup_guest_resources-IsOwned :
      (ttl_seconds now : ℕ) (w : SweepWorld S O)
      → IsOwned files jobs w.db
      → IsOwned files jobs (cleanup_guest_resources files minio bucket ttl_seconds now w).1.db
  unfolding cleanup_guest_resources
  cleanup_guest_resources-IsOwned ttl_seconds now w h =
      sweep_guests-IsOwned (files.find_expired_guest_files (now - ttl_seconds * 1000) w.db) w h

  pub cleanup_guest_resources-IsBounded :
      (ttl_seconds now : ℕ) (w : SweepWorld S O)
      → IsBounded files jobs w.db
      → IsBounded files jobs (cleanup_guest_resources files minio bucket ttl_seconds now w).1.db
  unfolding cleanup_guest_resources
  cleanup_guest_resources-IsBounded ttl_seconds now w h =
      sweep_guests-IsBounded (files.find_expired_guest_files (now - ttl_seconds * 1000) w.db) w h
