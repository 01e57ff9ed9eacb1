-- ===== src/Worker/Cleanup/Guests.antt =====
-- The sweep of guest files removes the expired rows of guests and no others.
use file_processing_platform.Common.{
  ℕ, ◌-◌, ◌*◌, ◌<◌, String, ◌≡◌, refl, ◌∙◌, ◌≢◌, inl, inr, some, none, List, [], ◌∷◌, eq_iff,
  eq_self, Option-cases, arith, Bool-cases,
}
use file_processing_platform.Common.Lists.{Elem}
use file_processing_platform.Schema.{DbFile, FileStatus}
use file_processing_platform.Db.Files.{FileRepo, is_users_file, IsIdle}
use file_processing_platform.Worker.Platform.{ObjectStore}
use file_processing_platform.Worker.Cleanup.{
  SweepWorld, drop_guest, sweep_guests, cleanup_guest_resources,
}

module _ {S O B : Type 0} (files : FileRepo S) (minio : ObjectStore O B) (bucket : String) where
  sweep_guests_other :
      (xs : List DbFile) (w : SweepWorld S O) (k : String)
      → ((x : DbFile) → Elem x xs → x.id ≢ k)
      → files.row (sweep_guests files minio bucket xs w).db k ≡ files.row w.db k
  unfolding sweep_guests
  sweep_guests_other [] w k none_hits = refl
  sweep_guests_other (x ∷ xs) w k none_hits =
      sweep_guests_other xs (drop_guest files minio bucket x w) k (λ y m. none_hits y (inr m))
      ∙ kept
    where
      kept : files.row (files.hard_delete x.user_id x.id w.db) k ≡ files.row w.db k
      kept = elim (Option-cases (files.row w.db k)) [
        | inl missing ↦ ground (arith, missing, files.row-hard_delete x.user_id x.id w.db k)
        | inr (f, found) ↦ ground (
          arith,
          found,
          files.row-hard_delete x.user_id x.id w.db k,
          files.row_id w.db k f found,
          none_hits x (inl refl),
          eq_iff f.id x.id,
        )
      ]

  -- A row that is gone stays away.
  sweep_guests_gone :
      (xs : List DbFile) (w : SweepWorld S O) (k : String)
      → files.row w.db k ≡ none
      → files.row (sweep_guests files minio bucket xs w).db k ≡ none
  unfolding sweep_guests
  sweep_guests_gone [] w k gone = gone
  sweep_guests_gone (x ∷ xs) w k gone =
      sweep_guests_gone xs (drop_guest files minio bucket x w) k
        (files.row-hard_delete x.user_id x.id w.db k ∙ rw gone refl)

  sweep_guests_hit :
      (xs : List DbFile) (w : SweepWorld S O) (f : DbFile)
      → Elem f xs
      → files.row w.db f.id ≡ some f
      → files.row (sweep_guests files minio bucket xs w).db f.id ≡ none
  unfolding sweep_guests
  sweep_guests_hit [] w f m found = absurd m
  sweep_guests_hit (x ∷ xs) w f (inl e) found =
      sweep_guests_gone xs (drop_guest files minio bucket x w) f.id (
        files.row-hard_delete x.user_id x.id w.db f.id
        ∙ rw (found, ← e, eq_self f.id, eq_self f.user_id) refl)
  sweep_guests_hit (x ∷ xs) w f (inr m) found = elim (Bool-cases (is_users_file x.user_id x.id f)) [
    | inl hit ↦
        sweep_guests_gone xs (drop_guest files minio bucket x w) f.id
          (files.row-hard_delete x.user_id x.id w.db f.id ∙ rw (found, hit) refl)
    | inr miss ↦
        sweep_guests_hit xs (drop_guest files minio bucket x w) f m
          (files.row-hard_delete x.user_id x.id w.db f.id ∙ rw (found, miss) refl)
  ]

  -- What the sweep may remove: a ready file, unchanged for the time to live, whose owner has no row
  -- among the users and that no pending or active job refers to.
  abbrev pub IsExpired : ℕ → S → DbFile → Type 0
  IsExpired cutoff s f =
      (f.status ≡ FileStatus.ready)
      × (f.updated_at < cutoff)
      × (files.user_row s f.user_id ≡ none)
      × IsIdle (files.job_row s) f.id

  -- After a sweep the expired guest files have no row, and every id whose row was not such a file
  -- has the row that it had.
  pub cleanup_guest_resources_exact :
      (ttl_seconds now : ℕ) (w : SweepWorld S O)
      → ((f : DbFile)
          → files.row w.db f.id ≡ some f
          → IsExpired (now - ttl_seconds * 1000) w.db f
          → files.row (cleanup_guest_resources files minio bucket ttl_seconds now w).1.db f.id
            ≡ none)
        × ((k : String)
            → ((f : DbFile)
                → files.row w.db k ≡ some f
                → ¬ (IsExpired (now - ttl_seconds * 1000) w.db f))
            → files.row (cleanup_guest_resources files minio bucket ttl_seconds now w).1.db k
              ≡ files.row w.db k)
  unfolding cleanup_guest_resources
  cleanup_guest_resources_exact ttl_seconds now w =
      let cutoff = now - ttl_seconds * 1000 in
      let expired = files.find_expired_guest_files cutoff w.db in
      (
        λ f found (old : IsExpired cutoff w.db f).
            sweep_guests_hit expired w f
              ((files.Elem-find_expired_guest_files cutoff w.db f).1
                (found, old.0, old.1, old.2, old.3))
              found,
        λ k spared. sweep_guests_other expired w k (λ x m same.
            let (found, is_ready, old, guest, idle) =
              (files.Elem-find_expired_guest_files cutoff w.db x).0 m in
            spared x (rw (← same) found) (is_ready, old, guest, idle)),
      )
