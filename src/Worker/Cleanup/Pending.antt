-- ===== src/Worker/Cleanup/Pending.antt =====
-- The sweep of abandoned uploads deletes the expired pending rows and no others.
use file_processing_platform.Common.{
  ℕ, ◌+◌, ◌-◌, ◌*◌, ◌<◌, ◌≤◌, String, ◌≡◌, refl, ◌∙◌, ◌≢◌, ◌⊎◌, inl, inr, some, List, [], ◌∷◌,
  eq_iff, eq_self, Option-cases, arith, Bool-cases,
}
use file_processing_platform.Common.Lists.{Elem}
use file_processing_platform.Schema.{DbFile, FileStatus}
use file_processing_platform.Db.Changes.{set_deleted}
use file_processing_platform.Db.Files.{FileRepo, is_users_file}
use file_processing_platform.Worker.Platform.{ObjectStore}
use file_processing_platform.Worker.Cleanup.{
  SweepWorld, drop_pending, sweep_pending, cleanup_pending_uploads,
}

-- `g` is `f` with status deleted; only the time of the change is left open.
abbrev pub DeletedFrom : DbFile → DbFile → Type 0
DeletedFrom f g = (t : ℕ) × (g ≡ set_deleted t f)

module _ {S O B : Type 0} (files : FileRepo S) (minio : ObjectStore O B) (bucket : String) where
  -- A row whose id is not in the list is left alone.
  sweep_pending_other :
      (xs : List DbFile) (i : ℕ) (clock : ℕ → ℕ) (w : SweepWorld S O) (k : String)
      → ((x : DbFile) → Elem x xs → x.id ≢ k)
      → files.row (sweep_pending files minio bucket xs i clock w).db k ≡ files.row w.db k
  unfolding sweep_pending drop_pending
  sweep_pending_other [] i clock w k none_hits = refl
  sweep_pending_other (x ∷ xs) i clock w k none_hits =
      sweep_pending_other xs (i + 1) clock (drop_pending files minio bucket x (clock i) w) k
        (λ y m. none_hits y (inr m))
      ∙ kept
    where
      kept : files.row (files.soft_delete x.user_id x.id (clock i) w.db).1 k ≡ files.row w.db k
      kept = elim (Option-cases (files.row w.db k)) [
        | inl missing ↦
            ground (arith, missing, files.row-soft_delete x.user_id x.id (clock i) w.db k)
        | inr (f, found) ↦ ground (
          arith,
          found,
          files.row-soft_delete x.user_id x.id (clock i) w.db k,
          files.row_id w.db k f found,
          none_hits x (inl refl),
          eq_iff f.id x.id,
        )
      ]

  -- A row that is deleted stays so.
  sweep_pending_deleted :
      (xs : List DbFile) (i : ℕ) (clock : ℕ → ℕ) (w : SweepWorld S O) (k : String) (f g : DbFile)
      → files.row w.db k ≡ some g
      → DeletedFrom f g
      → (h : DbFile) × (files.row (sweep_pending files minio bucket xs i clock w).db k ≡ some h)
        × DeletedFrom f h
  unfolding sweep_pending drop_pending
  sweep_pending_deleted [] i clock w k f g found d = (g, found, d)
  sweep_pending_deleted (x ∷ xs) i clock w k f g found (t, d) =
      elim (Bool-cases (is_users_file x.user_id x.id g)) [
        | inl hit ↦
            sweep_pending_deleted xs (i + 1) clock (drop_pending files minio bucket x (clock i) w) k
              f (set_deleted (clock i) g)
              (files.row-soft_delete x.user_id x.id (clock i) w.db k ∙ rw (found, hit) refl)
              (clock i, rw d refl)
        | inr miss ↦
            sweep_pending_deleted xs (i + 1) clock (drop_pending files minio bucket x (clock i) w) k
              f g (files.row-soft_delete x.user_id x.id (clock i) w.db k ∙ rw (found, miss) refl)
              (t, d)
      ]

  -- A row in the list is deleted.
  sweep_pending_hit :
      (xs : List DbFile) (i : ℕ) (clock : ℕ → ℕ) (w : SweepWorld S O) (f : DbFile)
      → Elem f xs
      → files.row w.db f.id ≡ some f
      → (h : DbFile) × (files.row (sweep_pending files minio bucket xs i clock w).db f.id ≡ some h)
        × DeletedFrom f h
  unfolding sweep_pending drop_pending
  sweep_pending_hit [] i clock w f m found = absurd m
  sweep_pending_hit (x ∷ xs) i clock w f (inl e) found =
      sweep_pending_deleted xs (i + 1) clock (drop_pending files minio bucket x (clock i) w) f.id f
        (set_deleted (clock i) f)
        (files.row-soft_delete x.user_id x.id (clock i) w.db f.id
          ∙ rw (found, ← e, eq_self f.id, eq_self f.user_id) refl)
        (clock i, refl)
  sweep_pending_hit (x ∷ xs) i clock w f (inr m) found =
      elim (Bool-cases (is_users_file x.user_id x.id f)) [
        | inl hit ↦
            sweep_pending_deleted xs (i + 1) clock (drop_pending files minio bucket x (clock i) w)
              f.id f (set_deleted (clock i) f)
              (files.row-soft_delete x.user_id x.id (clock i) w.db f.id ∙ rw (found, hit) refl)
              (clock i, refl)
        | inr miss ↦
            sweep_pending_hit xs (i + 1) clock (drop_pending files minio bucket x (clock i) w) f m
              (files.row-soft_delete x.user_id x.id (clock i) w.db f.id ∙ rw (found, miss) refl)
      ]

  -- After a sweep every row that was pending and older than the time to live has status deleted and
  -- is otherwise the same but for its time of change; every other id has the row that it had, or
  -- none as before.
  pub cleanup_pending_uploads_exact :
      (ttl_seconds now : ℕ) (clock : ℕ → ℕ) (w : SweepWorld S O)
      → ((f : DbFile)
          → files.row w.db f.id ≡ some f
          → f.status ≡ FileStatus.pending
          → f.created_at < now - ttl_seconds * 1000
          → (g : DbFile) × (files.row
                (cleanup_pending_uploads files minio bucket ttl_seconds now clock w).1.db
                f.id
              ≡ some g)
            × DeletedFrom f g)
        × ((k : String)
            → ((f : DbFile)
                → files.row w.db k ≡ some f
                → (f.status ≢ FileStatus.pending) ⊎ (now - ttl_seconds * 1000 ≤ f.created_at))
            → files.row (cleanup_pending_uploads files minio bucket ttl_seconds now clock w).1.db k
              ≡ files.row w.db k)
  unfolding cleanup_pending_uploads
  cleanup_pending_uploads_exact ttl_seconds now clock w =
      let cutoff = now - ttl_seconds * 1000 in
      let expired = files.find_expired_pending cutoff w.db in
      (
        λ f found pending old.
            sweep_pending_hit expired 0 clock w f
              ((files.Elem-find_expired_pending cutoff w.db f).1 (found, pending, old)) found,
        λ k spared. sweep_pending_other expired 0 clock w k (λ x m same.
            let (found, pending, old) = (files.Elem-find_expired_pending cutoff w.db x).0 m in
            ground (arith, spared x (rw (← same) found), pending, old)),
      )
