-- ===== src/Api/FileService/Confirm.antt =====
-- Confirming an upload: `FileService.confirmUpload`.
use file_processing_platform.Common.{
  ℕ, String, ◌≡◌, ap, sym, ◌∙◌, ◌≢◌, ◌⊎◌, ◌↔◌, true, inl, inr, some, ◌==◌, eq_iff, arith,
  Option-cases, keep_if, map_some,
}
use file_processing_platform.Common.Exec.{ok, err}
use file_processing_platform.Errors.{Exception}
use file_processing_platform.Schema.{DbFile, FileStatus, file_status_eq}
use file_processing_platform.Db.Changes.{set_ready}
use file_processing_platform.Db.Files.{FileRepo, is_users_file, is_users_pending}
use file_processing_platform.Api.Platform.{Storage, Runtime, Config, UrlParser}
use file_processing_platform.Api.FileService.{confirm_upload}

module _ {S : Type 0} (files : FileRepo S) (storage : Storage) (runtime : Runtime)
    (urls : UrlParser) (config : Config) where
  -- A file that is ready already is returned, and nothing is written.
  confirm_upload-ready :
      (user_id file_id : String) (now : ℕ) (s : S) (f : DbFile)
      → files.row s file_id ≡ some f
      → f.user_id ≡ user_id
      → f.status ≡ FileStatus.ready
      → confirm_upload files storage runtime urls config user_id file_id now s ≡ (ok f, s)
  unfolding confirm_upload
  confirm_upload-ready user_id file_id now s f found own is_ready = ground (
    arith,
    files.find_by_id_lem user_id file_id s,
    eq_iff f.user_id user_id,
    eq_iff f.id file_id,
    files.row_id s file_id f,
  )

  module _ (user_id file_id : String) (now : ℕ) (s : S) where
    -- A file that is confirmed belongs to the caller and is ready afterwards. If it was pending,
    -- storage holds an object of exactly the reserved size under its path, and the row is the old
    -- one with the new status; if it was ready, nothing has changed.
    pub confirm_upload-ok :
        (f : DbFile)
        → (confirm_upload files storage runtime urls config user_id file_id now s).0 ≡ ok f
        → (f.user_id ≡ user_id)
          × (f.status ≡ FileStatus.ready)
          × ((files.row s file_id ≡ some f)
                × ((confirm_upload files storage runtime urls config user_id file_id now s).1 ≡ s)
              ⊎ ((old : DbFile) × (files.row s file_id ≡ some old)
                  × (old.status ≡ FileStatus.pending)
                  × (f ≡ set_ready now old)
                  × (storage.stat_object config.bucket old.storage_path ≡ some old.size)))
    unfolding confirm_upload
    confirm_upload-ok f e = elim (Option-cases (files.row s file_id)) [
      | inl missing ↦ absurd (ground (arith, missing, files.find_by_id_lem user_id file_id s))
      | inr (old, found) ↦
          elim (Option-cases
            (keep_if (λ f. file_status_eq f.status FileStatus.pending) (some old))) [
              | inl settled ↦ (
                ground (arith, found, owned, same old),
                ground (arith, found, owned, same old),
                inl (
                  ground (arith, found, owned, same old),
                  ground (arith, found, owned, same old),
                ),
              )
              | inr (f', pending) ↦ (
                ground (arith, found, owned, marked, same old),
                ground (arith, found, owned, marked, same old),
                inr (
                  old,
                  found,
                  ground (arith, found, owned, marked, same old),
                  ground (arith, found, owned, marked, same old),
                  ground (arith, found, owned, marked, same old),
                ),
              )
            ]
    ]
      where
        owned :
            files.find_by_id user_id file_id s
            ≡ keep_if (is_users_file user_id file_id) (files.row s file_id)
        owned = files.find_by_id_lem user_id file_id s

        marked :
            (files.mark_ready user_id file_id now s).0
            ≡ map_some
                (set_ready now)
                (keep_if (is_users_pending user_id file_id) (files.row s file_id))
        marked = files.mark_ready_returns user_id file_id now s

        same : (old : DbFile) → ((old.user_id == user_id) ≡ true) ↔ (old.user_id ≡ user_id)
        same old = eq_iff old.user_id user_id

    -- A pending file of the caller whose object has the reserved size is confirmed: the call returns
    -- the row with status ready, and that row is in the database afterwards.
    pub confirm_upload-accepts :
        (old : DbFile)
        → files.row s file_id ≡ some old
        → old.user_id ≡ user_id
        → old.status ≡ FileStatus.pending
        → storage.stat_object config.bucket old.storage_path ≡ some old.size
        → ((confirm_upload files storage runtime urls config user_id file_id now s).0
            ≡ ok (set_ready now old))
          × (files.row
                (confirm_upload files storage runtime urls config user_id file_id now s).1
                file_id
              ≡ some (set_ready now old))
    unfolding confirm_upload
    confirm_upload-accepts old found own pending stat = (
      ground (
        arith,
        files.find_by_id_lem user_id file_id s,
        files.mark_ready_returns user_id file_id now s,
        eq_iff old.user_id user_id,
        eq_iff old.id file_id,
        files.row_id s file_id old,
      ),
      ground (
        arith,
        files.find_by_id_lem user_id file_id s,
        files.mark_ready_returns user_id file_id now s,
        files.row-mark_ready user_id file_id now s file_id,
        eq_iff old.user_id user_id,
        eq_iff old.id file_id,
        files.row_id s file_id old,
      ),
    )

    row-confirm_upload :
        (f : DbFile)
        → (confirm_upload files storage runtime urls config user_id file_id now s).0 ≡ ok f
        → files.row
            (confirm_upload files storage runtime urls config user_id file_id now s).1
            file_id
          ≡ some f
    row-confirm_upload f e = elim ((confirm_upload-ok f e).2) [
      | inl (found, kept) ↦ rw kept found
      | inr (old, found, pending, same, stat) ↦
          (confirm_upload-accepts old found (ground (arith, same, (confirm_upload-ok f e).0))
            pending stat).1
          ∙ ap some (sym same)
    ]

    -- Confirming twice is confirming once: after a confirmation that returned a file, another one,
    -- at any later time, returns the same file and writes nothing.
    confirm_upload_idempotent :
        (f : DbFile) (later : ℕ)
        → (confirm_upload files storage runtime urls config user_id file_id now s).0 ≡ ok f
        → confirm_upload files storage runtime urls config user_id file_id later
            (confirm_upload files storage runtime urls config user_id file_id now s).1
          ≡ (ok f, (confirm_upload files storage runtime urls config user_id file_id now s).1)
    confirm_upload_idempotent f later e =
        let (own, is_ready, _) = confirm_upload-ok f e in
        confirm_upload-ready user_id file_id later _ f (row-confirm_upload f e) own is_ready

    -- Whatever the outcome, the rows of the other files are left as they were, and so is every row
    -- when the call throws.
    confirm_upload_frame :
        (j : String)
        → (j ≢ file_id)
          ⊎ ((x : Exception) × ((confirm_upload files storage runtime urls config user_id file_id
                  now s).0
                ≡ err x))
        → files.row (confirm_upload files storage runtime urls config user_id file_id now s).1 j
          ≡ files.row s j
    unfolding confirm_upload
    confirm_upload_frame j h = elim (Option-cases (files.row s j)) [
      | inl missing ↦ ground (arith, missing, files.row-mark_ready user_id file_id now s j)
      | inr (old, found) ↦ ground (
        arith,
        found,
        files.row_id s j old found,
        eq_iff old.id file_id,
        files.find_by_id_lem user_id file_id s,
        files.mark_ready_returns user_id file_id now s,
        files.row-mark_ready user_id file_id now s j,
      )
    ]
