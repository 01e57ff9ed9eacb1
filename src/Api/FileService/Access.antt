-- ===== src/Api/FileService/Access.antt =====
-- Reading and deleting a file: `FileService.findById`, `delete` and `getDownloadStream`.
use file_processing_platform.Common.{
  ℕ, String, ◌≡◌, ◌≢◌, ◌↔◌, inl, inr, some, none, eq_iff, arith, Option-cases,
}
use file_processing_platform.Common.Exec.{ok, err}
use file_processing_platform.Errors.{conflict, not_found}
use file_processing_platform.Schema.{DbFile, FileStatus}
use file_processing_platform.Db.Changes.{set_deleted}
use file_processing_platform.Db.Files.{FileRepo}
use file_processing_platform.Api.Platform.{Storage, Runtime, Config, UrlParser}
use file_processing_platform.Api.FileService.{
  find_by_id, delete, confirm_upload, get_download_stream,
}

module _ {S : Type 0} (files : FileRepo S) (storage : Storage) (runtime : Runtime)
    (urls : UrlParser) (config : Config) where
  -- A file is found exactly when its row is there, belongs to the caller and is not deleted.
  find_by_id_iff :
      (user_id file_id : String) (s : S) (f : DbFile)
      → ((find_by_id files storage runtime urls config user_id file_id s).0 ≡ ok f)
        ↔ ((files.row s file_id ≡ some f) × (f.user_id ≡ user_id) × (f.status ≢ FileStatus.deleted))
  unfolding find_by_id
  find_by_id_iff user_id file_id s f = elim (Option-cases (files.row s file_id)) [
    | inl missing ↦ ground (arith, missing, files.find_by_id_lem user_id file_id s)
    | inr (old, found) ↦ ground (
      arith,
      found,
      files.find_by_id_lem user_id file_id s,
      eq_iff old.user_id user_id,
      eq_iff old.id file_id,
      files.row_id s file_id old found,
    )
  ]

  -- Deleting a live file of the caller keeps its row with status deleted; from then on nobody
  -- finds it, and deleting it again is refused as a conflict that writes nothing.
  delete_hides :
      (user_id file_id : String) (now : ℕ) (s : S) (f : DbFile)
      → files.row s file_id ≡ some f
      → f.user_id ≡ user_id
      → f.status ≢ FileStatus.deleted
      → ((delete files storage runtime urls config user_id file_id now s).0 ≡ ok tt)
        × (files.row (delete files storage runtime urls config user_id file_id now s).1 file_id
            ≡ some (set_deleted now f))
        × ((viewer : String)
            → (find_by_id files storage runtime urls config viewer file_id
                (delete files storage runtime urls config user_id file_id now s).1).0
              ≡ err (not_found "FILE_NOT_FOUND" "File not found"))
        × ((later : ℕ)
            → delete files storage runtime urls config user_id file_id later
                (delete files storage runtime urls config user_id file_id now s).1
              ≡ (
                err (conflict "FILE_ALREADY_DELETED" "File is already deleted"),
                (delete files storage runtime urls config user_id file_id now s).1,
              ))
  unfolding find_by_id delete
  delete_hides user_id file_id now s f found own live =
      let t = (files.soft_delete user_id file_id now s).1 in
      let first : files.find_by_id user_id file_id s ≡ some f = ground (
        arith,
        found,
        files.find_by_id_lem user_id file_id s,
        eq_iff f.user_id user_id,
        eq_iff f.id file_id,
        files.row_id s file_id f found,
      ) in
      let gone : files.row t file_id ≡ some (set_deleted now f) = ground (
        arith,
        found,
        files.row-soft_delete user_id file_id now s file_id,
        eq_iff f.user_id user_id,
        eq_iff f.id file_id,
        files.row_id s file_id f found,
      ) in
      (
        ground (arith, first),
        ground (arith, first, gone),
        λ viewer. ground (arith, first, gone, files.find_by_id_lem viewer file_id t),
        λ later. ground (
          arith,
          first,
          gone,
          files.find_by_id_lem user_id file_id t,
          eq_iff f.user_id user_id,
          eq_iff f.id file_id,
          files.row_id s file_id f found,
        ),
      )

  -- Whoever does not own a file gets, from every call, the answer for a file that does not exist,
  -- and the database stays as it is.
  pub stranger_sees_nothing :
      (user_id file_id : String) (now : ℕ) (s : S)
      → ((f : DbFile) → files.row s file_id ≡ some f → f.user_id ≢ user_id)
      → (find_by_id files storage runtime urls config user_id file_id s
          ≡ (err (not_found "FILE_NOT_FOUND" "File not found"), s))
        × (delete files storage runtime urls config user_id file_id now s
            ≡ (err (not_found "FILE_NOT_FOUND" "File not found"), s))
        × (confirm_upload files storage runtime urls config user_id file_id now s
            ≡ (err (not_found "FILE_NOT_FOUND" "File not found"), s))
        × (get_download_stream files storage runtime urls config user_id file_id s
            ≡ (err (not_found "FILE_NOT_FOUND" "File not found"), s))
  unfolding find_by_id delete confirm_upload get_download_stream
  stranger_sees_nothing user_id file_id now s foreign =
      let hidden : files.find_by_id user_id file_id s ≡ none = unseen in
      (
        ground (arith, hidden),
        ground (arith, hidden),
        ground (arith, hidden),
        ground (arith, hidden),
      )
    where
      unseen : files.find_by_id user_id file_id s ≡ none
      unseen = elim (Option-cases (files.row s file_id)) [
        | inl missing ↦ ground (arith, missing, files.find_by_id_lem user_id file_id s)
        | inr (f, found) ↦ ground (
          arith,
          found,
          foreign f found,
          files.find_by_id_lem user_id file_id s,
          eq_iff f.user_id user_id,
        )
      ]

  -- A download hands out a file that `findById` finds, and the bytes stored under its path.
  get_download_stream-ok :
      (user_id file_id : String) (s : S) (stream : String) (f : DbFile)
      → (get_download_stream files storage runtime urls config user_id file_id s).0 ≡ ok (stream, f)
      → (files.row s file_id ≡ some f)
        × (f.user_id ≡ user_id)
        × (f.status ≢ FileStatus.deleted)
        × (storage.get_object config.bucket f.storage_path ≡ some stream)
  unfolding get_download_stream
  get_download_stream-ok user_id file_id s stream f e = elim (Option-cases (files.row s file_id)) [
    | inl missing ↦ absurd (ground (arith, missing, files.find_by_id_lem user_id file_id s))
    | inr (old, found) ↦
        ground (arith, found, files.find_by_id_lem user_id file_id s, eq_iff old.user_id user_id)
  ]
