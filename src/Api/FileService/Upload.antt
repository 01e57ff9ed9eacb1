-- ===== src/Api/FileService/Upload.antt =====
-- Reserving an upload: `FileService.createUploadUrl`.
use file_processing_platform.Common.{
  true, ℕ, ◌+◌, ◌*◌, ◌≤◌, ◌<◌, String, ◌≡◌, refl, ◌⊎◌, inl, inr, some, none, ◌==◌, arith, concat,
  leb, [], ◌∷◌, Option-cases, Bool-cases, if◌then◌else◌,
}
use file_processing_platform.Common.Exec.{ok, err}
use file_processing_platform.Errors.{AppError, app_error}
use file_processing_platform.Schema.{NewFile, FileStatus}
use file_processing_platform.Db.Changes.{new_file}
use file_processing_platform.Db.Files.{FileRepo}
use file_processing_platform.Api.Platform.{
  Storage, Runtime, Config, UrlParser, PresignedPost, PostPolicy, decimal,
}
use file_processing_platform.Api.FileService.{
  CreateUploadUrlInput, CreateUploadUrlResult, object_key, create_upload_url,
}

module _ {S : Type 0} (files : FileRepo S) (storage : Storage) (runtime : Runtime)
    (urls : UrlParser) (config : Config) where
  -- The values of the row that a reservation inserts.
  abbrev pub reserved : String → CreateUploadUrlInput → String → NewFile
  reserved user_id input uuid = record {
    user_id = user_id;
    original_name = input.filename;
    mime_type = input.mime_type;
    size = input.size;
    storage_path = object_key runtime user_id uuid input.filename;
    status = FileStatus.pending;
  }

  module _ (user_id : String) (input : CreateUploadUrlInput) (uuid : String) (now : ℕ) (s : S) where
    -- A size within the limits, with texts that fit their columns, reserves a row: the state afterwards holds, besides the rows that
    -- were there, a pending row of the user under an id that was unused, whatever storage answers.
    pub create_upload_url-reserves :
        0 < input.size
        → input.size ≤ config.max_file_size_bytes
        → files.accepts (reserved user_id input uuid) ≡ true
        → (files.row s (files.next_id s) ≡ none)
          × ((j : String)
              → files.row
                  (create_upload_url files storage runtime urls config user_id input uuid now s).1
                  j
                ≡ (if files.next_id s == j
                    then some (new_file (reserved user_id input uuid) now (files.next_id s))
                    else files.row s j))
    unfolding create_upload_url
    create_upload_url-reserves pos small fits = (
      files.row-next_id s,
      λ j. ground (arith, files.row-create (reserved user_id input uuid) now s j),
    )

    -- What storage is asked to sign.
    abbrev pub policy : PostPolicy
    policy = record {
      bucket = config.bucket;
      key = object_key runtime user_id uuid input.filename;
      expires = now + config.presigned_url_ttl_seconds * 1000;
      min_length = input.size;
      max_length = input.size;
      content_type = input.mime_type;
    }

    -- A result names the reserved row, and its form fields are those that storage signed for the
    -- row's object key, for exactly the announced size and type, until the end of the time to live.
    pub create_upload_url_result :
        (r : CreateUploadUrlResult)
        → (create_upload_url files storage runtime urls config user_id input uuid now s).0 ≡ ok r
        → (0 < input.size)
          × (input.size ≤ config.max_file_size_bytes)
          × (files.accepts (reserved user_id input uuid) ≡ true)
          × (r.file_id ≡ files.next_id s)
          × (post : PresignedPost) × (storage.presigned_post_policy policy ≡ some post)
          × (r.form_fields ≡ post.form_data)
    unfolding create_upload_url
    create_upload_url_result r e = elim (Option-cases (storage.presigned_post_policy policy)) [
      | inl rejected ↦ absurd (ground (arith, rejected))
      | inr (post, signed) ↦ (
        ground arith,
        ground arith,
        ground arith,
        ground (arith, files.create_returns (reserved user_id input uuid) now s),
        post,
        signed,
        ground (arith, signed),
      )
    ]

    -- A size of zero or above the limit is refused with status 400, and nothing is written.
    create_upload_url-refuses :
        (input.size ≡ 0) ⊎ (config.max_file_size_bytes < input.size)
        → ((e : AppError) × ((create_upload_url files storage runtime urls config user_id input uuid
                now s).0
              ≡ err (app_error e))
            × (e.status_code ≡ 400))
          × ((create_upload_url files storage runtime urls config user_id input uuid now s).1 ≡ s)
    unfolding create_upload_url
    create_upload_url-refuses bad = elim (Bool-cases (leb input.size 0)) [
      | inl empty ↦ (
        (
          record {
            status_code = 400;
            code = "INVALID_FILE_SIZE";
            message = "File size must be greater than 0";
          },
          ground arith,
          refl,
        ),
        ground arith,
      )
      | inr positive ↦ (
        (
          record {
            status_code = 400;
            code = "FILE_TOO_LARGE";
            message = concat (
                "File exceeds the maximum allowed size of "
                ∷ decimal config.max_file_size_bytes
                ∷ " bytes"
                ∷ []);
          },
          ground arith,
          refl,
        ),
        ground arith,
      )
    ]
