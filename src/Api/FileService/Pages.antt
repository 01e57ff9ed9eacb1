-- ===== src/Api/FileService/Pages.antt =====
-- Pages: `FileService.list`.
use file_processing_platform.Common.{ℕ, zero, suc, String, Option, List, [], ◌++◌}
use file_processing_platform.Common.Lists.{IsStrict}
use file_processing_platform.Common.Exec.{Result, ok, err}
use file_processing_platform.Schema.{DbFile}
use file_processing_platform.Db.Files.{FileRepo}
use file_processing_platform.Api.Platform.{Storage, Runtime, Config, UrlParser}
use file_processing_platform.Api.FileService.{list, Paginated}

-- The rows of a successful answer.
abbrev pub rows_of : {R : Type 0} → Result (Paginated R) → List R
rows_of (ok page) = page.rows
rows_of (err e) = []

module _ {S : Type 0} (files : FileRepo S) (storage : Storage) (runtime : Runtime)
    (urls : UrlParser) (config : Config) where
  module _ (user_id : String) (limit : ℕ) (query : Option String) (s : S) where
    -- The rows of the pages 1 to `count`, one page behind the other.
    abbrev pub pages : ℕ → List DbFile
    pages zero = []
    pages (suc count) =
        pages count
        ++ rows_of
            (list files storage runtime urls config user_id
              (record { page = suc count; limit = limit; search = query }) s).0

    -- No two of the rows that the search selects were created at the same time.
    abbrev pub AreOrdered : Type 0
    AreOrdered = (l o : ℕ) → IsStrict (λ f. f.created_at) (files.listed user_id query l o s)
