-- ===== src/Db/Files.antt =====
-- `IFileRepository` of packages/db/src/repositories/FileRepository.ts: the operations, and what
-- each one promises about the rows of the table. `S` is the state of the database, and the clock
-- is an argument of the operations that read it.
use file_processing_platform.Common.{
  ℕ, ◌-◌, ◌*◌, ◌<◌, String, ◌≡◌, ◌≢◌, ◌↔◌, concat, Bool, true, false, ◌&&◌, Option, none, some,
  List, [], ◌∷◌, ◌==◌, if◌then◌else◌, keep_if, map_some,
}
use file_processing_platform.Common.Lists.{Elem, take, drop, length, IsDescending}
use file_processing_platform.Schema.{
  DbUser, DbFile, DbJob, NewFile, FileStatus, file_status_eq, JobStatus,
}
use file_processing_platform.Db.Changes.{new_file, set_deleted, set_ready}

pub record ListOptions : Type 0 where
  pub page : ℕ
  pub limit : ℕ
  pub search : Option String

-- `{ data, total }`
pub record Listing (R : Type 0) : Type 0 where
  pub rows : List R
  pub total : ℕ

-- `and(eq(files.id, fileId), eq(files.userId, userId))`
abbrev pub is_users_file : String → String → DbFile → Bool
is_users_file user_id file_id f = f.id == file_id && f.user_id == user_id

abbrev pub is_users_pending : String → String → DbFile → Bool
is_users_pending user_id file_id f =
    f.id == file_id && f.user_id == user_id && file_status_eq f.status FileStatus.pending

-- No pending or active job refers to a file.
abbrev pub IsIdle : (String → Option DbJob) → String → Type 0
IsIdle job_row file_id =
    (k : String) (j : DbJob)
    → job_row k ≡ some j
    → j.file_id ≡ file_id
    → (j.status ≢ JobStatus.pending) × (j.status ≢ JobStatus.active)

-- The name of a file contains a search term, if there is one that is not empty.
abbrev pub IsMatch : (String → String → Bool) → Option String → DbFile → Type 0
IsMatch ilike none f = Unit
IsMatch ilike (some term) f =
    term ≢ "" → ilike f.original_name (concat ("%" ∷ term ∷ "%" ∷ [])) ≡ true

pub record FileRepo (S : Type 0) : Type 0 where
  -- the row with an id
  pub row : S → String → Option DbFile
  -- the id that the next insert draws
  pub next_id : S → String
  -- the texts fit their columns; an insert of any others throws, and nothing is inserted
  pub accepts : NewFile → Bool
  -- all rows of a user that a search selects, newest first, in the order of a query with a limit and
  -- an offset
  pub listed : String → Option String → ℕ → ℕ → S → List DbFile
  -- `ilike`, of a text and a pattern
  pub ilike : String → String → Bool
  -- the rows of the other tables, which the sweep of guest files reads
  pub user_row : S → String → Option DbUser
  pub job_row : S → String → Option DbJob
  pub create : NewFile → ℕ → S → DbFile × S
  pub find_all_by_user : String → ListOptions → S → Listing DbFile
  pub find_by_id : String → String → S → Option DbFile
  pub soft_delete : String → String → ℕ → S → Option DbFile × S
  pub mark_ready : String → String → ℕ → S → Option DbFile × S
  pub find_expired_pending : ℕ → S → List DbFile
  pub find_expired_guest_files : ℕ → S → List DbFile
  pub hard_delete : String → String → S → S
  pub row_id : (s : S) (k : String) (f : DbFile) → row s k ≡ some f → f.id ≡ k
  pub row-next_id : (s : S) → row s (next_id s) ≡ none
  pub create_returns : (d : NewFile) (n : ℕ) (s : S) → (create d n s).0 ≡ new_file d n (next_id s)
  pub row-create :
      (d : NewFile) (n : ℕ) (s : S) (k : String)
      → row (create d n s).1 k
        ≡ (if next_id s == k then some (new_file d n (next_id s)) else row s k)
  pub find_by_id_lem :
      (u k : String) (s : S) → find_by_id u k s ≡ keep_if (is_users_file u k) (row s k)
  pub soft_delete_returns :
      (u k : String) (n : ℕ) (s : S)
      → (soft_delete u k n s).0 ≡ map_some (set_deleted n) (keep_if (is_users_file u k) (row s k))
  pub row-soft_delete :
      (u k : String) (n : ℕ) (s : S) (j : String)
      → row (soft_delete u k n s).1 j
        ≡ map_some (λ f. if is_users_file u k f then set_deleted n f else f) (row s j)
  pub mark_ready_returns :
      (u k : String) (n : ℕ) (s : S)
      → (mark_ready u k n s).0 ≡ map_some (set_ready n) (keep_if (is_users_pending u k) (row s k))
  pub row-mark_ready :
      (u k : String) (n : ℕ) (s : S) (j : String)
      → row (mark_ready u k n s).1 j
        ≡ map_some (λ f. if is_users_pending u k f then set_ready n f else f) (row s j)
  pub row-hard_delete :
      (u k : String) (s : S) (j : String)
      → row (hard_delete u k s) j
        ≡ keep_if (λ f. if is_users_file u k f then false else true) (row s j)
  pub Elem-find_expired_pending :
      (before : ℕ) (s : S) (f : DbFile)
      → Elem f (find_expired_pending before s)
        ↔ ((row s f.id ≡ some f) × (f.status ≡ FileStatus.pending) × (f.created_at < before))
  pub Elem-find_expired_guest_files :
      (before : ℕ) (s : S) (f : DbFile)
      → Elem f (find_expired_guest_files before s) ↔ (
          (row s f.id ≡ some f)
          × (f.status ≡ FileStatus.ready)
          × (f.updated_at < before)
          × (user_row s f.user_id ≡ none)
          × IsIdle (job_row s) f.id)
  pub Elem-listed :
      (u : String) (q : Option String) (l o : ℕ) (s : S) (f : DbFile)
      → Elem f (listed u q l o s) ↔ (
          (row s f.id ≡ some f)
          × (f.user_id ≡ u)
          × (file_status_eq f.status FileStatus.deleted ≡ false)
          × IsMatch ilike q f)
  pub listed-IsDescending :
      (u : String) (q : Option String) (l o : ℕ) (s : S)
      → IsDescending (λ f. f.created_at) (listed u q l o s)
  pub find_all_by_user_lem :
      (u : String) (o : ListOptions) (s : S)
      → find_all_by_user u o s ≡ record {
        rows =
            take o.limit (
              drop ((o.page - 1) * o.limit) (listed u o.search o.limit ((o.page - 1) * o.limit) s));
        total = length (listed u o.search o.limit ((o.page - 1) * o.limit) s);
      }
