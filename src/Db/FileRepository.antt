-- ===== src/Db/FileRepository.antt =====
-- packages/db/src/repositories/FileRepository.ts: the class, its methods as functions on the
-- state of the database.
pub mod Laws
use file_processing_platform.Common.{
  ℕ, ◌-◌, ◌*◌, String, Bool, true, not, ◌&&◌, ◌||◌, Option, none, some, List, [], ◌∷◌, ◌==◌, ltb,
  if◌then◌else◌, concat,
}
use file_processing_platform.Common.Lists.{take, drop, head?}
use file_processing_platform.Schema.{
  DbUser, DbFile, NewFile, FileStatus, file_status_eq, DbJob, JobStatus, job_status_eq,
}
use file_processing_platform.Db.Sql.{SqlTable}
use file_processing_platform.Db.Tables.{Tables, is_none, is_empty}
use file_processing_platform.Db.Changes.{
  new_file, set_deleted, set_ready, is_cascaded, is_unlinked, forget_output,
}
use file_processing_platform.Db.Files.{ListOptions, Listing, is_users_file, is_users_pending}

module _ {U F J : Type 0} (users : SqlTable U DbUser (λ u. u.id))
    (files : SqlTable F DbFile (λ f. f.id)) (jobs : SqlTable J DbJob (λ j. j.id))
    (ilike : String → String → Bool) where
  unfoldable pub create : NewFile → ℕ → Tables U F J → DbFile × Tables U F J
  create d now db =
      let (file, files') = files.insert (new_file d now) db.files in
      (file, record db { files = files' })

  -- `ilike(files.originalName, `%${search}%`)`, where there is a search term that is not empty
  unfoldable pub passes_search : Option String → DbFile → Bool
  passes_search none f = true
  passes_search (some term) f =
      if term == "" then true else ilike f.original_name (concat ("%" ∷ term ∷ "%" ∷ []))

  -- `and(...conditions)`
  unfoldable pub is_listed : String → Option String → DbFile → Bool
  unfolding passes_search
  is_listed user_id query f =
      f.user_id == user_id
      && not (file_status_eq f.status FileStatus.deleted)
      && passes_search query f

  unfoldable pub find_all_by_user : String → ListOptions → Tables U F J → Listing DbFile
  find_all_by_user user_id opts db =
      let offset = (opts.page - 1) * opts.limit in
      let chosen = is_listed user_id opts.search in
      record {
        rows =
            take opts.limit (
              drop offset
                (files.select_desc chosen (λ f. f.created_at) opts.limit offset db.files));
        total = files.count chosen db.files;
      }

  unfoldable pub find_by_id : String → String → Tables U F J → Option DbFile
  find_by_id user_id file_id db =
      head? (take 1 (files.select (is_users_file user_id file_id) db.files))

  unfoldable pub soft_delete : String → String → ℕ → Tables U F J → Option DbFile × Tables U F J
  soft_delete user_id file_id now db =
      let (changed, files') =
        files.update (is_users_file user_id file_id) (set_deleted now) db.files in
      (head? changed, record db { files = files' })

  unfoldable pub mark_ready : String → String → ℕ → Tables U F J → Option DbFile × Tables U F J
  mark_ready user_id file_id now db =
      let (changed, files') =
        files.update (is_users_pending user_id file_id) (set_ready now) db.files in
      (head? changed, record db { files = files' })

  unfoldable pub find_expired_pending : ℕ → Tables U F J → List DbFile
  find_expired_pending before db =
      files.select (λ f. file_status_eq f.status FileStatus.pending && ltb f.created_at before)
        db.files

  -- `leftJoin(users, eq(files.userId, users.id))` with `isNull(users.id)`: no user has the id
  unfoldable pub is_guest : Tables U F J → String → Bool
  is_guest db user_id = is_none (users.row db.users user_id)

  -- the subquery under `notExists`
  unfoldable pub jobs_using : Tables U F J → String → List DbJob
  jobs_using db file_id =
      jobs.select
        (λ j.
          j.file_id == file_id
          && (job_status_eq j.status JobStatus.pending || job_status_eq j.status JobStatus.active))
        db.jobs

  unfoldable pub find_expired_guest_files : ℕ → Tables U F J → List DbFile
  find_expired_guest_files before db =
      files.select
        (λ f.
          is_guest db f.user_id
          && file_status_eq f.status FileStatus.ready
          && ltb f.updated_at before
          && is_empty (jobs_using db f.id))
        db.files

  -- The `delete`, and what the foreign keys of schema/jobs.ts make of it.
  unfoldable pub hard_delete : String → String → Tables U F J → Tables U F J
  hard_delete user_id file_id db =
      let (removed, files') = files.delete (is_users_file user_id file_id) db.files in
      let gone = not (is_empty removed) in
      let kept = (jobs.delete (is_cascaded gone file_id) db.jobs).1 in
      record db {
        files = files';
        jobs = (jobs.update (is_unlinked gone file_id) forget_output kept).1;
      }
