-- ===== src/Db/JobRepository/Laws.antt =====
-- The job repository keeps the promises of `IJobRepository`, for any table engine.
use file_processing_platform.Common.{
  ℕ, ◌-◌, ◌*◌, String, ◌≡◌, refl, sym, ap, ◌∙◌, not, map_some, if◌then◌else◌, ◌↔◌, Bool, true, leb,
  Option, some, List, [], ◌∷◌, eq_iff, arith, keep_if,
}
use file_processing_platform.Common.Lists.{Elem, head?, head?-take}
use file_processing_platform.Schema.{DbUser, DbFile, DbJob, JobStatus}
use file_processing_platform.Db.Sql.{SqlTable}
use file_processing_platform.Db.Sql.Lookup.{Pins, head?-select, head?-update, head?-delete}
use file_processing_platform.Db.Tables.{Tables, is_none, is_empty}
use file_processing_platform.Db.Changes.{
  new_job, set_status, set_cancelled, set_progress, after_removal, is_cascaded, is_unlinked,
  forget_output,
}
use file_processing_platform.Db.FileRepository.{
  create as create_file, soft_delete, mark_ready, hard_delete, find_by_id as find_file,
}
use file_processing_platform.Db.FileRepository.Laws.{
  file_repo, Pins-users_file, find_by_id_keeps as find_file_keeps,
}
use file_processing_platform.Db.Files.{is_users_file}
use file_processing_platform.Db.Jobs.{
  JobRepo, has_job_id, is_users_job, is_cancellable, has_status, has_file,
}
use file_processing_platform.Db.JobRepository.{
  is_listed, create, find_all_by_user, find_by_id, update_status, cancel, update_progress,
}

pub Pins-users_job : (u k : String) → Pins (λ j. j.id) (is_users_job u k) k
Pins-users_job u k j h = ground (arith, eq_iff j.id k)

pub Pins-cancellable : (u k : String) → Pins (λ j. j.id) (is_cancellable u k) k
Pins-cancellable u k j h = ground (arith, eq_iff j.id k)

is_empty-head? : {R : Type 0} (xs : List R) → is_empty xs ≡ is_none (head? xs)
is_empty-head? [] = refl
is_empty-head? (x ∷ xs) = refl

module _ {U F J : Type 0} (users : SqlTable U DbUser (λ u. u.id))
    (files : SqlTable F DbFile (λ f. f.id)) (jobs : SqlTable J DbJob (λ j. j.id))
    (ilike : String → String → Bool) where
  pub find_by_id_keeps :
      (u k : String) (db : Tables U F J)
      → find_by_id jobs u k db ≡ keep_if (is_users_job u k) (jobs.row db.jobs k)
  unfolding find_by_id
  find_by_id_keeps u k db =
      head?-take (jobs.select (is_users_job u k) db.jobs)
      ∙ head?-select jobs (is_users_job u k) k db.jobs (Pins-users_job u k)

  pub Elem-listed_lem :
      (u : String) (st : Option JobStatus) (f : Option String) (l o : ℕ) (db : Tables U F J)
      (j : DbJob)
      → Elem j (jobs.select_desc (is_listed u st f) (λ j. j.created_at) l o db.jobs) ↔ (
          (jobs.row db.jobs j.id ≡ some j)
          × (j.user_id ≡ u)
          × (has_status st j ≡ true)
          × (has_file f j ≡ true))
  unfolding is_listed
  Elem-listed_lem u st f l o db j =
      let same = jobs.Elem-select_desc (is_listed u st f) (λ j. j.created_at) l o db.jobs j in
      let law = jobs.Elem-select (is_listed u st f) db.jobs j in
      (
        λ m.
            let (at, test) = law.0 (same.0 m) in
            (at, ground (arith, eq_iff j.user_id u), ground arith, ground arith),
        λ h. same.1 (law.1 (h.0, ground (arith, eq_iff j.user_id u, h.1, h.2, h.3))),
      )

  removed_one :
      (u k : String) (db : Tables U F J)
      → not (is_empty (files.delete (is_users_file u k) db.files).0)
        ≡ not (is_none (find_file users files jobs ilike u k db))
  removed_one u k db = ap not (
      is_empty-head? (files.delete (is_users_file u k) db.files).0
      ∙ ap is_none (
          head?-delete files (is_users_file u k) k db.files (Pins-users_file u k)
          ∙ sym (find_file_keeps users files jobs ilike u k db)))

  pub row-removed :
      (u k : String) (db : Tables U F J) (j : String)
      → jobs.row (hard_delete users files jobs ilike u k db).jobs j
        ≡ after_removal
            (not (is_none (find_file users files jobs ilike u k db)))
            k
            (jobs.row db.jobs j)
  unfolding hard_delete
  row-removed u k db j =
      let gone = not (is_empty (files.delete (is_users_file u k) db.files).0) in
      let kept = (jobs.delete (is_cascaded gone k) db.jobs).1 in
      jobs.row-update (is_unlinked gone k) forget_output kept j (λ r. refl)
      ∙ ap (map_some (λ r. if is_unlinked gone k r then forget_output r else r))
          (jobs.row-delete (is_cascaded gone k) db.jobs j)
      ∙ ap (λ b. after_removal b k (jobs.row db.jobs j)) (removed_one u k db)

  -- The repository of the program, behind its interface.
  unfoldable pub job_repo : JobRepo (Tables U F J) (file_repo users files jobs ilike)
  unfolding create find_all_by_user update_status cancel update_progress file_repo create_file
      soft_delete mark_ready
  job_repo = record {
    row = λ db k. jobs.row db.jobs k;
    next_id = λ db. jobs.next_id db.jobs;
    listed = λ u st f l o db. jobs.select_desc (is_listed u st f) (λ j. j.created_at) l o db.jobs;
    create = create jobs;
    find_all_by_user = find_all_by_user jobs;
    find_by_id = find_by_id jobs;
    update_status = update_status jobs;
    cancel = cancel jobs;
    update_progress = update_progress jobs;
    row_id = λ db k j h. jobs.row_key db.jobs k j h;
    row-next_id = λ db. jobs.row-next_id db.jobs;
    create_returns = λ d n db. jobs.insert_returning (new_job d n) db.jobs;
    row-create = λ d n db k. jobs.row-insert (new_job d n) db.jobs k refl;
    find_by_id_lem = find_by_id_keeps;
    row-update_status =
        λ k st x n db j. jobs.row-update (has_job_id k) (set_status st x n) db.jobs j (λ r. refl);
    cancel_returns = λ u k n db.
        head?-update jobs (is_cancellable u k) (set_cancelled n) k db.jobs (Pins-cancellable u k);
    row-cancel =
        λ u k n db j. jobs.row-update (is_cancellable u k) (set_cancelled n) db.jobs j (λ r. refl);
    row-update_progress =
        λ k p n db j. jobs.row-update (has_job_id k) (set_progress p n) db.jobs j (λ r. refl);
    Elem-listed = Elem-listed_lem;
    listed-IsDescending = λ u st f l o db.
        jobs.select_desc-IsDescending (is_listed u st f) (λ j. j.created_at) l o db.jobs;
    find_all_by_user_lem = λ u o db.
        rw
          (jobs.count-select_desc (is_listed u o.status o.file_id) (λ j. j.created_at) o.limit
            ((o.page - 1) * o.limit) db.jobs)
          refl;
    accepts = λ d. leb (jobs.char_length d.type) 63;
    job_row-row = λ db k. refl;
    files-create = λ d n db. refl;
    files-update_status = λ k st x n db. refl;
    files-cancel = λ u k n db. refl;
    files-update_progress = λ k p n db. refl;
    row-files_create = λ d n db. refl;
    row-files_soft_delete = λ u k n db. refl;
    row-files_mark_ready = λ u k n db. refl;
    row-files_hard_delete = row-removed;
  }
