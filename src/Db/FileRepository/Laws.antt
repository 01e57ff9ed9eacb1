-- ===== src/Db/FileRepository/Laws.antt =====
-- The file repository keeps the promises of `IFileRepository`, for any table engine.
use file_processing_platform.Common.{
  ℕ, ◌-◌, ◌*◌, ◌<◌, String, ◌≡◌, refl, ap, ◌∙◌, ◌↔◌, Bool, true, false, ◌&&◌, Option, some, List,
  [], ◌∷◌, eq_iff, arith, keep_if, ltb, leb, ne_of_eq, none, inl, inr, Bool-cases, ◌==◌, ◌||◌,
}
use file_processing_platform.Common.Lists.{Elem, take, drop, head?-take, length}
use file_processing_platform.Schema.{
  DbUser, DbFile, FileStatus, file_status_eq, DbJob, JobStatus, job_status_eq,
}
use file_processing_platform.Db.Sql.{SqlTable}
use file_processing_platform.Db.Sql.Lookup.{Pins, head?-select, head?-update}
use file_processing_platform.Db.Tables.{Tables, is_empty, is_none}
use file_processing_platform.Db.Changes.{new_file, set_deleted, set_ready}
use file_processing_platform.Db.Files.{
  FileRepo, ListOptions, is_users_file, is_users_pending, IsIdle, IsMatch,
}
use file_processing_platform.Db.FileRepository.{
  create, passes_search, is_listed, find_all_by_user, find_by_id, soft_delete, mark_ready,
  find_expired_pending, is_guest, jobs_using, find_expired_guest_files, hard_delete,
}

pub Pins-users_file : (u k : String) → Pins (λ f. f.id) (is_users_file u k) k
Pins-users_file u k f h = ground (arith, eq_iff f.id k)

pub Pins-users_pending : (u k : String) → Pins (λ f. f.id) (is_users_pending u k) k
Pins-users_pending u k f h = ground (arith, eq_iff f.id k)

module _ {U F J : Type 0} (users : SqlTable U DbUser (λ u. u.id))
    (files : SqlTable F DbFile (λ f. f.id)) (jobs : SqlTable J DbJob (λ j. j.id))
    (ilike : String → String → Bool) where
  abbrev pub file_row : Tables U F J → String → Option DbFile
  file_row db k = files.row db.files k

  abbrev pub listed : String → Option String → ℕ → ℕ → Tables U F J → List DbFile
  listed u q l o db =
      files.select_desc (is_listed users files jobs ilike u q) (λ f. f.created_at) l o db.files

  pub find_by_id_keeps :
      (u k : String) (db : Tables U F J)
      → find_by_id users files jobs ilike u k db ≡ keep_if (is_users_file u k) (file_row db k)
  unfolding find_by_id
  find_by_id_keeps u k db =
      head?-take (files.select (is_users_file u k) db.files)
      ∙ head?-select files (is_users_file u k) k db.files (Pins-users_file u k)

  pub Elem-expired_pending :
      (before : ℕ) (db : Tables U F J) (f : DbFile)
      → Elem f (find_expired_pending users files jobs ilike before db)
        ↔ ((file_row db f.id ≡ some f) × (f.status ≡ FileStatus.pending) × (f.created_at < before))
  unfolding find_expired_pending
  Elem-expired_pending before db f =
      let law =
        files.Elem-select
          (λ f. file_status_eq f.status FileStatus.pending && ltb f.created_at before) db.files f in
      (
        λ m. let (at, test) = law.0 m in (at, ground arith, ground arith),
        λ h. law.1 (h.0, ground (arith, h.1, h.2)),
      )

  is_empty_none : (xs : List DbJob) → is_empty xs ≡ true → (j : DbJob) → ¬ (Elem j xs)
  is_empty_none [] e j m = m
  is_empty_none (x ∷ xs) e j m = absurd (ground (arith, e))

  is_empty_of : (xs : List DbJob) → ((j : DbJob) → ¬ (Elem j xs)) → is_empty xs ≡ true
  is_empty_of [] h = refl
  is_empty_of (x ∷ xs) h = absurd (h x (inl refl))

  none_of_is_none : (o : Option DbUser) → is_none o ≡ true → o ≡ none
  none_of_is_none none h = refl
  none_of_is_none (some u) h = absurd (ground (arith, h))

  is_empty-IsIdle :
      (k : String) (db : Tables U F J)
      → (is_empty (jobs_using users files jobs ilike db k) ≡ true) ↔ IsIdle (jobs.row db.jobs) k
  unfolding jobs_using
  is_empty-IsIdle k db =
      let test : DbJob → Bool = λ j.
        j.file_id == k
        && (job_status_eq j.status JobStatus.pending || job_status_eq j.status JobStatus.active) in
      (
        λ e i j found same.
            let none_in = is_empty_none (jobs.select test db.jobs) e j in
            let law = jobs.Elem-select test db.jobs j in
            let at : jobs.row db.jobs j.id ≡ some j =
              ap (jobs.row db.jobs) (jobs.row_key db.jobs i j found) ∙ found in
            let mine : (j.file_id == k) ≡ true = (eq_iff j.file_id k).1 same in
            (
              λ waits. none_in (law.1 (at, rw (mine, waits) refl)),
              λ runs. none_in (law.1 (at, rw (mine, runs) refl)),
            ),
        λ idle. is_empty_of (jobs.select test db.jobs) (λ j m.
            let (at, hit) = (jobs.Elem-select test db.jobs j).0 m in
            let rest = idle j.id j at (ground (arith, hit, eq_iff j.file_id k)) in
            ground (arith, hit, rest)),
      )

  pub Elem-expired_guest :
      (before : ℕ) (db : Tables U F J) (f : DbFile)
      → Elem f (find_expired_guest_files users files jobs ilike before db) ↔ (
          (file_row db f.id ≡ some f)
          × (f.status ≡ FileStatus.ready)
          × (f.updated_at < before)
          × (users.row db.users f.user_id ≡ none)
          × IsIdle (jobs.row db.jobs) f.id)
  unfolding find_expired_guest_files is_guest
  Elem-expired_guest before db f =
      let guest = is_guest users files jobs ilike db f.user_id in
      let used = is_empty (jobs_using users files jobs ilike db f.id) in
      let law =
        files.Elem-select
          (λ f.
            is_guest users files jobs ilike db f.user_id
            && file_status_eq f.status FileStatus.ready
            && ltb f.updated_at before
            && is_empty (jobs_using users files jobs ilike db f.id))
          db.files f in
      (
        λ m.
            let (at, test) = law.0 m in
            let unused = (is_empty-IsIdle f.id db).0 (ground arith) in
            (at, ground arith, ground arith, none_of_is_none _ (ground arith), unused),
        λ h.
            let unused = (is_empty-IsIdle f.id db).1 h.4 in
            let unknown : is_none (users.row db.users f.user_id) ≡ true = rw (h.3) refl in
            law.1 (h.0, ground (arith, h.1, h.2, unknown, unused)),
      )

  passes_search-IsMatch :
      (q : Option String) (f : DbFile)
      → (passes_search users files jobs ilike q f ≡ true) ↔ IsMatch ilike q f
  unfolding passes_search
  passes_search-IsMatch none f = (λ e. tt, λ m. refl)
  passes_search-IsMatch (some term) f = elim (Bool-cases (term == "")) [
    | inl blank ↦ (λ e named. absurd (named ((eq_iff term "").0 blank)), λ m. rw blank refl)
    | inr named ↦ (
      λ e other. ground (arith, e, named),
      λ m. let hit = m (ne_of_eq term "" named) in rw (named, hit) refl,
    )
  ]

  pub Elem-listed_lem :
      (u : String) (q : Option String) (l o : ℕ) (db : Tables U F J) (f : DbFile)
      → Elem f (listed u q l o db) ↔ (
          (file_row db f.id ≡ some f)
          × (f.user_id ≡ u)
          × (file_status_eq f.status FileStatus.deleted ≡ false)
          × IsMatch ilike q f)
  unfolding is_listed
  Elem-listed_lem u q l o db f =
      let chosen = is_listed users files jobs ilike u q in
      let same = files.Elem-select_desc chosen (λ f. f.created_at) l o db.files f in
      let law = files.Elem-select chosen db.files f in
      (
        λ m.
            let (at, test) = law.0 (same.0 m) in
            let hit = (passes_search-IsMatch q f).0 (ground arith) in
            (at, ground (arith, eq_iff f.user_id u), ground arith, hit),
        λ h.
            let hit = (passes_search-IsMatch q f).1 h.3 in
            same.1 (law.1 (h.0, ground (arith, eq_iff f.user_id u, h.1, h.2, hit))),
      )

  pub find_all_pages :
      (u : String) (o : ListOptions) (db : Tables U F J)
      → find_all_by_user users files jobs ilike u o db ≡ record {
        rows =
            take o.limit (
              drop
                ((o.page - 1) * o.limit)
                (listed u o.search o.limit ((o.page - 1) * o.limit) db));
        total = length (listed u o.search o.limit ((o.page - 1) * o.limit) db);
      }
  unfolding find_all_by_user
  find_all_pages u o db =
      rw
        (files.count-select_desc (is_listed users files jobs ilike u o.search) (λ f. f.created_at)
          o.limit ((o.page - 1) * o.limit) db.files)
        refl

  -- The repository of the program, behind its interface.
  unfoldable pub file_repo : FileRepo (Tables U F J)
  unfolding create soft_delete mark_ready hard_delete
  file_repo = record {
    row = file_row;
    next_id = λ db. files.next_id db.files;
    listed = listed;
    accepts =
        λ d. leb (files.char_length d.original_name) 255 && leb (files.char_length d.mime_type) 127;
    ilike = ilike;
    user_row = λ db k. users.row db.users k;
    job_row = λ db k. jobs.row db.jobs k;
    create = create users files jobs ilike;
    find_all_by_user = find_all_by_user users files jobs ilike;
    find_by_id = find_by_id users files jobs ilike;
    soft_delete = soft_delete users files jobs ilike;
    mark_ready = mark_ready users files jobs ilike;
    find_expired_pending = find_expired_pending users files jobs ilike;
    find_expired_guest_files = find_expired_guest_files users files jobs ilike;
    hard_delete = hard_delete users files jobs ilike;
    row_id = λ db k f h. files.row_key db.files k f h;
    row-next_id = λ db. files.row-next_id db.files;
    create_returns = λ d n db. files.insert_returning (new_file d n) db.files;
    row-create = λ d n db k. files.row-insert (new_file d n) db.files k refl;
    find_by_id_lem = find_by_id_keeps;
    soft_delete_returns = λ u k n db.
        head?-update files (is_users_file u k) (set_deleted n) k db.files (Pins-users_file u k);
    row-soft_delete =
        λ u k n db j. files.row-update (is_users_file u k) (set_deleted n) db.files j (λ r. refl);
    mark_ready_returns = λ u k n db.
        head?-update files (is_users_pending u k) (set_ready n) k db.files (Pins-users_pending u k);
    row-mark_ready =
        λ u k n db j. files.row-update (is_users_pending u k) (set_ready n) db.files j (λ r. refl);
    row-hard_delete = λ u k db j. files.row-delete (is_users_file u k) db.files j;
    Elem-find_expired_pending = Elem-expired_pending;
    Elem-find_expired_guest_files = Elem-expired_guest;
    Elem-listed = Elem-listed_lem;
    listed-IsDescending = λ u q l o db.
        files.select_desc-IsDescending (is_listed users files jobs ilike u q) (λ f. f.created_at) l
          o db.files;
    find_all_by_user_lem = find_all_pages;
  }
