-- ===== src/Worker/Consumer/Output.antt =====
-- What a successful conversion leaves behind: the object, its file row, the job's row and the
-- messages.
use file_processing_platform.Common.{
  ℕ, String, ◌≡◌, refl, ap, true, ◌∙◌, none, some, List, [], ◌∷◌, ◌++◌, concat, eq_self, or_else,
}
use mathlib.Core.List.{append_assoc}
use file_processing_platform.Common.Exec.{ok}
use file_processing_platform.Schema.{DbFile, NewFile, DbJob, FileStatus, JobStatus}
use file_processing_platform.Db.Changes.{new_file}
use file_processing_platform.Db.Files.{FileRepo}
use file_processing_platform.Db.Jobs.{JobRepo}
use file_processing_platform.Api.JobService.{JobPayload}
use file_processing_platform.Worker.Platform.{
  ImageFormat, ObjectStore, Sharp, PathModule, WorkerWorld, Message, progress_event,
  completed_event, progress_channel, completed_channel,
}
use file_processing_platform.Worker.Consumer.Rows.{row-status, row-progress, row-finish}
use file_processing_platform.Worker.Processors.{
  process_convert, process_compress, format_config, compress_format, with_progress,
  with_output_file,
}

-- The messages of a conversion that succeeds, in the order in which they are published.
abbrev pub conversion_messages : String → String → List Message
conversion_messages job_id output_id =
    record { channel = progress_channel job_id; event = progress_event 0 JobStatus.active }
    ∷ record { channel = progress_channel job_id; event = progress_event 33 JobStatus.active }
    ∷ record { channel = progress_channel job_id; event = progress_event 66 JobStatus.active }
    ∷ record { channel = completed_channel job_id; event = completed_event output_id }
    ∷ []

module _ {S O B : Type 0} (files : FileRepo S) (jobs : JobRepo S files) (minio : ObjectStore O B)
    (sharp : Sharp B) (path : PathModule) (bucket : String) where
  -- A run has stored its output: the bytes are under the path of a ready file row of the user, whose
  -- size is theirs and whose id was unused; the job's row, if there is one, is completed at progress
  -- 100 and names that file; the messages are published behind the earlier ones.
  pub record HasOutput (p : JobPayload) (mime : String) (bytes : B) (w w' : WorkerWorld S O)
      : Type 0 where
    pub file : DbFile
    pub listed : files.row w'.db file.id ≡ some file
    pub fresh : files.row w.db file.id ≡ none
    pub owner : file.user_id ≡ p.user_id
    pub usable : file.status ≡ FileStatus.ready
    pub mime_type : file.mime_type ≡ mime
    pub size : file.size ≡ minio.byte_length bytes
    pub finished :
        (j : DbJob)
        → jobs.row w.db p.job_id ≡ some j
        → (k : DbJob) × (jobs.row w'.db p.job_id ≡ some k)
          × (k.status ≡ JobStatus.completed)
          × (k.progress ≡ 100)
          × (k.output_file_id ≡ some file.id)
    pub object : minio.get_object bucket file.storage_path w'.objects ≡ some bytes
    pub messages : w'.published ≡ w.published ++ conversion_messages p.job_id file.id

  module _ (p : JobPayload) (clock : ℕ → ℕ) (w : WorkerWorld S O) where
    -- The states of the database before the output is written.
    abbrev started : S
    started = (jobs.update_status p.job_id JobStatus.active (with_progress 0) (clock 0) w.db).1

    abbrev encoded_at : S
    encoded_at =
        jobs.update_progress p.job_id 66 (clock 2)
          (jobs.update_progress p.job_id 33 (clock 1) started)

    files_started : files.row started ≡ files.row w.db
    files_started =
        jobs.files-update_status p.job_id JobStatus.active (with_progress 0) (clock 0) w.db

    files_encoded : files.row encoded_at ≡ files.row w.db
    files_encoded =
        jobs.files-update_progress p.job_id 66 (clock 2) _
        ∙ jobs.files-update_progress p.job_id 33 (clock 1) _
        ∙ files_started

    seen_at_start :
        (f : DbFile)
        → files.row w.db p.file_id ≡ some f
        → f.user_id ≡ p.user_id
        → files.find_by_id p.user_id p.file_id started ≡ some f
    seen_at_start f found own =
        files.find_by_id_lem p.user_id p.file_id started
        ∙ rw
            (
              files_started,
              found,
              files.row_id w.db p.file_id f found,
              own,
              eq_self p.file_id,
              eq_self p.user_id,
            )
            refl

    -- The world after the output is written, the messages being the earlier ones and four more.
    abbrev written : NewFile → O → WorkerWorld S O
    written d o = record {
      db =
          (jobs.update_status p.job_id JobStatus.completed
            (with_output_file (files.create d (clock 3) encoded_at).0.id) (clock 4)
            (files.create d (clock 3) encoded_at).1).1;
      objects = o;
      published =
          (((w.published
                ++ record {
                  channel = progress_channel p.job_id;
                  event = progress_event 0 JobStatus.active;
                }
                  ∷ [])
              ++ record {
                channel = progress_channel p.job_id;
                event = progress_event 33 JobStatus.active;
              }
                ∷ [])
            ++ record {
              channel = progress_channel p.job_id;
              event = progress_event 66 JobStatus.active;
            }
              ∷ [])
          ++ record {
            channel = completed_channel p.job_id;
            event = completed_event (files.create d (clock 3) encoded_at).0.id;
          }
            ∷ [];
      bull_progress = (w.bull_progress ++ 33 ∷ []) ++ 66 ∷ [];
    }

    row-written :
        (d : NewFile) (o : O)
        → files.row (written d o).db (files.next_id encoded_at)
          ≡ some (new_file d (clock 3) (files.next_id encoded_at))
    row-written d o =
        rw
          (
            jobs.files-update_status p.job_id JobStatus.completed
                (with_output_file (files.create d (clock 3) encoded_at).0.id) (clock 4)
                (files.create d (clock 3) encoded_at).1,
            files.row-create d (clock 3) encoded_at (files.next_id encoded_at),
            eq_self (files.next_id encoded_at),
          )
          refl

    fresh-encoded : files.row w.db (files.next_id encoded_at) ≡ none
    fresh-encoded = rw (← files_encoded) (files.row-next_id encoded_at)

    -- The job's row, if there is one, is completed and names the file.
    job_finished :
        (d : NewFile) (o : O) (j : DbJob)
        → jobs.row w.db p.job_id ≡ some j
        → (k : DbJob) × (jobs.row (written d o).db p.job_id ≡ some k)
          × (k.status ≡ JobStatus.completed)
          × (k.progress ≡ 100)
          × (k.output_file_id ≡ some (files.next_id encoded_at))
    job_finished d o j found =
        let k = p.job_id in
        let f1 =
          row-status files jobs minio sharp path bucket k JobStatus.active (with_progress 0)
            (clock 0) w.db j found in
        let f2 = row-progress files jobs minio sharp path bucket k 33 (clock 1) started _ f1 in
        let f3 = row-progress files jobs minio sharp path bucket k 66 (clock 2) _ _ f2 in
        let f4 =
          row-finish files jobs minio sharp path bucket k d (clock 3) (clock 4) encoded_at _ f3 in
        (_, f4, refl, refl, ap (λ f. some f.id) (files.create_returns d (clock 3) encoded_at))

    written-HasOutput :
        (d : NewFile) (bytes : B) (o : O) (mime : String)
        → d.user_id ≡ p.user_id
        → d.status ≡ FileStatus.ready
        → d.mime_type ≡ mime
        → d.size ≡ minio.byte_length bytes
        → minio.put_object bucket d.storage_path bytes mime w.objects ≡ some o
        → HasOutput p mime bytes w (written d o)
    written-HasOutput d bytes o mime owner usable same_mime size put = record {
      file = new_file d (clock 3) (files.next_id encoded_at);
      listed = row-written d o;
      fresh = fresh-encoded;
      owner = owner;
      finished = job_finished d o;
      usable = usable;
      mime_type = same_mime;
      size = size;
      object = minio.get-put bucket d.storage_path bytes mime w.objects o put;
      messages = rw (files.create_returns d (clock 3) encoded_at) (simp append_assoc);
    }

    -- The name and the path of a converted file.
    abbrev pub convert_name : ImageFormat → DbFile → String
    convert_name format f = concat (
        path.basename f.original_name (path.extname f.original_name)
        ∷ "."
        ∷ (format_config format).0
        ∷ [])

    abbrev pub output_target : String → String
    output_target name = concat ("processed/" ∷ p.user_id ∷ "/" ∷ p.job_id ∷ "/" ∷ name ∷ [])

    -- A conversion of a file of the payload's user, where storage and encoder answer and the values of
    -- the output's row fit their columns, returns and has stored the image in the wanted format as its
    -- output.
    pub process_convert-HasOutput :
        (format : ImageFormat) (f : DbFile) (bytes encoded : B) (o : O)
        → files.row w.db p.file_id ≡ some f
        → f.user_id ≡ p.user_id
        → minio.get_object bucket f.storage_path w.objects ≡ some bytes
        → sharp.encode format none bytes ≡ some encoded
        → minio.put_object bucket
            (output_target (convert_name format f))
            encoded
            (format_config format).1
            w.objects
          ≡ some o
        → files.accepts (record {
          user_id = p.user_id;
          original_name = convert_name format f;
          mime_type = (format_config format).1;
          size = minio.byte_length encoded;
          storage_path = output_target (convert_name format f);
          status = FileStatus.ready;
        })
          ≡ true
        → ((process_convert files jobs minio sharp path bucket format p clock w).0 ≡ ok tt)
          × HasOutput p
              (format_config format).1
              encoded
              w
              (process_convert files jobs minio sharp path bucket format p clock w).1
    unfolding process_convert
    process_convert-HasOutput format f bytes encoded o found own fetched done put fits =
        let seen = seen_at_start f found own in
        let output : NewFile = record {
          user_id = p.user_id;
          original_name = convert_name format f;
          mime_type = (format_config format).1;
          size = minio.byte_length encoded;
          storage_path = output_target (convert_name format f);
          status = FileStatus.ready;
        } in
        (
          rw (seen, fetched, done, put, fits) refl,
          rw (seen, fetched, done, put, fits)
              (written-HasOutput output encoded o (format_config format).1 refl refl refl refl put),
        )

    -- A compression of a file of the payload's user, where storage and encoder answer and the values of
    -- the output's row fit their columns, returns and has stored the image, encoded at the payload's quality or else at 80, as its output.
    process_compress-HasOutput :
        (f : DbFile) (bytes encoded : B) (o : O)
        → files.row w.db p.file_id ≡ some f
        → f.user_id ≡ p.user_id
        → minio.get_object bucket f.storage_path w.objects ≡ some bytes
        → sharp.encode (compress_format f.mime_type) (some (or_else p.quality 80)) bytes
          ≡ some encoded
        → minio.put_object bucket (output_target f.original_name) encoded f.mime_type w.objects
          ≡ some o
        → files.accepts (record {
          user_id = p.user_id;
          original_name = f.original_name;
          mime_type = f.mime_type;
          size = minio.byte_length encoded;
          storage_path = output_target f.original_name;
          status = FileStatus.ready;
        })
          ≡ true
        → ((process_compress files jobs minio sharp path bucket p clock w).0 ≡ ok tt)
          × HasOutput p f.mime_type encoded w
              (process_compress files jobs minio sharp path bucket p clock w).1
    unfolding process_compress
    process_compress-HasOutput f bytes encoded o found own fetched done put fits =
        let seen = seen_at_start f found own in
        let output : NewFile = record {
          user_id = p.user_id;
          original_name = f.original_name;
          mime_type = f.mime_type;
          size = minio.byte_length encoded;
          storage_path = output_target f.original_name;
          status = FileStatus.ready;
        } in
        (
          rw (seen, fetched, done, put, fits) refl,
          rw (seen, fetched, done, put, fits)
              (written-HasOutput output encoded o f.mime_type refl refl refl refl put),
        )
