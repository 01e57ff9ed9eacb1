-- ===== src/Examples/Data.antt =====
-- A small database for the examples: the user `ann` with a file that is being uploaded, one that is
-- ready, and a pending job on it.
use file_processing_platform.Common.{true, String, refl, ne_of_eq, false, none, [], ◌∷◌}
use file_processing_platform.Schema.{DbUser, DbFile, FileStatus, DbJob, JobStatus}
use file_processing_platform.Api.JobService.{JobPayload, JobWorld}
use file_processing_platform.Worker.Platform.{WorkerWorld}
use file_processing_platform.Worker.Cleanup.{SweepWorld}
use file_processing_platform.Examples.Engine.{UserTable, Db}

abbrev pub ann : DbUser
ann = record {
  id = "ann";
  email = "ann@example.org";
  password_hash = "secret";
  refresh_token_hash = none;
  is_guest = false;
  created_at = 1;
  updated_at = 1;
}

abbrev pub pending_file : DbFile
pending_file = record {
  id = "f1";
  user_id = "ann";
  original_name = "a.png";
  mime_type = "image/png";
  size = 5;
  storage_path = "ann/a.png";
  status = FileStatus.pending;
  created_at = 10;
  updated_at = 10;
}

abbrev pub ready_file : DbFile
ready_file = record {
  id = "f2";
  user_id = "ann";
  original_name = "b.png";
  mime_type = "image/png";
  size = 7;
  storage_path = "ann/b.png";
  status = FileStatus.ready;
  created_at = 20;
  updated_at = 30;
}

abbrev pub pending_job : DbJob
pending_job = record {
  id = "j1";
  file_id = "f2";
  user_id = "ann";
  type = "default";
  status = JobStatus.pending;
  progress = 0;
  output_path = none;
  output_file_id = none;
  error_message = none;
  created_at = 40;
  updated_at = 40;
}

abbrev pub user_rows : UserTable
user_rows = record { rows = ann ∷ []; distinct = (tt, tt) }

abbrev pub db : Db
db = record {
  users = user_rows;
  files = record {
    rows = pending_file ∷ ready_file ∷ [];
    distinct = ((ne_of_eq "f2" "f1" refl, tt), (tt, tt));
  };
  jobs = record { rows = pending_job ∷ []; distinct = (tt, tt) };
}

abbrev pub payload : JobPayload
payload = record {
  job_id = "j1";
  file_id = "f2";
  type = "default";
  user_id = "ann";
  quality = none;
}

abbrev pub api : JobWorld Db
api = record { db = db; queue = payload ∷ []; queue_up = true }

abbrev pub world : WorkerWorld Db (String × String)
world = record {
  db = db;
  objects = ("files/ann/b.png", "pixels");
  published = [];
  bull_progress = [];
}

abbrev pub sweep : SweepWorld Db (String × String)
sweep = record { db = db; objects = ("files/ann/a.png", "pixels") }
