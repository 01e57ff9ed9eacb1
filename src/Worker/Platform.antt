-- ===== src/Worker/Platform.antt =====
-- What the worker uses of packages outside the repository, as parameters: the object storage, the
-- image encoder sharp and node:path; and the state that a processor works on.
use file_processing_platform.Common.{
  ℕ, String, ◌≡◌, Option, none, some, List, [], ◌∷◌, ◌++◌, concat,
}
use file_processing_platform.Common.Exec.{Exec, ok, err, run, gets}
use file_processing_platform.Errors.{Exception, app_error, validation_error, other_error}
use file_processing_platform.Schema.{JobStatus}

pub data ImageFormat : Type 0 where
  jpeg png webp : ImageFormat

-- The MinIO client over the state `O` of the storage, with bytes of type `B`; `none` is a rejected
-- promise. A stored object is read back, and a write leaves the other objects alone.
pub record ObjectStore (O B : Type 0) : Type 0 where
  pub get_object : String → String → O → Option B
  -- bucket, key, bytes, content type
  pub put_object : String → String → B → String → O → Option O
  pub remove_object : String → String → O → Option O
  pub byte_length : B → ℕ
  pub get-put :
      (bucket key : String) (bytes : B) (mime : String) (o o' : O)
      → put_object bucket key bytes mime o ≡ some o'
      → get_object bucket key o' ≡ some bytes

-- sharp: the encoder for a format, with a quality if one is given; `none` is a decoding error.
pub record Sharp (B : Type 0) : Type 0 where
  pub encode : ImageFormat → Option ℕ → B → Option B

-- node:path
pub record PathModule : Type 0 where
  pub extname : String → String
  pub basename : String → String → String

-- The objects that the worker publishes as JSON.
pub data Event : Type 0 where
  progress_event : ℕ → JobStatus → Event
  completed_event : String → Event
  failed_event : String → Event

pub record Message : Type 0 where
  pub channel : String
  pub event : Event

-- The database, the object storage, what was published to Redis and the progress values reported
-- to BullMQ, both oldest first.
pub record WorkerWorld (S O : Type 0) : Type 0 where
  pub db : S
  pub objects : O
  pub published : List Message
  pub bull_progress : List ℕ

-- A query and a write of a repository.
abbrev pub read : {S O A : Type 0} → (S → A) → Exec (WorkerWorld S O) A
read f = gets (λ w. f w.db)

abbrev pub write : {S O A : Type 0} → (S → A × S) → Exec (WorkerWorld S O) A
write f = run (λ w. ((f w.db).0, record w { db = (f w.db).1 }))

abbrev pub write_ : {S O : Type 0} → (S → S) → Exec (WorkerWorld S O) (Unit {0})
write_ f = run (λ w. (tt, record w { db = f w.db }))

-- `publish(redis, channel, data)`
abbrev pub publish : {S O : Type 0} → String → Event → Exec (WorkerWorld S O) (Unit {0})
publish channel event = run (λ w.
    (tt, record w { published = w.published ++ record { channel = channel; event = event } ∷ [] }))

-- `bullJob.updateProgress(progress)`
abbrev pub bull_update : {S O : Type 0} → ℕ → Exec (WorkerWorld S O) (Unit {0})
bull_update progress =
    run (λ w. (tt, record w { bull_progress = w.bull_progress ++ progress ∷ [] }))

-- A storage call that rejects throws; otherwise the storage changes.
abbrev pub store_or_throw :
    {S O : Type 0} → Exception → Option O → Exec (WorkerWorld S O) (Unit {0})
store_or_throw e none w = (err e, w)
store_or_throw e (some o) w = (ok tt, record w { objects = o })

abbrev pub store : {S O : Type 0} → Exception → (O → Option O) → Exec (WorkerWorld S O) (Unit {0})
store e f w = store_or_throw e (f w.objects) w

abbrev pub progress_channel : String → String
progress_channel job_id = concat ("job:progress:" ∷ job_id ∷ [])

abbrev pub completed_channel : String → String
completed_channel job_id = concat ("job:completed:" ∷ job_id ∷ [])

abbrev pub failed_channel : String → String
failed_channel job_id = concat ("job:failed:" ∷ job_id ∷ [])

-- `err.message`
abbrev pub message_of : Exception → String
message_of (app_error e) = e.message
message_of (validation_error m) = m
message_of (other_error m) = m
