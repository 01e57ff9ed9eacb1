-- ===== src/Worker/Cleanup.antt =====
-- apps/worker/src/cleanupPendingUploads.ts and cleanupGuestResources.ts: the two sweeps. `now` is
-- the time at which a sweep starts and `clock k` that of its k-th write.
pub mod Pending
pub mod Guests
use file_processing_platform.Common.{ℕ, zero, suc, ◌+◌, ◌-◌, ◌*◌, Option, none, some, List, [], ◌∷◌}
use file_processing_platform.Common.Lists.{length}
use file_processing_platform.Schema.{DbFile}
use file_processing_platform.Db.Files.{FileRepo}
use file_processing_platform.Db.Jobs.{JobRepo}
use file_processing_platform.Worker.Platform.{ObjectStore}
use Prim.Native.String.{String}

-- The database and the object storage.
pub record SweepWorld (S O : Type 0) : Type 0 where
  pub db : S
  pub objects : O

-- A rejected promise is caught and logged: the storage stays as it is.
abbrev pub removed : {O : Type 0} → Option O → O → O
removed none o = o
removed (some o') o = o'

module _ {S O B : Type 0} (files : FileRepo S) (minio : ObjectStore O B) (bucket : String) where
  -- The loop body of `cleanupPendingUploads`.
  unfoldable pub drop_pending : DbFile → ℕ → SweepWorld S O → SweepWorld S O
  drop_pending f now w = record {
    db = (files.soft_delete f.user_id f.id now w.db).1;
    objects = removed (minio.remove_object bucket f.storage_path w.objects) w.objects;
  }

  -- The loop; the file at hand is number `i`.
  unfoldable pub sweep_pending : List DbFile → ℕ → (ℕ → ℕ) → SweepWorld S O → SweepWorld S O
  unfolding drop_pending
  sweep_pending [] i clock w = w
  sweep_pending (f ∷ rest) i clock w = sweep_pending rest (i + 1) clock (drop_pending f (clock i) w)

  -- `cleanupPendingUploads`: the number of files swept
  unfoldable pub cleanup_pending_uploads : ℕ → ℕ → (ℕ → ℕ) → SweepWorld S O → ℕ × SweepWorld S O
  unfolding sweep_pending
  cleanup_pending_uploads ttl_seconds now clock w =
      let cutoff = now - ttl_seconds * 1000 in
      let expired = files.find_expired_pending cutoff w.db in
      (length expired, sweep_pending expired 0 clock w)

  -- The loop body of `cleanupGuestResources`.
  unfoldable pub drop_guest : DbFile → SweepWorld S O → SweepWorld S O
  drop_guest f w = record {
    db = files.hard_delete f.user_id f.id w.db;
    objects = removed (minio.remove_object bucket f.storage_path w.objects) w.objects;
  }

  unfoldable pub sweep_guests : List DbFile → SweepWorld S O → SweepWorld S O
  unfolding drop_guest
  sweep_guests [] w = w
  sweep_guests (f ∷ rest) w = sweep_guests rest (drop_guest f w)

  -- `cleanupGuestResources`: the number of files swept
  unfoldable pub cleanup_guest_resources : ℕ → ℕ → SweepWorld S O → ℕ × SweepWorld S O
  unfolding sweep_guests
  cleanup_guest_resources ttl_seconds now w =
      let cutoff = now - ttl_seconds * 1000 in
      let expired = files.find_expired_guest_files cutoff w.db in
      (length expired, sweep_guests expired w)
