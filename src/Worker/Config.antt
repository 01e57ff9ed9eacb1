-- ===== src/Worker/Config.antt =====
-- apps/worker/src/config.ts: the environment of the worker, checked against its `EnvSchema`. The list
-- of issues in the message of the error is left out.
use file_processing_platform.Common.{ℕ, ◌≤◌, String, ◌≡◌, Bool, some, ◌==◌, arith}
use file_processing_platform.Common.Exec.{Exec, ok, pure, require, ◌>>=◌}
use file_processing_platform.Api.Config.{
  Zod, ProcessEnv, MinioSettings, parse_minio, default, given, positive, min_length, url, node_env,
  invalid,
}
use file_processing_platform.Api.Config.Bounds.{positive_bound}

-- The two sweeps
pub record SweepSettings : Type 0 where
  pub ttl_seconds : ℕ
  pub cleanup_interval_seconds : ℕ

pub record WorkerSettings : Type 0 where
  pub env : String
  pub is_production : Bool
  pub database_url : String
  pub redis_url : String
  pub minio : MinioSettings
  pub bucket : String
  pub pending_upload : SweepSettings
  pub guest_resource : SweepSettings

module _ (zod : Zod) (env : ProcessEnv) where
  unfoldable pub parse_sweep : String → String → Exec (Unit {0}) SweepSettings
  parse_sweep ttl_key interval_key = do
    ttl ← require (default (env ttl_key) 3600 (positive zod)) invalid
    interval ← require (default (env interval_key) 900 (positive zod)) invalid
    pure (record { ttl_seconds = ttl; cleanup_interval_seconds = interval })

  -- `parseConfig`, and the `config` made of its result; the storage is checked as in the API.
  unfoldable pub parse_worker_config : Exec (Unit {0}) WorkerSettings
  parse_worker_config = do
    node ← require (default (env "NODE_ENV") "local" (node_env zod)) invalid
    database_url ← require (given (env "DATABASE_URL") (url zod)) invalid
    redis_url ← require (default (env "REDIS_URL") "redis://localhost:6379" some) invalid
    minio ← parse_minio zod env
    bucket ← require (default (env "MINIO_BUCKET") "uploads" (min_length zod 1)) invalid
    pending ← parse_sweep "PENDING_UPLOAD_TTL_SECONDS" "PENDING_UPLOAD_CLEANUP_INTERVAL_SECONDS"
    guest ← parse_sweep "GUEST_RESOURCE_TTL_SECONDS" "GUEST_RESOURCE_CLEANUP_INTERVAL_SECONDS"
    pure (record {
      env = node;
      is_production = node == "production";
      database_url = database_url;
      redis_url = redis_url;
      minio = minio;
      bucket = bucket;
      pending_upload = pending;
      guest_resource = guest;
    })

  abbrev pub Positive : SweepSettings → Type 0
  Positive s = (1 ≤ s.ttl_seconds) × (1 ≤ s.cleanup_interval_seconds)

  sweep-Positive : (a b : String) (s : SweepSettings) → (parse_sweep a b tt).0 ≡ ok s → Positive s
  unfolding parse_sweep
  sweep-Positive a b s h = (
    positive_bound zod (env a) 3600 s.ttl_seconds (omega arith) (ground (arith, h)),
    positive_bound zod (env b) 900 s.cleanup_interval_seconds (omega arith) (ground (arith, h)),
  )

  -- The sweeps of a worker that has started leave every file at least one second, and run at most
  -- once a second.
  worker_config_bounds :
      (s : WorkerSettings)
      → (parse_worker_config tt).0 ≡ ok s
      → Positive s.pending_upload × Positive s.guest_resource
  unfolding parse_worker_config
  worker_config_bounds s h = (
    sweep-Positive "PENDING_UPLOAD_TTL_SECONDS" "PENDING_UPLOAD_CLEANUP_INTERVAL_SECONDS"
        s.pending_upload (ground (arith, h)),
    sweep-Positive "GUEST_RESOURCE_TTL_SECONDS" "GUEST_RESOURCE_CLEANUP_INTERVAL_SECONDS"
        s.guest_resource (ground (arith, h)),
  )
