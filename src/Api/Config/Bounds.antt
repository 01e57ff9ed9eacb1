-- ===== src/Api/Config/Bounds.antt =====
-- What the settings of a process that has started are known to be.
use file_processing_platform.Common.{ℕ, ◌≤◌, String, ◌≡◌, Option, none, some, arith, ◌*◌}
use file_processing_platform.Common.Exec.{ok}
use file_processing_platform.Api.Platform.{Config}
use file_processing_platform.Api.AuthService.{AuthServiceConfig}
use file_processing_platform.Api.Config.{
  Zod, ProcessEnv, Settings, ServerSettings, MinioSettings, parse_server, parse_auth, parse_upload,
  parse_minio, parse_config, default, given, between, positive, min_length,
}

between_bounds :
    (zod : Zod) (o : Option String) (d low high n : ℕ)
    → low ≤ d
    → d ≤ high
    → default o d (between zod low high) ≡ some n
    → (low ≤ n) × (n ≤ high)
between_bounds zod none d low high n a b h = ground (arith, h)
between_bounds zod (some raw) d low high n a b h = ground (arith, h)

pub positive_bound :
    (zod : Zod) (o : Option String) (d n : ℕ) → 1 ≤ d → default o d (positive zod) ≡ some n → 1 ≤ n
positive_bound zod none d n a h = ground (arith, h)
positive_bound zod (some raw) d n a h = ground (arith, h)

secret_length :
    (zod : Zod) (o : Option String) (s : String)
    → given o (min_length zod 32) ≡ some s
    → 32 ≤ zod.length s
secret_length zod none s h = absurd (cc)
secret_length zod (some raw) s h = ground (arith, h)

server_port :
    (zod : Zod) (env : ProcessEnv) (s : ServerSettings)
    → (parse_server zod env tt).0 ≡ ok s
    → (1 ≤ s.port) × (s.port ≤ 65535)
unfolding parse_server
server_port zod env s h =
    between_bounds zod (env "API_CONTAINER_PORT") 3001 1 65535 s.port (omega arith) (omega arith)
      (ground (arith, h))

minio_port :
    (zod : Zod) (env : ProcessEnv) (s : MinioSettings)
    → (parse_minio zod env tt).0 ≡ ok s
    → (1 ≤ s.port) × (s.port ≤ 65535)
unfolding parse_minio
minio_port zod env s h =
    between_bounds zod (env "MINIO_PORT") 9000 1 65535 s.port (omega arith) (omega arith)
      (ground (arith, h))

-- The secrets have at least 32 characters, the lifetimes are positive, and bcrypt runs 2 to the power
-- of 10 to 14 rounds.
abbrev pub AuthInRange : Zod → AuthServiceConfig → Type 0
AuthInRange zod s =
    (32 ≤ zod.length s.access_secret)
    × (32 ≤ zod.length s.refresh_secret)
    × (1 ≤ s.access_ttl_seconds)
    × (1 ≤ s.refresh_ttl_seconds)
    × (10 ≤ s.bcrypt_rounds)
    × (s.bcrypt_rounds ≤ 14)

auth-AuthInRange :
    (zod : Zod) (env : ProcessEnv) (s : AuthServiceConfig)
    → (parse_auth zod env tt).0 ≡ ok s
    → AuthInRange zod s
unfolding parse_auth
auth-AuthInRange zod env s h =
    let (low, high) =
      between_bounds zod (env "BCRYPT_ROUNDS") 12 10 14 s.bcrypt_rounds (omega arith) (omega arith)
        (ground (arith, h)) in
    (
      secret_length zod (env "JWT_ACCESS_SECRET") s.access_secret (ground (arith, h)),
      secret_length zod (env "JWT_REFRESH_SECRET") s.refresh_secret (ground (arith, h)),
      positive_bound zod (env "JWT_ACCESS_TTL_SECONDS") 900 s.access_ttl_seconds (omega arith)
          (ground (arith, h)),
      positive_bound zod (env "JWT_REFRESH_TTL_SECONDS") 604800 s.refresh_ttl_seconds (omega arith)
          (ground (arith, h)),
      low,
      high,
    )

upload_bounds :
    (zod : Zod) (env : ProcessEnv) (s : Config)
    → (parse_upload zod env tt).0 ≡ ok s
    → (1 ≤ s.max_file_size_bytes) × (1 ≤ s.presigned_url_ttl_seconds)
unfolding parse_upload
upload_bounds zod env s h = (
  positive_bound zod (env "MAX_FILE_SIZE_BYTES") (50 * 1024 * 1024) s.max_file_size_bytes
      (omega arith) (ground (arith, h)),
  positive_bound zod (env "PRESIGNED_URL_TTL_SECONDS") 900 s.presigned_url_ttl_seconds (omega arith)
      (ground (arith, h)),
)

parts :
    (zod : Zod) (env : ProcessEnv) (s : Settings)
    → (parse_config zod env tt).0 ≡ ok s
    → ((parse_server zod env tt).0 ≡ ok s.server)
      × ((parse_auth zod env tt).0 ≡ ok s.auth)
      × ((parse_upload zod env tt).0 ≡ ok s.upload)
      × ((parse_minio zod env tt).0 ≡ ok s.minio)
unfolding parse_config
parts zod env s h = ground (arith, h)

-- A process that has started has ports from 1 to 65535, secrets of at least 32 characters, positive
-- lifetimes of tokens and of upload URLs, a bcrypt cost from 10 to 14, and a positive size limit.
pub config_bounds :
    (zod : Zod) (env : ProcessEnv) (s : Settings)
    → (parse_config zod env tt).0 ≡ ok s
    → ((1 ≤ s.server.port) × (s.server.port ≤ 65535))
      × AuthInRange zod s.auth
      × ((1 ≤ s.upload.max_file_size_bytes) × (1 ≤ s.upload.presigned_url_ttl_seconds))
      × ((1 ≤ s.minio.port) × (s.minio.port ≤ 65535))
config_bounds zod env s h =
    let (a, b, c, d) = parts zod env s h in
    (
      server_port zod env s.server a,
      auth-AuthInRange zod env s.auth b,
      upload_bounds zod env s.upload c,
      minio_port zod env s.minio d,
    )
