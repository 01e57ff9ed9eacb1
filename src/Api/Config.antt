-- ===== src/Api/Config.antt =====
-- apps/api/src/config.ts: the environment, checked against `EnvSchema`, and the settings made of it.
-- The list of issues in the message of the error is left out.
pub mod Bounds
use file_processing_platform.Common.{
  ℕ, ◌*◌, String, Bool, true, false, Option, none, some, ◌&&◌, ◌||◌, ◌==◌, leb, keep_if,
  if◌then◌else◌,
}
use file_processing_platform.Common.Exec.{Exec, pure, require, ◌>>=◌}
use file_processing_platform.Errors.{Exception, other_error}
use file_processing_platform.Api.Platform.{Config}
use file_processing_platform.Api.AuthService.{AuthServiceConfig}

-- zod: `number` is `Number` where it gives a natural number, the rest being refused by `int` or by a
-- lower bound; the length of a text is in UTF-16 units.
pub record Zod : Type 0 where
  pub number : String → Option ℕ
  pub is_url : String → Bool
  pub length : String → ℕ

-- `process.env`
abbrev pub ProcessEnv : Type 0
ProcessEnv = String → Option String

-- `.default(value)`: the check is made of a value that is there.
abbrev pub default {ℓ} : {A : Type ℓ} → Option String → A → (String → Option A) → Option A
default none value check = some value
default (some raw) value check = check raw

-- A value that must be there.
abbrev pub given {ℓ} : {A : Type ℓ} → Option String → (String → Option A) → Option A
given none check = none
given (some raw) check = check raw

abbrev pub invalid : Exception
invalid = other_error "Invalid environment configuration"

module _ (zod : Zod) where
  -- `z.coerce.number().int().min(low).max(high)`, and `.positive()`
  abbrev pub between : ℕ → ℕ → String → Option ℕ
  between low high raw = keep_if (λ n. leb low n && leb n high) (zod.number raw)

  abbrev pub positive : String → Option ℕ
  positive raw = keep_if (λ n. leb 1 n) (zod.number raw)

  -- `z.string().min(n)` and `z.string().url()`
  abbrev pub min_length : ℕ → String → Option String
  min_length n raw = keep_if (λ s. leb n (zod.length s)) (some raw)

  abbrev pub url : String → Option String
  url raw = keep_if zod.is_url (some raw)

  -- `NODE_ENV`
  abbrev pub node_env : String → Option String
  node_env raw =
      keep_if (λ s. s == "local" || s == "development" || s == "staging" || s == "production")
        (some raw)

-- The parts of `config`
pub record ServerSettings : Type 0 where
  pub env : String
  pub is_production : Bool
  pub port : ℕ
  pub host : String
  pub database_url : String
  pub cors_origin : String
  pub redis_url : String

pub record MinioSettings : Type 0 where
  pub end_point : String
  pub port : ℕ
  pub use_ssl : Bool
  pub access_key : String
  pub secret_key : String

pub record Settings : Type 0 where
  pub server : ServerSettings
  pub auth : AuthServiceConfig
  pub upload : Config
  pub minio : MinioSettings

module _ (zod : Zod) (env : ProcessEnv) where
  unfoldable pub parse_server : Exec (Unit {0}) ServerSettings
  parse_server = do
    node ← require (default (env "NODE_ENV") "local" (node_env zod)) invalid
    port ← require (default (env "API_CONTAINER_PORT") 3001 (between zod 1 65535)) invalid
    host ← require (default (env "HOST") "0.0.0.0" some) invalid
    database_url ← require (given (env "DATABASE_URL") (url zod)) invalid
    cors_origin ← require (default (env "CORS_ORIGIN") "http://localhost:5173" some) invalid
    redis_url ← require (default (env "REDIS_URL") "redis://localhost:6379" some) invalid
    pure (record {
      env = node;
      is_production = node == "production";
      port = port;
      host = host;
      database_url = database_url;
      cors_origin = cors_origin;
      redis_url = redis_url;
    })

  unfoldable pub parse_auth : Exec (Unit {0}) AuthServiceConfig
  parse_auth = do
    access_secret ← require (given (env "JWT_ACCESS_SECRET") (min_length zod 32)) invalid
    refresh_secret ← require (given (env "JWT_REFRESH_SECRET") (min_length zod 32)) invalid
    access_ttl ← require (default (env "JWT_ACCESS_TTL_SECONDS") 900 (positive zod)) invalid
    refresh_ttl ← require (default (env "JWT_REFRESH_TTL_SECONDS") 604800 (positive zod)) invalid
    rounds ← require (default (env "BCRYPT_ROUNDS") 12 (between zod 10 14)) invalid
    pure (record {
      access_secret = access_secret;
      refresh_secret = refresh_secret;
      access_ttl_seconds = access_ttl;
      refresh_ttl_seconds = refresh_ttl;
      bcrypt_rounds = rounds;
    })

  unfoldable pub parse_upload : Exec (Unit {0}) Config
  parse_upload = do
    max_size ←
        require (default (env "MAX_FILE_SIZE_BYTES") (50 * 1024 * 1024) (positive zod)) invalid
    url_ttl ← require (default (env "PRESIGNED_URL_TTL_SECONDS") 900 (positive zod)) invalid
    bucket ← require (default (env "MINIO_BUCKET") "uploads" (min_length zod 1)) invalid
    public_url ←
        require (default (env "MINIO_PUBLIC_URL") "http://localhost:3004" (url zod)) invalid
    pure (record {
      max_file_size_bytes = max_size;
      presigned_url_ttl_seconds = url_ttl;
      bucket = bucket;
      public_url = public_url;
    })

  unfoldable pub parse_minio : Exec (Unit {0}) MinioSettings
  parse_minio = do
    end_point ← require (default (env "MINIO_ENDPOINT") "localhost" some) invalid
    port ← require (default (env "MINIO_PORT") 9000 (between zod 1 65535)) invalid
    use_ssl ← require (default (env "MINIO_USE_SSL") "false" some) invalid
    access_key ← require (default (env "MINIO_ACCESS_KEY") "minioadmin" (min_length zod 1)) invalid
    secret_key ← require (default (env "MINIO_SECRET_KEY") "minioadmin" (min_length zod 1)) invalid
    pure (record {
      end_point = end_point;
      port = port;
      use_ssl = use_ssl == "true";
      access_key = access_key;
      secret_key = secret_key;
    })

  -- `parseConfig`, and the `config` made of its result
  unfoldable pub parse_config : Exec (Unit {0}) Settings
  parse_config = do
    server ← parse_server
    auth ← parse_auth
    upload ← parse_upload
    minio ← parse_minio
    pure (record { server = server; auth = auth; upload = upload; minio = minio })
