-- ===== src/Examples/Routes.antt =====
-- The theorems about the routes and the configuration, applied to the small database.
use file_processing_platform.Common.{
  ◌≤◌, String, ◌≡◌, refl, none, some, [], ◌∷◌, inr, true, false, ◌==◌, if◌then◌else◌, ne_of_eq,
  arith, Option,
}
use file_processing_platform.Common.Lists.{length, All}
use file_processing_platform.Common.Exec.{ok}
use file_processing_platform.Errors.{unauthorized}
use file_processing_platform.Schema.{DbFile}
use file_processing_platform.Db.FileRepository
use file_processing_platform.Db.FileRepository.Laws.{file_repo}
use file_processing_platform.Db.UserRepository
use file_processing_platform.Db.UserRepository.Laws.{user_repo}
use file_processing_platform.Api.Platform.{ceil_div}
use file_processing_platform.Api.AuthService.{
  PublicUser, login, sign_access_token, sign_refresh_token, to_public_user,
}
use file_processing_platform.Api.FileService.{Paginated, list}
use file_processing_platform.Api.Guards.{authenticate, bearer, behind}
use file_processing_platform.Api.Config.{
  Zod, ProcessEnv, Settings, parse_config, parse_server, parse_auth, parse_upload, parse_minio,
}
use file_processing_platform.Api.Config.Bounds.{AuthInRange, config_bounds}
use file_processing_platform.Api.Schemas.{
  Credentials, UploadBody, ListQuery, JobBody, list_files_query, list_options, login_body,
}
use file_processing_platform.Api.Routes.{Reply}
use file_processing_platform.Api.Routes.Auth.{
  AuthReply, Cookie, set, post_login, post_refresh, refresh_cookie,
}
use file_processing_platform.Api.Routes.Files.{
  post_upload_url, post_confirm_upload, get_files, get_file, delete_file, get_download,
}
use file_processing_platform.Api.Routes.Jobs.{post_job}
use file_processing_platform.Api.Routes.Strangers.{IsRefused, stranger_files}
use file_processing_platform.Api.Routes.Requests.{
  page_bound, IsServable, queue-IsServable, login_cookie_refreshes,
}
use file_processing_platform.Examples.ListTable.{list_table}
use file_processing_platform.Examples.ListTable.Rows.{sort_desc}
use file_processing_platform.Examples.Engine.{
  files, jobs, users, storage, runtime, urls, config, crypto, cfg, laws, ajv,
}
use file_processing_platform.Examples.Data.{db, api, user_rows, ready_file, pending_file}
use file_processing_platform.Examples.Auth.{session}

abbrev upload_body : UploadBody
upload_body = record { filename = some "a.png"; mime_type = some "image/png"; size = some 5 }

abbrev all_files : ListQuery
all_files = record { page = none; limit = none; search = none }

abbrev job_body : JobBody
job_body = record { file_id = some "f2"; type = some "png"; quality = some 70 }

abbrev ann_header : Option String
ann_header = some "Bearer usann"

stranger_files_example :
    IsRefused db (
      post_upload_url files storage runtime urls config crypto "access" ajv none upload_body "u" 50
        db)
    × IsRefused db
        (post_confirm_upload files storage runtime urls config crypto "access" ajv none "f1" 50 db)
    × IsRefused db
        (get_files files storage runtime urls config crypto "access" ajv none all_files 50 db)
    × IsRefused db (get_file files storage runtime urls config crypto "access" ajv none "f1" 50 db)
    × IsRefused db
        (delete_file files storage runtime urls config crypto "access" ajv none "f1" 50 db)
    × IsRefused db
        (get_download files storage runtime urls config crypto "access" ajv none "f1" 50 db)
unfolding authenticate bearer
stranger_files_example =
    stranger_files files storage runtime urls config crypto "access" ajv none 50 db
      (unauthorized "MISSING_TOKEN" "Authorization token is required") upload_body all_files "f1"
      "u" refl

queue-IsServable_example :
    All
      (IsServable files jobs crypto "access" ajv)
      (post_job files jobs crypto "access" ajv ann_header job_body 50 api).1.queue
queue-IsServable_example =
    queue-IsServable files jobs crypto "access" ajv ann_header job_body 50 api ((tt, refl), tt)

abbrev first_page : Reply (Paginated DbFile)
first_page = record {
  status = 200;
  body = record {
    rows = ready_file ∷ pending_file ∷ [];
    meta = record { total = 2; page = 1; limit = 20; total_pages = 1 };
  };
}

page_bound_example : length first_page.body.rows ≤ 100
unfolding get_files list authenticate bearer behind list_files_query list_options file_repo
    FileRepository.find_all_by_user FileRepository.is_listed list_table ceil_div sort_desc
page_bound_example =
    page_bound files storage runtime urls config crypto "access" ajv ann_header all_files 50 db
      first_page refl

abbrev credentials : Credentials
credentials = record { email = some "ann@example.org"; password = some "secret" }

abbrev cookie : Cookie
cookie = record {
  name = "refreshToken";
  value = "usann";
  http_only = true;
  secure = true;
  same_site = "strict";
  path = "/api/auth";
  max_age = 604800;
}

abbrev welcome : AuthReply (PublicUser × String)
welcome = record {
  reply = record { status = 200; body = (session.user, "usann") };
  cookie = set cookie;
}

login_cookie_refreshes_example :
    post_refresh users crypto cfg ajv true
      (some "usann")
      9000
      (post_login users crypto cfg ajv true credentials 5000 user_rows).1
    ≡ (
      ok (record { status = 200; body = inr (sign_access_token users crypto cfg "ann" none 9000) }),
      (post_login users crypto cfg ajv true credentials 5000 user_rows).1,
    )
unfolding post_login login_body login user_repo list_table UserRepository.find_by_email
    sign_access_token sign_refresh_token to_public_user refresh_cookie
login_cookie_refreshes_example =
    login_cookie_refreshes users crypto cfg ajv true laws credentials 5000 9000 user_rows welcome
      cookie refl refl (ne_of_eq "ann" "" refl) (ne_of_eq "usann" "" refl) (omega arith)

abbrev zod : Zod
zod = record { number = λ text. some 12; is_url = λ text. true; length = λ text. 40 }

-- Only what has no default is set, and a cost for bcrypt.
abbrev env : ProcessEnv
env key =
    if key == "DATABASE_URL"
    then some "postgres://db"
    else if key == "JWT_ACCESS_SECRET"
    then some "0123456789012345678901234567890123456789"
    else if key == "JWT_REFRESH_SECRET"
    then some "9876543210987654321098765432109876543210"
    else if key == "BCRYPT_ROUNDS"
    then some "12"
    else none

abbrev settings : Settings
settings = record {
  server = record {
    env = "local";
    is_production = false;
    port = 3001;
    host = "0.0.0.0";
    database_url = "postgres://db";
    cors_origin = "http://localhost:5173";
    redis_url = "redis://localhost:6379";
  };
  auth = record {
    access_secret = "0123456789012345678901234567890123456789";
    refresh_secret = "9876543210987654321098765432109876543210";
    access_ttl_seconds = 900;
    refresh_ttl_seconds = 604800;
    bcrypt_rounds = 12;
  };
  upload = record {
    max_file_size_bytes = 52428800;
    presigned_url_ttl_seconds = 900;
    bucket = "uploads";
    public_url = "http://localhost:3004";
  };
  minio = record {
    end_point = "localhost";
    port = 9000;
    use_ssl = false;
    access_key = "minioadmin";
    secret_key = "minioadmin";
  };
}

config_bounds_example :
    ((1 ≤ 3001) × (3001 ≤ 65535))
    × AuthInRange zod settings.auth
    × ((1 ≤ 52428800) × (1 ≤ 900))
    × ((1 ≤ 9000) × (9000 ≤ 65535))
unfolding parse_config parse_server parse_auth parse_upload parse_minio
config_bounds_example = config_bounds zod env settings refl
