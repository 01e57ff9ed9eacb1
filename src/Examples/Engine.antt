-- ===== src/Examples/Engine.antt =====
-- Concrete packages for the examples: every table a list of rows, a token that spells its claims
-- out, a digest that only marks its text, and an object storage of at most one object.
use file_processing_platform.Common.{
  String, ◌≡◌, refl, ◌≢◌, Bool, true, false, Option, none, some, [], ◌∷◌, ◌==◌, eq_self, ap, arith,
  if◌then◌else◌, concat,
}
use file_processing_platform.Schema.{DbUser, DbFile, DbJob, ApiKeyRow}
use file_processing_platform.Db.Sql.{SqlTable}
use file_processing_platform.Db.Tables.{Tables}
use file_processing_platform.Db.Files.{FileRepo}
use file_processing_platform.Db.Jobs.{JobRepo}
use file_processing_platform.Db.Users.{UserRepo}
use file_processing_platform.Db.ApiKeys.{ApiKeyRepo}
use file_processing_platform.Db.ApiKeyRepository.Laws.{api_key_repo}
use file_processing_platform.Db.FileRepository.Laws.{file_repo}
use file_processing_platform.Db.JobRepository.Laws.{job_repo}
use file_processing_platform.Db.UserRepository.Laws.{user_repo}
use file_processing_platform.Api.AuthService.{Crypto, Claims, Role, guest, AuthServiceConfig}
use file_processing_platform.Api.AuthService.Sessions.{CryptoLaws}
use file_processing_platform.Api.Platform.{Storage, Runtime, UrlParser, Config}
use file_processing_platform.Api.Schemas.{Ajv}
use file_processing_platform.Worker.Platform.{ObjectStore, Sharp, PathModule}
use file_processing_platform.Examples.ListTable.{ListTable, list_table}

abbrev pub UserTable : Type 0
UserTable = ListTable DbUser (λ u. u.id)

abbrev pub FileTable : Type 0
FileTable = ListTable DbFile (λ f. f.id)

abbrev pub JobTable : Type 0
JobTable = ListTable DbJob (λ j. j.id)

abbrev pub Db : Type 0
Db = Tables UserTable FileTable JobTable

abbrev pub user_table : SqlTable UserTable DbUser (λ u. u.id)
user_table = list_table (λ u. u.id)

abbrev pub file_table : SqlTable FileTable DbFile (λ f. f.id)
file_table = list_table (λ f. f.id)

abbrev pub job_table : SqlTable JobTable DbJob (λ j. j.id)
job_table = list_table (λ j. j.id)

-- a pattern is only compared
abbrev pub ilike : String → String → Bool
ilike text pattern = concat ("%" ∷ text ∷ "%" ∷ []) == pattern

abbrev pub files : FileRepo Db
files = file_repo user_table file_table job_table ilike

abbrev pub jobs : JobRepo Db files
jobs = job_repo user_table file_table job_table ilike

abbrev pub users : UserRepo UserTable
users = user_repo user_table

abbrev pub KeyTable : Type 0
KeyTable = ListTable ApiKeyRow (λ r. r.id)

abbrev pub keys : ApiKeyRepo KeyTable
keys = api_key_repo (list_table (λ r. r.id))

abbrev pub storage : Storage
storage = record {
  presigned_post_policy =
      λ p. some (record { post_url = "http://minio:9000/files"; form_data = ("key", p.key) ∷ [] });
  stat_object = λ bucket key. if key == "ann/a.png" then some 5 else none;
  get_object = λ bucket key. if key == "ann/b.png" then some "bytes" else none;
}

abbrev pub runtime : Runtime
runtime = record { extname = λ name. ".png"; to_iso_string = λ now. "soon" }

abbrev pub urls : UrlParser
urls = record {
  parse =
      λ text. some (record { protocol = "http:"; hostname = "minio"; port = "9000"; rest = text });
  print = λ url. url.rest;
}

abbrev pub config : Config
config = record {
  max_file_size_bytes = 100;
  presigned_url_ttl_seconds = 60;
  bucket = "files";
  public_url = "https://files.example";
}

abbrev mark : Option Role → String → String
mark none s = String.◌∷◌ "u" s
mark (some guest) s = String.◌∷◌ "g" s

abbrev spell : Option String → Option Role → String
spell none role = mark role "n"
spell (some id) role = mark role (String.◌∷◌ "s" id)

abbrev read_role : String → Option Role
read_role r = if r == "g" then some guest else none

abbrev read_claims : String → Option Claims
read_claims (String.◌∷◌ r (String.◌∷◌ s id)) = some (record {
  sub = if String.◌∷◌ s String.[] == "s" then some id else none;
  role = read_role (String.◌∷◌ r String.[]);
})
read_claims _ = none

abbrev pub crypto : Crypto
crypto = record {
  sign = λ c secret ttl now. spell c.sub c.role;
  verify = λ token secret now. read_claims token;
  hash_password = λ password rounds salt. password;
  compare_password = λ password hash. password == hash;
  sha256 = λ text. String.◌∷◌ "#" text;
}

pub read_spell :
    (sub : Option String) (role : Option Role)
    → read_claims (spell sub role) ≡ some (record { sub = sub; role = role })
read_spell none none = refl
read_spell none (some guest) = refl
read_spell (some id) none = refl
read_spell (some id) (some guest) = refl

abbrev is_text : String → Bool
is_text String.[] = false
is_text (String.◌∷◌ c s) = true

pub marked : (text : String) → crypto.sha256 text ≢ ""
marked text e = let texts = ap is_text e in absurd (cc)

abbrev pub laws : CryptoLaws crypto
laws = record {
  verify-sign = λ c secret ttl now later h. read_spell c.sub c.role;
  compare-hash_password = λ password rounds salt. eq_self password;
  sha256_pos = marked;
}

abbrev pub cfg : AuthServiceConfig
cfg = record {
  access_secret = "access";
  refresh_secret = "refresh";
  access_ttl_seconds = 900;
  refresh_ttl_seconds = 604800;
  bcrypt_rounds = 12;
}

pub get-put_lem :
    (at bytes : String) (o : String × String)
    → ◌≡◌ {A = Option (String × String)} (some (at, bytes)) (some o)
    → (if o.0 == at then some o.1 else none) ≡ some bytes
get-put_lem at bytes o e = ground (arith, eq_self at)

-- A key and its bytes.
abbrev pub minio : ObjectStore (String × String) String
minio = record {
  get_object = λ bucket key o. if o.0 == concat (bucket ∷ "/" ∷ key ∷ []) then some o.1 else none;
  put_object = λ bucket key bytes mime o. some (concat (bucket ∷ "/" ∷ key ∷ []), bytes);
  remove_object = λ bucket key o. some ("", "");
  byte_length = λ bytes. 7;
  get-put =
      λ bucket key bytes mime o o' e. get-put_lem (concat (bucket ∷ "/" ∷ key ∷ [])) bytes o' e;
}

abbrev pub sharp : Sharp String
sharp = record { encode = λ format quality bytes. if bytes == "broken" then none else some bytes }

abbrev pub path : PathModule
path = record { extname = λ name. ".png"; basename = λ name ext. "b" }

abbrev pub ajv : Ajv
ajv = record {
  is_email = λ text. true;
  is_uuid = λ text. if text == "" then false else true;
  code_points = λ text. if text == "" then 0 else 8;
  message = λ part. concat (part ∷ " is not valid" ∷ []);
}
