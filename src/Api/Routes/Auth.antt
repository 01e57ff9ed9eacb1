-- ===== src/Api/Routes/Auth.antt =====
-- apps/api/src/routes/auth/index.ts: the seven handlers. The schema of a request is checked before
-- its guards run. The rate limit of guest sessions is counted outside the repository.

use file_processing_platform.Common.{ℕ, String, Bool, Option, none, some, ◌⊎◌, inl, inr}
use file_processing_platform.Common.Exec.{Exec, pure, ◌>>=◌, ◌>>◌}
use file_processing_platform.Errors.{ErrorReply}
use file_processing_platform.Db.Users.{UserRepo}
use file_processing_platform.Api.AuthService.{
  Crypto, AuthServiceConfig, PublicUser, Session, register, login, refresh, logout,
  create_guest_session, me, change_password, subject,
}
use file_processing_platform.Api.Guards.{authenticate}
use file_processing_platform.Api.Schemas.{
  Ajv, Credentials, PasswordChange, register_body, login_body, change_password_body, validate,
  text_of,
}
use file_processing_platform.Api.Routes.{Reply, guarded, registered_caller}

-- `REFRESH_COOKIE` with `refreshCookieOpts`
pub record Cookie : Type 0 where
  pub name : String
  pub value : String
  pub http_only : Bool
  pub secure : Bool
  pub same_site : String
  pub path : String
  pub max_age : ℕ

-- What a reply does to the cookies of the browser: nothing, `setCookie`, or `clearCookie` of a name
-- and a path.
pub data CookieChange : Type 0 where
  kept : CookieChange
  set : Cookie → CookieChange
  cleared : String → String → CookieChange

pub record AuthReply (A : Type 0) : Type 0 where
  pub reply : Reply A
  pub cookie : CookieChange

module _ {S : Type 0} (users : UserRepo S) (crypto : Crypto) (cfg : AuthServiceConfig) (ajv : Ajv)
    (is_production : Bool) where
  unfoldable pub refresh_cookie : String → Cookie
  refresh_cookie token = record {
    name = "refreshToken";
    value = token;
    http_only = Bool.true;
    secure = is_production;
    same_site = "strict";
    path = "/api/auth";
    max_age = cfg.refresh_ttl_seconds;
  }

  abbrev with_session : ℕ → Session → AuthReply (PublicUser × String)
  with_session status session = record {
    reply = record { status = status; body = (session.user, session.access_token) };
    cookie = set (refresh_cookie session.refresh_token);
  }

  -- `POST /auth/register`
  unfoldable pub post_register : Credentials → String → ℕ → Exec S (AuthReply (PublicUser × String))
  unfolding refresh_cookie
  post_register body salt now = do
    validate ajv "body" (register_body ajv body)
    session ← register users crypto cfg (text_of body.email) (text_of body.password) salt now
    pure (with_session 201 session)

  -- `POST /auth/login`
  unfoldable pub post_login : Credentials → ℕ → Exec S (AuthReply (PublicUser × String))
  unfolding refresh_cookie
  post_login body now = do
    validate ajv "body" (login_body ajv body)
    session ← login users crypto cfg (text_of body.email) (text_of body.password) now
    pure (with_session 200 session)

  -- `POST /auth/refresh`, with the cookie of the request, if there is one; an empty one counts as
  -- missing
  unfoldable pub post_refresh : Option String → ℕ → Exec S (Reply (ErrorReply ⊎ String))
  post_refresh cookie now = elim (subject cookie) [
    | none ↦ pure (record {
      status = 401;
      body = inl (record {
        status = 401;
        code = "MISSING_REFRESH_TOKEN";
        message = "Refresh token cookie is missing";
      });
    })
    | some token ↦ do
      access_token ← refresh users crypto cfg token now
      pure (record { status = 200; body = inr access_token })
  ]

  -- `POST /auth/logout`
  unfoldable pub post_logout : Option String → ℕ → Exec S (AuthReply (Unit {0}))
  post_logout header now = do
    caller ← guarded (authenticate crypto cfg.access_secret header now)
    logout users crypto cfg caller.user_id now
    pure (record {
      reply = record { status = 204; body = tt };
      cookie = cleared "refreshToken" "/api/auth";
    })

  -- `GET /auth/me`
  unfoldable pub get_me : Option String → ℕ → Exec S (Reply PublicUser)
  get_me header now = do
    caller ← guarded (authenticate crypto cfg.access_secret header now)
    user ← me users crypto cfg caller.user_id
    pure (record { status = 200; body = user })

  -- `PUT /auth/password`
  unfoldable pub put_password :
      Option String → PasswordChange → String → ℕ → Exec S (Reply (Unit {0}))
  unfolding registered_caller
  put_password header body salt now = do
    validate ajv "body" (change_password_body ajv body)
    caller ← registered_caller crypto cfg.access_secret header now
    change_password users crypto cfg caller.user_id (text_of body.current_password)
        (text_of body.new_password) salt now
    pure (record { status = 204; body = tt })

  -- `POST /auth/guest`, where the rate limit lets it through
  unfoldable pub post_guest : String → ℕ → Exec S (Reply String)
  post_guest id now = do
    access_token ← create_guest_session users crypto cfg id now
    pure (record { status = 201; body = access_token })
