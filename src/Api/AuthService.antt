-- ===== src/Api/AuthService.antt =====
-- apps/api/src/services/AuthService.ts, each method as an action on the table of users. `now` is
-- the time of the call.
pub mod Sessions
pub mod Accounts
pub mod Passwords
use file_processing_platform.Common.{
  ℕ, String, Bool, true, false, Option, none, some, ◌==◌, not, if◌then◌else◌,
}
use file_processing_platform.Common.Exec.{
  Exec, pure, gets, run, throw, require, throw_if, ◌>>=◌, ◌>>◌,
}
use file_processing_platform.Errors.{bad_request, conflict, not_found, unauthorized}
use file_processing_platform.Schema.{DbUser}
use file_processing_platform.Db.Users.{UserRepo}

pub data Role : Type 0 where
  guest : Role

-- The payload of a token: `sub`, and `role` where it is set.
pub record Claims : Type 0 where
  pub sub : Option String
  pub role : Option Role

-- jsonwebtoken, bcryptjs and the digest of node:crypto. `sign` is given the claims, the secret, the
-- time to live and the time; `verify` the token, the secret and the time, and answers `none` where
-- it throws. `hash` is given the random salt.
pub record Crypto : Type 0 where
  pub sign : Claims → String → ℕ → ℕ → String
  pub verify : String → String → ℕ → Option Claims
  pub hash_password : String → ℕ → String → String
  pub compare_password : String → String → Bool
  pub sha256 : String → String

pub record AuthServiceConfig : Type 0 where
  pub access_secret : String
  pub refresh_secret : String
  pub access_ttl_seconds : ℕ
  pub refresh_ttl_seconds : ℕ
  pub bcrypt_rounds : ℕ

pub record PublicUser : Type 0 where
  pub id : String
  pub email : String
  pub created_at : ℕ
  pub updated_at : ℕ

pub record Session : Type 0 where
  pub user : PublicUser
  pub access_token : String
  pub refresh_token : String

unfoldable pub to_public_user : DbUser → PublicUser
to_public_user u = record {
  id = u.id;
  email = u.email;
  created_at = u.created_at;
  updated_at = u.updated_at;
}

-- `existing` of `register`, where there must be none
abbrev pub is_some {ℓ} : {A : Type ℓ} → Option A → Bool
is_some none = false
is_some (some _) = true

-- `!userId`: no subject, or the empty one
abbrev pub subject : Option String → Option String
subject none = none
subject (some id) = if id == "" then none else some id

-- `!user || !user.refreshTokenHash`: the hash is null or empty
abbrev pub session_hash : Option DbUser → Option String
session_hash none = none
session_hash (some u) = subject u.refresh_token_hash

module _ {S : Type 0} (users : UserRepo S) (crypto : Crypto) (cfg : AuthServiceConfig) where
  unfoldable pub sign_access_token : String → Option Role → ℕ → String
  sign_access_token user_id role now =
      crypto.sign (record { sub = some user_id; role = role }) cfg.access_secret
        cfg.access_ttl_seconds now

  unfoldable pub sign_refresh_token : String → ℕ → String
  sign_refresh_token user_id now =
      crypto.sign (record { sub = some user_id; role = none }) cfg.refresh_secret
        cfg.refresh_ttl_seconds now

  unfoldable pub register : String → String → String → ℕ → Exec S Session
  unfolding to_public_user
  register email password salt now = do
    existing ← gets (users.find_by_email email)
    throw_if (is_some existing)
        (conflict "EMAIL_TAKEN" "An account with this email address already exists")
    let password_hash = crypto.hash_password password cfg.bcrypt_rounds salt
    user ← run (users.create email password_hash now)
    let access_token = sign_access_token user.id none now
    let refresh_token = sign_refresh_token user.id now
    run (λ s. (tt, users.set_refresh_token_hash user.id (some (crypto.sha256 refresh_token)) now s))
    pure (record {
      user = to_public_user user;
      access_token = access_token;
      refresh_token = refresh_token;
    })

  unfoldable pub login : String → String → ℕ → Exec S Session
  unfolding to_public_user
  login email password now = do
    found ← gets (users.find_by_email email)
    user ← require found (unauthorized "INVALID_CREDENTIALS" "Invalid email or password")
    throw_if (not (crypto.compare_password password user.password_hash))
        (unauthorized "INVALID_CREDENTIALS" "Invalid email or password")
    let access_token = sign_access_token user.id none now
    let refresh_token = sign_refresh_token user.id now
    run (λ s. (tt, users.set_refresh_token_hash user.id (some (crypto.sha256 refresh_token)) now s))
    pure (record {
      user = to_public_user user;
      access_token = access_token;
      refresh_token = refresh_token;
    })

  -- The part of `refresh` after the token is verified; the result is the access token.
  unfoldable pub refresh_for : String → String → ℕ → Exec S String
  refresh_for token user_id now = do
    found ← gets (users.find_by_id user_id)
    stored ←
        require (session_hash found)
          (unauthorized "INVALID_REFRESH_TOKEN" "Session not found — please log in again")
    if stored == crypto.sha256 token then pure (sign_access_token user_id none now) else do
      run (λ s. (tt, users.set_refresh_token_hash user_id none now s))
      throw (unauthorized "INVALID_REFRESH_TOKEN" "Refresh token has already been used")

  unfoldable pub refresh : String → ℕ → Exec S String
  unfolding refresh_for
  refresh token now = do
    payload ←
        require (crypto.verify token cfg.refresh_secret now)
          (unauthorized "INVALID_REFRESH_TOKEN" "Refresh token is invalid or expired")
    user_id ←
        require (subject payload.sub)
          (unauthorized "INVALID_REFRESH_TOKEN" "Refresh token payload is malformed")
    refresh_for token user_id now

  unfoldable pub logout : String → ℕ → Exec S (Unit {0})
  logout user_id now = run (λ s. (tt, users.set_refresh_token_hash user_id none now s))

  -- The identifier is the `randomUUID()` of the call.
  unfoldable pub create_guest_session : String → ℕ → Exec S String
  create_guest_session id now = pure (sign_access_token id (some guest) now)

  unfoldable pub me : String → Exec S PublicUser
  unfolding to_public_user
  me user_id = do
    found ← gets (users.find_by_id user_id)
    user ← require found (not_found "USER_NOT_FOUND" "User not found")
    pure (to_public_user user)

  unfoldable pub change_password : String → String → String → String → ℕ → Exec S (Unit {0})
  change_password user_id current_password new_password salt now = do
    found ← gets (users.find_by_id user_id)
    user ← require found (not_found "USER_NOT_FOUND" "User not found")
    throw_if (not (crypto.compare_password current_password user.password_hash))
        (bad_request "INVALID_CURRENT_PASSWORD" "Current password is incorrect")
    let new_hash = crypto.hash_password new_password cfg.bcrypt_rounds salt
    run (λ s. (tt, users.update_password user_id new_hash now s))
