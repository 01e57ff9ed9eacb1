-- ===== src/Api/AuthService/Sessions.antt =====
-- Refresh tokens: one active session per user, ended by logout and by the reuse of an old token.
use file_processing_platform.Common.{
  ℕ, ◌+◌, ◌/◌, ◌<◌, String, ◌≡◌, refl, ap, ◌∙◌, eq_false, ◌≢◌, Option, some, none, ◌==◌, eq_self,
  Option-cases, inl, inr, arith, Bool-cases, if◌then◌else◌, true,
}
use file_processing_platform.Common.Exec.{ok, err}
use file_processing_platform.Errors.{Exception, unauthorized}
use file_processing_platform.Schema.{DbUser}
use file_processing_platform.Db.Changes.{set_refresh_hash}
use file_processing_platform.Db.Users.{UserRepo}
use file_processing_platform.Api.AuthService.{
  Claims, Crypto, AuthServiceConfig, Session, login, refresh, logout, refresh_for,
  sign_access_token, sign_refresh_token, session_hash,
}

-- What the service relies on of its cryptographic packages: a signed token verifies under its
-- secret until it expires, a password compares with its own hash, and a digest is not empty.
pub record CryptoLaws (crypto : Crypto) : Type 0 where
  pub verify-sign :
      (c : Claims) (secret : String) (ttl now later : ℕ)
      → later / 1000 < now / 1000 + ttl
      → crypto.verify (crypto.sign c secret ttl now) secret later ≡ some c
  pub compare-hash_password :
      (password : String) (rounds : ℕ) (salt : String)
      → crypto.compare_password password (crypto.hash_password password rounds salt) ≡ true
  pub sha256_pos : (text : String) → crypto.sha256 text ≢ ""

module _ {S : Type 0} (users : UserRepo S) (crypto : Crypto) (cfg : AuthServiceConfig) where
  -- A write of the session column, at the user's own row.
  row-session :
      (k : String) (h : Option String) (n : ℕ) (s : S) (u : DbUser)
      → users.row s k ≡ some u
      → users.row (users.set_refresh_token_hash k h n s) k ≡ some (set_refresh_hash h n u)
  row-session k h n s u found =
      rw (users.row-set_refresh_token_hash k h n s k, found, users.row_id s k u found, eq_self k)
        refl

  -- The row of the user after a login carries the digest of the refresh token that it returned.
  login_session :
      (email password : String) (now : ℕ) (s : S) (r : Session)
      → (login users crypto cfg email password now s).0 ≡ ok r
      → (u : DbUser) × (users.row s u.id ≡ some u)
        × (u.email ≡ email)
        × (crypto.compare_password password u.password_hash ≡ true)
        × (r.user.id ≡ u.id)
        × (r.refresh_token ≡ sign_refresh_token users crypto cfg u.id now)
        × (users.row (login users crypto cfg email password now s).1 u.id
            ≡ some (set_refresh_hash (some (crypto.sha256 r.refresh_token)) now u))
  unfolding login
  login_session email password now s r e = elim (Option-cases (users.find_by_email email s)) [
    | inl missing ↦ absurd (ground (arith, missing))
    | inr (u, found) ↦
        let (row, same) = users.find_by_email_found email s u found in
        (
          u,
          row,
          same,
          ground (arith, found),
          ground (arith, found),
          ground (arith, found),
          ground (
            arith,
            found,
            row-session u.id (some (crypto.sha256 (sign_refresh_token users crypto cfg u.id now)))
                now s u row,
          ),
        )
  ]

  -- What `refresh` answers for a verified token, by the user's row.
  refresh_for_row :
      (token user_id : String) (now : ℕ) (s : S) (u : DbUser) (hash : String)
      → users.row s user_id ≡ some u
      → session_hash (some u) ≡ some hash
      → refresh_for users crypto cfg token user_id now s ≡ (
          if hash == crypto.sha256 token
          then (ok (sign_access_token users crypto cfg user_id none now), s)
          else (
            err (unauthorized "INVALID_REFRESH_TOKEN" "Refresh token has already been used"),
            users.set_refresh_token_hash user_id none now s,
          ))
  unfolding refresh_for
  refresh_for_row token user_id now s u hash found has =
      ground (arith, users.find_by_id_lem user_id s, found, has)

  refresh_verified :
      (token user_id : String) (claims : Claims) (now : ℕ) (s : S)
      → crypto.verify token cfg.refresh_secret now ≡ some claims
      → claims.sub ≡ some user_id
      → user_id ≢ ""
      → refresh users crypto cfg token now s ≡ refresh_for users crypto cfg token user_id now s
  unfolding refresh
  refresh_verified token user_id claims now s valid names named =
      rw (valid, names, eq_false user_id "" named) refl

  -- The token that a login returned buys an access token for the same user, until it expires, and
  -- leaves the session as it is.
  pub refresh-login :
      (laws : CryptoLaws crypto) (email password : String) (now later : ℕ) (s : S) (r : Session)
      → (login users crypto cfg email password now s).0 ≡ ok r
      → r.user.id ≢ ""
      → later / 1000 < now / 1000 + cfg.refresh_ttl_seconds
      → refresh users crypto cfg r.refresh_token later
          (login users crypto cfg email password now s).1
        ≡ (
          ok (sign_access_token users crypto cfg r.user.id none later),
          (login users crypto cfg email password now s).1,
        )
  refresh-login laws email password now later s r e named fresh =
      let (u, row, same, right, id, signed, session) = login_session email password now s r e in
      let t = (login users crypto cfg email password now s).1 in
      let digest = crypto.sha256 r.refresh_token in
      let claims : Claims = record { sub = some u.id; role = none } in
      let valid : crypto.verify r.refresh_token cfg.refresh_secret later ≡ some claims = rw signed (
        unfold sign_refresh_token in
        laws.verify-sign claims cfg.refresh_secret cfg.refresh_ttl_seconds now later fresh) in
      rw id (
        refresh_verified r.refresh_token u.id claims later t valid refl
          (λ empty. named (id ∙ empty))
        ∙ refresh_for_row r.refresh_token u.id later t (set_refresh_hash (some digest) now u) digest
            session (rw (eq_false digest "" (laws.sha256_pos r.refresh_token)) refl)
        ∙ rw (eq_self digest) refl)

  -- Without a session in the user's row no token is accepted for the user, and nothing is written.
  refresh_without_session :
      (token user_id : String) (claims : Claims) (now : ℕ) (s : S)
      → crypto.verify token cfg.refresh_secret now ≡ some claims
      → claims.sub ≡ some user_id
      → session_hash (users.row s user_id) ≡ none
      → (x : Exception) × (refresh users crypto cfg token now s ≡ (err x, s))
  unfolding refresh
  refresh_without_session token user_id claims now s valid names none_left =
      elim (Bool-cases (user_id == "")) [
        | inl empty ↦ (
          unauthorized "INVALID_REFRESH_TOKEN" "Refresh token payload is malformed",
          ground (arith, valid, names, empty),
        )
        | inr named ↦ (
          unauthorized "INVALID_REFRESH_TOKEN" "Session not found — please log in again",
          ground (arith, valid, names, named, users.find_by_id_lem user_id s, none_left),
        )
      ]

  -- A verified token that is not the one of the session is refused and ends the session: the row
  -- has no digest afterwards.
  pub refresh_reuse :
      (token user_id hash : String) (claims : Claims) (now : ℕ) (s : S) (u : DbUser)
      → crypto.verify token cfg.refresh_secret now ≡ some claims
      → claims.sub ≡ some user_id
      → user_id ≢ ""
      → users.row s user_id ≡ some u
      → session_hash (some u) ≡ some hash
      → hash ≢ crypto.sha256 token
      → ((refresh users crypto cfg token now s).0
          ≡ err (unauthorized "INVALID_REFRESH_TOKEN" "Refresh token has already been used"))
        × (users.row (refresh users crypto cfg token now s).1 user_id
            ≡ some (set_refresh_hash none now u))
  refresh_reuse token user_id hash claims now s u valid names named found has differs =
      let verified = refresh_verified token user_id claims now s valid names named in
      let answer =
        refresh_for_row token user_id now s u hash found has
        ∙ rw (eq_false hash (crypto.sha256 token) differs) refl in
      (
        ap (λ r. r.0) (verified ∙ answer),
        ap (λ r. users.row r.1 user_id) (verified ∙ answer)
            ∙ row-session user_id none now s u found,
      )

  -- After a logout the row has no session.
  row-logout :
      (user_id : String) (now : ℕ) (s : S) (u : DbUser)
      → users.row s user_id ≡ some u
      → users.row (logout users crypto cfg user_id now s).1 user_id
        ≡ some (set_refresh_hash none now u)
  unfolding logout
  row-logout user_id now s u found = row-session user_id none now s u found
