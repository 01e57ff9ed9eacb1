-- ===== src/Api/Guards/Tokens.antt =====
-- The tokens that `AuthService` hands out, before the guards.
use Prim.Native.String
use text.Mathlib.TextLemmas.{nil-append, cons-append}
use file_processing_platform.Common.{
  ℕ, ◌+◌, ◌/◌, ◌<◌, String, ◌≡◌, refl, ◌≢◌, Option, none, some, eq_self, eq_false, arith, inl, inr,
  Option-cases,
}
use file_processing_platform.Common.Exec.{ok, err}
use file_processing_platform.Errors.{forbidden}
use file_processing_platform.Db.Users.{UserRepo}
use file_processing_platform.Api.AuthService.{
  Role, guest, Crypto, AuthServiceConfig, Session, login, sign_access_token, create_guest_session,
}
use file_processing_platform.Api.AuthService.Sessions.{CryptoLaws}
use file_processing_platform.Api.Guards.{behind, bearer, authenticate, require_registered_user}

behind_append : (prefix text : String) → behind prefix (String.◌++◌ prefix text) ≡ some text
unfolding behind
behind_append String.[] text = rw nil-append refl
behind_append (String.◌∷◌ c prefix) text =
    rw (cons-append, eq_self (String.◌∷◌ c String.[])) (behind_append prefix text)

module _ {S : Type 0} (users : UserRepo S) (crypto : Crypto) (cfg : AuthServiceConfig)
    (laws : CryptoLaws crypto) where
  authenticate-signed :
      (id : String) (role : Option Role) (now later : ℕ)
      → id ≢ ""
      → later / 1000 < now / 1000 + cfg.access_ttl_seconds
      → authenticate crypto cfg.access_secret
          (some (String.◌++◌ "Bearer " (sign_access_token users crypto cfg id role now)))
          later
          tt
        ≡ (ok (record { user_id = id; role = role }), tt)
  unfolding authenticate bearer sign_access_token
  authenticate-signed id role now later named fresh =
      rw
        (
          behind_append "Bearer " (
              crypto.sign (record { sub = some id; role = role }) cfg.access_secret
                cfg.access_ttl_seconds now),
          laws.verify-sign (record { sub = some id; role = role }) cfg.access_secret
              cfg.access_ttl_seconds now later fresh,
          eq_false id "" named,
        )
        refl

  login_token :
      (email password : String) (now : ℕ) (s : S) (r : Session)
      → (login users crypto cfg email password now s).0 ≡ ok r
      → r.access_token ≡ sign_access_token users crypto cfg r.user.id none now
  unfolding login
  login_token email password now s r e = elim (Option-cases (users.find_by_email email s)) [
    | inl missing ↦ absurd (ground (arith, missing))
    | inr (u, found) ↦ ground (arith, found)
  ]

  -- Until it expires, the access token that a login returned passes `authenticate` as the user that
  -- logged in, and that caller passes `requireRegisteredUser`.
  authenticate-login :
      (email password : String) (now later : ℕ) (s : S) (r : Session)
      → (login users crypto cfg email password now s).0 ≡ ok r
      → r.user.id ≢ ""
      → later / 1000 < now / 1000 + cfg.access_ttl_seconds
      → (authenticate crypto cfg.access_secret
            (some (String.◌++◌ "Bearer " r.access_token))
            later
            tt
          ≡ (ok (record { user_id = r.user.id; role = none }), tt))
        × (require_registered_user (record { user_id = r.user.id; role = none }) tt ≡ (ok tt, tt))
  unfolding require_registered_user
  authenticate-login email password now later s r e named fresh = (
    rw (login_token email password now s r e)
        (authenticate-signed r.user.id none now later named fresh),
    refl,
  )

  -- Until it expires, a guest's token passes `authenticate` under the identifier that the session
  -- drew, and `requireRegisteredUser` refuses that caller with status 403.
  pub guest_is_kept_out :
      (id token : String) (now later : ℕ) (s : S)
      → (create_guest_session users crypto cfg id now s).0 ≡ ok token
      → id ≢ ""
      → later / 1000 < now / 1000 + cfg.access_ttl_seconds
      → (authenticate crypto cfg.access_secret (some (String.◌++◌ "Bearer " token)) later tt
          ≡ (ok (record { user_id = id; role = some guest }), tt))
        × (require_registered_user (record { user_id = id; role = some guest }) tt
            ≡ (err (forbidden "GUEST_NOT_ALLOWED" "This action requires a registered account"), tt))
  unfolding create_guest_session require_registered_user
  guest_is_kept_out id token now later s e named fresh =
      let same : token ≡ sign_access_token users crypto cfg id (some guest) now = ground arith in
      (rw same (authenticate-signed id (some guest) now later named fresh), refl)
