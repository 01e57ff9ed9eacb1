-- ===== src/Api/AuthService/Passwords.antt =====
-- Changing a password: `AuthService.changePassword`, and the login after it.
use file_processing_platform.Common.{
  ℕ, String, ◌≡◌, refl, ap, ◌∙◌, some, none, eq_iff, eq_self, Option-cases, inl, inr, arith,
}
use file_processing_platform.Common.Exec.{ok}
use file_processing_platform.Schema.{DbUser}
use file_processing_platform.Db.Changes.{set_password}
use file_processing_platform.Db.Users.{UserRepo}
use file_processing_platform.Api.AuthService.Sessions.{CryptoLaws}
use file_processing_platform.Api.AuthService.Accounts.{UniqueEmails}
use file_processing_platform.Api.AuthService.{
  Crypto, AuthServiceConfig, Session, login, change_password, sign_refresh_token, sign_access_token,
  to_public_user,
}

module _ {S : Type 0} (users : UserRepo S) (crypto : Crypto) (cfg : AuthServiceConfig) where
  update_found :
      (user_id hash : String) (now : ℕ) (s : S) (u : DbUser)
      → UniqueEmails users crypto cfg s
      → users.row s user_id ≡ some u
      → (v : DbUser)
      → users.find_by_email u.email (users.update_password user_id hash now s) ≡ some v
      → (v.password_hash ≡ hash) × (v.id ≡ user_id)
  update_found user_id hash now s u before found v seen =
      let (at, same) =
        users.find_by_email_found u.email (users.update_password user_id hash now s) v seen in
      let law = users.row-update_password user_id hash now s v.id in
      elim (Option-cases (users.row s v.id)) [
        | inl missing ↦ absurd (ground (arith, at, law, missing))
        | inr (w, old) ↦ ground (
          arith,
          at,
          law,
          old,
          same,
          found,
          before.unique u w,
          users.row_id s user_id u found,
          users.row_id s v.id w old,
          eq_iff w.id user_id,
        )
      ]

  -- Where emails are unique, a change of the password that succeeds is followed by a login that
  -- succeeds with the user's email and the new password.
  pub change_password-login :
      (laws : CryptoLaws crypto) (user_id old_password new_password salt : String) (now later : ℕ)
      (s : S) (u : DbUser)
      → UniqueEmails users crypto cfg s
      → users.row s user_id ≡ some u
      → (change_password users crypto cfg user_id old_password new_password salt now s).0 ≡ ok tt
      → (r : Session) × ((login users crypto cfg u.email new_password later
            (change_password users crypto cfg user_id old_password new_password salt now s).1).0
          ≡ ok r)
        × (r.user.id ≡ user_id)
  unfolding change_password login
  change_password-login laws user_id old_password new_password salt now later s u before found e =
      let hash = crypto.hash_password new_password cfg.bcrypt_rounds salt in
      let t = users.update_password user_id hash now s in
      let changed : (change_password users crypto cfg user_id old_password new_password salt now
            s).1
          ≡ t =
        ground (arith, users.find_by_id_lem user_id s, found) in
      let row : users.row t user_id ≡ some (set_password hash now u) =
        rw
          (
            users.row-update_password user_id hash now s user_id,
            found,
            users.row_id s user_id u found,
            eq_self user_id,
          )
          refl in
      elim (Option-cases (users.find_by_email u.email t)) [
        | inl missing ↦ absurd (
            users.find_by_email_missing u.email t (set_password hash now u) missing
              (ap (users.row t) (users.row_id s user_id u found) ∙ row) refl)
        | inr (v, seen) ↦
            let (hashed_as, same_id) = update_found user_id hash now s u before found v seen in
            (
              record {
                user = to_public_user v;
                access_token = sign_access_token users crypto cfg v.id none later;
                refresh_token = sign_refresh_token users crypto cfg v.id later;
              },
              rw
                  (
                    changed,
                    seen,
                    hashed_as,
                    laws.compare-hash_password new_password cfg.bcrypt_rounds salt,
                  )
                  refl,
              same_id,
            )
      ]
