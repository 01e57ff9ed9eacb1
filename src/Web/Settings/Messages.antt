-- ===== src/Web/Settings/Messages.antt =====
-- The form for a new password against `AuthService.changePassword`.
use file_processing_platform.Common.{
  ℕ, ◌≤◌, String, ◌≡◌, ◌≢◌, false, some, [], ◌∷◌, arith, inl, inr, eq_iff, Option-cases,
}
use file_processing_platform.Common.Exec.{err}
use file_processing_platform.Errors.{Exception, error_handler, bad_request}
use file_processing_platform.Schema.{DbUser}
use file_processing_platform.Db.Users.{UserRepo}
use file_processing_platform.Api.AuthService.{Crypto, AuthServiceConfig, change_password}
use file_processing_platform.Web.Forms.{TextRuntime}
use file_processing_platform.Web.Settings.{
  PasswordForm, handle_submit, change_failed, change_error, cleared, form_messages,
}

-- The form sends its current password with a new one that was typed twice.
pub handle_submit-sends :
    (text : TextRuntime) (form : PasswordForm) (old new : String)
    → (handle_submit text form).0 ≡ some (old, new)
    → (old ≡ form.current_password)
      × (new ≡ form.confirm_password)
      × (old ≢ "")
      × (8 ≤ text.utf16_length new)
unfolding handle_submit change_error
handle_submit-sends text form old new h =
    ground
      (arith, h, eq_iff form.current_password "", eq_iff form.new_password form.confirm_password)

-- Where the service refuses a change for its current password, the form that sent it shows that
-- alone.
pub wrong_password_shown :
    {S : Type 0} (users : UserRepo S) (crypto : Crypto) (cfg : AuthServiceConfig)
    (text : TextRuntime) (form : PasswordForm) (sent : String × String) (id salt : String) (now : ℕ)
    (s : S) (u : DbUser)
    → (handle_submit text form).0 ≡ some sent
    → users.find_by_id id s ≡ some u
    → crypto.compare_password sent.0 u.password_hash ≡ false
    → (e : Exception) × ((change_password users crypto cfg id sent.0 sent.1 salt now s).0 ≡ err e)
      × (form_messages (change_failed (some (error_handler e).code) (handle_submit text form).1)
          ≡ "Current password is incorrect." ∷ [])
unfolding handle_submit change_error cleared change_password error_handler change_failed
    form_messages
wrong_password_shown users crypto cfg text form sent id salt now s u h found wrong =
    elim (Option-cases (change_error text form)) [
      | inl fits ↦ (
        bad_request "INVALID_CURRENT_PASSWORD" "Current password is incorrect",
        ground (arith, fits, found, wrong),
        ground (arith, fits),
      )
      | inr (message, refused) ↦ absurd (ground (arith, refused, h))
    ]
