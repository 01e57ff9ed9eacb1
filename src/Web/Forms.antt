-- ===== src/Web/Forms.antt =====
-- apps/web/src/features/auth/hooks/useLoginForm.ts and useRegisterForm.ts: the checks of the fields,
-- and what a submission ends in. `\s`, the length of a text in UTF-16 units and `trim` are those of
-- the browser.
pub mod Email
pub mod Schema
use Prim.Native.String
use file_processing_platform.Common.{
  ℕ, String, Bool, true, false, Option, none, some, List, [], ◌∷◌, ◌==◌, ◌&&◌, not, ltb, eqb,
  if◌then◌else◌,
}
use file_processing_platform.Db.Tables.{is_none}

pub record TextRuntime : Type 0 where
  -- a text of one code point matches `\s`
  pub is_space : String → Bool
  pub trim : String → String
  pub utf16_length : String → ℕ

-- What `/^[^\s@]+@[^\s@]+\.[^\s@]+$/` tells apart.
pub data Class : Type 0 where
  space at dot other : Class

-- `[^\s@]`
abbrev pub is_plain : Class → Bool
is_plain space = false
is_plain at = false
is_plain dot = true
is_plain other = true

abbrev pub all_plain : List Class → Bool
all_plain [] = true
all_plain (c ∷ cs) = is_plain c && all_plain cs

-- `[^\s@]+$`
abbrev pub plain_to_end : List Class → Bool
plain_to_end [] = false
plain_to_end (c ∷ cs) = is_plain c && all_plain cs

-- `[^\s@]*\.[^\s@]+$`
abbrev pub dotted : List Class → Bool
dotted [] = false
dotted (space ∷ cs) = false
dotted (at ∷ cs) = false
dotted (dot ∷ cs) = if plain_to_end cs then true else dotted cs
dotted (other ∷ cs) = dotted cs

-- `[^\s@]+\.[^\s@]+$`
abbrev pub domain : List Class → Bool
domain [] = false
domain (c ∷ cs) = is_plain c && dotted cs

-- `[^\s@]*@[^\s@]+\.[^\s@]+$`
abbrev pub after_local : List Class → Bool
after_local [] = false
after_local (space ∷ cs) = false
after_local (at ∷ cs) = domain cs
after_local (dot ∷ cs) = after_local cs
after_local (other ∷ cs) = after_local cs

-- The whole expression.
unfoldable pub matches_email : List Class → Bool
matches_email [] = false
matches_email (c ∷ cs) = is_plain c && after_local cs

module _ (text : TextRuntime) where
  abbrev class_of : String → Class
  class_of c =
      if c == "@" then at else if c == "." then dot else if text.is_space c then space else other

  unfoldable pub classes : String → List Class
  classes String.[] = []
  classes (String.◌∷◌ c rest) = class_of (String.◌∷◌ c String.[]) ∷ classes rest

  -- `errors.email`
  unfoldable pub email_error : String → Option String
  unfolding classes matches_email
  email_error email =
      if text.trim email == ""
      then some "Email is required"
      else if not (matches_email (classes email))
      then some "Invalid email format"
      else none

  -- `errors.password` of the login form
  unfoldable pub login_password_error : String → Option String
  login_password_error password = if password == "" then some "Password is required" else none

  unfoldable pub register_password_error : String → Option String
  register_password_error password =
      if password == ""
      then some "Password is required"
      else if ltb (text.utf16_length password) 8
      then some "Password must be at least 8 characters"
      else none

  unfoldable pub confirm_error : String → String → Option String
  confirm_error password confirm_password =
      if confirm_password == ""
      then some "Please confirm your password"
      else if not (password == confirm_password)
      then some "Passwords do not match"
      else none

  -- `validateForm` of the two forms
  unfoldable pub validate_login : String → String → Bool
  unfolding email_error login_password_error
  validate_login email password =
      is_none (email_error email) && is_none (login_password_error password)

  unfoldable pub validate_register : String → String → String → Bool
  unfolding email_error register_password_error confirm_error
  validate_register email password confirm_password =
      is_none (email_error email)
      && is_none (register_password_error password)
      && is_none (confirm_error password confirm_password)

-- The message for a request that the API refused with a status.
unfoldable pub login_failure : Option ℕ → String
login_failure none = "Something went wrong. Please try again."
login_failure (some status) =
    if eqb status 401
    then "Invalid email or password. Please try again."
    else "Something went wrong. Please try again."

unfoldable pub register_failure : Option ℕ → String
register_failure none = "Something went wrong. Please try again."
register_failure (some status) =
    if eqb status 409
    then "An account with this email already exists."
    else "Something went wrong. Please try again."
