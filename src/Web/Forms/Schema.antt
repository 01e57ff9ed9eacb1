-- ===== src/Web/Forms/Schema.antt =====
-- The forms against the schemas of the API.
use file_processing_platform.Common.{
  ◌≤◌, String, ◌≡◌, ◌≢◌, true, some, ◌==◌, arith, Bool-cases, inl, inr, eq_iff,
}
use file_processing_platform.Api.Schemas.{Ajv, login_body}
use file_processing_platform.Web.Forms.{
  TextRuntime, validate_login, email_error, login_password_error,
}

-- A text that is not empty has a code point, and nothing is left to trim of the empty one.
pub record TextLaws (text : TextRuntime) (ajv : Ajv) : Type 0 where
  pub code_points_pos : (s : String) → s ≢ "" → 1 ≤ ajv.code_points s
  pub trim_empty : text.trim "" ≡ ""

-- What the login form sends is never refused by the schema of `POST /auth/login`.
login_form_fits :
    (text : TextRuntime) (ajv : Ajv) (laws : TextLaws text ajv) (email password : String)
    → validate_login text email password ≡ true
    → login_body ajv (record { email = some email; password = some password }) ≡ true
unfolding validate_login email_error login_password_error login_body
login_form_fits text ajv laws email password h = elim (Bool-cases (email == "")) [
  | inl empty ↦
      let is = (eq_iff email "").0 empty in
      let blank = laws.trim_empty in ground (arith, is, blank, h)
  | inr filled ↦ elim (Bool-cases (password == "")) [
    | inl empty ↦ ground (arith, empty, h)
    | inr typed ↦
        let a = laws.code_points_pos email (λ e. ground (arith, e, filled, eq_iff email "")) in
        let b = laws.code_points_pos password (λ e. ground (arith, e, typed, eq_iff password "")) in
        ground (arith, a, b)
  ]
]
