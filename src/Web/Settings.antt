-- ===== src/Web/Settings.antt =====
-- apps/web/src/features/settings/components/ChangePasswordForm.tsx and ApiKeysTab.tsx: the form for
-- a new password, and the tab of the API keys. The answers to their requests are arguments.
pub mod Messages
use file_processing_platform.Common.{
  ℕ, String, Bool, true, false, Option, none, some, List, [], ◌∷◌, ◌++◌, ◌==◌, not, ◌||◌, ltb, leb,
  if◌then◌else◌, keep_if,
}
use file_processing_platform.Common.Lists.{length}
use file_processing_platform.Api.ApiKeyService.{ApiKey}
use file_processing_platform.Web.Forms.{TextRuntime}

-- The fields and the local error, and what `useMutation` returns: `error` has the code of the
-- response, where there is one.
pub record PasswordForm : Type 0 where
  pub current_password : String
  pub new_password : String
  pub confirm_password : String
  pub client_error : Option String
  pub is_pending : Bool
  pub is_success : Bool
  pub error : Option (Option String)

-- `reset`, behind `setClientError(null)`
unfoldable pub cleared : PasswordForm → PasswordForm
cleared form = record form {
  client_error = none;
  is_pending = false;
  is_success = false;
  error = none;
}

-- The error with which `handleSubmit` returns early.
unfoldable pub change_error : TextRuntime → PasswordForm → Option String
change_error text form =
    if form.current_password == "" || form.new_password == "" || form.confirm_password == ""
    then some "All fields are required."
    else if ltb (text.utf16_length form.new_password) 8
    then some "New password must be at least 8 characters."
    else if not (form.new_password == form.confirm_password)
    then some "New passwords do not match."
    else none

-- `handleSubmit`: the two passwords of the request, if it is made
unfoldable pub handle_submit : TextRuntime → PasswordForm → Option (String × String) × PasswordForm
unfolding cleared change_error
handle_submit text form = elim (change_error text form) [
  | none ↦
      (some (form.current_password, form.new_password), record (cleared form) { is_pending = true })
  | some message ↦ (none, record (cleared form) { client_error = some message })
]

-- The request succeeds, or fails with a code.
unfoldable pub change_succeeded : PasswordForm → PasswordForm
change_succeeded form = record form {
  current_password = "";
  new_password = "";
  confirm_password = "";
  client_error = none;
  is_pending = false;
  is_success = true;
}

unfoldable pub change_failed : Option String → PasswordForm → PasswordForm
change_failed code form = record form { is_pending = false; error = some code }

abbrev pub is_code : Option String → Bool
is_code none = false
is_code (some code) = code == "INVALID_CURRENT_PASSWORD"

abbrev pub client_message : Option String → List String
client_message none = []
client_message (some message) = message ∷ []

abbrev pub server_message : Option (Option String) → List String
server_message none = []
server_message (some code) =
    if is_code code
    then "Current password is incorrect." ∷ []
    else "Something went wrong. Please try again." ∷ []

-- The messages below the fields.
unfoldable pub form_messages : PasswordForm → List String
form_messages form =
    client_message form.client_error
    ++ server_message form.error
    ++ (if form.is_success then "Password updated successfully." ∷ [] else [])

-- The state of `ApiKeysTab` less the mark of a copied key, with the keys of its query.
pub record KeysTab : Type 0 where
  pub keys : List ApiKey
  pub newly_created_key : Option (ApiKey × String)
  pub revoke_target : Option String

-- The button of a new key is not disabled.
unfoldable pub can_generate : KeysTab → Bool
can_generate tab = not (leb 5 (length tab.keys))

-- `onSuccess` of the two mutations
unfoldable pub key_created : ApiKey × String → KeysTab → KeysTab
key_created result tab = record tab { newly_created_key = some result }

unfoldable pub key_revoked : KeysTab → KeysTab
key_revoked tab = record tab { revoke_target = none }

-- `handleRevokeConfirm`: the id of the request, if it is made
unfoldable pub handle_revoke_confirm : KeysTab → Option String
handle_revoke_confirm tab = keep_if (λ id. not (id == "")) tab.revoke_target
