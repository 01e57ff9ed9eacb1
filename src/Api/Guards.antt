-- ===== src/Api/Guards.antt =====
-- apps/api/src/plugins/authenticate.ts and requireRegisteredUser.ts: what a guard reads of a request
-- and what it sets on it. `now` is the time of the request, and `verify` that of jsonwebtoken.
pub mod Tokens
use Prim.Native.String
use file_processing_platform.Common.{
  ℕ, String, Option, none, some, ◌==◌, [], ◌∷◌, concat, if◌then◌else◌,
}
use file_processing_platform.Common.Exec.{Exec, pure, throw, require, throw_if, ◌>>=◌, ◌>>◌}
use file_processing_platform.Errors.{unauthorized, forbidden}
use file_processing_platform.Api.AuthService.{Role, guest, Claims, Crypto, subject, is_some}

-- `request.userId` and `request.role`
pub record Caller : Type 0 where
  pub user_id : String
  pub role : Option Role

-- The rest of a text behind a prefix, if it starts with the prefix: `startsWith` and `slice`.
unfoldable pub behind : String → String → Option String
behind String.[] text = some text
behind (String.◌∷◌ c prefix) String.[] = none
behind (String.◌∷◌ c prefix) (String.◌∷◌ d text) =
    let rest = behind prefix text in
    if String.◌∷◌ c String.[] == String.◌∷◌ d String.[] then rest else none

-- `authHeader?.startsWith('Bearer ')`, and the token behind it
unfoldable pub bearer : Option String → Option String
unfolding behind
bearer none = none
bearer (some header) = behind "Bearer " header

module _ (crypto : Crypto) (access_secret : String) where
  unfoldable pub authenticate : Option String → ℕ → Exec (Unit {0}) Caller
  unfolding bearer
  authenticate header now = do
    token ← require (bearer header) (unauthorized "MISSING_TOKEN" "Authorization token is required")
    payload ←
        require (crypto.verify token access_secret now)
          (unauthorized "INVALID_TOKEN" "Token is invalid or expired")
    user_id ←
        require (subject payload.sub) (unauthorized "INVALID_TOKEN" "Token payload is malformed")
    pure (record { user_id = user_id; role = payload.role })

-- The only role there is stands for guests.
unfoldable pub require_registered_user : Caller → Exec (Unit {0}) (Unit {0})
require_registered_user caller =
    throw_if (is_some caller.role)
      (forbidden "GUEST_NOT_ALLOWED" "This action requires a registered account")
