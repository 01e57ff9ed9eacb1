-- ===== src/Api/Routes.antt =====
-- apps/api/src/routes: the handlers behind their guards. A reply is a status and what is sent; an
-- exception is what the error handler is given.
pub mod ApiKeys
pub mod Auth
pub mod Files
pub mod Strangers
pub mod Statuses
pub mod Requests
pub mod Jobs
pub mod Ws
use file_processing_platform.Common.{ℕ, String, Option}
use file_processing_platform.Common.Exec.{Exec, pure, ◌>>=◌, ◌>>◌}
use file_processing_platform.Api.AuthService.{Crypto}
use file_processing_platform.Api.Guards.{Caller, authenticate, require_registered_user}

pub record Reply (A : Type 0) : Type 0 where
  pub status : ℕ
  pub body : A

-- A guard touches no state.
abbrev pub guarded : {S A : Type 0} → Exec (Unit {0}) A → Exec S A
guarded guard s = ((guard tt).0, s)

module _ {S : Type 0} (crypto : Crypto) (access_secret : String) where
  -- `preHandler: [authenticate, requireRegisteredUser]`
  unfoldable pub registered_caller : Option String → ℕ → Exec S Caller
  registered_caller header now = do
    caller ← guarded (authenticate crypto access_secret header now)
    guarded (require_registered_user caller)
    pure caller
