-- ===== src/Api/Routes/ApiKeys.antt =====
-- apps/api/src/routes/apiKeys/index.ts: the three handlers.
use file_processing_platform.Common.{ℕ, String, ◌≡◌, refl, Bool, true, Option, some, List, arith}
use file_processing_platform.Common.Exec.{Exec, ok, err, pure, ◌>>=◌, ◌>>◌}
use file_processing_platform.Errors.{Exception, forbidden, error_handler}
use file_processing_platform.Db.ApiKeys.{ApiKeyRepo}
use file_processing_platform.Api.Platform.{Runtime}
use file_processing_platform.Api.AuthService.{Crypto, guest}
use file_processing_platform.Api.Guards.{authenticate, require_registered_user}
use file_processing_platform.Api.ApiKeyService.{ApiKey, list_keys, create_key, revoke_key}
use file_processing_platform.Api.Schemas.{Ajv, id_params, validate}
use file_processing_platform.Api.Routes.{Reply, registered_caller}

module _ {S : Type 0} (keys : ApiKeyRepo S) (runtime : Runtime) (crypto : Crypto)
    (access_secret : String) (ajv : Ajv) where
  -- `GET /api-keys`
  unfoldable pub get_keys : Option String → ℕ → Exec S (Reply (List ApiKey))
  unfolding registered_caller
  get_keys header now = do
    caller ← registered_caller crypto access_secret header now
    found ← list_keys keys runtime crypto.sha256 caller.user_id
    pure (record { status = 200; body = found })

  -- `POST /api-keys`, told whether the body of the request is an object
  unfoldable pub post_key : Option String → Bool → String → ℕ → Exec S (Reply (ApiKey × String))
  unfolding registered_caller
  post_key header is_object hex now = do
    validate ajv "body" is_object
    caller ← registered_caller crypto access_secret header now
    made ← create_key keys runtime crypto.sha256 caller.user_id hex now
    pure (record { status = 201; body = made })

  -- `DELETE /api-keys/:id`
  unfoldable pub delete_key : Option String → String → ℕ → Exec S (Reply (Unit {0}))
  unfolding registered_caller
  delete_key header id now = do
    validate ajv "params/id" (id_params ajv id)
    caller ← registered_caller crypto access_secret header now
    revoke_key keys runtime crypto.sha256 caller.user_id id
    pure (record { status = 204; body = tt })

  -- A request of a guest that the schemas let through, whatever it asks of the keys, is refused with
  -- status 403, and no row is touched.
  guest_manages_no_keys :
      (header : Option String) (hex id user_id : String) (now : ℕ) (s : S)
      → (authenticate crypto access_secret header now tt).0
        ≡ ok (record { user_id = user_id; role = some guest })
      → id_params ajv id ≡ true
      → (x : Exception) × (get_keys header now s ≡ (err x, s))
        × (post_key header true hex now s ≡ (err x, s))
        × (delete_key header id now s ≡ (err x, s))
        × ((error_handler x).status ≡ 403)
  unfolding get_keys post_key delete_key require_registered_user error_handler
  guest_manages_no_keys header hex id user_id now s e valid = (
    forbidden "GUEST_NOT_ALLOWED" "This action requires a registered account",
    ground (arith, e, valid),
    ground (arith, e, valid),
    ground (arith, e, valid),
    refl,
  )
