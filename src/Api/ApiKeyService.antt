-- ===== src/Api/ApiKeyService.antt =====
-- apps/api/src/services/ApiKeyService.ts, each method as an action on the table of API keys. `now`
-- is the time of the call, and `hex` the 24 random bytes that it draws, in hexadecimal.
pub mod Limit
pub mod Revoke
use Prim.Native.String
use file_processing_platform.Common.{
  ℕ, zero, suc, String, Bool, List, [], ◌∷◌, map, leb, not, concat, if◌then◌else◌,
}
use file_processing_platform.Common.Exec.{Exec, pure, gets, run, throw_if, ◌>>=◌, ◌>>◌}
use file_processing_platform.Errors.{conflict, not_found}
use file_processing_platform.Schema.{ApiKeyRow}
use file_processing_platform.Db.ApiKeys.{ApiKeyRepo}
use file_processing_platform.Api.Platform.{Runtime, decimal}

-- `ApiKey` of packages/types/src/domain.ts
pub record ApiKey : Type 0 where
  pub id : String
  pub user_id : String
  pub key_prefix : String
  pub last_four : String
  pub created_at : String

abbrev pub max_keys_per_user : ℕ
max_keys_per_user = 5

abbrev pub key_prefix : String
key_prefix = "sk-"

unfoldable pub text_length : String → ℕ
text_length String.[] = 0
text_length (String.◌∷◌ c s) = suc (text_length s)

-- `text.slice(-n)`, for a positive n
unfoldable pub slice_from_end : ℕ → String → String
unfolding text_length
slice_from_end n String.[] = ""
slice_from_end n (String.◌∷◌ c s) =
    let rest = slice_from_end n s in
    if leb (text_length (String.◌∷◌ c s)) n then String.◌∷◌ c s else rest

unfoldable pub generate_raw_key : String → String
generate_raw_key hex = concat (key_prefix ∷ hex ∷ [])

module _ {S : Type 0} (keys : ApiKeyRepo S) (runtime : Runtime) (sha256 : String → String) where
  unfoldable pub to_api_key : ApiKeyRow → ApiKey
  to_api_key row = record {
    id = row.id;
    user_id = row.user_id;
    key_prefix = row.key_prefix;
    last_four = row.last_four;
    created_at = runtime.to_iso_string row.created_at;
  }

  unfoldable pub list_keys : String → Exec S (List ApiKey)
  list_keys user_id = do rows ← gets (keys.find_by_user_id user_id); pure (map to_api_key rows)

  -- The part of `createKey` up to the check of the limit: it only reads.
  unfoldable pub check_limit : String → Exec S (Unit {0})
  check_limit user_id = do
    count ← gets (keys.count_by_user_id user_id)
    throw_if (leb max_keys_per_user count) (
        conflict "API_KEY_LIMIT_REACHED"
          (concat ("Maximum of " ∷ decimal max_keys_per_user ∷ " API keys allowed per user" ∷ [])))

  -- The part of `createKey` behind the check: `{ key, fullKey }`
  unfoldable pub store_key : String → String → ℕ → Exec S (ApiKey × String)
  unfolding to_api_key
  store_key user_id hex now = do
    let raw_key = generate_raw_key hex
    row ← run (
        keys.create
          (record {
            user_id = user_id;
            key_hash = sha256 raw_key;
            key_prefix = key_prefix;
            last_four = slice_from_end 4 raw_key;
          })
          now)
    pure (to_api_key row, raw_key)

  unfoldable pub create_key : String → String → ℕ → Exec S (ApiKey × String)
  unfolding check_limit store_key
  create_key user_id hex now = do check_limit user_id; store_key user_id hex now

  unfoldable pub revoke_key : String → String → Exec S (Unit {0})
  revoke_key user_id key_id = do
    deleted ← run (keys.delete_by_id key_id user_id)
    throw_if (not deleted) (not_found "API_KEY_NOT_FOUND" "API key not found")
