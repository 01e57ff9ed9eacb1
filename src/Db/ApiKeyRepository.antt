-- ===== src/Db/ApiKeyRepository.antt =====
-- packages/db/src/repositories/ApiKeyRepository.ts: the class, its methods as functions on the
-- table of API keys.
pub mod Laws
use file_processing_platform.Common.{ℕ, String, Bool, List, ltb}
use file_processing_platform.Common.Lists.{length}
use file_processing_platform.Schema.{ApiKeyRow, NewApiKey}
use file_processing_platform.Db.Sql.{SqlTable}
use file_processing_platform.Db.Changes.{new_api_key}
use file_processing_platform.Db.ApiKeys.{is_users_key, is_owned_key}

module _ {K : Type 0} (keys : SqlTable K ApiKeyRow (λ r. r.id)) where
  unfoldable pub find_by_user_id : String → K → List ApiKeyRow
  find_by_user_id user_id t = keys.select (is_users_key user_id) t

  unfoldable pub count_by_user_id : String → K → ℕ
  count_by_user_id user_id t = length (keys.select (is_users_key user_id) t)

  unfoldable pub create : NewApiKey → ℕ → K → ApiKeyRow × K
  create d now t = keys.insert (new_api_key d now) t

  unfoldable pub delete_by_id : String → String → K → Bool × K
  delete_by_id id user_id t =
      let (deleted, t') = keys.delete (is_owned_key id user_id) t in (ltb 0 (length deleted), t')
