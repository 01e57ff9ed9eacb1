-- ===== src/Db/ApiKeys.antt =====
-- `IApiKeyRepository` of packages/db/src/repositories/ApiKeyRepository.ts: the operations, and
-- what each one promises about the rows of the table.
use file_processing_platform.Common.{
  ℕ, suc, ◌≤◌, String, ◌≡◌, ◌↔◌, Bool, true, false, ◌&&◌, Option, none, some, List, ◌==◌,
  if◌then◌else◌, keep_if,
}
use file_processing_platform.Common.Lists.{Elem, length}
use file_processing_platform.Schema.{ApiKeyRow, NewApiKey}
use file_processing_platform.Db.Changes.{new_api_key}
use file_processing_platform.Db.Tables.{is_none}

-- `eq(apiKeys.userId, userId)`
abbrev pub is_users_key : String → ApiKeyRow → Bool
is_users_key user_id r = r.user_id == user_id

-- `and(eq(apiKeys.id, id), eq(apiKeys.userId, userId))`
abbrev pub is_owned_key : String → String → ApiKeyRow → Bool
is_owned_key id user_id r = r.id == id && r.user_id == user_id

pub record ApiKeyRepo (S : Type 0) : Type 0 where
  -- the row with an id
  pub row : S → String → Option ApiKeyRow
  -- the id that the next insert draws
  pub next_id : S → String
  pub find_by_user_id : String → S → List ApiKeyRow
  pub count_by_user_id : String → S → ℕ
  pub create : NewApiKey → ℕ → S → ApiKeyRow × S
  pub delete_by_id : String → String → S → Bool × S
  pub row_id : (s : S) (k : String) (r : ApiKeyRow) → row s k ≡ some r → r.id ≡ k
  pub row-next_id : (s : S) → row s (next_id s) ≡ none
  pub Elem-find_by_user_id :
      (u : String) (s : S) (r : ApiKeyRow)
      → Elem r (find_by_user_id u s) ↔ ((row s r.id ≡ some r) × (r.user_id ≡ u))
  pub count_lem : (u : String) (s : S) → count_by_user_id u s ≡ length (find_by_user_id u s)
  pub create_returns :
      (d : NewApiKey) (n : ℕ) (s : S) → (create d n s).0 ≡ new_api_key d n (next_id s)
  pub row-create :
      (d : NewApiKey) (n : ℕ) (s : S) (k : String)
      → row (create d n s).1 k
        ≡ (if next_id s == k then some (new_api_key d n (next_id s)) else row s k)
  pub count-create :
      (u : String) (d : NewApiKey) (n : ℕ) (s : S)
      → count_by_user_id u (create d n s).1
        ≡ (if d.user_id == u then suc (count_by_user_id u s) else count_by_user_id u s)
  pub delete_returns :
      (k u : String) (s : S)
      → (delete_by_id k u s).0
        ≡ (if is_none (keep_if (is_owned_key k u) (row s k)) then false else true)
  pub row-delete :
      (k u : String) (s : S) (j : String)
      → row (delete_by_id k u s).1 j
        ≡ keep_if (λ r. if is_owned_key k u r then false else true) (row s j)
  pub count-delete :
      (v k u : String) (s : S) → count_by_user_id v (delete_by_id k u s).1 ≤ count_by_user_id v s
