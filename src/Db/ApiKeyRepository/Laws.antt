-- ===== src/Db/ApiKeyRepository/Laws.antt =====
-- The API key repository keeps the promises of `IApiKeyRepository`, for any table engine.
use file_processing_platform.Common.{
  ℕ, suc, String, ◌≡◌, refl, ◌∙◌, ◌↔◌, true, false, some, List, [], ◌∷◌, ◌==◌, ltb, eq_iff, arith,
  if◌then◌else◌, keep_if,
}
use file_processing_platform.Common.Lists.{Elem, length, head?}
use file_processing_platform.Schema.{ApiKeyRow, NewApiKey}
use file_processing_platform.Db.Sql.{SqlTable}
use file_processing_platform.Db.Sql.Lookup.{Pins, head?-delete}
use file_processing_platform.Db.Tables.{is_none}
use file_processing_platform.Db.Changes.{new_api_key}
use file_processing_platform.Db.ApiKeys.{ApiKeyRepo, is_users_key, is_owned_key}
use file_processing_platform.Db.ApiKeyRepository.{
  find_by_user_id, count_by_user_id, create, delete_by_id,
}

pub Pins-owned_key : (k u : String) → Pins (λ r. r.id) (is_owned_key k u) k
Pins-owned_key k u r h = ground (arith, eq_iff r.id k)

-- `deleted.length > 0`
pub length-pos :
    {R : Type 0} (xs : List R) → ltb 0 (length xs) ≡ (if is_none (head? xs) then false else true)
length-pos [] = refl
length-pos (x ∷ xs) = ground arith

module _ {K : Type 0} (keys : SqlTable K ApiKeyRow (λ r. r.id)) where
  pub Elem-users_keys :
      (u : String) (t : K) (r : ApiKeyRow)
      → Elem r (keys.select (is_users_key u) t) ↔ ((keys.row t r.id ≡ some r) × (r.user_id ≡ u))
  Elem-users_keys u t r =
      let law = keys.Elem-select (is_users_key u) t r in
      (
        λ m. let (at, test) = law.0 m in (at, (eq_iff r.user_id u).0 test),
        λ h. law.1 (h.0, (eq_iff r.user_id u).1 h.1),
      )

  pub count-insert_key :
      (u : String) (d : NewApiKey) (n : ℕ) (t : K)
      → length (keys.select (is_users_key u) (keys.insert (new_api_key d n) t).1) ≡ (
          if d.user_id == u
          then suc (length (keys.select (is_users_key u) t))
          else length (keys.select (is_users_key u) t))
  count-insert_key u d n t =
      rw
        (
          ← keys.count-select (is_users_key u) t,
          ← keys.count-select (is_users_key u) (keys.insert (new_api_key d n) t).1,
        )
        (keys.count-insert (is_users_key u) (new_api_key d n) t refl)

  pub delete_found :
      (k u : String) (t : K)
      → ltb 0 (length (keys.delete (is_owned_key k u) t).0)
        ≡ (if is_none (keep_if (is_owned_key k u) (keys.row t k)) then false else true)
  delete_found k u t =
      length-pos (keys.delete (is_owned_key k u) t).0
      ∙ rw (head?-delete keys (is_owned_key k u) k t (Pins-owned_key k u)) refl

  -- The repository of the program, behind its interface.
  unfoldable pub api_key_repo : ApiKeyRepo K
  unfolding find_by_user_id count_by_user_id create delete_by_id
  api_key_repo = record {
    row = keys.row;
    next_id = keys.next_id;
    find_by_user_id = find_by_user_id keys;
    count_by_user_id = count_by_user_id keys;
    create = create keys;
    delete_by_id = delete_by_id keys;
    row-next_id = keys.row-next_id;
    row_id = λ t k r h. keys.row_key t k r h;
    Elem-find_by_user_id = Elem-users_keys;
    count_lem = λ u t. refl;
    create_returns = λ d n t. keys.insert_returning (new_api_key d n) t;
    row-create = λ d n t k. keys.row-insert (new_api_key d n) t k refl;
    count-create = count-insert_key;
    delete_returns = delete_found;
    row-delete = λ k u t j. keys.row-delete (is_owned_key k u) t j;
    count-delete = λ v k u t.
        rw
          (
            ← keys.count-select (is_users_key v) t,
            ← keys.count-select (is_users_key v) (keys.delete (is_owned_key k u) t).1,
          )
          (keys.count-delete (is_users_key v) (is_owned_key k u) t);
  }
