-- ===== src/Api/ApiKeyService/Limit.antt =====
-- The limit on the keys of a user: `ApiKeyService.createKey`.
use file_processing_platform.Common.{
  ℕ, ◌≤◌, ◌<◌, String, ◌≡◌, ◌↔◌, none, some, ◌==◌, eq_iff, eq_self, arith, if◌then◌else◌,
}
use file_processing_platform.Common.Exec.{ok}
use file_processing_platform.Schema.{NewApiKey}
use file_processing_platform.Db.Changes.{new_api_key}
use file_processing_platform.Db.ApiKeys.{ApiKeyRepo}
use file_processing_platform.Api.Platform.{Runtime}
use file_processing_platform.Api.ApiKeyService.{
  ApiKey, max_keys_per_user, key_prefix, slice_from_end, generate_raw_key, to_api_key, check_limit,
  store_key, create_key,
}

module _ {S : Type 0} (keys : ApiKeyRepo S) (runtime : Runtime) (sha256 : String → String) where
  -- The values of the row that a new key inserts: of the key itself, its digest and its last four
  -- characters.
  abbrev pub kept_of : String → String → NewApiKey
  kept_of user_id raw_key = record {
    user_id = user_id;
    key_hash = sha256 raw_key;
    key_prefix = key_prefix;
    last_four = slice_from_end 4 raw_key;
  }

  -- A key is created exactly while the user has fewer than five. A created key is a row under an
  -- unused id, and no other row has changed.
  create_key_iff :
      (user_id hex : String) (now : ℕ) (s : S)
      → (((key : ApiKey) × (full : String) × ((create_key keys runtime sha256 user_id hex now s).0
              ≡ ok (key, full)))
          ↔ (keys.count_by_user_id user_id s < max_keys_per_user))
        × ((key : ApiKey) (full : String)
            → (create_key keys runtime sha256 user_id hex now s).0 ≡ ok (key, full)
            → (full ≡ generate_raw_key hex)
              × (keys.row s key.id ≡ none)
              × ((k : String)
                  → keys.row (create_key keys runtime sha256 user_id hex now s).1 k ≡ (
                      if key.id == k
                      then some (new_api_key (kept_of user_id full) now key.id)
                      else keys.row s k)))
  unfolding create_key to_api_key
  create_key_iff user_id hex now s = (
    (
      λ h. ground (arith, h.2),
      λ h. (
        to_api_key keys runtime sha256
            (keys.create (kept_of user_id (generate_raw_key hex)) now s).0,
        generate_raw_key hex,
        ground (arith, h),
      ),
    ),
    λ key full e.
        let made = keys.create_returns (kept_of user_id (generate_raw_key hex)) now s in
        let same_full : full ≡ generate_raw_key hex = ground arith in
        let same_id : key.id ≡ keys.next_id s = ground (arith, made) in
        (
          same_full,
          rw same_id (keys.row-next_id s),
          λ k. ground (
            arith,
            same_full,
            same_id,
            made,
            keys.row-create (kept_of user_id (generate_raw_key hex)) now s k,
          ),
        ),
  )

  -- A call keeps every user within the limit, whatever its outcome.
  pub create_key-limit :
      (user_id hex : String) (now : ℕ) (s : S) (viewer : String)
      → keys.count_by_user_id viewer s ≤ max_keys_per_user
      → keys.count_by_user_id viewer (create_key keys runtime sha256 user_id hex now s).1
        ≤ max_keys_per_user
  unfolding create_key
  create_key-limit user_id hex now s viewer within = ground (
    arith,
    keys.count-create viewer (kept_of user_id (generate_raw_key hex)) now s,
    eq_iff user_id viewer,
  )

  -- Two calls that both check the limit before either of them inserts both pass it: a user with
  -- four keys has six afterwards.
  pub create_key_race :
      (user_id hex hex' : String) (now now' : ℕ) (s : S)
      → keys.count_by_user_id user_id s ≡ 4
      → (check_limit keys runtime sha256 user_id s ≡ (ok tt, s))
        × (keys.count_by_user_id user_id
              (store_key keys runtime sha256 user_id hex' now'
                (store_key keys runtime sha256 user_id hex now s).1).1
            ≡ 6)
  unfolding check_limit store_key
  create_key_race user_id hex hex' now now' s four =
      let first = keys.count-create user_id (kept_of user_id (generate_raw_key hex)) now s in
      let second =
        keys.count-create user_id (kept_of user_id (generate_raw_key hex')) now'
          (keys.create (kept_of user_id (generate_raw_key hex)) now s).1 in
      (ground (arith, four), ground (arith, first, second, four, eq_self user_id))
