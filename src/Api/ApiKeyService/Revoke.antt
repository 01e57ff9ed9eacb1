-- ===== src/Api/ApiKeyService/Revoke.antt =====
-- Revoking a key: `ApiKeyService.revokeKey`.
use file_processing_platform.Common.{
  String, ◌≡◌, ◌≢◌, inl, inr, none, some, ◌==◌, eq_iff, arith, if◌then◌else◌, Option-cases,
}
use file_processing_platform.Common.Exec.{ok, err}
use file_processing_platform.Errors.{not_found}
use file_processing_platform.Schema.{ApiKeyRow}
use file_processing_platform.Db.ApiKeys.{ApiKeyRepo}
use file_processing_platform.Api.Platform.{Runtime}
use file_processing_platform.Api.ApiKeyService.{revoke_key}

module _ {S : Type 0} (keys : ApiKeyRepo S) (runtime : Runtime) (sha256 : String → String) where
  module _ (user_id key_id : String) (s : S) where
    -- The owner of a key revokes it: the call returns, the row is gone, and every other row is as it
    -- was.
    revoke_key-removes :
        (r : ApiKeyRow)
        → keys.row s key_id ≡ some r
        → r.user_id ≡ user_id
        → ((revoke_key keys runtime sha256 user_id key_id s).0 ≡ ok tt)
          × ((k : String)
              → keys.row (revoke_key keys runtime sha256 user_id key_id s).1 k
                ≡ (if key_id == k then none else keys.row s k))
    unfolding revoke_key
    revoke_key-removes r found own = (
      ground (
        arith,
        found,
        keys.delete_returns key_id user_id s,
        keys.row_id s key_id r found,
        eq_iff r.id key_id,
        eq_iff r.user_id user_id,
      ),
      λ k. elim (Option-cases (keys.row s k)) [
        | inl missing ↦ ground (arith, missing, keys.row-delete key_id user_id s k)
        | inr (q, at) ↦ ground (
          arith,
          at,
          found,
          keys.row-delete key_id user_id s k,
          keys.row_id s k q at,
          keys.row_id s key_id r found,
          eq_iff q.id key_id,
          eq_iff q.user_id user_id,
          eq_iff key_id k,
        )
      ],
    )

    -- Nobody else can: a key that is absent or of another user is answered as absent, and every row
    -- is as it was.
    revoke_key-refuses :
        ((r : ApiKeyRow) → keys.row s key_id ≡ some r → r.user_id ≢ user_id)
        → ((revoke_key keys runtime sha256 user_id key_id s).0
            ≡ err (not_found "API_KEY_NOT_FOUND" "API key not found"))
          × ((k : String)
              → keys.row (revoke_key keys runtime sha256 user_id key_id s).1 k ≡ keys.row s k)
    unfolding revoke_key
    revoke_key-refuses foreign = (
      elim (Option-cases (keys.row s key_id)) [
        | inl missing ↦ ground (arith, missing, keys.delete_returns key_id user_id s)
        | inr (r, found) ↦ ground (
          arith,
          found,
          foreign r found,
          keys.delete_returns key_id user_id s,
          eq_iff r.user_id user_id,
        )
      ],
      λ k. elim (Option-cases (keys.row s k)) [
        | inl missing ↦ ground (arith, missing, keys.row-delete key_id user_id s k)
        | inr (q, at) ↦ elim (Option-cases (keys.row s key_id)) [
          | inl missing ↦ ground (
            arith,
            at,
            missing,
            keys.row-delete key_id user_id s k,
            keys.row_id s k q at,
            eq_iff q.id key_id,
          )
          | inr (r, found) ↦ ground (
            arith,
            at,
            found,
            foreign r found,
            keys.row-delete key_id user_id s k,
            keys.row_id s k q at,
            eq_iff q.id key_id,
            eq_iff q.user_id user_id,
          )
        ]
      ],
    )
