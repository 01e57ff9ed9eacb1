-- ===== src/Db/UserRepository.antt =====
-- packages/db/src/repositories/UserRepository.ts: the class, its methods as functions on the table
-- of users.
pub mod Laws
use file_processing_platform.Common.{ℕ, String, Bool, Option, ◌==◌}
use file_processing_platform.Common.Lists.{take, head?}
use file_processing_platform.Schema.{DbUser}
use file_processing_platform.Db.Sql.{SqlTable}
use file_processing_platform.Db.Changes.{new_user, set_refresh_hash, set_password}
use file_processing_platform.Db.Users.{has_user_id}

-- `eq(users.email, email)`
abbrev pub has_email : String → DbUser → Bool
has_email email u = u.email == email

module _ {U : Type 0} (users : SqlTable U DbUser (λ u. u.id)) where
  unfoldable pub find_by_email : String → U → Option DbUser
  find_by_email email t = head? (take 1 (users.select (has_email email) t))

  unfoldable pub find_by_id : String → U → Option DbUser
  find_by_id id t = head? (take 1 (users.select (has_user_id id) t))

  unfoldable pub create : String → String → ℕ → U → DbUser × U
  create email password_hash now t = users.insert (new_user email password_hash now) t

  unfoldable pub set_refresh_token_hash : String → Option String → ℕ → U → U
  set_refresh_token_hash user_id hash now t =
      (users.update (has_user_id user_id) (set_refresh_hash hash now) t).1

  unfoldable pub update_password : String → String → ℕ → U → U
  update_password user_id password_hash now t =
      (users.update (has_user_id user_id) (set_password password_hash now) t).1
