-- ===== src/Db/Users.antt =====
-- `IUserRepository` of packages/db/src/repositories/UserRepository.ts: the operations, and what
-- each one promises about the rows of the table.
use file_processing_platform.Common.{
  ℕ, String, ◌≡◌, ◌≢◌, Bool, Option, none, some, ◌==◌, if◌then◌else◌, map_some,
}
use file_processing_platform.Schema.{DbUser}
use file_processing_platform.Db.Changes.{new_user, set_refresh_hash, set_password}

-- `eq(users.id, id)`
abbrev pub has_user_id : String → DbUser → Bool
has_user_id id u = u.id == id

pub record UserRepo (S : Type 0) : Type 0 where
  -- the row with an id
  pub row : S → String → Option DbUser
  -- the id that the next insert draws
  pub next_id : S → String
  pub find_by_email : String → S → Option DbUser
  pub find_by_id : String → S → Option DbUser
  pub create : String → String → ℕ → S → DbUser × S
  pub set_refresh_token_hash : String → Option String → ℕ → S → S
  pub update_password : String → String → ℕ → S → S
  pub row_id : (s : S) (k : String) (u : DbUser) → row s k ≡ some u → u.id ≡ k
  pub row-next_id : (s : S) → row s (next_id s) ≡ none
  pub find_by_email_found :
      (e : String) (s : S) (u : DbUser)
      → find_by_email e s ≡ some u
      → (row s u.id ≡ some u) × (u.email ≡ e)
  pub find_by_email_missing :
      (e : String) (s : S) (u : DbUser)
      → find_by_email e s ≡ none
      → row s u.id ≡ some u
      → u.email ≢ e
  pub find_by_id_lem : (k : String) (s : S) → find_by_id k s ≡ row s k
  pub create_returns :
      (e h : String) (n : ℕ) (s : S) → (create e h n s).0 ≡ new_user e h n (next_id s)
  pub row-create :
      (e h : String) (n : ℕ) (s : S) (k : String)
      → row (create e h n s).1 k
        ≡ (if next_id s == k then some (new_user e h n (next_id s)) else row s k)
  pub row-set_refresh_token_hash :
      (k : String) (h : Option String) (n : ℕ) (s : S) (j : String)
      → row (set_refresh_token_hash k h n s) j
        ≡ map_some (λ u. if has_user_id k u then set_refresh_hash h n u else u) (row s j)
  pub row-update_password :
      (k h : String) (n : ℕ) (s : S) (j : String)
      → row (update_password k h n s) j
        ≡ map_some (λ u. if has_user_id k u then set_password h n u else u) (row s j)
