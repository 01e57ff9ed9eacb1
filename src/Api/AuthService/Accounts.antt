-- ===== src/Api/AuthService/Accounts.antt =====
-- Registration, one account to an email, and what a caller learns from a failed login.
use file_processing_platform.Common.{
  ℕ, String, ◌≡◌, refl, sym, ap, ◌∙◌, Option, some, none, ◌==◌, eq_iff, eq_self, Option-cases, inl,
  inr, arith, Bool-cases, if◌then◌else◌, false,
}
use file_processing_platform.Common.Exec.{ok, err}
use file_processing_platform.Errors.{conflict}
use file_processing_platform.Schema.{DbUser}
use file_processing_platform.Db.Changes.{new_user, set_refresh_hash}
use file_processing_platform.Db.Users.{UserRepo}
use file_processing_platform.Api.AuthService.{
  Crypto, AuthServiceConfig, Session, register, login, sign_refresh_token, sign_access_token,
  to_public_user,
}

module _ {S : Type 0} (users : UserRepo S) (crypto : Crypto) (cfg : AuthServiceConfig) where
  -- No two rows have the same email.
  pub record UniqueEmails (s : S) : Type 0 where
    pub unique :
        (u v : DbUser)
        → users.row s u.id ≡ some u
        → users.row s v.id ≡ some v
        → u.email ≡ v.email
        → u.id ≡ v.id

  -- The row that a registration leaves.
  abbrev pub registered : String → String → String → ℕ → S → DbUser
  registered email password salt now s =
      set_refresh_hash
        (some (crypto.sha256 (sign_refresh_token users crypto cfg (users.next_id s) now))) now
        (new_user email (crypto.hash_password password cfg.bcrypt_rounds salt) now
          (users.next_id s))

  module _ (email password salt : String) (now : ℕ) (s : S) where
    abbrev digest : Option String
    digest = some (crypto.sha256 (sign_refresh_token users crypto cfg (users.next_id s) now))

    abbrev hashed : String
    hashed = crypto.hash_password password cfg.bcrypt_rounds salt

    row-registered :
        (k : String)
        → users.row
            (users.set_refresh_token_hash
              (users.next_id s)
              digest
              now
              (users.create email hashed now s).1)
            k
          ≡ (if users.next_id s == k
              then some (registered email password salt now s)
              else users.row s k)
    row-registered k =
        let made = users.row-create email hashed now s k in
        let set =
          users.row-set_refresh_token_hash (users.next_id s) digest now
            (users.create email hashed now s).1 k in
        elim (Bool-cases (users.next_id s == k)) [
          | inl new ↦ ground (arith, set, made, new, eq_self (users.next_id s))
          | inr old ↦ elim (Option-cases (users.row s k)) [
            | inl missing ↦ ground (arith, set, made, old, missing)
            | inr (u, found) ↦ ground (
              arith,
              set,
              made,
              old,
              found,
              users.row_id s k u found,
              eq_iff u.id (users.next_id s),
              eq_iff (users.next_id s) k,
            )
          ]
        ]

    -- A registration of an email that no row has succeeds and adds one row, under an unused id, with
    -- the hash of the password and the digest of the refresh token; every other row is unchanged.
    register_new :
        users.find_by_email email s ≡ none
        → (r : Session) × ((register users crypto cfg email password salt now s).0 ≡ ok r)
          × (r.user.id ≡ users.next_id s)
          × (users.row s (users.next_id s) ≡ none)
          × ((k : String)
              → users.row (register users crypto cfg email password salt now s).1 k ≡ (
                  if users.next_id s == k
                  then some (registered email password salt now s)
                  else users.row s k))
    unfolding register
    register_new free =
        let made = users.create_returns email hashed now s in
        let id = users.next_id s in
        (
          record {
            user = to_public_user (new_user email hashed now id);
            access_token = sign_access_token users crypto cfg id none now;
            refresh_token = sign_refresh_token users crypto cfg id now;
          },
          rw (free, made) refl,
          refl,
          users.row-next_id s,
          λ k. rw (free, made) (row-registered k),
        )

    -- A registration of an email that a row has is refused as a conflict and writes nothing.
    pub register_taken :
        (u : DbUser)
        → users.find_by_email email s ≡ some u
        → register users crypto cfg email password salt now s
          ≡ (err (conflict "EMAIL_TAKEN" "An account with this email address already exists"), s)
    unfolding register
    register_taken u taken = ground (arith, taken)

  register_unique :
      (email password salt : String) (now : ℕ) (s : S)
      → UniqueEmails s
      → users.find_by_email email s ≡ none
      → (u v : DbUser)
      → (if users.next_id s == u.id
          then some (registered email password salt now s)
          else users.row s u.id)
        ≡ some u
      → (if users.next_id s == v.id
          then some (registered email password salt now s)
          else users.row s v.id)
        ≡ some v
      → u.email ≡ v.email
      → u.id ≡ v.id
  register_unique email password salt now s before free u v hu hv same = ground (
    arith,
    before.unique u v,
    users.find_by_email_missing email s u free,
    users.find_by_email_missing email s v free,
    eq_iff (users.next_id s) u.id,
    eq_iff (users.next_id s) v.id,
  )

  -- Registration keeps emails unique, whatever its outcome.
  pub register-UniqueEmails :
      (email password salt : String) (now : ℕ) (s : S)
      → UniqueEmails s
      → UniqueEmails (register users crypto cfg email password salt now s).1
  register-UniqueEmails email password salt now s before = record {
    unique = λ u v hu hv same. elim (Option-cases (users.find_by_email email s)) [
      | inr (w, taken) ↦
          let kept = ap (λ r. r.1) (register_taken email password salt now s w taken) in
          before.unique u v (rw kept at hu) (rw kept at hv) same
      | inl free ↦
          let rows = (register_new email password salt now s free).4 in
          register_unique email password salt now s before free u v (sym (rows u.id) ∙ hu)
            (sym (rows v.id) ∙ hv) same
    ];
  }

  -- A wrong password and an unknown email get the same answer, and neither writes anything.
  pub login_uniform :
      (email other password : String) (now : ℕ) (s : S) (u : DbUser)
      → users.find_by_email email s ≡ some u
      → crypto.compare_password password u.password_hash ≡ false
      → users.find_by_email other s ≡ none
      → (login users crypto cfg email password now s ≡ login users crypto cfg other password now s)
        × ((login users crypto cfg email password now s).1 ≡ s)
  unfolding login
  login_uniform email other password now s u found wrong missing =
      (ground (arith, found, wrong, missing), ground (arith, found, wrong))
