-- ===== src/Db/UserRepository/Laws.antt =====
-- The user repository keeps the promises of `IUserRepository`, for any table engine.
use file_processing_platform.Common.{
  String, ◌≡◌, refl, sym, inl, inr, ◌≢◌, ◌∙◌, Option-cases, none, some, eq_iff, keep_if,
}
use file_processing_platform.Common.Lists.{head?-take, head?-Elem, head?-none_inv}
use file_processing_platform.Schema.{DbUser}
use file_processing_platform.Db.Sql.{SqlTable}
use file_processing_platform.Db.Sql.Lookup.{Pins, head?-select}
use file_processing_platform.Db.Changes.{new_user, set_refresh_hash, set_password}
use file_processing_platform.Db.Users.{UserRepo, has_user_id}
use file_processing_platform.Db.UserRepository.{
  has_email, find_by_email, find_by_id, create, set_refresh_token_hash, update_password,
}

pub Pins-user_id : (k : String) → Pins (λ u. u.id) (has_user_id k) k
Pins-user_id k u h = (eq_iff u.id k).0 h

module _ {U : Type 0} (users : SqlTable U DbUser (λ u. u.id)) where
  pub find_by_email_sound :
      (e : String) (t : U) (u : DbUser)
      → find_by_email users e t ≡ some u
      → (users.row t u.id ≡ some u) × (u.email ≡ e)
  unfolding find_by_email
  find_by_email_sound e t u h =
      let first = sym (head?-take (users.select (has_email e) t)) ∙ h in
      let (at, test) = (users.Elem-select (has_email e) t u).0 (head?-Elem u _ first) in
      (at, (eq_iff u.email e).0 test)

  pub find_by_email_complete :
      (e : String) (t : U) (u : DbUser)
      → find_by_email users e t ≡ none
      → users.row t u.id ≡ some u
      → u.email ≢ e
  unfolding find_by_email
  find_by_email_complete e t u h at same =
      let first = sym (head?-take (users.select (has_email e) t)) ∙ h in
      head?-none_inv u (users.select (has_email e) t) first
        ((users.Elem-select (has_email e) t u).1 (at, (eq_iff u.email e).1 same))

  keep_if-has_user_id :
      (t : U) (k : String) → keep_if (has_user_id k) (users.row t k) ≡ users.row t k
  keep_if-has_user_id t k = elim (Option-cases (users.row t k)) [
    | inl missing ↦ rw missing refl
    | inr (u, found) ↦ rw (found, (eq_iff u.id k).1 (users.row_key t k u found)) refl
  ]

  pub find_by_id_keeps : (k : String) (t : U) → find_by_id users k t ≡ users.row t k
  unfolding find_by_id
  find_by_id_keeps k t =
      head?-take (users.select (has_user_id k) t)
      ∙ head?-select users (has_user_id k) k t (Pins-user_id k)
      ∙ keep_if-has_user_id t k

  -- The repository of the program, behind its interface.
  unfoldable pub user_repo : UserRepo U
  unfolding create set_refresh_token_hash update_password
  user_repo = record {
    row = users.row;
    next_id = users.next_id;
    find_by_email = find_by_email users;
    find_by_id = find_by_id users;
    create = create users;
    set_refresh_token_hash = set_refresh_token_hash users;
    update_password = update_password users;
    row_id = λ t k u h. users.row_key t k u h;
    row-next_id = users.row-next_id;
    find_by_email_found = find_by_email_sound;
    find_by_email_missing = find_by_email_complete;
    find_by_id_lem = find_by_id_keeps;
    create_returns = λ e h n t. users.insert_returning (new_user e h n) t;
    row-create = λ e h n t k. users.row-insert (new_user e h n) t k refl;
    row-set_refresh_token_hash =
        λ k h n t j. users.row-update (has_user_id k) (set_refresh_hash h n) t j (λ r. refl);
    row-update_password =
        λ k h n t j. users.row-update (has_user_id k) (set_password h n) t j (λ r. refl);
  }
