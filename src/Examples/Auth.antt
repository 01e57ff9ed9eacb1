-- ===== src/Examples/Auth.antt =====
-- The theorems about `AuthService`, applied to the table with one user.
use file_processing_platform.Common.{
  ◌≡◌, refl, sym, ◌∙◌, ne_of_eq, eq_iff, none, some, [], ◌∷◌, arith,
}
use file_processing_platform.Common.Exec.{ok, err}
use file_processing_platform.Errors.{unauthorized, conflict}
use file_processing_platform.Schema.{DbUser}
use file_processing_platform.Db.Changes.{set_refresh_hash}
use file_processing_platform.Db.UserRepository
use file_processing_platform.Db.UserRepository.Laws.{user_repo}
use file_processing_platform.Api.AuthService.{
  Claims, Session, sign_access_token, sign_refresh_token, register, login, refresh, to_public_user,
}
use file_processing_platform.Api.AuthService.Sessions.{refresh-login, refresh_reuse}
use file_processing_platform.Api.AuthService.Accounts.{
  UniqueEmails, register_taken, register-UniqueEmails, login_uniform,
}
use file_processing_platform.Examples.ListTable.{list_table}
use file_processing_platform.Examples.Engine.{UserTable, users, crypto, cfg, laws}
use file_processing_platform.Examples.Data.{ann, user_rows}

abbrev pub session : Session
session = record {
  user = record { id = "ann"; email = "ann@example.org"; created_at = 1; updated_at = 1 };
  access_token = "usann";
  refresh_token = "usann";
}

ann_logs_in : (login users crypto cfg "ann@example.org" "secret" 5000 user_rows).0 ≡ ok session
unfolding login user_repo list_table UserRepository.find_by_email sign_access_token
    sign_refresh_token to_public_user
ann_logs_in = refl

refresh-login_example :
    refresh users crypto cfg session.refresh_token 9000
      (login users crypto cfg "ann@example.org" "secret" 5000 user_rows).1
    ≡ (
      ok (sign_access_token users crypto cfg session.user.id none 9000),
      (login users crypto cfg "ann@example.org" "secret" 5000 user_rows).1,
    )
refresh-login_example =
    refresh-login users crypto cfg laws "ann@example.org" "secret" 5000 9000 user_rows session
      ann_logs_in (ne_of_eq "ann" "" refl) (omega arith)

abbrev ann_claims : Claims
ann_claims = record { sub = some "ann"; role = none }

-- The table after a login with some other token.
abbrev signed_in : DbUser
signed_in = set_refresh_hash (some "#other") 40 ann

abbrev signed_in_rows : UserTable
signed_in_rows = record { rows = signed_in ∷ []; distinct = (tt, tt) }

refresh_reuse_example :
    ((refresh users crypto cfg "usann" 50 signed_in_rows).0
      ≡ err (unauthorized "INVALID_REFRESH_TOKEN" "Refresh token has already been used"))
    × (users.row (refresh users crypto cfg "usann" 50 signed_in_rows).1 "ann"
        ≡ some (set_refresh_hash none 50 signed_in))
unfolding user_repo list_table
refresh_reuse_example =
    refresh_reuse users crypto cfg "usann" "ann" "#other" ann_claims 50 signed_in_rows signed_in
      refl refl (ne_of_eq "ann" "" refl) refl refl (ne_of_eq "#other" "#usann" refl)

register_taken_example :
    register users crypto cfg "ann@example.org" "pw" "salt" 50 user_rows
    ≡ (err (conflict "EMAIL_TAKEN" "An account with this email address already exists"), user_rows)
unfolding user_repo list_table UserRepository.find_by_email
register_taken_example =
    register_taken users crypto cfg "ann@example.org" "pw" "salt" 50 user_rows ann refl

only_ann : (u : DbUser) → users.row user_rows u.id ≡ some u → "ann" ≡ u.id
unfolding user_repo list_table
only_ann u h = ground (arith, eq_iff "ann" u.id)

pub one_account : UniqueEmails users crypto cfg user_rows
one_account = record { unique = λ u v hu hv same. sym (only_ann u hu) ∙ only_ann v hv }

register-UniqueEmails_example :
    UniqueEmails users crypto cfg
      (register users crypto cfg "bob@example.org" "pw" "salt" 50 user_rows).1
register-UniqueEmails_example =
    register-UniqueEmails users crypto cfg "bob@example.org" "pw" "salt" 50 user_rows one_account

login_uniform_example :
    (login users crypto cfg "ann@example.org" "wrong" 50 user_rows
      ≡ login users crypto cfg "bob@example.org" "wrong" 50 user_rows)
    × ((login users crypto cfg "ann@example.org" "wrong" 50 user_rows).1 ≡ user_rows)
unfolding user_repo list_table UserRepository.find_by_email
login_uniform_example =
    login_uniform users crypto cfg "ann@example.org" "bob@example.org" "wrong" 50 user_rows ann refl
      refl refl
