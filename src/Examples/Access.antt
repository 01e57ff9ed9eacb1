-- ===== src/Examples/Access.antt =====
-- The theorems about API keys, passwords and guards, applied to small tables.
use Prim.Native.String
use file_processing_platform.Common.{◌≤◌, String, ◌≡◌, refl, ne_of_eq, Option, some, [], ◌∷◌, arith}
use file_processing_platform.Common.Exec.{ok, err}
use file_processing_platform.Errors.{forbidden}
use file_processing_platform.Schema.{ApiKeyRow}
use file_processing_platform.Db.ApiKeyRepository
use file_processing_platform.Db.ApiKeyRepository.Laws.{api_key_repo}
use file_processing_platform.Db.UserRepository
use file_processing_platform.Db.UserRepository.Laws.{user_repo}
use file_processing_platform.Api.ApiKeyService.{
  max_keys_per_user, check_limit, store_key, create_key,
}
use file_processing_platform.Api.ApiKeyService.Limit.{create_key-limit, create_key_race}
use file_processing_platform.Api.AuthService.{
  Session, guest, login, change_password, create_guest_session, sign_access_token,
}
use file_processing_platform.Api.AuthService.Passwords.{change_password-login}
use file_processing_platform.Api.Guards.{authenticate, require_registered_user}
use file_processing_platform.Api.Guards.Tokens.{guest_is_kept_out}
use file_processing_platform.Examples.ListTable.{list_table}
use file_processing_platform.Examples.Engine.{KeyTable, keys, runtime, users, crypto, cfg, laws}
use file_processing_platform.Examples.Data.{ann, user_rows}
use file_processing_platform.Examples.Auth.{one_account}

abbrev key_of : String → ApiKeyRow
key_of id = record {
  id = id;
  user_id = "ann";
  key_hash = "#sk-ab";
  key_prefix = "sk-";
  last_four = "k-ab";
  created_at = 1;
}

abbrev one_key : KeyTable
one_key = record { rows = key_of "k1" ∷ []; distinct = (tt, tt) }

abbrev sha : String → String
sha = crypto.sha256

create_key-limit_example :
    keys.count_by_user_id "ann" (create_key keys runtime sha "ann" "abcd" 50 one_key).1
    ≤ max_keys_per_user
unfolding api_key_repo list_table ApiKeyRepository.count_by_user_id
create_key-limit_example =
    create_key-limit keys runtime sha "ann" "abcd" 50 one_key "ann" (omega arith)

abbrev four_keys : KeyTable
four_keys = record {
  rows = key_of "k1" ∷ key_of "k2" ∷ key_of "k3" ∷ key_of "k4" ∷ [];
  distinct = (
    (ne_of_eq "k2" "k1" refl, (ne_of_eq "k3" "k1" refl, (ne_of_eq "k4" "k1" refl, tt))),
    (
      (ne_of_eq "k3" "k2" refl, (ne_of_eq "k4" "k2" refl, tt)),
      ((ne_of_eq "k4" "k3" refl, tt), (tt, tt)),
    ),
  );
}

create_key_race_example :
    (check_limit keys runtime sha "ann" four_keys ≡ (ok tt, four_keys))
    × (keys.count_by_user_id "ann"
          (store_key keys runtime sha "ann" "cd" 51
            (store_key keys runtime sha "ann" "ab" 50 four_keys).1).1
        ≡ 6)
unfolding api_key_repo list_table ApiKeyRepository.count_by_user_id
create_key_race_example = create_key_race keys runtime sha "ann" "ab" "cd" 50 51 four_keys refl

change_password-login_example :
    (r : Session) × ((login users crypto cfg "ann@example.org" "new" 90
        (change_password users crypto cfg "ann" "secret" "new" "salt" 50 user_rows).1).0
      ≡ ok r)
    × (r.user.id ≡ "ann")
unfolding change_password user_repo list_table UserRepository.find_by_id
change_password-login_example =
    change_password-login users crypto cfg laws "ann" "secret" "new" "salt" 50 90 user_rows ann
      one_account refl refl

guest_is_kept_out_example :
    (authenticate crypto cfg.access_secret (some (String.◌++◌ "Bearer " "gsvisitor")) 9000 tt
      ≡ (ok (record { user_id = "visitor"; role = some guest }), tt))
    × (require_registered_user (record { user_id = "visitor"; role = some guest }) tt
        ≡ (err (forbidden "GUEST_NOT_ALLOWED" "This action requires a registered account"), tt))
unfolding create_guest_session sign_access_token
guest_is_kept_out_example =
    guest_is_kept_out users crypto cfg laws "visitor" "gsvisitor" 5000 9000 user_rows refl
      (ne_of_eq "visitor" "" refl) (omega arith)

abbrev guest_header : Option String
guest_header = some "Bearer gsvisitor"
