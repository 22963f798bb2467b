-- ===== src/Security/Sessions/Tests.antt =====
-- Sessions at concrete inputs, with toy hashes (security/auth.go).
use relay_gateway.Common.Base.{◌≤◌, ◌≡◌, ◌≢◌, refl, true, false, none, some, List, [], ◌∷◌, arith}
use relay_gateway.Common.Lists.{length}
use relay_gateway.Common.Results.{ok, err}
use relay_gateway.Common.Text.{Text, codes, text_eq, trim_space}
use relay_gateway.Security.Admission.{PasswordBudget, acquire_password_work}
use relay_gateway.Security.Passwords.{valid_username}
use relay_gateway.Security.Sessions.{
  finish_setup, create_admin, login, finish_login, validate_session, validate_csrf, seen, touch,
  logout,
}
use relay_gateway.Security.Credentials.{
  update_credentials, prepare_update, commit_update, replace_user, rotate_gateway_token,
  validate_gateway_token,
}
use relay_gateway.Security.AuthStore.{
  Crypto, AdminUser, AuthStore, AuthFailure, invalid_session, find_user, find_username,
  find_session, session_row, issue, delete_sessions_of, new_session_record, delete_session,
  put_session,
}
use relay_gateway.Security.Sessions.Access.{login-validate}
use relay_gateway.Security.Sessions.Setup.{SetupCall, finish_call, finish_calls, setup_once}
use relay_gateway.Security.Sessions.Revocation.{update_revokes, late_login_refused}

abbrev toy : Crypto
toy = record {
  digest = λ t. 35 ∷ t;
  csrf_token = λ t. 45 ∷ t;
  hash_password = λ p. p;
  verify_password = text_eq;
}

abbrev budget : PasswordBudget
budget = record { limit = 2; used = 0 }

abbrev secret : Text
secret = codes "correct horse"

abbrev empty_store : AuthStore
empty_store = record { users = []; sessions = []; gateway = none; next_id = 1 }

abbrev admin : AdminUser
admin = record { id = 1; username = codes "admin"; password_hash = secret; session_version = 1 }

-- Another account, as only an older version of the program could have left it.
abbrev other : AdminUser
other = record { id = 2; username = codes "other"; password_hash = secret; session_version = 5 }

abbrev admin_store : AuthStore
admin_store = record {
  users = admin ∷ other ∷ [];
  sessions = session_row toy other (codes "t2") 1000 ∷ session_row toy admin (codes "t1") 1000 ∷ [];
  gateway = none;
  next_id = 3;
}

login-validate_example :
    let s' = record admin_store {
      sessions = session_row toy admin (codes "t3") 2000 ∷ admin_store.sessions;
    } in
    ((validate_session toy (codes "t3") 3000 s').1
      ≡ ok (seen (codes "t3") admin (touch (session_row toy admin (codes "t3") 2000) 3000)))
    × (validate_csrf toy (codes "t3") (codes "-t3") 3000 s' ≡ true)
unfolding login find_username finish_login valid_username acquire_password_work new_session_record
    find_session text_eq trim_space find_user
login-validate_example =
    login-validate toy false budget (codes " admin") secret (codes "t3") 2000 3000 admin_store
      (record admin_store {
        sessions = session_row toy admin (codes "t3") 2000 ∷ admin_store.sessions;
      })
      (issue toy admin (codes "t3") 2000) refl refl refl refl (omega arith)

abbrev set_up : AuthStore
set_up = record {
  users = admin ∷ [];
  sessions = session_row toy admin (codes "t1") 1000 ∷ [];
  gateway = some (record { token_hash = codes "#sk-gw-1"; prefix = codes "sk-gw-1" });
  next_id = 2;
}

abbrev setup_as : Text → Text → SetupCall
setup_as name token = record {
  cancelled = false;
  budget = budget;
  username = name;
  password = secret;
  gateway_token = codes "sk-gw-1";
  token = token;
  now = 1000;
}

-- Two requests at once.
abbrev rivals : List SetupCall
rivals = setup_as (codes "admin") (codes "t1") ∷ setup_as (codes "mallory") (codes "t9") ∷ []

first_wins : finish_calls toy rivals empty_store ≡ (set_up, 1)
unfolding finish_calls finish_setup create_admin acquire_password_work new_session_record
    find_session trim_space
first_wins = refl

setup_once_example :
    let (s', n) = finish_calls toy rivals empty_store in
    (n ≤ 1)
    × (length s'.users ≡ n)
    × ((e : AuthFailure) × (finish_call toy (setup_as (codes "eve") (codes "t7")) set_up
          ≡ (set_up, err e)))
setup_once_example =
    setup_once toy rivals (setup_as (codes "eve") (codes "t7")) empty_store set_up refl
      (omega arith)

abbrev renewed : AdminUser
renewed = record admin { session_version = 2 }

abbrev updated_store : AuthStore
updated_store = record {
  users = renewed ∷ other ∷ [];
  sessions =
      session_row toy renewed (codes "t3") 2000 ∷ session_row toy other (codes "t2") 1000 ∷ [];
  gateway = none;
  next_id = 3;
}

update_revokes_example : other.id ≢ 1
unfolding update_credentials prepare_update commit_update replace_user delete_sessions_of
    valid_username acquire_password_work new_session_record find_session find_user text_eq
    trim_space validate_session touch put_session
update_revokes_example =
    update_revokes toy false budget 1 secret [] [] (codes "t3") (codes "t2") 2000 3000 admin_store
      updated_store updated_store admin (issue toy renewed (codes "t3") 2000)
      (seen (codes "t2") other (session_row toy other (codes "t2") 1000)) refl refl refl refl

abbrev late_store : AuthStore
late_store = record updated_store {
  sessions = session_row toy admin (codes "t4") 2500 ∷ updated_store.sessions;
}

late_login_refused_example :
    (validate_session toy (codes "t4") 3000 late_store).1 ≡ err invalid_session
unfolding update_credentials prepare_update commit_update replace_user delete_sessions_of
    valid_username acquire_password_work new_session_record find_session find_user text_eq
    trim_space finish_login
late_login_refused_example =
    late_login_refused toy false false budget budget 1 secret [] [] (codes "t3") secret (codes "t4")
      2000 2500 3000 admin_store updated_store late_store admin
      (issue toy renewed (codes "t3") 2000) (issue toy admin (codes "t4") 2500) refl refl refl

-- A rotated gateway token is accepted, and the one before it is not.
rotated :
    let s = rotate_gateway_token toy (codes "sk-gw-2") set_up in
    (validate_gateway_token toy (codes "sk-gw-2 ") s ≡ true)
    × (validate_gateway_token toy (codes "sk-gw-1") s ≡ false)
unfolding rotate_gateway_token validate_gateway_token text_eq trim_space
rotated = (refl, refl)

logged_out : (logout toy (codes "t1") set_up).sessions ≡ []
unfolding logout delete_session text_eq
logged_out = refl
