-- ===== src/Security/Sessions.antt =====
-- Setup, login and sessions of the administrator (security/auth.go), over the tables of AuthStore. A
-- transaction is one step. What the capacity for password work answers is that of Admission.
pub mod Access
pub mod Setup
pub mod Updates
pub mod Revocation
pub mod Tests
use relay_gateway.Common.Base.{
  ℕ, ◌+◌, ◌-◌, Bool, true, false, not, ◌&&◌, ◌||◌, Option, none, some, List, [], ◌∷◌, ◌++◌, ltb,
  leb, ◌==◌, if◌then◌else◌, u64,
}
use relay_gateway.Common.Lists.{length, take}
use relay_gateway.Common.Results.{Result, ok, err, ◌>>=◌}
use relay_gateway.Common.Text.{Text, codes, text_eq, is_empty, trim_space}
use relay_gateway.Security.Admission.{PasswordBudget, AuthError, acquire_password_work}
use relay_gateway.Security.Passwords.{valid_username, valid_password}
use relay_gateway.Security.AuthStore.{
  AdminSession, AdminUser, AuthFailure, AuthStore, Crypto, GatewayToken, Session, already_setup,
  bad_password, bad_username, credentials_changed, delete_session, delete_sessions_of,
  duplicate_key, find_session, find_user, find_username, gateway_row, hour, invalid_csrf,
  invalid_login, invalid_session, issue, new_session_record, no_capacity, or_rollback, put_session,
  record_not_found, session_lifetime, session_row, token_prefix,
}

-- The transaction of `SetupAdminContext`.
unfoldable pub create_admin :
    Crypto → Text → Text → Text → Text → ℕ → AuthStore → AuthStore × Result AuthFailure Session
create_admin c username password_hash gateway_token token now s =
    let user : AdminUser = record {
      id = s.next_id;
      username = username;
      password_hash = password_hash;
      session_version = 1;
    } in
    let made = record s {
      users = user ∷ s.users;
      next_id = s.next_id + 1;
      gateway = some (gateway_row c gateway_token);
    } in
    if ltb 0 (length s.users)
    then (s, err already_setup)
    else or_rollback s (new_session_record c user token now made)

abbrev pub with_capacity {ℓ} :
    {A : Type ℓ}
    → AuthStore
    → Option AuthError
    → AuthStore × Result AuthFailure A
    → AuthStore × Result AuthFailure A
with_capacity s (some e) x = (s, err (no_capacity e))
with_capacity s none x = x

-- `SetupAdminContext` once no account was found; other requests may have changed the store since then.
-- The capacity is given back when the function returns, so only the answer of `acquire` counts here.
unfoldable pub finish_setup :
    Crypto
    → Bool
    → PasswordBudget
    → Text
    → Text
    → Text
    → Text
    → ℕ
    → AuthStore
    → AuthStore × Result AuthFailure Session
finish_setup c cancelled budget username password gateway_token token now s =
    with_capacity s (acquire_password_work cancelled budget).1
      (create_admin c (trim_space username) (c.hash_password password) gateway_token token now s)

-- `SetupAdminContext` when nothing else happens meanwhile.
unfoldable pub setup_admin :
    Crypto
    → Bool
    → PasswordBudget
    → Text
    → Text
    → Text
    → Text
    → ℕ
    → AuthStore
    → AuthStore × Result AuthFailure Session
unfolding finish_setup
setup_admin c cancelled budget username password gateway_token token now s =
    if not (valid_username username)
    then (s, err bad_username)
    else if not (valid_password password)
    then (s, err bad_password)
    else if ltb 0 (length s.users)
    then (s, err already_setup)
    else finish_setup c cancelled budget username password gateway_token token now s

abbrev pub found_user {ℓ} :
    {A : Type ℓ}
    → AuthStore
    → AuthFailure
    → Option AdminUser
    → (AdminUser → AuthStore × Result AuthFailure A)
    → AuthStore × Result AuthFailure A
found_user s e none f = (s, err e)
found_user s e (some u) f = f u

-- `LoginContext` once the account was read; other requests may have changed the store since then.
unfoldable pub finish_login :
    Crypto
    → Bool
    → PasswordBudget
    → Text
    → Text
    → ℕ
    → AdminUser
    → AuthStore
    → AuthStore × Result AuthFailure Session
finish_login c cancelled budget password token now user s =
    with_capacity s (acquire_password_work cancelled budget).1 (
      if not (c.verify_password user.password_hash password)
      then (s, err invalid_login)
      else new_session_record c user token now s)

unfoldable pub login :
    Crypto
    → Bool
    → PasswordBudget
    → Text
    → Text
    → Text
    → ℕ
    → AuthStore
    → AuthStore × Result AuthFailure Session
login c cancelled budget username password token now s =
    if not (valid_username username) || ltb 128 (length password)
    then (s, err invalid_login)
    else found_user s invalid_login (find_username (trim_space username) s.users)
        (λ user. finish_login c cancelled budget password token now user s)

-- What `ValidateSessionContext` does to a row that is live, and the session that it gives.
unfoldable pub touch : AdminSession → ℕ → AdminSession
touch row now =
    if leb hour (now - row.last_seen_at)
    then record row { last_seen_at = now; expires_at = now + session_lifetime }
    else row

abbrev pub seen : Text → AdminUser → AdminSession → Session
seen token user row = record { token = token; csrf = []; user = user; expires_at = row.expires_at }

abbrev pub check_user :
    AdminSession → Text → ℕ → AuthStore → Option AdminUser → AuthStore × Result AuthFailure Session
check_user row token now s none = (s, err invalid_session)
check_user row token now s (some user) =
    if not (user.session_version == row.session_version) then (s, err invalid_session) else (
      record s { sessions = put_session (touch row now) s.sessions },
      ok (seen token user (touch row now)),
    )

abbrev pub check_row :
    Crypto → Text → ℕ → AuthStore → Option AdminSession → AuthStore × Result AuthFailure Session
check_row c token now s none = (s, err invalid_session)
check_row c token now s (some row) =
    if leb row.expires_at now
    then (record s { sessions = delete_session row.token_hash s.sessions }, err invalid_session)
    else check_user row token now s (find_user row.admin_user_id s.users)

unfoldable pub validate_session :
    Crypto → Text → ℕ → AuthStore → AuthStore × Result AuthFailure Session
validate_session c token now s =
    if is_empty (trim_space token)
    then (s, err invalid_session)
    else check_row c token now s (find_session (c.digest token) s.sessions)

abbrev pub joined_user : AdminSession → Option AdminUser → Bool
joined_user row none = false
joined_user row (some user) = user.session_version == row.session_version

abbrev pub live_hash : AuthStore → ℕ → Option AdminSession → Result AuthFailure Text
live_hash s now none = err invalid_session
live_hash s now (some row) =
    if not (joined_user row (find_user row.admin_user_id s.users))
    then err invalid_session
    else if leb row.expires_at now
    then err invalid_session
    else ok row.csrf_hash

unfoldable pub csrf_session_hash : Crypto → Text → ℕ → AuthStore → Result AuthFailure Text
csrf_session_hash c token now s =
    if is_empty (trim_space token)
    then err invalid_session
    else live_hash s now (find_session (c.digest token) s.sessions)

abbrev pub accepts_csrf : Crypto → Text → Text → Result AuthFailure Text → Bool
accepts_csrf c token csrf (err e) = false
accepts_csrf c token csrf (ok stored) =
    text_eq (c.digest csrf) (c.digest (c.csrf_token token)) || text_eq (c.digest csrf) stored

-- `ValidateCSRFContext`: false is `ErrInvalidCSRF`.
unfoldable pub validate_csrf : Crypto → Text → Text → ℕ → AuthStore → Bool
validate_csrf c token csrf now s =
    not (is_empty csrf) && accepts_csrf c token csrf (csrf_session_hash c token now s)

-- `CSRFTokenContext`.
abbrev pub csrf_token_of : Crypto → Text → ℕ → AuthStore → Result AuthFailure Text
csrf_token_of c token now s =
    csrf_session_hash c token now s >>= (λ stored. ok (c.csrf_token token))

unfoldable pub logout : Crypto → Text → AuthStore → AuthStore
logout c token s =
    if is_empty token then s else record s { sessions = delete_session (c.digest token) s.sessions }
