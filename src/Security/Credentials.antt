-- ===== src/Security/Credentials.antt =====
-- Changes of the administrator's credentials, and the gateway token (security/auth.go). A transaction is
-- one step. Setup leaves one account, so the unique index on usernames is not checked when it is renamed.
use relay_gateway.Common.Base.{
  ℕ, ◌+◌, Bool, true, false, not, ◌&&◌, none, some, List, [], ◌∷◌, ltb, ◌==◌, if◌then◌else◌, u64,
}
use relay_gateway.Common.Lists.{length}
use relay_gateway.Common.Results.{Result, ok, err}
use relay_gateway.Common.Text.{Text, text_eq, is_empty, trim_space}
use relay_gateway.Security.Admission.{PasswordBudget, acquire_password_work}
use relay_gateway.Security.Passwords.{valid_username, valid_password}
use relay_gateway.Security.AuthStore.{
  AdminUser, AuthFailure, AuthStore, Crypto, Session, bad_password, bad_username,
  credentials_changed, delete_sessions_of, find_user, gateway_row, invalid_login,
  new_session_record, no_capacity, or_rollback, record_not_found,
}

-- The new account data of `UpdateCredentialsContext`, up to its transaction.
unfoldable pub prepare_update :
    Crypto
    → Bool
    → PasswordBudget
    → ℕ
    → Text
    → Text
    → Text
    → AuthStore
    → Result AuthFailure AdminUser
prepare_update c cancelled budget admin_id current new_username new_password s =
    elim (find_user admin_id s.users) [
      | none ↦ err record_not_found
      | some user ↦
          let name =
            if is_empty (trim_space new_username) then user.username else trim_space new_username in
          let hash =
            if is_empty new_password then user.password_hash else c.hash_password new_password in
          if ltb 128 (length current)
          then err invalid_login
          else elim (acquire_password_work cancelled budget).1 [
            | some e ↦ err (no_capacity e)
            | none ↦
                if not (c.verify_password user.password_hash current)
                then err invalid_login
                else if not (valid_username name)
                then err bad_username
                else if not (is_empty new_password) && not (valid_password new_password)
                then err bad_password
                else ok (record user { username = name; password_hash = hash })
          ]
    ]

-- `UPDATE` where the id and the version are as they were read; the flag is `RowsAffected == 1`.
unfoldable pub replace_user : ℕ → AdminUser → List AdminUser → List AdminUser × Bool
replace_user version user [] = ([], false)
replace_user version user (u ∷ us) =
    let (us', done) = replace_user version user us in
    if u.id == user.id && u.session_version == version then (user ∷ us, true) else (u ∷ us', done)

-- The transaction; `user` is the account as it was read, with its new name and hash.
unfoldable pub commit_update :
    Crypto → AdminUser → Text → ℕ → AuthStore → AuthStore × Result AuthFailure Session
commit_update c user token now s =
    let next = record user { session_version = u64 (user.session_version + 1) } in
    let (users', done) = replace_user user.session_version next s.users in
    if not done
    then (s, err credentials_changed)
    else or_rollback s (
        new_session_record c next token now
          (record s { users = users'; sessions = delete_sessions_of user.id s.sessions }))

-- `UpdateCredentialsContext` when nothing else happens meanwhile; else `commit_update` runs on a later store.
unfoldable pub update_credentials :
    Crypto
    → Bool
    → PasswordBudget
    → ℕ
    → Text
    → Text
    → Text
    → Text
    → ℕ
    → AuthStore
    → AuthStore × Result AuthFailure Session
update_credentials c cancelled budget admin_id current new_username new_password token now s =
    elim (prepare_update c cancelled budget admin_id current new_username new_password s) [
      | err e ↦ (s, err e)
      | ok user ↦ commit_update c user token now s
    ]

unfoldable pub reset_admin : AuthStore → AuthStore
reset_admin s = record s { users = []; sessions = []; gateway = none }

unfoldable pub rotate_gateway_token : Crypto → Text → AuthStore → AuthStore
rotate_gateway_token c token s = record s { gateway = some (gateway_row c token) }

unfoldable pub validate_gateway_token : Crypto → Text → AuthStore → Bool
validate_gateway_token c token s = not (is_empty (trim_space token)) && elim s.gateway [
  | none ↦ false
  | some row ↦ text_eq row.token_hash (c.digest (trim_space token))
]

-- `HasAdminContext`.
abbrev pub has_admin : AuthStore → Bool
has_admin s = ltb 0 (length s.users)

-- `GatewayTokenInfoContext`; the time of the last change is left out.
abbrev pub gateway_token_info : AuthStore → Bool × Text
gateway_token_info s = elim s.gateway [ none ↦ (false, []) | some row ↦ (true, row.prefix) ]
