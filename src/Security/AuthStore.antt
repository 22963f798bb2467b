-- ===== src/Security/AuthStore.antt =====
-- The tables of the administrator's account, sessions and gateway token (security/auth.go, db/db.go), and
-- the record of a new session. SHA-256, the derivation of the CSRF token and the password hashes are
-- parameters; each random token is an argument. The database is open and answers. The columns that
-- nothing reads, such as the client's address, are left out.
use relay_gateway.Common.Base.{
  ℕ, ◌+◌, Bool, Option, none, some, List, [], ◌∷◌, leb, ◌==◌, if◌then◌else◌,
}
use relay_gateway.Common.Lists.{length, take}
use relay_gateway.Common.Results.{Result, ok, err}
use relay_gateway.Common.Text.{Text, text_eq}
use relay_gateway.Security.Admission.{AuthError}

pub record Crypto : Type 0 where
  pub digest : Text → Text
  pub csrf_token : Text → Text  -- `sessionCSRFToken`
  pub hash_password : Text → Text
  pub verify_password : Text → Text → Bool

pub record AdminUser : Type 0 where
  pub id : ℕ
  pub username : Text
  pub password_hash : Text
  pub session_version : ℕ  -- uint64

pub record AdminSession : Type 0 where
  pub token_hash : Text
  pub admin_user_id : ℕ
  pub session_version : ℕ
  pub csrf_hash : Text
  pub expires_at : ℕ
  pub last_seen_at : ℕ

pub record GatewayToken : Type 0 where
  pub token_hash : Text
  pub prefix : Text

pub record AuthStore : Type 0 where
  pub users : List AdminUser
  pub sessions : List AdminSession
  pub gateway : Option GatewayToken
  pub next_id : ℕ  -- the next automatic primary key of the users

pub data AuthFailure : Type 0 where
  already_setup invalid_login invalid_session invalid_csrf credentials_changed : AuthFailure
  bad_username bad_password record_not_found duplicate_key : AuthFailure
  no_capacity : AuthError → AuthFailure

-- What the caller gets: `Session`.
pub record Session : Type 0 where
  pub token : Text
  pub csrf : Text
  pub user : AdminUser
  pub expires_at : ℕ

-- `SessionLifetime`, 7 days.
abbrev pub session_lifetime : ℕ
session_lifetime = 604800000000000

abbrev pub hour : ℕ
hour = 3600000000000

unfoldable pub find_user : ℕ → List AdminUser → Option AdminUser
find_user id [] = none
find_user id (u ∷ us) = if u.id == id then some u else find_user id us

unfoldable pub find_username : Text → List AdminUser → Option AdminUser
find_username name [] = none
find_username name (u ∷ us) = if text_eq u.username name then some u else find_username name us

unfoldable pub find_session : Text → List AdminSession → Option AdminSession
find_session h [] = none
find_session h (r ∷ rs) = if text_eq r.token_hash h then some r else find_session h rs

unfoldable pub delete_session : Text → List AdminSession → List AdminSession
delete_session h [] = []
delete_session h (r ∷ rs) =
    let rest = delete_session h rs in if text_eq r.token_hash h then rest else r ∷ rest

unfoldable pub delete_sessions_of : ℕ → List AdminSession → List AdminSession
delete_sessions_of id [] = []
delete_sessions_of id (r ∷ rs) =
    let rest = delete_sessions_of id rs in if r.admin_user_id == id then rest else r ∷ rest

-- An update of the row with a token hash.
unfoldable pub put_session : AdminSession → List AdminSession → List AdminSession
put_session row [] = []
put_session row (r ∷ rs) =
    let rest = put_session row rs in
    if text_eq r.token_hash row.token_hash then row ∷ rs else r ∷ rest

abbrev pub session_row : Crypto → AdminUser → Text → ℕ → AdminSession
session_row c user token now = record {
  token_hash = c.digest token;
  admin_user_id = user.id;
  session_version = user.session_version;
  csrf_hash = c.digest (c.csrf_token token);
  expires_at = now + session_lifetime;
  last_seen_at = now;
}

abbrev pub issue : Crypto → AdminUser → Text → ℕ → Session
issue c user token now = record {
  token = token;
  csrf = c.csrf_token token;
  user = user;
  expires_at = now + session_lifetime;
}

-- `newSessionRecord`; the token hash is the primary key.
unfoldable pub new_session_record :
    Crypto → AdminUser → Text → ℕ → AuthStore → AuthStore × Result AuthFailure Session
new_session_record c user token now s = elim (find_session (c.digest token) s.sessions) [
  | some row ↦ (s, err duplicate_key)
  | none ↦ (
    record s { sessions = session_row c user token now ∷ s.sessions },
    ok (issue c user token now),
  )
]

abbrev pub token_prefix : Text → Text
token_prefix token = if leb (length token) 12 then token else take 12 token

abbrev pub gateway_row : Crypto → Text → GatewayToken
gateway_row c token = record { token_hash = c.digest token; prefix = token_prefix token }

-- A transaction: an error leaves the store.
abbrev pub or_rollback {ℓ} :
    {A : Type ℓ} → AuthStore → AuthStore × Result AuthFailure A → AuthStore × Result AuthFailure A
or_rollback s (s', ok a) = (s', ok a)
or_rollback s (s', err e) = (s, err e)
