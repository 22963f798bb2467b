-- ===== src/Security/Sessions/Access.antt =====
-- Who gets in (security/auth.go: `SetupAdminContext`, `LoginContext`, `ValidateSessionContext`,
-- `ValidateCSRFContext`).
use relay_gateway.Common.Base.{
  ℕ, ◌+◌, ◌<◌, ◌≡◌, refl, ap, inl, inr, Bool, true, false, not, ◌||◌, Option, none, some, List, ◌∷◌,
  ltb, leb, ◌==◌, if◌then◌else◌, arith, Bool-cases, Option-cases,
}
use relay_gateway.Common.Lists.{length}
use relay_gateway.Common.Results.{Result, ok, err}
use relay_gateway.Common.Text.{Text, is_empty, trim_space, text_eq_refl}
use relay_gateway.Security.Admission.{PasswordBudget, AuthError}
use relay_gateway.Security.Passwords.{valid_username, valid_password}
use relay_gateway.Security.Sessions.{
  with_capacity, setup_admin, found_user, finish_login, login, touch, seen, validate_session,
  csrf_session_hash, validate_csrf,
}
use relay_gateway.Security.AuthStore.{
  Crypto, AdminUser, AdminSession, AuthStore, AuthFailure, already_setup, invalid_login,
  bad_username, bad_password, Session, session_lifetime, find_user, find_username, find_session,
  session_row, issue, new_session_record,
}

-- The token of a session that was opened at `now` works until the session ends.
pub record Opened (c : Crypto) (token : Text) (now : ℕ) (s : AuthStore) (user : AdminUser)
    (s' : AuthStore) : Type 0 where
  pub rows : s'.sessions ≡ session_row c user token now ∷ s.sessions
  pub same_users : s'.users ≡ s.users

-- What a call that opens a session leaves.
abbrev pub Opens : Crypto → Text → ℕ → AuthStore → AuthStore × Result AuthFailure Session → Type 0
Opens c token now s (s', ok ses) =
    (ses ≡ issue c ses.user token now) × Opened c token now s ses.user s'
Opens c token now s (s', err e) = s' ≡ s

new_session_record-Opens :
    (c : Crypto) (user : AdminUser) (token : Text) (now : ℕ) (s : AuthStore)
    → Opens c token now s (new_session_record c user token now s)
unfolding new_session_record
new_session_record-Opens c user token now s =
    elim (Option-cases (find_session (c.digest token) s.sessions)) [
      | inl e ↦ rw (e, new_session_record) (refl, record { rows = refl; same_users = refl })
      | inr (row, e) ↦ rw (e, new_session_record) refl
    ]

with_capacity-Opens :
    (c : Crypto) (token : Text) (now : ℕ) (s : AuthStore) (o : Option AuthError)
    (x : AuthStore × Result AuthFailure Session)
    → Opens c token now s x
    → Opens c token now s (with_capacity s o x)
with_capacity-Opens c token now s none x p = p
with_capacity-Opens c token now s (some e) x p = refl

refused-Opens :
    (c : Crypto) (token : Text) (now : ℕ) (s : AuthStore) (b : Bool) (e : AuthFailure)
    (x : AuthStore × Result AuthFailure Session)
    → Opens c token now s x
    → Opens c token now s (if b then (s, err e) else x)
refused-Opens c token now s true e x p = refl
refused-Opens c token now s false e x p = p

pub finish_login-Opens :
    (c : Crypto) (cancelled : Bool) (budget : PasswordBudget) (password token : Text) (now : ℕ)
    (user : AdminUser) (s : AuthStore)
    → Opens c token now s (finish_login c cancelled budget password token now user s)
unfolding finish_login
finish_login-Opens c cancelled budget password token now user s =
    with_capacity-Opens c token now s _ _ (
      refused-Opens c token now s (not (c.verify_password user.password_hash password)) _ _
        (new_session_record-Opens c user token now s))

login-Opens :
    (c : Crypto) (cancelled : Bool) (budget : PasswordBudget) (username password token : Text)
    (now : ℕ) (s : AuthStore)
    → Opens c token now s (login c cancelled budget username password token now s)
unfolding login
login-Opens c cancelled budget username password token now s =
    refused-Opens c token now s (not (valid_username username) || ltb 128 (length password)) _ _
      (found (find_username (trim_space username) s.users))
  where
    found :
        (o : Option AdminUser)
        → Opens c token now s (
            found_user s invalid_login o
              (λ user. finish_login c cancelled budget password token now user s))
    found none = refl
    found (some user) = finish_login-Opens c cancelled budget password token now user s

pub own_row :
    (c : Crypto) (user : AdminUser) (token : Text) (now : ℕ) (rows : List AdminSession)
    → find_session (c.digest token) (session_row c user token now ∷ rows)
      ≡ some (session_row c user token now)
unfolding find_session
own_row c user token now rows = rw (text_eq_refl (c.digest token)) refl

same_number : (n : ℕ) → (n == n) ≡ true
same_number n = ground arith

-- The token of an open session works.
validate_session-Opened :
    (c : Crypto) (token : Text) (now later : ℕ) (s s' : AuthStore) (user : AdminUser)
    → Opened c token now s user s'
    → find_user user.id s.users ≡ some user
    → is_empty (trim_space token) ≡ false
    → later < now + session_lifetime
    → (validate_session c token later s').1
      ≡ ok (seen token user (touch (session_row c user token now) later))
unfolding validate_session
validate_session-Opened c token now later s s' user o f t h =
    let live : leb (now + session_lifetime) later ≡ false = ground (arith, h) in
    rw
      (
        t,
        o.rows,
        own_row c user token now s.sessions,
        live,
        o.same_users,
        f,
        same_number user.session_version,
      )
      refl

validate_csrf-Opened :
    (c : Crypto) (token : Text) (now later : ℕ) (s s' : AuthStore) (user : AdminUser)
    → Opened c token now s user s'
    → find_user user.id s.users ≡ some user
    → is_empty (trim_space token) ≡ false
    → is_empty (c.csrf_token token) ≡ false
    → later < now + session_lifetime
    → validate_csrf c token (c.csrf_token token) later s' ≡ true
unfolding validate_csrf csrf_session_hash
validate_csrf-Opened c token now later s s' user o f t k h =
    let live : leb (now + session_lifetime) later ≡ false = ground (arith, h) in
    rw
      (
        k,
        t,
        o.rows,
        own_row c user token now s.sessions,
        o.same_users,
        f,
        same_number user.session_version,
        live,
        text_eq_refl (c.digest (c.csrf_token token)),
      )
      refl

-- A login that succeeds hands out a session whose token validates, for the same account and for the next
-- seven days, and whose CSRF token is accepted with it.
pub login-validate :
    (c : Crypto) (cancelled : Bool) (budget : PasswordBudget) (username password token : Text)
    (now later : ℕ) (s s' : AuthStore) (ses : Session)
    → login c cancelled budget username password token now s ≡ (s', ok ses)
    → find_user ses.user.id s.users ≡ some ses.user
    → is_empty (trim_space token) ≡ false
    → is_empty (c.csrf_token token) ≡ false
    → later < now + session_lifetime
    → ((validate_session c ses.token later s').1
        ≡ ok (seen ses.token ses.user (touch (session_row c ses.user token now) later)))
      × (validate_csrf c ses.token ses.csrf later s' ≡ true)
login-validate c cancelled budget username password token now later s s' ses e f t k h =
    let (i, o) : Opens c token now s (s', ok ses) =
      rw e at (login-Opens c cancelled budget username password token now s) in
    let is_token : ses.token ≡ token = ap (λ x. x.token) i in
    let is_csrf : ses.csrf ≡ c.csrf_token token = ap (λ x. x.csrf) i in
    rw (is_token, is_csrf)
      (
        validate_session-Opened c token now later s s' ses.user o f t h,
        validate_csrf-Opened c token now later s s' ses.user o f t k h,
      )

-- Setting up when there is an account.
pub later_setup :
    (c : Crypto) (cancelled : Bool) (budget : PasswordBudget)
    (username password gateway token : Text) (now : ℕ) (s : AuthStore)
    → 0 < length s.users
    → (e : AuthFailure) × (setup_admin c cancelled budget username password gateway token now s
        ≡ (s, err e))
unfolding setup_admin
later_setup c cancelled budget username password gateway token now s h =
    let some_user : ltb 0 (length s.users) ≡ true = ground (arith, h) in
    elim (Bool-cases (valid_username username)) [
      | inr e ↦ (bad_username, rw e refl)
      | inl e ↦ elim (Bool-cases (valid_password password)) [
        | inr p ↦ (bad_password, rw (e, p) refl)
        | inl p ↦ (already_setup, rw (e, p, some_user) refl)
      ]
    ]
