-- ===== src/Security/Sessions/Revocation.antt =====
-- New credentials end every session of the account (security/auth.go, `UpdateCredentialsContext`).
use relay_gateway.Common.Base.{
  ℕ, ◌≡◌, ◌≢◌, refl, sym, ap, ◌∙◌, inl, inr, Bool, false, Option, none, some, List, ◌∷◌, leb, ◌==◌,
  arith, Bool-cases,
}
use relay_gateway.Common.Results.{Result, ok, err}
use relay_gateway.Common.Text.{Text, is_empty, trim_space, text_eq}
use relay_gateway.Security.Admission.{PasswordBudget}
use relay_gateway.Security.Sessions.{finish_login, check_user, check_row, validate_session}
use relay_gateway.Security.Credentials.{update_credentials}
use relay_gateway.Security.AuthStore.{
  Crypto, AdminUser, AdminSession, AuthStore, AuthFailure, invalid_session, Session, find_user,
  find_session, delete_sessions_of, session_row, new_session_record,
}
use relay_gateway.Security.Sessions.Access.{Opens, finish_login-Opens, own_row}
use relay_gateway.Security.Sessions.Updates.{
  update_credentials-Updates, find_user-id, deleted_sessions, Updates,
}

-- A validation is refused, or it is of another account.
abbrev Elsewhere : ℕ → AuthStore × Result AuthFailure Session → Type 0
Elsewhere id (s, ok got) = got.user.id ≢ id
Elsewhere id (s, err e) = Unit

-- A row of another account, or of an older version, does not give the account `id`.
check_user-Elsewhere :
    (id : ℕ) (row : AdminSession) (token : Text) (now : ℕ) (s : AuthStore) (o : Option AdminUser)
    → ((u : AdminUser) → o ≡ some u → u.session_version ≡ row.session_version → u.id ≢ id)
    → Elsewhere id (check_user row token now s o)
check_user-Elsewhere id row token now s none h = tt
check_user-Elsewhere id row token now s (some u) h =
    elim (Bool-cases (u.session_version == row.session_version)) [
      | inr e ↦ rw e tt
      | inl e ↦ rw e (h u refl (ground (arith, e)))
    ]

check_row-Elsewhere :
    (c : Crypto) (id : ℕ) (token : Text) (now : ℕ) (s : AuthStore) (o : Option AdminSession)
    → ((row : AdminSession) (u : AdminUser)
        → o ≡ some row
        → find_user row.admin_user_id s.users ≡ some u
        → u.session_version ≡ row.session_version
        → u.id ≢ id)
    → Elsewhere id (check_row c token now s o)
check_row-Elsewhere c id token now s none h = tt
check_row-Elsewhere c id token now s (some row) h = elim (Bool-cases (leb row.expires_at now)) [
  | inl e ↦ rw e tt
  | inr e ↦ rw e (check_user-Elsewhere id row token now s _ (λ u. h row u refl))
]

validate-Elsewhere :
    (c : Crypto) (id : ℕ) (token : Text) (now : ℕ) (s : AuthStore)
    → ((row : AdminSession) (u : AdminUser)
        → find_session (c.digest token) s.sessions ≡ some row
        → find_user row.admin_user_id s.users ≡ some u
        → u.session_version ≡ row.session_version
        → u.id ≢ id)
    → Elsewhere id (validate_session c token now s)
unfolding validate_session
validate-Elsewhere c id token now s h = elim (Bool-cases (is_empty (trim_space token))) [
  | inl e ↦ rw e tt
  | inr e ↦ rw e (check_row-Elsewhere c id token now s _ h)
]

skip_row :
    (c : Crypto) (user : AdminUser) (token other : Text) (now : ℕ) (rows : List AdminSession)
    → text_eq (c.digest token) (c.digest other) ≡ false
    → find_session (c.digest other) (session_row c user token now ∷ rows)
      ≡ find_session (c.digest other) rows
unfolding find_session
skip_row c user token other now rows h = rw h refl

-- After new credentials, no session that was opened before gives the account any more: a token other than
-- the new one, by their digests, is refused or belongs to another account, at any later time.
pub update_revokes :
    (c : Crypto) (cancelled : Bool) (budget : PasswordBudget) (id : ℕ)
    (current name pw token old : Text) (now later : ℕ) (s s' x : AuthStore) (account : AdminUser)
    (ses got : Session)
    → find_user id s.users ≡ some account
    → update_credentials c cancelled budget id current name pw token now s ≡ (s', ok ses)
    → text_eq (c.digest token) (c.digest old) ≡ false
    → validate_session c old later s' ≡ (x, ok got)
    → got.user.id ≢ id
update_revokes c cancelled budget id current name pw token old now later s s' x account ses got f e
      d g =
    let (next, v, i, up) : Updates c id account.session_version token now s (s', ok ses) =
      rw e at
        (update_credentials-Updates c cancelled budget id current name pw token now s account f) in
    let p : Elsewhere id (validate_session c old later s') =
      validate-Elsewhere c id old later s' (λ row u fr fu same is.
        deleted_sessions id (c.digest old) s.sessions row
          (sym (skip_row c next token old now (delete_sessions_of id s.sessions) d)
            ∙ ap (find_session (c.digest old)) (sym up.rows)
            ∙ fr)
          (sym (find_user-id row.admin_user_id s'.users u fu) ∙ is)) in
    let q : Elsewhere id (x, ok got) = rw g at p in q

login_account :
    (c : Crypto) (cancelled : Bool) (budget : PasswordBudget) (password token : Text) (now : ℕ)
    (account : AdminUser) (s s' : AuthStore) (ses : Session)
    → finish_login c cancelled budget password token now account s ≡ (s', ok ses)
    → ses.user ≡ account
unfolding finish_login new_session_record
login_account c cancelled budget password token now account s s' ses e = ground arith

-- A row of an older version is refused, whether it has expired or not.
stale_row :
    (c : Crypto) (row : AdminSession) (token : Text) (now : ℕ) (s : AuthStore) (u : AdminUser)
    → find_user row.admin_user_id s.users ≡ some u
    → (u.session_version == row.session_version) ≡ false
    → (check_row c token now s (some row)).1 ≡ err invalid_session
stale_row c row token now s u f v = elim (Bool-cases (leb row.expires_at now)) [
  | inl e ↦ rw e refl
  | inr e ↦ rw (e, f, v) refl
]

-- A login that read the account before its credentials were changed, and finishes after that, opens a
-- session that is never valid.
pub late_login_refused :
    (c : Crypto) (cancelled cancelled' : Bool) (budget budget' : PasswordBudget) (id : ℕ)
    (current name pw token password late : Text) (now then_ later : ℕ) (s s' s'' : AuthStore)
    (account : AdminUser) (ses ses' : Session)
    → find_user id s.users ≡ some account
    → update_credentials c cancelled budget id current name pw token now s ≡ (s', ok ses)
    → finish_login c cancelled' budget' password late then_ account s' ≡ (s'', ok ses')
    → (validate_session c late later s'').1 ≡ err invalid_session
unfolding validate_session
late_login_refused c cancelled cancelled' budget budget' id current name pw token password late now
      then_ later s s' s'' account ses ses' f e l =
    let (next, v, i, up) : Updates c id account.session_version token now s (s', ok ses) =
      rw e at
        (update_credentials-Updates c cancelled budget id current name pw token now s account f) in
    let (is, o) : Opens c late then_ s' (s'', ok ses') =
      rw l at (finish_login-Opens c cancelled' budget' password late then_ account s') in
    let a = login_account c cancelled' budget' password late then_ account s' s'' ses' l in
    let own =
      ap (find_session (c.digest late)) o.rows ∙ own_row c ses'.user late then_ s'.sessions in
    let holder : find_user ses'.user.id s''.users ≡ some next =
      ap (λ k. find_user k s''.users) (ap (λ k. k.id) a ∙ find_user-id id s.users account f)
      ∙ ap (find_user id) o.same_users
      ∙ up.holds in
    let moved : (next.session_version == ses'.user.session_version) ≡ false =
      ground (arith, v, ap (λ k. k.session_version) a) in
    elim (Bool-cases (is_empty (trim_space late))) [
      | inl t ↦ rw t refl
      | inr t ↦
          rw (t, own)
            (stale_row c (session_row c ses'.user late then_) late later s'' next holder moved)
    ]
