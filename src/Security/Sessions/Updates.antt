-- ===== src/Security/Sessions/Updates.antt =====
-- The store after new credentials (security/auth.go, `UpdateCredentialsContext`).
use relay_gateway.Common.Base.{
  ℕ, ◌+◌, ◌≡◌, ◌≢◌, refl, sym, ap, subst, ◌∙◌, ◌⊎◌, inl, inr, Bool, true, false, not, some, List,
  [], ◌∷◌, ◌==◌, if◌then◌else◌, arith, u64, Bool-cases, Option-cases,
}
use relay_gateway.Common.Results.{Result, ok, err}
use relay_gateway.Common.Text.{Text}
use relay_gateway.Security.Admission.{PasswordBudget}
use relay_gateway.Security.Credentials.{
  replace_user, prepare_update, commit_update, update_credentials,
}
use relay_gateway.Security.AuthStore.{
  Crypto, AdminUser, AdminSession, AuthStore, AuthFailure, Session, find_user, find_session,
  delete_sessions_of, session_row, new_session_record,
}

find_user-replace_user :
    (id version : ℕ) (next account : AdminUser) (us : List AdminUser)
    → find_user id us ≡ some account
    → account.session_version ≡ version
    → next.id ≡ id
    → find_user id (replace_user version next us).0 ≡ some next
unfolding find_user replace_user
find_user-replace_user id version next account [] f v i = cc
find_user-replace_user id version next account (u ∷ us) f v i = elim (Bool-cases (u.id == id)) [
  | inr e ↦ ground (arith, e, i, find_user-replace_user id version next account us)
  | inl e ↦ ground (arith, e, i, v)
]

pub find_user-id :
    (id : ℕ) (us : List AdminUser) (u : AdminUser) → find_user id us ≡ some u → u.id ≡ id
unfolding find_user
find_user-id id [] u f = cc
find_user-id id (v ∷ us) u f = ground (arith, find_user-id id us u)

-- What is left belongs to other accounts.
pub deleted_sessions :
    (id : ℕ) (h : Text) (rows : List AdminSession) (row : AdminSession)
    → find_session h (delete_sessions_of id rows) ≡ some row
    → row.admin_user_id ≢ id
unfolding find_session delete_sessions_of
deleted_sessions id h [] row f = cc
deleted_sessions id h (r ∷ rows) row f = ground (arith, deleted_sessions id h rows row)

-- The store after the update of an account.
pub record Updated (c : Crypto) (id : ℕ) (token : Text) (now : ℕ) (s : AuthStore) (next : AdminUser)
    (s' : AuthStore) : Type 0 where
  pub holds : find_user id s'.users ≡ some next
  pub rows : s'.sessions ≡ session_row c next token now ∷ delete_sessions_of id s.sessions

abbrev pub Updates :
    Crypto → ℕ → ℕ → Text → ℕ → AuthStore → AuthStore × Result AuthFailure Session → Type 0
Updates c id version token now s (s', ok ses) =
    (next : AdminUser) × (next.session_version ≡ u64 (version + 1))
    × (next.id ≡ id)
    × Updated c id token now s next s'
Updates c id version token now s (s', err e) = s' ≡ s

refused-Updates :
    (c : Crypto) (id version : ℕ) (token : Text) (now : ℕ) (s : AuthStore) (b : Bool)
    (e : AuthFailure) (x : AuthStore × Result AuthFailure Session)
    → Updates c id version token now s x
    → Updates c id version token now s (if b then (s, err e) else x)
refused-Updates c id version token now s true e x p = refl
refused-Updates c id version token now s false e x p = p

commit_update-Updates :
    (c : Crypto) (user account : AdminUser) (token : Text) (now : ℕ) (s : AuthStore)
    → find_user user.id s.users ≡ some account
    → account.session_version ≡ user.session_version
    → Updates c user.id user.session_version token now s (commit_update c user token now s)
unfolding commit_update new_session_record
commit_update-Updates c user account token now s f v =
    let next = record user { session_version = u64 (user.session_version + 1) } in
    let r = replace_user user.session_version next s.users in
    let made = record s { users = r.0; sessions = delete_sessions_of user.id s.sessions } in
    refused-Updates c user.id user.session_version token now s (not r.1) _ _
      (elim (Option-cases (find_session (c.digest token) made.sessions)) [
        | inr (row, e) ↦ rw (e, new_session_record) refl
        | inl e ↦
            rw (e, new_session_record)
              (
                next,
                refl,
                refl,
                record {
                  holds =
                      find_user-replace_user user.id user.session_version next account s.users f v
                        refl;
                  rows = refl;
                },
              )
      ])

prepared_account :
    (c : Crypto) (cancelled : Bool) (budget : PasswordBudget) (id : ℕ) (current name pw : Text)
    (s : AuthStore) (account user : AdminUser)
    → find_user id s.users ≡ some account
    → prepare_update c cancelled budget id current name pw s ≡ ok user
    → (user.id ≡ id) × (user.session_version ≡ account.session_version)
unfolding prepare_update
prepared_account c cancelled budget id current name pw s account user f e =
    ground (arith, f, find_user-id id s.users account f)

Result-cases {ℓ κ} :
    {E : Type ℓ} {A : Type κ} (r : Result E A) → ((a : A) × (r ≡ ok a)) ⊎ ((e : E) × (r ≡ err e))
Result-cases (ok a) = inl (a, refl)
Result-cases (err e) = inr (e, refl)

pub update_credentials-Updates :
    (c : Crypto) (cancelled : Bool) (budget : PasswordBudget) (id : ℕ)
    (current name pw token : Text) (now : ℕ) (s : AuthStore) (account : AdminUser)
    → find_user id s.users ≡ some account
    → Updates c id account.session_version token now s
        (update_credentials c cancelled budget id current name pw token now s)
unfolding update_credentials
update_credentials-Updates c cancelled budget id current name pw token now s account f =
    elim (Result-cases (prepare_update c cancelled budget id current name pw s)) [
      | inr (e, q) ↦ rw (q, update_credentials) refl
      | inl (user, q) ↦
          let (i, v) = prepared_account c cancelled budget id current name pw s account user f q in
          rw (q, update_credentials)
            (subst
              (λ x.
                Updates c x account.session_version token now s (commit_update c user token now s))
              i
              (subst (λ x. Updates c user.id x token now s (commit_update c user token now s)) v
                (commit_update-Updates c user account token now s
                  (ap (λ x. find_user x s.users) i ∙ f) (sym v))))
    ]
