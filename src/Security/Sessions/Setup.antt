-- ===== src/Security/Sessions/Setup.antt =====
-- The account is set up once (security/auth.go, `SetupAdminContext`).
use relay_gateway.Common.Base.{
  ℕ, ◌+◌, ◌≤◌, ◌<◌, ◌≡◌, refl, inl, inr, Bool, true, Option, none, some, List, [], ◌∷◌, ltb, arith,
  Bool-cases, Option-cases,
}
use relay_gateway.Common.Lists.{length}
use relay_gateway.Common.Results.{Result, ok, err}
use relay_gateway.Common.Text.{Text, trim_space}
use relay_gateway.Security.Admission.{PasswordBudget, AuthError, acquire_password_work}
use relay_gateway.Security.Sessions.{create_admin, with_capacity, finish_setup}
use relay_gateway.Security.AuthStore.{
  Crypto, AdminUser, AuthStore, AuthFailure, Session, already_setup, no_capacity, find_session,
  new_session_record, or_rollback,
}

-- One request to set up, whose first check of the accounts was made at any earlier time.
pub record SetupCall : Type 0 where
  pub cancelled : Bool
  pub budget : PasswordBudget
  pub username : Text
  pub password : Text
  pub gateway_token : Text
  pub token : Text
  pub now : ℕ

unfoldable pub finish_call : Crypto → SetupCall → AuthStore → AuthStore × Result AuthFailure Session
finish_call c q s =
    finish_setup c q.cancelled q.budget q.username q.password q.gateway_token q.token q.now s

abbrev pub success : Result AuthFailure Session → ℕ
success (ok ses) = 1
success (err e) = 0

-- The store after the transactions of some requests, one by one, and how many of them succeeded.
unfoldable pub finish_calls : Crypto → List SetupCall → AuthStore → AuthStore × ℕ
unfolding finish_call
finish_calls c [] s = (s, 0)
finish_calls c (q ∷ qs) s =
    let (s', answer) = finish_call c q s in
    let (s'', n) = finish_calls c qs s' in (s'', success answer + n)

-- The store after an attempt to set up.
abbrev AfterSetup : AuthStore → AuthStore × Result AuthFailure Session → Type 0
AfterSetup s (s', ok ses) = (length s.users ≡ 0) × (length s'.users ≡ 1)
AfterSetup s (s', err e) = s' ≡ s

with_capacity-AfterSetup :
    (s : AuthStore) (o : Option AuthError) (x : AuthStore × Result AuthFailure Session)
    → AfterSetup s x
    → AfterSetup s (with_capacity s o x)
with_capacity-AfterSetup s none x p = p
with_capacity-AfterSetup s (some e) x p = refl

opened-AfterSetup :
    (c : Crypto) (user : AdminUser) (token : Text) (now : ℕ) (s made : AuthStore)
    → length s.users ≡ 0
    → length made.users ≡ 1
    → AfterSetup s (or_rollback s (new_session_record c user token now made))
unfolding new_session_record
opened-AfterSetup c user token now s made z h =
    elim (Option-cases (find_session (c.digest token) made.sessions)) [
      | inl e ↦ rw (e, new_session_record) (z, h)
      | inr (row, e) ↦ rw (e, new_session_record) refl
    ]

create_admin-AfterSetup :
    (c : Crypto) (username hash gateway token : Text) (now : ℕ) (s : AuthStore)
    → AfterSetup s (create_admin c username hash gateway token now s)
unfolding create_admin
create_admin-AfterSetup c username hash gateway token now s =
    elim (Bool-cases (ltb 0 (length s.users))) [
      | inl e ↦ rw e refl
      | inr e ↦ rw e (opened-AfterSetup c _ token now s _ (ground (arith, e)) (ground (arith, e)))
    ]

finish_call-AfterSetup :
    (c : Crypto) (q : SetupCall) (s : AuthStore) → AfterSetup s (finish_call c q s)
unfolding finish_call finish_setup
finish_call-AfterSetup c q s =
    with_capacity-AfterSetup s (acquire_password_work q.cancelled q.budget).1 _ (
      create_admin-AfterSetup c (trim_space q.username) (c.hash_password q.password) q.gateway_token
        q.token q.now s)

-- What one request adds to the accounts.
account :
    (s : AuthStore) (x : AuthStore × Result AuthFailure Session)
    → AfterSetup s x
    → length s.users ≤ 1
    → (length x.0.users ≡ length s.users + success x.1) × (length x.0.users ≤ 1)
account s (s', ok ses) h small = (omega (arith, h.0, h.1), omega (arith, h.1))
account s (s', err e) h small = rw h (omega arith, small)

finish_calls-account :
    (c : Crypto) (qs : List SetupCall) (s : AuthStore)
    → length s.users ≤ 1
    → let (s', n) = finish_calls c qs s in
      (length s'.users ≡ length s.users + n) × (length s'.users ≤ 1)
unfolding finish_calls
finish_calls-account c [] s small = (omega arith, small)
finish_calls-account c (q ∷ qs) s small =
    let first = account s (finish_call c q s) (finish_call-AfterSetup c q s) small in
    let later = finish_calls-account c qs (finish_call c q s).0 first.1 in
    (omega (arith, first.0, later.0), later.1)

refused :
    (c : Crypto) (q : SetupCall) (u : AuthStore)
    → 0 < length u.users
    → (e : AuthFailure) × (finish_call c q u ≡ (u, err e))
unfolding finish_call finish_setup create_admin
refused c q u h =
    let some_user : ltb 0 (length u.users) ≡ true = ground (arith, h) in
    rw some_user (elim (Option-cases (acquire_password_work q.cancelled q.budget).1) [
      | inl e ↦ (already_setup, rw e refl)
      | inr (x, e) ↦ (no_capacity x, rw e refl)
    ])

-- Of any number of requests to set up that all found no account, at most one succeeds, in whatever
-- order their transactions run, with no other calls between them; afterwards there are as many
-- accounts as requests that succeeded. Once there is an account, a request whose check was made before
-- is refused in its transaction and changes nothing.
pub setup_once :
    (c : Crypto) (qs : List SetupCall) (q : SetupCall) (s u : AuthStore)
    → s.users ≡ []
    → 0 < length u.users
    → let (s', n) = finish_calls c qs s in
      (n ≤ 1) × (length s'.users ≡ n) × ((e : AuthFailure) × (finish_call c q u ≡ (u, err e)))
setup_once c qs q s u z some_user =
    let empty : length s.users ≡ 0 = rw z refl in
    let r = finish_calls-account c qs s (omega arith) in
    (omega (arith, r.0, r.1), omega (arith, r.0), refused c q u some_user)
