-- ===== src/Tasks/Runs/Takeover.antt =====
-- A lease keeps everyone else away from its run (db/task.go, db/task_lease.go).
use relay_gateway.Common.Base.{
  ℕ, ◌<◌, ◌≡◌, ◌≢◌, refl, inl, inr, Bool, true, false, Option, none, some, List, [], ◌∷◌, arith,
  if◌then◌else◌, Bool-cases,
}
use relay_gateway.Common.Text.{Text, is_empty, trim_space, text_eq, text_eq_iff}
use relay_gateway.Tasks.Runs.{
  TaskRun, TaskError, Changed, transact, update_status_for_lease, is_claimable, holds_lease,
  record_poll_for_lease, claim_poll, claim_id, or_refuse, renew_lease,
}
use relay_gateway.Tasks.Runs.System.{Op, run_ops}
use relay_gateway.Tasks.Runs.Fencing.{Guards, AllGuard, AllForeign, not_expired, run_ops-AllGuard}

-- An error, with the table as it was.
abbrev pub Refuses : List TaskRun → List TaskRun × Option TaskError → Type 0
Refuses t x = (x.0 ≡ t) × (x.1 ≢ none)

module _ (id o : Text) (e : ℕ) (named : is_empty o ≡ false) where
  transact-missing :
      (query : TaskRun → Bool) (missing : TaskError) (body : TaskRun → Changed) (t : List TaskRun)
      → ((r : TaskRun) → Guards id o e named r → query r ≡ false)
      → AllGuard id o e named t
      → transact query missing body t ≡ (t, some missing)
  unfolding transact
  transact-missing query missing body [] h g = refl
  transact-missing query missing body (r ∷ t) h g =
      rw (h r g.0, transact-missing query missing body t h g.1) refl

  not_claimable :
      (now : ℕ) → now < e → (r : TaskRun) → Guards id o e named r → is_claimable id now r ≡ false
  unfolding is_claimable
  not_claimable now lt r g = elim (Bool-cases (text_eq r.id id)) [
    | inr q ↦ ground (arith, q)
    | inl q ↦
        let l = g q in
        ground (
          arith,
          not_expired id o e named r now lt l.until,
          (text_eq_iff r.lease_owner o).0 l.owner,
          named,
        )
  ]

  not_held :
      (owner : Text) (now : ℕ)
      → text_eq owner o ≡ false
      → (r : TaskRun) → Guards id o e named r
      → holds_lease id owner now r ≡ false
  not_held owner now f r g = elim (Bool-cases (text_eq r.id id)) [
    | inr q ↦ ground (arith, q)
    | inl q ↦
        let l = g q in
        let s : r.lease_owner ≡ o = (text_eq_iff r.lease_owner o).0 l.owner in
        ground (arith, text_eq_iff r.lease_owner owner, text_eq_iff owner o, s)
  ]

  claim_id-Refuses :
      (t : List TaskRun) (lease now : ℕ) (holder : Text)
      → now < e
      → AllGuard id o e named t
      → Refuses t (claim_id t id lease now holder)
  unfolding claim_id
  claim_id-Refuses t lease now holder lt g =
      rw (transact-missing (is_claimable id now) _ _ t (not_claimable now lt) g) (refl, λ q. cc)

  held-Refuses :
      (t : List TaskRun) (owner : Text) (now : ℕ) (missing : TaskError) (body : TaskRun → Changed)
      → text_eq owner o ≡ false
      → AllGuard id o e named t
      → Refuses t (transact (holds_lease id owner now) missing body t)
  held-Refuses t owner now missing body f g =
      rw (transact-missing (holds_lease id owner now) missing body t (not_held owner now f) g)
        (refl, λ q. cc)

guarded-Refuses :
    (c : Bool) (e : TaskError) (t : List TaskRun) (x : List TaskRun × Option TaskError)
    → Refuses t x
    → Refuses t (if c then (t, some e) else x)
guarded-Refuses true e t x p = (refl, λ q. cc)
guarded-Refuses false e t x p = p

or_refuse-Refuses {ℓ} :
    {A : Type ℓ} (t : List TaskRun) (e : TaskError) (o : Option A)
    (f : A → List TaskRun × Option TaskError)
    → ((a : A) → Refuses t (f a))
    → Refuses t (or_refuse t e o f)
or_refuse-Refuses t e none f h = (refl, λ q. cc)
or_refuse-Refuses t e (some a) f h = h a

-- While the rows of a run are leased to `o` until `e`, and whatever calls are made before `e`, as long as
-- none of them releases, reschedules or renews in the name of `o`: a claim of the run before `e` is
-- refused, and so are, in the name of any other owner, the calls that check the lease, which are the
-- status update for a lease, the counted poll for a lease and the renewal; none of these changes the
-- table. The status update and the counted poll that name no owner are not among these calls.
pub lease_excludes :
    (id o : Text) (e : ℕ) (named : is_empty o ≡ false) (t : List TaskRun) (ops : List (Op × ℕ))
    (token owner status outcome : Text) (success : Bool) (http lease now : ℕ)
    → trim_space id ≡ id
    → trim_space owner ≡ owner
    → AllGuard id o e named t
    → AllForeign id o e named ops
    → now < e
    → text_eq owner o ≡ false
    → let t' = run_ops t ops in
      Refuses t' (claim_poll t' token id owner lease now)
      × Refuses t' (update_status_for_lease t' id owner status outcome now)
      × Refuses t' (record_poll_for_lease t' id owner success http now)
      × Refuses t' (renew_lease t' id owner lease now)
unfolding claim_poll update_status_for_lease record_poll_for_lease renew_lease
lease_excludes id o e named t ops token owner status outcome success http lease now ti tw g h lt f =
    let t' = run_ops t ops in
    let g' = run_ops-AllGuard id o e named t ops h g in
    rw (ti, tw)
      (
        guarded-Refuses _ _ t' _ (
            or_refuse-Refuses t' _ _ (claim_id t' id lease now)
              (λ holder. claim_id-Refuses id o e named t' lease now holder lt g')),
        guarded-Refuses _ _ t' _ (held-Refuses id o e named t' owner now _ _ f g'),
        guarded-Refuses _ _ t' _ (held-Refuses id o e named t' owner now _ _ f g'),
        guarded-Refuses _ _ t' _ (held-Refuses id o e named t' owner now _ _ f g'),
      )
