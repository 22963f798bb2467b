-- ===== src/Tasks/Runs/System.antt =====
-- The table under any sequence of calls (db/task.go, db/task_lease.go), and what one transaction does to
-- the rows.
use relay_gateway.Common.Base.{
  ℕ, zero, suc, ◌≡◌, refl, inl, inr, Bool, true, false, Option, none, some, List, [], ◌∷◌,
  if◌then◌else◌, subst, Bool-cases,
}
use relay_gateway.Common.Lists.{get_elem?}
use relay_gateway.Common.Text.{Text}
use relay_gateway.Tasks.Runs.{
  TaskRun, TaskError, Changed, rejected, changed, transact, commit, or_refuse, update_status,
  update_status_for_lease, record_poll, record_poll_for_lease, claim_due, claim_poll, reschedule,
  release_lease, renew_lease,
}

pub data Op : Type 0 where
  updates_status : Text → Text → Text → Op
  updates_status_for_lease : Text → Text → Text → Text → Op
  records_poll : Text → Bool → ℕ → Op
  records_poll_for_lease : Text → Text → Bool → ℕ → Op
  claims_due : Text → Text → ℕ → Op
  claims_poll : Text → Text → Text → ℕ → Op
  reschedules : Text → Text → ℕ → Op
  releases : Text → Text → Op
  renews : Text → Text → ℕ → Op

-- A call with the time at which it runs.
unfoldable pub apply_op : List TaskRun → Op → ℕ → List TaskRun × Option TaskError
apply_op t (updates_status id status outcome) now = update_status t id status outcome now
apply_op t (updates_status_for_lease id owner status outcome) now =
    update_status_for_lease t id owner status outcome now
apply_op t (records_poll id success http) now = record_poll t id success http now
apply_op t (records_poll_for_lease id owner success http) now =
    record_poll_for_lease t id owner success http now
apply_op t (claims_due token owner lease) now = claim_due t token owner lease now
apply_op t (claims_poll token id owner lease) now = claim_poll t token id owner lease now
apply_op t (reschedules id owner next_poll) now = reschedule t id owner next_poll now
apply_op t (releases id owner) now = release_lease t id owner now
apply_op t (renews id owner lease) now = renew_lease t id owner lease now

unfoldable pub run_ops : List TaskRun → List (Op × ℕ) → List TaskRun
run_ops t [] = t
run_ops t ((op, now) ∷ ops) = run_ops (apply_op t op now).0 ops

-- Row by row.
abbrev pub Pointwise : (TaskRun → TaskRun → Type 0) → List TaskRun → List TaskRun → Type 0
Pointwise R [] [] = Unit {0}
Pointwise R (r ∷ t) (r' ∷ t') = R r r' × Pointwise R t t'
Pointwise R _ _ = ⊥

some_inj : {a b : TaskRun} → some a ≡ some b → a ≡ b
some_inj e = cc

module _ (R : TaskRun → TaskRun → Type 0) (same : (r : TaskRun) → R r r) where
  pub Pointwise-same : (t : List TaskRun) → Pointwise R t t
  Pointwise-same [] = tt
  Pointwise-same (r ∷ t) = (same r, Pointwise-same t)

  pub transact-Pointwise :
      (query : TaskRun → Bool) (missing : TaskError) (body : TaskRun → Changed) (t : List TaskRun)
      → ((r r' : TaskRun) → query r ≡ true → body r ≡ changed r' → R r r')
      → Pointwise R t (transact query missing body t).0
  unfolding transact
  transact-Pointwise query missing body [] h = tt
  transact-Pointwise query missing body (r ∷ t) h = elim (Bool-cases (query r)) [
    | inr e ↦ rw e (same r, transact-Pointwise query missing body t h)
    | inl e ↦ rw e (written (body r) (λ r'. h r r' e))
  ]
    where
      written :
          (c : Changed)
          → ((r' : TaskRun) → c ≡ changed r' → R r r')
          → Pointwise R (r ∷ t) (commit r t c).0
      written (rejected e') g = (same r, Pointwise-same t)
      written (changed r') g = (g r' refl, Pointwise-same t)

  -- The same row later.
  pub Pointwise-get_elem? :
      (t t' : List TaskRun) (i : ℕ) (r : TaskRun)
      → Pointwise R t t'
      → get_elem? t i ≡ some r
      → (r' : TaskRun) × (get_elem? t' i ≡ some r') × R r r'
  Pointwise-get_elem? [] [] i r p e = cc
  Pointwise-get_elem? [] (s' ∷ t') i r p e = elim p [ ]
  Pointwise-get_elem? (s ∷ t) [] i r p e = elim p [ ]
  Pointwise-get_elem? (s ∷ t) (s' ∷ t') zero r p e =
      (s', refl, subst (λ x. R x s') (some_inj e) p.0)
  Pointwise-get_elem? (s ∷ t) (s' ∷ t') (suc i) r p e = Pointwise-get_elem? t t' i r p.1 e

  -- A call that is refused leaves every row.
  pub guarded-Pointwise :
      (c : Bool) (e : TaskError) (t : List TaskRun) (x : List TaskRun × Option TaskError)
      → Pointwise R t x.0
      → Pointwise R t (if c then (t, some e) else x).0
  guarded-Pointwise true e t x p = Pointwise-same t
  guarded-Pointwise false e t x p = p

  pub or_refuse-Pointwise {ℓ} :
      {A : Type ℓ} (t : List TaskRun) (e : TaskError) (o : Option A)
      (f : A → List TaskRun × Option TaskError)
      → ((a : A) → Pointwise R t (f a).0)
      → Pointwise R t (or_refuse t e o f).0
  or_refuse-Pointwise t e none f h = Pointwise-same t
  or_refuse-Pointwise t e (some a) f h = h a
