-- ===== src/Tasks/Runs/Fencing.antt =====
-- What a lease excludes while it lasts (db/task.go, db/task_lease.go).
use relay_gateway.Common.Base.{
  ℕ, ◌<◌, ◌≡◌, sym, ap, ◌∙◌, Bool, true, false, not, Option, none, some, List, [], ◌∷◌, arith, leb,
}
use relay_gateway.Common.Text.{Text, is_empty, trim_space, text_eq, text_eq_iff}
use relay_gateway.Tasks.Runs.{
  TaskRun, changed, change_status, count_poll, take_lease, drop_lease, update_status,
  update_status_for_lease, is_due, is_claimable, is_expired, owned_by, record_poll,
  record_poll_for_lease, claim_due, claim_poll, claim_id, claim_row, claim_first, reschedule,
  release_lease, renew_lease,
}
use relay_gateway.Tasks.Runs.System.{
  Op, updates_status, updates_status_for_lease, records_poll, records_poll_for_lease, claims_due,
  claims_poll, reschedules, releases, renews, apply_op, run_ops, Pointwise, transact-Pointwise,
  guarded-Pointwise, or_refuse-Pointwise,
}

-- Calls under a name other than `o`: the ones that end or move a lease are not made by its owner.
abbrev pub is_foreign : Text → Op → Bool
is_foreign o (updates_status id status outcome) = true
is_foreign o (updates_status_for_lease id owner status outcome) = true
is_foreign o (records_poll id success http) = true
is_foreign o (records_poll_for_lease id owner success http) = true
is_foreign o (claims_due token owner lease) = true
is_foreign o (claims_poll token id owner lease) = true
is_foreign o (reschedules id owner next_poll) = not (text_eq (trim_space owner) o)
is_foreign o (releases id owner) = not (text_eq (trim_space owner) o)
is_foreign o (renews id owner lease) = not (text_eq owner o)

abbrev pub lasts : ℕ → Option ℕ → Bool
lasts e none = false
lasts e (some expires) = leb e expires

-- `o` holds the run until `e` at least.
pub record IsLeased (o : Text) (e : ℕ) (r : TaskRun) : Type 0 where
  pub owner : text_eq r.lease_owner o ≡ true
  pub until : lasts e r.lease_expires_at ≡ true

module _ (id o : Text) (e : ℕ) (named : is_empty o ≡ false) where
  -- A row of the run `id` is leased to `o` until `e`.
  abbrev pub Guards : TaskRun → Type 0
  Guards r = text_eq r.id id ≡ true → IsLeased o e r

  abbrev Keeps : TaskRun → TaskRun → Type 0
  Keeps r r' = Guards r → Guards r'

  Keeps-same : (r : TaskRun) → Keeps r r
  Keeps-same r g = g

  change_status-Keeps :
      (status outcome : Text) (now : ℕ) (r r' : TaskRun)
      → change_status status outcome now r ≡ changed r'
      → Keeps r r'
  unfolding change_status
  change_status-Keeps status outcome now r r' q g i =
      let l = g (ground arith) in
      record { owner = ground (arith, l.owner); until = ground (arith, l.until) }

  count_poll-Keeps :
      (success : Bool) (http now : ℕ) (r r' : TaskRun)
      → count_poll success http now r ≡ changed r'
      → Keeps r r'
  unfolding count_poll
  count_poll-Keeps success http now r r' q g i =
      let l = g (ground arith) in
      record { owner = ground (arith, l.owner); until = ground (arith, l.until) }

  pub not_expired :
      (r : TaskRun) (now : ℕ)
      → now < e
      → lasts e r.lease_expires_at ≡ true
      → is_expired r.lease_expires_at now ≡ false
  not_expired r now lt u = ground arith

  same_row :
      (holder : Text) (lease now : ℕ) (r r' : TaskRun)
      → take_lease holder lease now r ≡ changed r'
      → r'.id ≡ r.id
  unfolding take_lease
  same_row holder lease now r r' q = ground arith

  claimable-Keeps :
      (k holder : Text) (lease now : ℕ) (r r' : TaskRun)
      → now < e
      → is_claimable k now r ≡ true
      → take_lease holder lease now r ≡ changed r'
      → Keeps r r'
  unfolding is_claimable
  claimable-Keeps k holder lease now r r' lt q c g i =
      let l = g (ap (λ x. text_eq x id) (sym (same_row holder lease now r r' c)) ∙ i) in
      absurd (
        ground
          (arith, not_expired r now lt l.until, (text_eq_iff r.lease_owner o).0 l.owner, named))

  due-Keeps :
      (holder : Text) (lease now : ℕ) (r r' : TaskRun)
      → now < e
      → is_due now r ≡ true
      → take_lease holder lease now r ≡ changed r'
      → Keeps r r'
  unfolding is_due
  due-Keeps holder lease now r r' lt q c g i =
      let l = g (ap (λ x. text_eq x id) (sym (same_row holder lease now r r' c)) ∙ i) in
      absurd (ground (arith, not_expired r now lt l.until))

  -- A row that another owner holds is not one of the rows of `id`.
  owned-Keeps :
      (owner : Text) (r r' : TaskRun)
      → text_eq r.lease_owner owner ≡ true
      → text_eq owner o ≡ false
      → r'.id ≡ r.id
      → Keeps r r'
  owned-Keeps owner r r' q f s g i =
      let l = g (ap (λ x. text_eq x id) (sym s) ∙ i) in
      absurd (ground (arith, l.owner, (text_eq_iff r.lease_owner owner).0 q))

  drop_lease-Keeps :
      (owner : Text) (next_poll : Option ℕ) (now : ℕ) (k : Text) (r r' : TaskRun)
      → text_eq owner o ≡ false
      → owned_by k owner r ≡ true
      → drop_lease next_poll now r ≡ changed r'
      → Keeps r r'
  unfolding drop_lease
  drop_lease-Keeps owner next_poll now k r r' f q c =
      owned-Keeps owner r r' (ground arith) f (ground arith)

  claim_id-Keeps :
      (t : List TaskRun) (k : Text) (lease now : ℕ) (holder : Text)
      → now < e
      → Pointwise Keeps t (claim_id t k lease now holder).0
  unfolding claim_id
  claim_id-Keeps t k lease now holder lt =
      transact-Pointwise Keeps Keeps-same _ _ _ t
        (λ r r' q. claimable-Keeps k holder lease now r r' lt q)

  claim_row-Keeps :
      (t : List TaskRun) (holder : Text) (lease now : ℕ) (s : TaskRun)
      → now < e
      → Pointwise Keeps t (claim_row t holder lease now s).0
  unfolding claim_row
  claim_row-Keeps t holder lease now s lt =
      transact-Pointwise Keeps Keeps-same _ _ _ t
        (λ r r' q. due-Keeps holder lease now r r' lt (ground (arith, q)))

  claim_first-Keeps :
      (t : List TaskRun) (lease now : ℕ) (holder : Text)
      → now < e
      → Pointwise Keeps t (claim_first t lease now holder).0
  unfolding claim_first
  claim_first-Keeps t lease now holder lt =
      or_refuse-Pointwise Keeps Keeps-same t _ _ (claim_row t holder lease now)
        (λ s. claim_row-Keeps t holder lease now s lt)

  op-Keeps :
      (t : List TaskRun) (op : Op) (now : ℕ)
      → now < e
      → is_foreign o op ≡ true
      → Pointwise Keeps t (apply_op t op now).0
  unfolding apply_op update_status update_status_for_lease record_poll record_poll_for_lease
      reschedule release_lease renew_lease claim_due claim_poll
  op-Keeps t (updates_status k status outcome) now lt f =
      guarded-Pointwise Keeps Keeps-same _ _ t _ (
        transact-Pointwise Keeps Keeps-same _ _ _ t
          (λ r r' q. change_status-Keeps (trim_space status) (trim_space outcome) now r r'))
  op-Keeps t (updates_status_for_lease k owner status outcome) now lt f =
      guarded-Pointwise Keeps Keeps-same _ _ t _ (
        transact-Pointwise Keeps Keeps-same _ _ _ t
          (λ r r' q. change_status-Keeps (trim_space status) (trim_space outcome) now r r'))
  op-Keeps t (records_poll k success http) now lt f = guarded-Pointwise Keeps Keeps-same _ _ t _ (
      transact-Pointwise Keeps Keeps-same _ _ _ t
        (λ r r' q. count_poll-Keeps success http now r r'))
  op-Keeps t (records_poll_for_lease k owner success http) now lt f =
      guarded-Pointwise Keeps Keeps-same _ _ t _ (
        transact-Pointwise Keeps Keeps-same _ _ _ t
          (λ r r' q. count_poll-Keeps success http now r r'))
  op-Keeps t (claims_due token owner lease) now lt f =
      or_refuse-Pointwise Keeps Keeps-same t _ _ (claim_first t lease now)
        (λ holder. claim_first-Keeps t lease now holder lt)
  op-Keeps t (claims_poll token k owner lease) now lt f =
      guarded-Pointwise Keeps Keeps-same _ _ t _ (
        or_refuse-Pointwise Keeps Keeps-same t _ _ (claim_id t (trim_space k) lease now)
          (λ holder. claim_id-Keeps t (trim_space k) lease now holder lt))
  op-Keeps t (reschedules k owner next_poll) now lt f = guarded-Pointwise Keeps Keeps-same _ _ t _ (
      transact-Pointwise Keeps Keeps-same _ _ _ t (λ r r' q.
        drop_lease-Keeps (trim_space owner) (some next_poll) now (trim_space k) r r'
          (ground (arith, f)) q))
  op-Keeps t (releases k owner) now lt f = transact-Pointwise Keeps Keeps-same _ _ _ t (λ r r' q.
      drop_lease-Keeps (trim_space owner) none now (trim_space k) r r' (ground (arith, f)) q)
  op-Keeps t (renews k owner lease) now lt f = guarded-Pointwise Keeps Keeps-same _ _ t _ (
      transact-Pointwise Keeps Keeps-same _ _ _ t (λ r r' q c.
        owned-Keeps owner r r' (ground (arith, q)) (ground (arith, f)) (ground (arith, c))))

  -- Every row of the run is leased to `o` until `e`.
  abbrev pub AllGuard : List TaskRun → Type 0
  AllGuard [] = Unit {0}
  AllGuard (r ∷ t) = Guards r × AllGuard t

  Keeps-AllGuard : (t t' : List TaskRun) → Pointwise Keeps t t' → AllGuard t → AllGuard t'
  Keeps-AllGuard [] [] p g = tt
  Keeps-AllGuard [] (r' ∷ t') p g = elim p [ ]
  Keeps-AllGuard (r ∷ t) [] p g = elim p [ ]
  Keeps-AllGuard (r ∷ t) (r' ∷ t') p g = (p.0 g.0, Keeps-AllGuard t t' p.1 g.1)

  -- Calls before `e`, none of which ends or moves a lease in the name of `o`.
  abbrev pub AllForeign : List (Op × ℕ) → Type 0
  AllForeign [] = Unit {0}
  AllForeign ((op, now) ∷ ops) = (now < e) × (is_foreign o op ≡ true) × AllForeign ops

  pub run_ops-AllGuard :
      (t : List TaskRun) (ops : List (Op × ℕ))
      → AllForeign ops
      → AllGuard t
      → AllGuard (run_ops t ops)
  unfolding run_ops
  run_ops-AllGuard t [] h g = g
  run_ops-AllGuard t ((op, now) ∷ ops) h g =
      run_ops-AllGuard (apply_op t op now).0 ops h.2
        (Keeps-AllGuard t (apply_op t op now).0 (op-Keeps t op now h.0 h.1) g)
