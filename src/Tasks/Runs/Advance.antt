-- ===== src/Tasks/Runs/Advance.antt =====
-- What status updates, polls and leases do not take back (db/task.go, db/task_lease.go): the status of a
-- run only advances, a final status stays, and the poll counters add up. The projection of a profile,
-- which overwrites the status and the counters, is not among these calls.
use relay_gateway.Common.Base.{
  ℕ, ◌+◌, ◌≤◌, ◌≡◌, refl, ◌∙◌, Bool, true, Option, none, some, List, [], ◌∷◌, arith,
}
use relay_gateway.Common.Lists.{get_elem?}
use relay_gateway.Common.Text.{Text, trim_space, text_eq_iff}
use relay_gateway.Tasks.Runs.{
  TaskRun, changed, task_status_rank, is_task_terminal, change_status, count_poll, take_lease,
  drop_lease, update_status, update_status_for_lease, record_poll, record_poll_for_lease, claim_due,
  claim_poll, claim_id, claim_row, claim_first, reschedule, release_lease, renew_lease,
}
use relay_gateway.Tasks.Runs.System.{
  Op, updates_status, updates_status_for_lease, records_poll, records_poll_for_lease, claims_due,
  claims_poll, reschedules, releases, renews, apply_op, run_ops, Pointwise, Pointwise-same,
  transact-Pointwise, guarded-Pointwise, or_refuse-Pointwise, Pointwise-get_elem?,
}

-- The polls that were counted are the successes and the failures.
abbrev pub IsBalanced : TaskRun → Type 0
IsBalanced r =
    (r.poll_count ≡ r.poll_success_count + r.poll_failure_count)
    × (r.consecutive_poll_errors ≤ r.poll_failure_count)

-- How a row may change.
pub record Advances (r r' : TaskRun) : Type 0 where
  pub same_id : r'.id ≡ r.id
  pub same_events : r'.event_sequence ≡ r.event_sequence
  pub forward : task_status_rank r.task_status ≤ task_status_rank r'.task_status
  pub final : is_task_terminal r.task_status ≡ true → r'.task_status ≡ r.task_status
  pub newer : r.state_version ≤ r'.state_version
  pub counted : r.poll_count ≤ r'.poll_count
  pub balanced : IsBalanced r → IsBalanced r'

Advances-same : (r : TaskRun) → Advances r r
Advances-same r = record {
  same_id = refl;
  same_events = refl;
  forward = omega arith;
  final = λ e. refl;
  newer = omega arith;
  counted = omega arith;
  balanced = λ b. b;
}

Advances-trans : (r s u : TaskRun) → Advances r s → Advances s u → Advances r u
Advances-trans r s u a b = record {
  same_id = b.same_id ∙ a.same_id;
  same_events = b.same_events ∙ a.same_events;
  forward = omega (arith, a.forward, b.forward);
  final = λ e. b.final (rw (a.final e) e) ∙ a.final e;
  newer = omega (arith, a.newer, b.newer);
  counted = omega (arith, a.counted, b.counted);
  balanced = λ k. b.balanced (a.balanced k);
}

change_status-Advances :
    (status outcome : Text) (now : ℕ) (r r' : TaskRun)
    → change_status status outcome now r ≡ changed r'
    → Advances r r'
unfolding change_status
change_status-Advances status outcome now r r' e = record {
  same_id = ground arith;
  same_events = ground arith;
  forward = ground arith;
  final = λ f. ground (arith, text_eq_iff status r.task_status);
  newer = ground arith;
  counted = ground arith;
  balanced = λ b. ground arith;
}

count_poll-Advances :
    (success : Bool) (http now : ℕ) (r r' : TaskRun)
    → count_poll success http now r ≡ changed r'
    → Advances r r'
unfolding count_poll
count_poll-Advances success http now r r' e = record {
  same_id = ground arith;
  same_events = ground arith;
  forward = ground arith;
  final = λ f. ground arith;
  newer = ground arith;
  counted = ground arith;
  balanced = λ b. ground arith;
}

-- A change of the lease alone.
lease_only-Advances :
    (r r' : TaskRun)
    → r'.id ≡ r.id
    → r'.event_sequence ≡ r.event_sequence
    → r'.task_status ≡ r.task_status
    → r.state_version ≤ r'.state_version
    → (r'.poll_count ≡ r.poll_count)
      × (r'.poll_success_count ≡ r.poll_success_count)
      × (r'.poll_failure_count ≡ r.poll_failure_count)
      × (r'.consecutive_poll_errors ≡ r.consecutive_poll_errors)
    → Advances r r'
lease_only-Advances r r' i n s v p = record {
  same_id = i;
  same_events = n;
  forward = rw s (omega arith);
  final = λ e. s;
  newer = v;
  counted = omega (arith, p.0);
  balanced = λ b. omega (arith, b.0, b.1, p.0, p.1, p.2, p.3);
}

take_lease-Advances :
    (owner : Text) (lease now : ℕ) (r r' : TaskRun)
    → take_lease owner lease now r ≡ changed r'
    → Advances r r'
unfolding take_lease
take_lease-Advances owner lease now r r' e =
    lease_only-Advances r r' (ground arith) (ground arith) (ground arith) (ground arith)
      (ground arith)

drop_lease-Advances :
    (next_poll : Option ℕ) (now : ℕ) (r r' : TaskRun)
    → drop_lease next_poll now r ≡ changed r'
    → Advances r r'
unfolding drop_lease
drop_lease-Advances next_poll now r r' e =
    lease_only-Advances r r' (ground arith) (ground arith) (ground arith) (ground arith)
      (ground arith)

claim_id-Pointwise :
    (t : List TaskRun) (id : Text) (lease now : ℕ) (holder : Text)
    → Pointwise Advances t (claim_id t id lease now holder).0
unfolding claim_id
claim_id-Pointwise t id lease now holder =
    transact-Pointwise Advances Advances-same _ _ _ t
      (λ r r' q. take_lease-Advances holder lease now r r')

claim_row-Pointwise :
    (t : List TaskRun) (holder : Text) (lease now : ℕ) (s : TaskRun)
    → Pointwise Advances t (claim_row t holder lease now s).0
unfolding claim_row
claim_row-Pointwise t holder lease now s =
    transact-Pointwise Advances Advances-same _ _ _ t
      (λ r r' q. take_lease-Advances holder lease now r r')

claim_first-Pointwise :
    (t : List TaskRun) (lease now : ℕ) (holder : Text)
    → Pointwise Advances t (claim_first t lease now holder).0
unfolding claim_first
claim_first-Pointwise t lease now holder =
    or_refuse-Pointwise Advances Advances-same t _ _ (claim_row t holder lease now)
      (claim_row-Pointwise t holder lease now)

Pointwise-trans :
    (t u v : List TaskRun)
    → Pointwise Advances t u
    → Pointwise Advances u v
    → Pointwise Advances t v
Pointwise-trans [] [] [] p q = tt
Pointwise-trans (r ∷ t) (s ∷ u) (w ∷ v) p q =
    (Advances-trans r s w p.0 q.0, Pointwise-trans t u v p.1 q.1)
Pointwise-trans [] [] (w ∷ v) p q = elim q [ ]
Pointwise-trans [] (s ∷ u) v p q = elim p [ ]
Pointwise-trans (r ∷ t) [] v p q = elim p [ ]
Pointwise-trans (r ∷ t) (s ∷ u) [] p q = elim q [ ]

pub op-Pointwise :
    (t : List TaskRun) (op : Op) (now : ℕ) → Pointwise Advances t (apply_op t op now).0
unfolding apply_op update_status update_status_for_lease record_poll record_poll_for_lease
    reschedule release_lease renew_lease claim_due claim_poll
op-Pointwise t (updates_status id status outcome) now =
    guarded-Pointwise Advances Advances-same _ _ t _ (
      transact-Pointwise Advances Advances-same _ _ _ t
        (λ r r' q. change_status-Advances (trim_space status) (trim_space outcome) now r r'))
op-Pointwise t (updates_status_for_lease id owner status outcome) now =
    guarded-Pointwise Advances Advances-same _ _ t _ (
      transact-Pointwise Advances Advances-same _ _ _ t
        (λ r r' q. change_status-Advances (trim_space status) (trim_space outcome) now r r'))
op-Pointwise t (records_poll id success http) now =
    guarded-Pointwise Advances Advances-same _ _ t _ (
      transact-Pointwise Advances Advances-same _ _ _ t
        (λ r r' q. count_poll-Advances success http now r r'))
op-Pointwise t (records_poll_for_lease id owner success http) now =
    guarded-Pointwise Advances Advances-same _ _ t _ (
      transact-Pointwise Advances Advances-same _ _ _ t
        (λ r r' q. count_poll-Advances success http now r r'))
op-Pointwise t (claims_due token owner lease) now =
    or_refuse-Pointwise Advances Advances-same t _ _ (claim_first t lease now)
      (claim_first-Pointwise t lease now)
op-Pointwise t (claims_poll token id owner lease) now =
    guarded-Pointwise Advances Advances-same _ _ t _ (
      or_refuse-Pointwise Advances Advances-same t _ _ (claim_id t (trim_space id) lease now)
        (claim_id-Pointwise t (trim_space id) lease now))
op-Pointwise t (reschedules id owner next_poll) now =
    guarded-Pointwise Advances Advances-same _ _ t _ (
      transact-Pointwise Advances Advances-same _ _ _ t
        (λ r r' q. drop_lease-Advances (some next_poll) now r r'))
op-Pointwise t (releases id owner) now =
    transact-Pointwise Advances Advances-same _ _ _ t (λ r r' q. drop_lease-Advances none now r r')
op-Pointwise t (renews id owner lease) now = guarded-Pointwise Advances Advances-same _ _ t _ (
    transact-Pointwise Advances Advances-same _ _ _ t (λ r r' q e.
      lease_only-Advances r r' (ground arith) (ground arith) (ground arith) (ground arith)
        (ground arith)))

run_ops-Pointwise : (t : List TaskRun) (ops : List (Op × ℕ)) → Pointwise Advances t (run_ops t ops)
unfolding run_ops
run_ops-Pointwise t [] = Pointwise-same Advances Advances-same t
run_ops-Pointwise t ((op, now) ∷ ops) =
    Pointwise-trans t _ _ (op-Pointwise t op now) (run_ops-Pointwise (apply_op t op now).0 ops)

-- After any sequence of status updates, counted polls, claims, releases, reschedulings and renewals, with
-- or without a lease and at any times, and of no other calls (the projection
-- of a profile is not among them), the row of a run is still there under its id; its status has
-- not fallen in rank, a final status is the same text as before, its version and its poll count have not
-- fallen, and if its polls were the successes and failures together, with the consecutive errors among
-- the failures, they still are.
pub run_ops-Advances :
    (t : List TaskRun) (ops : List (Op × ℕ)) (i : ℕ) (r : TaskRun)
    → get_elem? t i ≡ some r
    → (r' : TaskRun) × (get_elem? (run_ops t ops) i ≡ some r') × Advances r r'
run_ops-Advances t ops i r e =
    Pointwise-get_elem? Advances Advances-same t (run_ops t ops) i r (run_ops-Pointwise t ops) e
