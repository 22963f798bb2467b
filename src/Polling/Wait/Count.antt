-- ===== src/Polling/Wait/Count.antt =====
-- How many polls `gateway_wait` makes (protocol/async.go, `wait`).
use relay_gateway.Common.Base.{
  ℕ, zero, suc, ◌+◌, ◌-◌, ◌≤◌, ◌==◌, ◌≡◌, Bool, Option, none, some, List, [], ◌∷◌, ◌++◌, arith,
}
use relay_gateway.Common.Lists.{length, length-append}
use relay_gateway.Common.Int.{pos_part}
use relay_gateway.Common.Text.{Text}
use relay_gateway.Polling.Wait.{
  Response, Poll, Surroundings, PollAttempt, Waited, Step, stop, next, wait_step, wait_loop, wait,
  exhausted,
}

-- The books of one result: every poll has its observation, and no more than `limit` are made.
record Accounts (limit : ℕ) (r : Waited) : Type 0 where
  observed : length r.attempts ≡ r.polls
  bounded : r.polls ≤ limit

exhausted-Accounts :
    (limit polls : ℕ) (last : Option Text) (attempts : List PollAttempt)
    → length attempts ≡ polls
    → polls ≤ limit
    → Accounts limit (exhausted polls last attempts)
unfolding exhausted
exhausted-Accounts limit polls none attempts e h = record { observed = e; bounded = h }
exhausted-Accounts limit polls (some x) attempts e h = record { observed = e; bounded = h }

abbrev StepAccounts : ℕ → List PollAttempt → Step → Type 0
StepAccounts k attempts (stop r) = Accounts k r
StepAccounts k attempts (next last attempts') = length attempts' ≡ length attempts + 1

length-snoc : (xs : List PollAttempt) (x : PollAttempt) → length (xs ++ x ∷ []) ≡ length xs + 1
length-snoc xs x = length-append xs (x ∷ [])

wait_step-Accounts :
    (k : ℕ) (p : Poll) (env : Surroundings) (is_last : Bool) (last : Option Text)
    (attempts : List PollAttempt)
    → length attempts + 1 ≡ k
    → StepAccounts k attempts (wait_step p env k is_last last attempts)
unfolding wait_step
wait_step-Accounts k p env is_last last attempts e = grind (arith, length-snoc)

wait_loop-Accounts :
    (left k : ℕ) (p : Poll) (env : Surroundings) (last : Option Text) (attempts : List PollAttempt)
    → length attempts + 1 ≡ k
    → Accounts (length attempts + left) (wait_loop left k p env last attempts)
unfolding wait_loop
wait_loop-Accounts zero k p env last attempts e =
    exhausted-Accounts _ (k - 1) last attempts (omega arith) (omega arith)
wait_loop-Accounts (suc left) k p env last attempts e =
    go (wait_step p env k (left == 0) last attempts)
      (wait_step-Accounts k p env (left == 0) last attempts e)
      (λ last' attempts'. wait_loop-Accounts left (k + 1) p env last' attempts')
  where
    go :
        (st : Step)
        → StepAccounts k attempts st
        → ((last' : Option Text) (attempts' : List PollAttempt)
            → length attempts' + 1 ≡ k + 1
            → Accounts (length attempts' + left) (wait_loop left (k + 1) p env last' attempts'))
        → Accounts (length attempts + suc left) (elim st [
          | stop r ↦ r
          | next last' attempts' ↦ wait_loop left (k + 1) p env last' attempts'
        ])
    go (stop r) a rest = record { observed = a.observed; bounded = omega (arith, a.bounded) }
    go (next last' attempts') a rest =
        let r = rest last' attempts' (omega (arith, a)) in
        record { observed = r.observed; bounded = omega (arith, r.bounded, a) }

-- Whatever the surroundings answer, the wait makes at most `max_attempts` polls, none if that is
-- negative, and has exactly one observation for each.
pub wait-polls :
    (has_querier : Bool) (p : Poll) (env : Surroundings) (accepted : Response)
    → let r = wait has_querier (some (some p)) env accepted in
      (length r.attempts ≡ r.polls) × (r.polls ≤ pos_part p.max_attempts)
unfolding wait
wait-polls has_querier p env accepted =
    let a = wait_loop-Accounts (pos_part p.max_attempts) 1 p env none [] (omega arith) in
    ground (arith, a.observed, a.bounded)
