-- ===== src/Polling/Wait/Tests.antt =====
-- A run of the polling loop, and the theorems about it at concrete inputs.
use relay_gateway.Common.Base.{
  ℕ, zero, suc, ◌+◌, ◌≤◌, ◌<◌, ◌≡◌, refl, true, none, some, [], ◌∷◌, arith, ltb, if◌then◌else◌,
}
use relay_gateway.Common.Lists.{length}
use relay_gateway.Common.Int.{pos}
use relay_gateway.Common.Text.{Text, codes, text_eq, trim_space, to_lower, equal_fold}
use relay_gateway.Polling.Backoff.{
  next_delay_at, parse_retry_after, mode_ms, with_jitter, cap_ms, ms_to_duration,
}
use relay_gateway.Polling.Backoff.Tests.{doubling, no_date, still}
use relay_gateway.Polling.Wait.{
  Response, Poll, Surroundings, wait, wait_loop, wait_step, verdict, succeeds, pause, deadline,
  contains_fold, observe_pending,
}
use relay_gateway.Polling.Wait.Count.{wait-polls}
use relay_gateway.Polling.Wait.Decides.{Continues, wait-first_success, wait-no_error}

abbrev poll : Poll
poll = record {
  backoff = doubling;
  max_attempts = pos 5;
  max_duration_ms = pos 60000;
  success_values = codes "done" ∷ [];
  failure_values = codes "failed" ∷ [];
}

abbrev answer : Text → Response
answer status = record {
  http_status = 200;
  status = status;
  task_id = codes "t1";
  retry_after = [];
}

-- Queued twice, then done.
abbrev env : Surroundings
env = record {
  start = 1000;
  ctx_err = λ k. none;
  now = λ k. 1000 + k;
  started = λ k. 1000 + k;
  poll_once = λ k. record {
    response = answer (if ltb k 3 then codes "queued" else codes "Done ");
    error = none;
  };
  finished = λ k. 1000 + k;
  delay_now = λ k. 1000 + k;
  sleep = λ k d. none;
  jitter = still;
  parse_time = no_date;
}

third_poll : (wait true (some (some poll)) env (answer [])).polls ≡ 3
unfolding wait wait_loop wait_step verdict contains_fold equal_fold trim_space deadline pause
    next_delay_at parse_retry_after mode_ms with_jitter cap_ms ms_to_duration to_lower text_eq
    observe_pending
third_poll = refl

wait-polls_example :
    let r = wait true (some (some poll)) env (answer []) in
    (length r.attempts ≡ r.polls) × (r.polls ≤ 5)
wait-polls_example = wait-polls true poll env (answer [])

continues : (j : ℕ) → j < 2 → Continues poll env (1 + j)
unfolding verdict contains_fold equal_fold trim_space deadline pause next_delay_at parse_retry_after
    mode_ms with_jitter cap_ms ms_to_duration to_lower text_eq
continues zero h = record { live = refl; early = omega arith; undecided = refl; rested = refl }
continues (suc zero) h = record {
  live = refl;
  early = omega arith;
  undecided = refl;
  rested = refl;
}
continues (suc (suc j)) h = absurd (omega arith)

wait-first_success_example : (wait true (some (some poll)) env (answer [])).polls ≡ 3
unfolding verdict contains_fold equal_fold trim_space deadline to_lower text_eq
wait-first_success_example =
    (wait-first_success 2 poll env (answer []) refl (omega arith) continues refl (omega arith)
      refl).1

wait-no_error_example :
    let r = wait true (some (some poll)) env (answer []) in
    (r.final ≡ some (env.poll_once r.polls).response)
    × (verdict poll (env.poll_once r.polls) ≡ succeeds)
unfolding wait wait_loop wait_step verdict contains_fold equal_fold trim_space deadline pause
    next_delay_at parse_retry_after mode_ms with_jitter cap_ms ms_to_duration to_lower text_eq
    observe_pending
wait-no_error_example = wait-no_error true poll env (answer []) refl
