-- ===== src/Polling/Wait.antt =====
-- The polling loop of `gateway_wait` (protocol/async.go, `wait`). What the surroundings answer during
-- poll number k (the context, the clock, the provider, the sleep) is a function of k. A compiled profile
-- has between 1 and 100000 attempts; with a negative number the code would panic, and the model makes
-- no attempt.
pub mod Count
pub mod Decides
pub mod Tests
use relay_gateway.Common.Base.{
  ℕ, zero, suc, ◌+◌, ◌-◌, ◌*◌, Bool, true, false, not, ◌&&◌, ◌||◌, Option, none, some, List, [],
  ◌∷◌, ◌++◌, ltb, leb, ◌==◌, if◌then◌else◌,
}
use relay_gateway.Common.Int.{ℤ, pos, pos_part}
use relay_gateway.Common.Text.{Text, is_empty, trim_space, equal_fold}
use relay_gateway.Polling.Backoff.{Backoff, next_delay_at, is_positive, millisecond}

-- The fields of `Result` that the loop reads; `retry_after` is the header of that name.
pub record Response : Type 0 where
  pub http_status : ℕ
  pub status : Text
  pub task_id : Text
  pub retry_after : Text

-- What `PollOnce` returns.
pub record Polled : Type 0 where
  pub response : Response
  pub error : Option Text

pub record Poll : Type 0 where
  pub backoff : Backoff
  pub max_attempts : ℤ
  pub max_duration_ms : ℤ  -- 1 to 604800000 in a validated profile
  pub success_values : List Text
  pub failure_values : List Text

pub record Surroundings : Type 0 where
  pub start : ℕ
  pub ctx_err : ℕ → Option Text
  pub now : ℕ → ℕ
  pub started : ℕ → ℕ
  pub poll_once : ℕ → Polled
  pub finished : ℕ → ℕ
  pub delay_now : ℕ → ℕ
  pub sleep : ℕ → ℤ → Option Text
  pub jitter : ℤ → ℤ
  pub parse_time : Text → Option ℕ

pub data PollOutcome : Type 0 where
  pending success failed : PollOutcome

pub record PollAttempt : Type 0 where
  pub started_at : ℕ
  pub finished_at : ℕ
  pub http_status : ℕ
  pub outcome : PollOutcome
  pub error : Text

pub data WaitError : Type 0 where
  querier_required operation_not_found no_poll_definition no_task_id : WaitError
  poll_timeout : ℕ → Option Text → WaitError  -- `none` is the cause ErrPollTimeout
  poll_failed : ℕ → Text → WaitError
  poll_error : ℕ → Text → WaitError

-- `final` is `none` for the empty `Result{}`.
pub record Waited : Type 0 where
  pub final : Option Response
  pub polls : ℕ
  pub attempts : List PollAttempt
  pub error : Option WaitError

unfoldable pub contains_fold_loop : Text → List Text → Bool
contains_fold_loop target [] = false
contains_fold_loop target (v ∷ vs) =
    equal_fold (trim_space v) target || contains_fold_loop target vs

unfoldable pub contains_fold : List Text → Text → Bool
unfolding contains_fold_loop
contains_fold values target = contains_fold_loop (trim_space target) values

-- What one answer means to the loop.
pub data Verdict : Type 0 where
  goes_on : Option Text → Verdict  -- with the error of a poll that could not be made
  succeeds fails : Verdict

unfoldable pub verdict : Poll → Polled → Verdict
verdict p polled = elim polled.error [
  | some e ↦ goes_on (some e)
  | none ↦
      if contains_fold p.success_values polled.response.status
      then succeeds
      else if contains_fold p.failure_values polled.response.status
      then fails
      else goes_on none
]

observe : Surroundings → ℕ → PollOutcome → Text → PollAttempt
observe env k outcome error = record {
  started_at = env.started k;
  finished_at = env.finished k;
  http_status = (env.poll_once k).response.http_status;
  outcome = outcome;
  error = error;
}

-- The observation that is appended for a poll that does not end the loop.
unfoldable pub observe_pending : Surroundings → ℕ → Option Text → PollAttempt
unfolding observe
observe_pending env k none = observe env k pending []
observe_pending env k (some e) = observe env k failed e

abbrev newer : Option Text → Option Text → Option Text
newer none last = last
newer (some e) last = some e

-- After the last attempt.
unfoldable pub exhausted : ℕ → Option Text → List PollAttempt → Waited
exhausted polls none attempts = record {
  final = none;
  polls = polls;
  attempts = attempts;
  error = some (poll_timeout polls none);
}
exhausted polls (some e) attempts = record {
  final = none;
  polls = polls;
  attempts = attempts;
  error = some (poll_error polls e);
}

unfoldable pub timed_out : ℕ → Option Text → List PollAttempt → Waited
timed_out polls cause attempts = record {
  final = none;
  polls = polls;
  attempts = attempts;
  error = some (poll_timeout polls cause);
}

unfoldable pub deadline : Poll → Surroundings → ℕ
deadline p env = env.start + pos_part p.max_duration_ms * millisecond

-- The wait between attempt `k` and the next one; `none` goes on.
unfoldable pub pause : Poll → Surroundings → ℕ → Option Text
pause p env k =
    let delay =
      next_delay_at env.parse_time p.backoff (pos k) (env.poll_once k).response.retry_after
        env.jitter (env.delay_now k) in
    if is_positive delay then env.sleep k delay else none

-- One round of the loop ends it, or goes on with the last error and the observations.
pub data Step : Type 0 where
  stop : Waited → Step
  next : Option Text → List PollAttempt → Step

-- Round `k`; `is_last` is the test `attempt == op.Poll.MaxAttempts`.
unfoldable pub wait_step : Poll → Surroundings → ℕ → Bool → Option Text → List PollAttempt → Step
unfolding timed_out observe
wait_step p env k is_last last attempts = elim (env.ctx_err k) [
  | some e ↦ stop (timed_out (k - 1) (some e) attempts)
  | none ↦
      if not (ltb (env.now k) (deadline p env))
      then stop (timed_out (k - 1) none attempts)
      else elim (verdict p (env.poll_once k)) [
        | succeeds ↦ stop (record {
          final = some (env.poll_once k).response;
          polls = k;
          attempts = attempts ++ observe env k success [] ∷ [];
          error = none;
        })
        | fails ↦ stop (record {
          final = some (env.poll_once k).response;
          polls = k;
          attempts = attempts ++ observe env k failed [] ∷ [];
          error = some (poll_failed k (env.poll_once k).response.status);
        })
        | goes_on e ↦
            let attempts' = attempts ++ observe_pending env k e ∷ [] in
            elim (if is_last then none else pause p env k) [
              | some e' ↦ stop (timed_out k (some e') attempts')
              | none ↦ next (newer e last) attempts'
            ]
      ]
]

-- `left` attempts are left, and `k` is the number of the next one.
unfoldable pub wait_loop : ℕ → ℕ → Poll → Surroundings → Option Text → List PollAttempt → Waited
wait_loop zero k p env last attempts = exhausted (k - 1) last attempts
wait_loop (suc left) k p env last attempts = elim (wait_step p env k (left == 0) last attempts) [
  | stop r ↦ r
  | next last' attempts' ↦ wait_loop left (k + 1) p env last' attempts'
]

refused : WaitError → Waited
refused e = record { final = none; polls = 0; attempts = []; error = some e }

-- `wait`: the lookup of the operation gives `none`, or the operation's poll definition if it has one.
unfoldable pub wait : Bool → Option (Option Poll) → Surroundings → Response → Waited
unfolding refused
wait has_querier operation env accepted =
    if not has_querier then refused querier_required else elim operation [
      | none ↦ refused operation_not_found
      | some none ↦ refused no_poll_definition
      | some (some p) ↦
          if is_empty (trim_space accepted.task_id)
          then refused no_task_id
          else wait_loop (pos_part p.max_attempts) 1 p env none []
    ]
