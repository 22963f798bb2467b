-- ===== src/Polling/Backoff/Tests.antt =====
-- Runs of the delay, and the theorems about it at concrete inputs.
use relay_gateway.Common.Base.{ℕ, ◌*◌, ◌≡◌, refl, none, some, Option, [], arith}
use relay_gateway.Common.Int.{ℤ, pos, ◌≤ℤ◌}
use relay_gateway.Common.Text.{Text, codes, trim_space, to_lower, text_eq}
use relay_gateway.Polling.Backoff.{
  Backoff, max_i64, millisecond, next_delay_at, parse_retry_after, mode_ms, with_jitter, cap_ms,
  ms_to_duration, base_ms,
}
use relay_gateway.Polling.Backoff.Delay.{
  next_delay_at_bounds, next_delay_at-le_max, next_delay_at-exact,
}

abbrev pub no_date : Text → Option ℕ
no_date s = none

abbrev pub doubling : Backoff
doubling = record {
  interval_ms = pos 1000;
  backoff_mode = codes " Exponential";
  backoff_base_ms = pos 0;
  backoff_max_ms = pos 60000;
  jitter_ms = pos 0;
}

abbrev pub still : ℤ → ℤ
still z = z

fourth : next_delay_at no_date doubling (pos 4) [] still 5 ≡ pos 8000000000
unfolding next_delay_at parse_retry_after mode_ms with_jitter cap_ms ms_to_duration trim_space
    to_lower text_eq
fourth = refl

asked : parse_retry_after no_date (codes " 120 ") 5 ≡ some (pos 120000000000)
unfolding parse_retry_after trim_space
asked = refl

next_delay_at_bounds_example :
    let d = next_delay_at no_date doubling (pos 4) (codes "7") still 5 in
    (pos 0 ≤ℤ d) × (d ≤ℤ pos max_i64)
next_delay_at_bounds_example = next_delay_at_bounds no_date doubling (pos 4) (codes "7") still 5

next_delay_at-le_max_example :
    next_delay_at no_date doubling (pos 4000) (codes "700") still 5 ≤ℤ pos (60000 * millisecond)
next_delay_at-le_max_example =
    next_delay_at-le_max no_date doubling (pos 4000) (codes "700") still 5 60000 refl (omega arith)
      (omega arith)

next_delay_at-exact_example : next_delay_at no_date doubling (pos 4) [] still 5 ≡ pos 8000000000
unfolding parse_retry_after trim_space base_ms to_lower text_eq
next_delay_at-exact_example =
    next_delay_at-exact no_date doubling [] still 5 1000 4 60000 refl refl refl (omega arith)
      (omega arith) (omega arith) refl (omega arith) (omega arith)
