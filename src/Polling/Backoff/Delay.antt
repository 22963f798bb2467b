-- ===== src/Polling/Backoff/Delay.antt =====
-- What the delay before the next poll is (protocol/async.go, `nextDelayAt`).
use relay_gateway.Common.Base.{
  ℕ, ◌-◌, ◌*◌, ◌^◌, ◌≤◌, ◌<◌, ◌≡◌, min, not, arith, if◌then◌else◌, Option, none,
}
use relay_gateway.Common.Int.{ℤ, pos, ◌≤ℤ◌}
use relay_gateway.Common.Text.{Text, codes, text_eq, trim_space, to_lower}
use relay_gateway.Polling.Backoff.{
  Backoff, max_i64, millisecond, max_duration_ms, is_positive, base_ms, mode_ms, with_jitter,
  cap_ms, ms_to_duration, parse_retry_after, next_delay_at, saturating_power_of_two_ms,
}
use relay_gateway.Polling.Backoff.Saturation.{saturating_multiply_ms-min, power_loop-min}

ms_to_duration_bounds :
    (m : ℤ)
    → let d = if not (is_positive m) then pos 0 else ms_to_duration m in
      (pos 0 ≤ℤ d) × (d ≤ℤ pos max_i64)
unfolding ms_to_duration
ms_to_duration_bounds m = ground arith

-- Whatever the profile, the attempt, the Retry-After header, the jitter function and the time, the
-- delay is not negative and fits an int64.
pub next_delay_at_bounds :
    (parse_time : Text → Option ℕ) (p : Backoff) (attempt : ℤ) (retry_after : Text) (jitter : ℤ → ℤ)
    (now : ℕ)
    → let d = next_delay_at parse_time p attempt retry_after jitter now in
      (pos 0 ≤ℤ d) × (d ≤ℤ pos max_i64)
unfolding next_delay_at
next_delay_at_bounds parse_time p attempt retry_after jitter now =
    ms_to_duration_bounds (cap_ms p _)

cap_ms_bound :
    (p : Backoff) (limit : ℕ) (delay_ms : ℤ)
    → p.backoff_max_ms ≡ pos limit
    → 0 < limit
    → limit < max_duration_ms
    → let d =
        if not (is_positive (cap_ms p delay_ms))
        then pos 0
        else ms_to_duration (cap_ms p delay_ms) in
      d ≤ℤ pos (limit * millisecond)
unfolding cap_ms ms_to_duration
cap_ms_bound p limit delay_ms e l h = ground arith

-- Where the profile sets a maximum below 2^63 nanoseconds, the delay is at most that many
-- milliseconds, whatever the attempt, the Retry-After header, the jitter function and the time.
pub next_delay_at-le_max :
    (parse_time : Text → Option ℕ) (p : Backoff) (attempt : ℤ) (retry_after : Text) (jitter : ℤ → ℤ)
    (now limit : ℕ)
    → p.backoff_max_ms ≡ pos limit
    → 0 < limit
    → limit < max_duration_ms
    → next_delay_at parse_time p attempt retry_after jitter now ≤ℤ pos (limit * millisecond)
unfolding next_delay_at
next_delay_at-le_max parse_time p attempt retry_after jitter now limit e l h =
    cap_ms_bound p limit _ e l h

-- The backoff in exact arithmetic, for the base `b` and the poll number `n`.
abbrev pub exact_ms : Text → ℕ → ℕ → ℕ
exact_ms mode b n =
    if text_eq mode (codes "linear")
    then b * n
    else if text_eq mode (codes "exponential")
    then b * 2 ^ (n - 1)
    else b

mode_ms-exact :
    (p : Backoff) (b n : ℕ)
    → base_ms p ≡ pos b
    → 0 < b
    → b ≤ max_i64
    → 0 < n
    → mode_ms p n ≡ pos (min (exact_ms (to_lower (trim_space p.backoff_mode)) b n) max_i64)
unfolding mode_ms saturating_power_of_two_ms
mode_ms-exact p b n e l h q =
    let linear = saturating_multiply_ms-min b n l q in
    let exponential = power_loop-min (n - 1) b h in ground (arith, linear, exponential)

with_jitter-zero :
    (p : Backoff) (jitter : ℤ → ℤ) (d : ℤ) → p.jitter_ms ≡ pos 0 → with_jitter p jitter d ≡ d
unfolding with_jitter
with_jitter-zero p jitter d e = ground arith

capped_exact :
    (p : Backoff) (m limit : ℕ)
    → p.backoff_max_ms ≡ pos limit
    → 0 < limit
    → limit < max_duration_ms
    → let capped = cap_ms p (pos (min m max_i64)) in
      (if not (is_positive capped) then pos 0 else ms_to_duration capped)
      ≡ pos (min m limit * millisecond)
unfolding cap_ms ms_to_duration
capped_exact p m limit e l h = ground arith

-- With no usable Retry-After and no jitter, and with a maximum set below 2^63 nanoseconds, the delay
-- after the n-th poll is exactly the smaller of that maximum and the base `b`, the base times `n`
-- (linear) or the base doubled `n - 1` times (exponential), in exact arithmetic, so no doubling or
-- product ever wraps.
pub next_delay_at-exact :
    (parse_time : Text → Option ℕ) (p : Backoff) (retry_after : Text) (jitter : ℤ → ℤ)
    (now b n limit : ℕ)
    → parse_retry_after parse_time retry_after now ≡ none
    → p.jitter_ms ≡ pos 0
    → base_ms p ≡ pos b
    → 0 < b
    → b ≤ max_i64
    → 0 < n
    → p.backoff_max_ms ≡ pos limit
    → 0 < limit
    → limit < max_duration_ms
    → next_delay_at parse_time p (pos n) retry_after jitter now
      ≡ pos (min (exact_ms (to_lower (trim_space p.backoff_mode)) b n) limit * millisecond)
unfolding next_delay_at
next_delay_at-exact parse_time p retry_after jitter now b n limit r j e l h q m k z =
    let mode = to_lower (trim_space p.backoff_mode) in
    let number : (if is_positive (pos n) then n else 1) ≡ n = ground arith in
    rw (r, next_delay_at, number, mode_ms-exact p b n e l h q)
      (rw (with_jitter-zero p jitter _ j) (capped_exact p (exact_ms mode b n) limit m k z))
