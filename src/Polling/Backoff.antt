-- ===== src/Polling/Backoff.antt =====
-- The delay before the next poll (protocol/async.go, `nextDelayAt` and its helpers). Milliseconds and
-- durations are int64, kept as integers; a duration counts nanoseconds.
pub mod Saturation
pub mod Delay
pub mod Tests
use relay_gateway.Common.Base.{
  ℕ, zero, suc, ◌+◌, ◌-◌, ◌*◌, ◌/◌, Bool, true, false, not, ◌&&◌, ◌||◌, Option, none, some, List,
  [], ◌∷◌, ltb, leb, ◌==◌, if◌then◌else◌,
}
use relay_gateway.Common.Int.{ℤ, pos, negsuc, pos_part, neg_part, ◌+ℤ◌, ◌-ℤ◌, ltb_ℤ}
use relay_gateway.Common.Text.{Text, codes, text_eq, is_empty, trim_space, to_lower}

-- `1<<63 - 1`.
abbrev pub max_i64 : ℕ
max_i64 = 9223372036854775807

abbrev pub millisecond : ℕ
millisecond = 1000000

abbrev pub second : ℕ
second = 1000000000

abbrev pub max_duration_ms : ℕ
max_duration_ms = max_i64 / millisecond

-- The fields of `Poll` that the delay reads.
pub record Backoff : Type 0 where
  pub interval_ms : ℤ
  pub backoff_mode : Text
  pub backoff_base_ms : ℤ
  pub backoff_max_ms : ℤ
  pub jitter_ms : ℤ

abbrev pub is_positive : ℤ → Bool
is_positive z = ltb_ℤ (pos 0) z

unfoldable pub ms_to_duration : ℤ → ℤ
ms_to_duration milliseconds =
    if not (is_positive milliseconds)
    then pos 0
    else if leb max_duration_ms (pos_part milliseconds)
    then pos max_i64
    else pos (pos_part milliseconds * millisecond)

unfoldable pub duration_to_ms : ℤ → ℤ
duration_to_ms duration =
    if not (is_positive duration) then pos 0 else pos (pos_part duration / millisecond)

unfoldable pub saturating_add : ℤ → ℤ → ℤ
saturating_add a b =
    if is_positive b && ltb_ℤ (pos max_i64 -ℤ b) a
    then pos max_i64
    else if ltb_ℤ b (pos 0) && ltb_ℤ a (negsuc max_i64 -ℤ b)
    then negsuc max_i64
    else a +ℤ b

unfoldable pub saturating_multiply_ms : ℤ → ℤ → ℤ
saturating_multiply_ms value multiplier =
    if not (is_positive value) || not (is_positive multiplier)
    then pos 0
    else if ltb (max_i64 / pos_part multiplier) (pos_part value)
    then pos max_i64
    else pos (pos_part value * pos_part multiplier)

-- The loop of `saturatingPowerOfTwoMS` over the rounds left.
unfoldable pub power_loop : ℕ → ℕ → ℕ
power_loop zero value = value
power_loop (suc rounds) value =
    let rest = power_loop rounds (value * 2) in if ltb (max_i64 / 2) value then max_i64 else rest

unfoldable pub saturating_power_of_two_ms : ℤ → ℕ → ℤ
unfolding power_loop
saturating_power_of_two_ms value exponent =
    if not (is_positive value) then pos 0 else pos (power_loop exponent (pos_part value))

abbrev is_digit : ℕ → Bool
is_digit c = leb b'0' c && leb c b'9'

-- The value of a run of decimal digits; `none` on any other byte.
unfoldable pub digits_value : ℕ → Text → Option ℕ
digits_value acc [] = some acc
digits_value acc (c ∷ s) =
    let rest = digits_value (acc * 10 + (c - b'0')) s in if is_digit c then rest else none

unsigned : Text → Option ℕ
unfolding digits_value
unsigned [] = none
unsigned (c ∷ s) = digits_value 0 (c ∷ s)

-- `strconv.ParseInt(raw, 10, 64)`, where it gives a value that is not negative.
unfoldable pub parse_seconds : Text → Option ℕ
unfolding unsigned
parse_seconds [] = none
parse_seconds (c ∷ s) =
    let value = if c == b'+' || c == b'-' then unsigned s else unsigned (c ∷ s) in
    elim value [
      | none ↦ none
      | some n ↦
          if c == b'-'
          then (if n == 0 then some 0 else none)
          else if leb n max_i64
          then some n
          else none
    ]

-- `http.ParseTime` is the parameter `parse_time`, to nanoseconds since the zero time.
-- `now` is the caller's time, which is not the zero time.
unfoldable pub parse_retry_after : (Text → Option ℕ) → Text → ℕ → Option ℤ
unfolding parse_seconds
parse_retry_after parse_time raw now =
    let trimmed = trim_space raw in
    if is_empty trimmed then none else elim (parse_seconds trimmed) [
      | some seconds ↦
          some (if leb (max_i64 / second) seconds then pos max_i64 else pos (seconds * second))
      | none ↦ elim (parse_time trimmed) [
        | none ↦ none
        | some when ↦ some (
            if not (ltb now when)
            then pos 0
            else if ltb max_i64 (when - now)
            then pos max_i64
            else pos (when - now))
      ]
    ]

unfoldable pub base_ms : Backoff → ℤ
base_ms p =
    if not (is_positive p.backoff_base_ms) && not (ltb_ℤ p.backoff_base_ms (pos 0))
    then p.interval_ms
    else p.backoff_base_ms

-- The switch on the mode, for the poll number `attempt`, which is at least 1.
unfoldable pub mode_ms : Backoff → ℕ → ℤ
unfolding base_ms saturating_multiply_ms saturating_power_of_two_ms
mode_ms p attempt =
    let mode = to_lower (trim_space p.backoff_mode) in
    if text_eq mode (codes "linear")
    then saturating_multiply_ms (base_ms p) (pos attempt)
    else if text_eq mode (codes "exponential")
    then saturating_power_of_two_ms (base_ms p) (attempt - 1)
    else base_ms p

-- `jitter` stands for the injected function, and for the random choice where none is given.
unfoldable pub with_jitter : Backoff → (ℤ → ℤ) → ℤ → ℤ
unfolding ms_to_duration duration_to_ms saturating_add
with_jitter p jitter delay_ms =
    if is_positive p.jitter_ms
    then (let max_jitter = ms_to_duration p.jitter_ms in
        let extra = jitter max_jitter in
        let floored = if ltb_ℤ extra (pos 0) then pos 0 else extra in
        let clamped = if ltb_ℤ max_jitter floored then max_jitter else floored in
        duration_to_ms (saturating_add (ms_to_duration delay_ms) clamped))
    else delay_ms

unfoldable pub cap_ms : Backoff → ℤ → ℤ
cap_ms p delay_ms =
    if is_positive p.backoff_max_ms && ltb_ℤ p.backoff_max_ms delay_ms
    then p.backoff_max_ms
    else delay_ms

unfoldable pub next_delay_at : (Text → Option ℕ) → Backoff → ℤ → Text → (ℤ → ℤ) → ℕ → ℤ
next_delay_at parse_time p attempt retry_after jitter now =
    let number = if is_positive attempt then pos_part attempt else 1 in
    let delay_ms : ℤ = elim (parse_retry_after parse_time retry_after now) [
      | some retry ↦ duration_to_ms retry
      | none ↦ mode_ms p number
    ] in
    let capped = cap_ms p (with_jitter p jitter delay_ms) in
    if not (is_positive capped) then pos 0 else ms_to_duration capped
