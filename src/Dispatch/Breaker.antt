-- ===== src/Dispatch/Breaker.antt =====
-- The circuit breaker of one channel (service/dispatcher.go). A time is a number of nanoseconds
-- since the zero `time.Time`, so 0 is the zero time. `time.Now()` is the argument `now`.
pub mod System
pub mod Invariant
pub mod Cycle
pub mod Cooldown
pub mod Tests
use relay_gateway.Common.Base.{
  ℕ, ◌+◌, ◌-◌, ◌%◌, Bool, true, false, not, ◌&&◌, ◌||◌, Option, none, some, ltb, leb, ◌==◌,
  if◌then◌else◌, u64,
}
use relay_gateway.Common.Text.{Text}

pub record Breaker : Type 0 where
  pub fail_count : ℕ
  pub last_failure : ℕ
  pub cooldown_until : ℕ
  pub half_open : Bool
  pub epoch : ℕ  -- uint64
  pub probe_id : ℕ  -- uint64

pub data Outcome : Type 0 where
  ignored succeeded failed : Outcome

-- `done` is the attempt's `sync.Once`.
pub record Attempt : Type 0 where
  pub channel_id : Text
  pub epoch : ℕ
  pub probe_id : ℕ
  pub done : Bool

abbrev pub minute : ℕ
minute = 60000000000

abbrev pub cooldown : ℕ
cooldown = 30000000000

-- `&breakerState{}`.
unfoldable pub new_breaker : Breaker
new_breaker = record {
  fail_count = 0;
  last_failure = 0;
  cooldown_until = 0;
  half_open = false;
  epoch = 0;
  probe_id = 0;
}

unfoldable pub record_failure : Bool → ℕ → Breaker → Breaker
record_failure failed_probe now st =
    let aged = not (st.last_failure == 0) && ltb minute (now - st.last_failure) in
    let count = (if aged then 0 else st.fail_count) + 1 in
    let counted = record st { fail_count = count; last_failure = now; half_open = false } in
    if failed_probe || leb 3 count
    then record counted { cooldown_until = now + cooldown; epoch = u64 (st.epoch + 1) }
    else counted

-- The body that `finish` runs once.
unfoldable pub settle : Attempt → Outcome → ℕ → Breaker → Breaker
unfolding record_failure
settle a outcome now st =
    let is_probe = not (a.probe_id == 0) in
    let stale =
      not (st.epoch == a.epoch)
      || (is_probe && (not st.half_open || not (st.probe_id == a.probe_id))) in
    if stale then st else elim outcome [
      | succeeded ↦ record st {
        fail_count = 0;
        cooldown_until = 0;
        half_open = false;
        epoch = if is_probe then u64 (st.epoch + 1) else st.epoch;
      }
      | failed ↦ record_failure is_probe now st
      | ignored ↦ if is_probe then record st { half_open = false } else st
    ]

unfoldable pub finish : Attempt → Outcome → ℕ → Breaker → Attempt × Breaker
unfolding settle
finish a outcome now st = (record a { done = true }, if a.done then st else settle a outcome now st)

-- The locked part of `ResetBreaker`.
unfoldable pub reset : Breaker → Breaker
reset st = record st {
  fail_count = 0;
  cooldown_until = 0;
  last_failure = 0;
  half_open = false;
  epoch = u64 (st.epoch + 1);
}

-- The locked part of `candidateAvailable`.
unfoldable pub available : ℕ → Breaker → Bool
available now st =
    if st.cooldown_until == 0
    then true
    else if ltb now st.cooldown_until
    then false
    else not st.half_open

-- The locked part of `tryAcquireChannel`.
unfoldable pub try_acquire : Text → ℕ → Breaker → Option Attempt × Breaker
try_acquire channel_id now st =
    let lease : Attempt = record {
      channel_id = channel_id;
      epoch = st.epoch;
      probe_id = 0;
      done = false;
    } in
    let next = u64 (st.probe_id + 1) in
    if st.cooldown_until == 0
    then (some lease, st)
    else if ltb now st.cooldown_until || st.half_open
    then (none, st)
    else (some (record lease { probe_id = next }), record st { half_open = true; probe_id = next })
