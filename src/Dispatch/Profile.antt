-- ===== src/Dispatch/Profile.antt =====
-- Breaker feedback of profile operations (service/profile_executor.go). The HTTP executor is a parameter;
-- what a moment looks like (the generation of the channel, the context, the clock) is an argument.
pub mod Release
pub mod Tests
use relay_gateway.Common.Base.{
  ℕ, Bool, true, false, not, ◌&&◌, ◌||◌, Option, none, some, List, [], ◌∷◌, leb, ◌==◌,
  if◌then◌else◌,
}
use relay_gateway.Common.Text.{Text, codes, text_eq}
use relay_gateway.Dispatch.Breaker.{
  Breaker, Outcome, ignored, succeeded, failed, Attempt, finish, try_acquire,
}

-- What `errors.Is` and `errors.As` find in an error: `context.Canceled`, and the phase and HTTP status of
-- a `protocol.ExecutorError`.
pub record ProfileFailure : Type 0 where
  pub canceled : Bool
  pub executor : Option (Text × ℕ)

pub record Moment : Type 0 where
  pub generation : ℕ
  pub ctx_done : Bool
  pub now : ℕ

unfoldable pub counts_against : Text → ℕ → Bool
counts_against phase status =
    not (text_eq phase (codes "write"))
    && (text_eq phase (codes "read")
        || (status == 0 || (status == 408 || (status == 429 || leb 500 status))))

abbrev pub failure_outcome : Option (Text × ℕ) → Outcome
failure_outcome none = ignored
failure_outcome (some (phase, status)) = if counts_against phase status then failed else ignored

abbrev pub is_canceled : Option ProfileFailure → Bool
is_canceled none = false
is_canceled (some e) = e.canceled

abbrev pub error_outcome : Option ProfileFailure → Outcome
error_outcome none = succeeded
error_outcome (some e) = failure_outcome e.executor

-- The outcome that the function of `beginProfileAttempt` reports.
unfoldable pub profile_outcome : ℕ → Moment → Option ProfileFailure → Outcome
profile_outcome generation m err =
    if not (generation == m.generation) || (m.ctx_done || is_canceled err)
    then ignored
    else error_outcome err

-- What an operation holds while it runs.
pub record ProfileAttempt : Type 0 where
  pub generation : ℕ
  pub attempt : Attempt

pub data ProfileError : Type 0 where
  context_done channel_unavailable : ProfileError

pub data Begun : Type 0 where
  began : ProfileAttempt → Begun
  not_begun : ProfileError → Begun

abbrev pub with_lease : ℕ → Option Attempt × Breaker → Begun × Breaker
with_lease generation (none, st) = (not_begun channel_unavailable, st)
with_lease generation (some a, st) = (began (record { generation = generation; attempt = a }), st)

unfoldable pub begin_profile_attempt : Text → Moment → Breaker → Begun × Breaker
begin_profile_attempt id m st =
    if m.ctx_done
    then (not_begun context_done, st)
    else with_lease m.generation (try_acquire id m.now st)

unfoldable pub finish_profile :
    ProfileAttempt → Moment → Option ProfileFailure → Breaker → ProfileAttempt × Breaker
finish_profile p m err st =
    let (a, st') = finish p.attempt (profile_outcome p.generation m err) m.now st in
    (record p { attempt = a }, st')

-- `Submit`, `PollOnce` and `ExecuteRaw`: the operation ends with `err` at the moment `end`.
unfoldable pub execute_profile :
    Text → Moment → Moment → Option ProfileFailure → Breaker → Begun × Breaker
execute_profile id m end_ err st =
    let (begun, st') = begin_profile_attempt id m st in
    elim begun [
      | not_begun e ↦ (not_begun e, st')
      | began p ↦ let (p', st'') = finish_profile p end_ err st' in (began p', st'')
    ]

-- What `HTTPExecutor.FetchContent` gives: an error, no body, or a body.
pub data Fetched : Type 0 where
  fetch_failed : ProfileFailure → Fetched
  no_body with_body : Fetched

abbrev pub after_fetch : ProfileAttempt → Moment → Fetched → Breaker → ProfileAttempt × Breaker
after_fetch p m (fetch_failed e) st = finish_profile p m (some e) st
after_fetch p m no_body st = finish_profile p m none st
after_fetch p m with_body st = (p, st)

-- `FetchContent`; an attempt that is not finished goes into the body.
unfoldable pub fetch_content : Text → Moment → Moment → Fetched → Breaker → Begun × Breaker
fetch_content id m end_ r st =
    let (begun, st') = begin_profile_attempt id m st in
    elim begun [
      | not_begun e ↦ (not_begun e, st')
      | began p ↦ let (p', st'') = after_fetch p end_ r st' in (began p', st'')
    ]

-- What a read of the content gives: some bytes, the end, or an error.
pub data ReadResult : Type 0 where
  more_bytes end_of_file read_error : ReadResult

-- `profileContentBody.Read`.
unfoldable pub read_body : ProfileAttempt → Moment → ReadResult → Breaker → ProfileAttempt × Breaker
read_body p m more_bytes st = (p, st)
read_body p m end_of_file st = finish_profile p m none st
read_body p m read_error st =
    finish_profile p m (some (record { canceled = false; executor = some (codes "read", 0) })) st

-- `profileContentBody.Close`.
unfoldable pub close_body : ProfileAttempt → Moment → Breaker → ProfileAttempt × Breaker
close_body p m st = finish_profile p m (some (record { canceled = true; executor = none })) st

-- The reads of a body, and its close.
unfoldable pub consume_body :
    ProfileAttempt → List (Moment × ReadResult) → Moment → Breaker → ProfileAttempt × Breaker
consume_body p [] last st = close_body p last st
consume_body p ((m, r) ∷ reads) last st =
    let (p', st') = read_body p m r st in consume_body p' reads last st'
