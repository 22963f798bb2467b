-- ===== src/Dispatch/Breaker/Cooldown.antt =====
-- When a circuit opens, and how it closes again (service/dispatcher.go, `recordFailureLocked`,
-- `candidateAvailable`, `tryAcquireChannel`, `finish`).
use relay_gateway.Common.Base.{
  ℕ, ◌+◌, ◌≤◌, ◌<◌, ◌≡◌, ◌≢◌, leb, Bool, true, false, Option, none, some, arith,
}
use relay_gateway.Common.Text.{Text}
use relay_gateway.Dispatch.Breaker.{
  Breaker, ignored, succeeded, failed, Attempt, minute, cooldown, finish, available, try_acquire,
}
use relay_gateway.Dispatch.Breaker.Invariant.{live}

abbrev pub is_some {ℓ} : {A : Type ℓ} → Option A → Bool
is_some none = false
is_some (some _) = true

-- The read-only check answers as an attempt to take a lease would, at every time and in every state.
pub available-try_acquire :
    (channel_id : Text) (now : ℕ) (st : Breaker)
    → available now st ≡ is_some (try_acquire channel_id now st).0
unfolding available try_acquire
available-try_acquire channel_id now st = ground arith

-- An unfinished lease of the current cycle that is not a probe.
pub record IsOrdinary (a : Attempt) (epoch : ℕ) : Type 0 where
  pub current : a.epoch ≡ epoch
  pub plain : a.probe_id ≡ 0
  pub open_lease : a.done ≡ false

-- A failure that is not the third counts one more, and nothing else changes.
failure_counts :
    (st : Breaker) (a : Attempt) (now : ℕ)
    → IsOrdinary a st.epoch
    → st.fail_count < 2
    → (st.fail_count ≢ 0 → now ≤ st.last_failure + minute)
    → (finish a failed now st).1
      ≡ record st { fail_count = st.fail_count + 1; last_failure = now; half_open = false }
unfolding finish
failure_counts st a now ha hf fresh = ground arith

third_failure :
    (st : Breaker) (a : Attempt) (t now : ℕ)
    → IsOrdinary a st.epoch
    → st.fail_count ≡ 2
    → t ≤ st.last_failure + minute
    → now < t + cooldown
    → let s = (finish a failed t st).1 in (available now s ≡ false) × (s.epoch ≢ st.epoch)
unfolding finish available
third_failure st a t now ha hf fresh hn = ground arith

-- With no failure counted, three ordinary leases of the current cycle that fail, each at most a minute after the one
-- before, make the channel unavailable for 30 seconds from the third failure, and start a new cycle.
pub three_failures :
    (st : Breaker) (a b c : Attempt) (t₁ t₂ t₃ now : ℕ)
    → IsOrdinary a st.epoch
    → IsOrdinary b st.epoch
    → IsOrdinary c st.epoch
    → st.fail_count ≡ 0
    → t₂ ≤ t₁ + minute
    → t₃ ≤ t₂ + minute
    → now < t₃ + cooldown
    → let s = (finish c failed t₃ (finish b failed t₂ (finish a failed t₁ st).1).1).1 in
      (available now s ≡ false) × (s.epoch ≢ st.epoch)
three_failures st a b c t₁ t₂ t₃ now ha hb hc z h₂ h₃ hn =
    let one = record st { fail_count = st.fail_count + 1; last_failure = t₁; half_open = false } in
    let two = record st {
      fail_count = st.fail_count + 1 + 1;
      last_failure = t₂;
      half_open = false;
    } in
    rw (failure_counts st a t₁ ha (omega arith) (λ nz. absurd (nz z))) (
      rw (failure_counts one b t₂ hb (omega arith) (λ _. h₂))
        (third_failure two c t₃ now hc (omega arith) h₃ hn))

-- One failure of an ordinary lease opens a closed circuit only as the third counted: below that it
-- stays available at every time and keeps its cycle, and the count is one more, or one if the last
-- failure is over a minute old.
pub failure_below_limit :
    (st : Breaker) (a : Attempt) (now later : ℕ)
    → st.cooldown_until ≡ 0
    → IsOrdinary a st.epoch
    → st.fail_count < 2
    → let s = (finish a failed now st).1 in
      (available later s ≡ true)
      × (s.epoch ≡ st.epoch)
      × (s.fail_count ≤ st.fail_count + 1)
      × (1 ≤ s.fail_count)
unfolding finish available
failure_below_limit st a now later h ha hf = ground arith

-- A success of an ordinary lease forgets the failures before it.
pub success_forgets :
    (st : Breaker) (a : Attempt) (now : ℕ)
    → IsOrdinary a st.epoch
    → (finish a succeeded now st).1.fail_count ≡ 0
unfolding finish
success_forgets st a now ha = ground arith

-- The outcome of the probe that owns the slot decides, and every outcome gives the slot back. After a
-- success the failures are forgotten, a new cycle starts and the channel is available at every time.
-- After a failure a new cycle starts, and the channel is available exactly when 30 seconds have
-- passed. An ignored probe leaves the failures, the cooldown and the cycle as they were.
pub probe_settles :
    (st : Breaker) (a : Attempt) (now later : ℕ)
    → live st a ≡ true
    → let s = (finish a succeeded now st).1 in
      let f = (finish a failed now st).1 in
      ((s.fail_count ≡ 0)
        × (s.half_open ≡ false)
        × (s.epoch ≢ st.epoch)
        × (available later s ≡ true))
      × ((f.half_open ≡ false)
          × (f.epoch ≢ st.epoch)
          × (available later f ≡ leb (now + cooldown) later))
      × ((finish a ignored now st).1 ≡ record st { half_open = false })
unfolding finish available
probe_settles st a now later own = ground arith
