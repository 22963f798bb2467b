-- ===== src/Dispatch/Breaker/Tests.antt =====
-- Runs of the breaker, and the theorems about it at concrete inputs.
use relay_gateway.Common.Base.{◌+◌, ◌≡◌, ◌≢◌, refl, true, false, inl, leb, List, [], ◌∷◌, arith}
use relay_gateway.Common.Text.{Text, codes}
use relay_gateway.Dispatch.Breaker.{
  Breaker, Attempt, cooldown, ignored, succeeded, failed, new_breaker, finish, available,
  try_acquire,
}
use relay_gateway.Dispatch.Breaker.System.{
  Event, acquires, finishes, step, run, start, add_lease, finish_at,
}
use relay_gateway.Dispatch.Breaker.Cycle.{half_open-live_count, finish-stale}
use relay_gateway.Dispatch.Breaker.Invariant.{live_count}
use relay_gateway.Dispatch.Breaker.Cooldown.{IsOrdinary, three_failures, probe_settles}

abbrev channel : Text
channel = codes "c1"

abbrev lease : Attempt
lease = record { channel_id = channel; epoch = 0; probe_id = 0; done = false }

-- Three failures at once, a probe after the cooldown, and a late success of an older lease.
abbrev history : List Event
history =
    acquires channel 1000
    ∷ acquires channel 1000
    ∷ acquires channel 1000
    ∷ acquires channel 1000
    ∷ finishes 0 failed 2000
    ∷ finishes 1 failed 3000
    ∷ finishes 2 failed 4000
    ∷ acquires channel 40000000000
    ∷ []

opened : (run start history).breaker.half_open ≡ true
unfolding run step start new_breaker add_lease finish_at finish try_acquire
opened = refl

half_open-live_count_example : live_count (run start history).breaker (run start history).leases ≡ 1
unfolding run step start new_breaker add_lease finish_at finish try_acquire
half_open-live_count_example = half_open-live_count history (omega arith)

-- The success of a lease of the first cycle comes after the circuit has opened.
finish-stale_example :
    (finish lease succeeded 50000000000 (run start history).breaker).1 ≡ (run start history).breaker
unfolding run step start new_breaker add_lease finish_at finish try_acquire
finish-stale_example =
    finish-stale history 4 lease succeeded 50000000000 (omega arith) refl (inl (λ e. omega arith))

ordinary : IsOrdinary lease 0
ordinary = record { current = refl; plain = refl; open_lease = refl }

three_failures_example :
    let s =
      (finish lease failed 4000
        (finish lease failed 3000 (finish lease failed 2000 new_breaker).1).1).1 in
    (available 20000000000 s ≡ false) × (s.epoch ≢ new_breaker.epoch)
unfolding new_breaker
three_failures_example =
    three_failures new_breaker lease lease lease 2000 3000 4000 20000000000 ordinary ordinary
      ordinary refl (omega arith) (omega arith) (omega arith)

abbrev tripping : List Event
tripping =
    acquires channel 1000
    ∷ acquires channel 1000
    ∷ acquires channel 1000
    ∷ finishes 0 failed 2000
    ∷ finishes 1 failed 3000
    ∷ finishes 2 failed 4000
    ∷ []

abbrev probe : Attempt
probe = record { channel_id = channel; epoch = 1; probe_id = 1; done = false }

abbrev probing : Breaker
probing = record {
  fail_count = 3;
  last_failure = 4000;
  cooldown_until = 30000004000;
  half_open = true;
  epoch = 1;
  probe_id = 1;
}

probe_settles_example :
    let s = (finish probe succeeded 35000000000 probing).1 in
    let f = (finish probe failed 35000000000 probing).1 in
    ((s.fail_count ≡ 0)
      × (s.half_open ≡ false)
      × (s.epoch ≢ probing.epoch)
      × (available 40000000000 s ≡ true))
    × ((f.half_open ≡ false)
        × (f.epoch ≢ probing.epoch)
        × (available 40000000000 f ≡ leb (35000000000 + cooldown) 40000000000))
    × ((finish probe ignored 35000000000 probing).1 ≡ record probing { half_open = false })
probe_settles_example = probe_settles probing probe 35000000000 40000000000 refl
