-- ===== src/Dispatch/Profile/Tests.antt =====
-- Profile operations at concrete inputs (service/profile_executor.go).
use relay_gateway.Common.Base.{ℕ, ◌≡◌, refl, true, false, Option, some, [], ◌∷◌}
use relay_gateway.Common.Text.{codes, text_eq}
use relay_gateway.Dispatch.Breaker.{Breaker, finish, try_acquire, settle, record_failure}
use relay_gateway.Dispatch.Profile.{
  Moment, ProfileAttempt, ProfileFailure, more_bytes, read_error, consume_body, execute_profile,
  begin_profile_attempt, finish_profile, profile_outcome, counts_against,
}
use relay_gateway.Dispatch.Profile.Release.{body_gives_back, SameHealth, abandoned-SameHealth}

abbrev probing : Breaker
probing = record {
  fail_count = 3;
  last_failure = 1000;
  cooldown_until = 30000001000;
  half_open = true;
  epoch = 1;
  probe_id = 1;
}

abbrev probe : ProfileAttempt
probe = record {
  generation = 4;
  attempt = record { channel_id = codes "c"; epoch = 1; probe_id = 1; done = false };
}

abbrev moment : ℕ → Moment
moment now = record { generation = 4; ctx_done = false; now = now }

body_gives_back_example :
    let (p', st') =
      consume_body probe
        ((moment 40000000000, more_bytes) ∷ (moment 40000000001, read_error) ∷ [])
        (moment 40000000002)
        probing in
    (p'.attempt.done ≡ true) × (st'.half_open ≡ false)
body_gives_back_example =
    body_gives_back probe ((moment 40000000000, more_bytes) ∷ (moment 40000000001, read_error) ∷ [])
      (moment 40000000002) probing refl

abandoned-SameHealth_example :
    SameHealth probing
      (consume_body probe ((moment 40000000000, more_bytes) ∷ []) (moment 40000000002) probing).1
abandoned-SameHealth_example =
    abandoned-SameHealth probe ((moment 40000000000, more_bytes) ∷ []) (moment 40000000002) probing
      (refl, tt)

abbrev server_error : Option ProfileFailure
server_error = some (record { canceled = false; executor = some (codes "status", 503) })

-- A channel that was saved during the operation does not get its failure.
saved_meanwhile :
    (execute_profile
      (codes "c")
      (moment 1000)
      (record (moment 2000) { generation = 5 })
      server_error
      (record probing { cooldown_until = 0; half_open = false })).1.fail_count
    ≡ 3
unfolding execute_profile begin_profile_attempt finish_profile try_acquire finish settle
    profile_outcome
saved_meanwhile = refl

counted :
    (execute_profile
      (codes "c")
      (moment 1000)
      (moment 2000)
      server_error
      (record probing { cooldown_until = 0; half_open = false })).1.fail_count
    ≡ 4
unfolding execute_profile begin_profile_attempt finish_profile try_acquire finish settle
    profile_outcome counts_against text_eq record_failure
counted = refl
