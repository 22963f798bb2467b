-- ===== src/Dispatch/Profile/Release.antt =====
-- A profile operation gives its lease back (service/profile_executor.go).
use relay_gateway.Common.Base.{◌≡◌, refl, ◌⊎◌, inl, inr, true, false, Option, List, [], ◌∷◌, arith}
use relay_gateway.Dispatch.Breaker.{Breaker, finish, settle}
use relay_gateway.Dispatch.Breaker.Invariant.{live}
use relay_gateway.Dispatch.Profile.{
  Moment, ProfileAttempt, ProfileFailure, profile_outcome, finish_profile, ReadResult, more_bytes,
  end_of_file, read_error, read_body, close_body, consume_body,
}

-- The lease is finished, and the half-open slot that it held is free.
record Released (p : ProfileAttempt) (st : Breaker) : Type 0 where
  pub ended : p.attempt.done ≡ true
  pub free : st.half_open ≡ false

-- A lease that is finished changes nothing more.
ended_finish :
    (p : ProfileAttempt) (m : Moment) (err : Option ProfileFailure) (st : Breaker)
    → Released p st
    → Released (finish_profile p m err st).0 (finish_profile p m err st).1
unfolding finish_profile finish
ended_finish p m err st r = record { ended = refl; free = rw r.ended r.free }

-- The owner of the half-open slot frees it, whatever it reports.
live_finish :
    (p : ProfileAttempt) (m : Moment) (err : Option ProfileFailure) (st : Breaker)
    → live st p.attempt ≡ true
    → Released (finish_profile p m err st).0 (finish_profile p m err st).1
unfolding finish_profile finish settle
live_finish p m err st l = record { ended = refl; free = ground arith }

-- One read leaves the slot to its owner, or the lease has ended.
abbrev Held : ProfileAttempt → Breaker → Type 0
Held p st = (live st p.attempt ≡ true) ⊎ Released p st

finish-Released :
    (p : ProfileAttempt) (m : Moment) (err : Option ProfileFailure) (st : Breaker)
    → Held p st
    → Released (finish_profile p m err st).0 (finish_profile p m err st).1
finish-Released p m err st (inl l) = live_finish p m err st l
finish-Released p m err st (inr r) = ended_finish p m err st r

read_body-Held :
    (p : ProfileAttempt) (m : Moment) (r : ReadResult) (st : Breaker)
    → Held p st
    → Held (read_body p m r st).0 (read_body p m r st).1
unfolding read_body
read_body-Held p m more_bytes st h = h
read_body-Held p m end_of_file st h = inr (finish-Released p m _ st h)
read_body-Held p m read_error st h = inr (finish-Released p m _ st h)

consume_body-Released :
    (p : ProfileAttempt) (reads : List (Moment × ReadResult)) (last : Moment) (st : Breaker)
    → Held p st
    → Released (consume_body p reads last st).0 (consume_body p reads last st).1
unfolding consume_body close_body
consume_body-Released p [] last st h = finish-Released p last _ st h
consume_body-Released p ((m, r) ∷ reads) last st h =
    consume_body-Released (read_body p m r st).0 reads last (read_body p m r st).1
      (read_body-Held p m r st h)

-- Content that was opened as the probe of a half-open breaker always gives the slot back by the time its
-- body is closed, whatever its reads gave, whether the client left or the channel was saved meanwhile.
pub body_gives_back :
    (p : ProfileAttempt) (reads : List (Moment × ReadResult)) (last : Moment) (st : Breaker)
    → live st p.attempt ≡ true
    → let (p', st') = consume_body p reads last st in
      (p'.attempt.done ≡ true) × (st'.half_open ≡ false)
body_gives_back p reads last st l =
    let r = consume_body-Released p reads last st (inl l) in (r.ended, r.free)

-- The health that a breaker remembers.
abbrev pub SameHealth : Breaker → Breaker → Type 0
SameHealth st st' =
    (st'.fail_count ≡ st.fail_count)
    × (st'.last_failure ≡ st.last_failure)
    × (st'.cooldown_until ≡ st.cooldown_until)
    × (st'.epoch ≡ st.epoch)

-- Reads before the end.
abbrev pub AllMore : List (Moment × ReadResult) → Type 0
AllMore [] = Unit {0}
AllMore ((m, r) ∷ reads) = (r ≡ more_bytes) × AllMore reads

ignored-SameHealth :
    (p : ProfileAttempt) (last : Moment) (st : Breaker) → SameHealth st (close_body p last st).1
unfolding close_body finish_profile finish settle profile_outcome
ignored-SameHealth p last st = ground arith

-- A body that is closed before its end does not count for or against the channel.
pub abandoned-SameHealth :
    (p : ProfileAttempt) (reads : List (Moment × ReadResult)) (last : Moment) (st : Breaker)
    → AllMore reads
    → SameHealth st (consume_body p reads last st).1
unfolding consume_body read_body
abandoned-SameHealth p [] last st a = ignored-SameHealth p last st
abandoned-SameHealth p ((m, r) ∷ reads) last st a =
    rw a.0 (abandoned-SameHealth p reads last st a.1)
