-- ===== src/Dispatch/Breaker/Cycle.antt =====
-- What the leases of a breaker can do, over every history of calls (service/dispatcher.go).
use relay_gateway.Common.Base.{
  ℕ, zero, suc, ◌<◌, ◌≡◌, ◌≢◌, ◌⊎◌, inl, inr, false, some, if◌then◌else◌, List, [], ◌∷◌, arith,
}
use relay_gateway.Common.Lists.{length, get_elem?}
use relay_gateway.Dispatch.Breaker.{Breaker, Outcome, Attempt, finish}
use relay_gateway.Dispatch.Breaker.System.{Event, run, start}
use relay_gateway.Dispatch.Breaker.Invariant.{
  limit, live, live_count, LeaseOk, AllOk, run-Inv, start-Inv,
}

-- After any history of fewer than 2^64 calls, the half-open slot of a breaker is taken exactly when
-- one unfinished lease can still settle it, and no two leases ever can.
pub half_open-live_count :
    (es : List Event)
    → length es < limit
    → let s = run start es in live_count s.breaker s.leases ≡ (if s.breaker.half_open then 1 else 0)
half_open-live_count es h = (run-Inv 0 start es (omega arith) start-Inv).slot

AllOk-get_elem? :
    (st : Breaker) (ls : List Attempt) (i : ℕ) {a : Attempt}
    → AllOk st ls
    → get_elem? ls i ≡ some a
    → LeaseOk st a
AllOk-get_elem? st [] i hs e = cc
AllOk-get_elem? st (b ∷ ls) zero hs e = ground (arith, hs.0)
AllOk-get_elem? st (b ∷ ls) (suc i) hs e = AllOk-get_elem? st ls i hs.1 e

finish-open :
    (st : Breaker) (a : Attempt) (o : Outcome) (now : ℕ)
    → LeaseOk st a
    → st.cooldown_until ≢ 0
    → live st a ≡ false
    → (finish a o now st).1 ≡ st
unfolding finish
finish-open st a o now ok opened dead = ground arith

finish-older :
    (st : Breaker) (a : Attempt) (o : Outcome) (now : ℕ)
    → a.epoch ≢ st.epoch
    → (finish a o now st).1 ≡ st
unfolding finish
finish-older st a o now older = ground arith

-- After any history of fewer than 2^64 calls, finishing a lease that was handed out changes nothing
-- in the breaker, whatever the outcome and the time, if the lease is of another cycle than the
-- current one, or if the circuit is open and the lease does not own the half-open probe.
pub finish-stale :
    (es : List Event) (i : ℕ) (a : Attempt) (o : Outcome) (now : ℕ)
    → length es < limit
    → get_elem? (run start es).leases i ≡ some a
    → (a.epoch ≢ (run start es).breaker.epoch)
      ⊎ (((run start es).breaker.cooldown_until ≢ 0) × (live (run start es).breaker a ≡ false))
    → (finish a o now (run start es).breaker).1 ≡ (run start es).breaker
finish-stale es i a o now h e (inl older) = finish-older _ a o now older
finish-stale es i a o now h e (inr (opened, dead)) =
    let v = run-Inv 0 start es (omega arith) start-Inv in
    finish-open _ a o now (AllOk-get_elem? _ _ i v.leases_ok e) opened dead
