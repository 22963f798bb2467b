-- ===== src/Dispatch/Breaker/Invariant.antt =====
-- The invariant of a breaker and its leases (service/dispatcher.go, `channelAttempt`).
use relay_gateway.Common.Base.{
  ℕ, zero, suc, ◌==◌, ◌&&◌, not, if◌then◌else◌, ◌+◌, ◌∙◌, subst, ◌≤◌, ◌<◌, ◌≡◌, refl, ◌⊎◌, inl, inr,
  Bool, true, false, List, [], ◌∷◌, arith, u64,
}
use relay_gateway.Common.Lists.{length}
use relay_gateway.Common.Text.{Text}
use relay_gateway.Dispatch.Breaker.{
  Breaker, Outcome, Attempt, new_breaker, finish, reset, try_acquire,
}
use relay_gateway.Dispatch.Breaker.System.{
  Sys, Event, acquires, finishes, resets, add_lease, finish_at, step, run, start,
}

-- The leases that may still settle the half-open slot.
abbrev pub live : Breaker → Attempt → Bool
live st a =
    not a.done
    && (st.half_open
        && (not (a.probe_id == 0) && (a.probe_id == st.probe_id && a.epoch == st.epoch)))

abbrev pub live_count : Breaker → List Attempt → ℕ
live_count st [] = 0
live_count st (a ∷ ls) = (if live st a then 1 else 0) + live_count st ls

abbrev pub limit : ℕ
limit = 18446744073709551616

-- `n` bounds the number of calls so far.
pub record BreakerOk (n : ℕ) (st : Breaker) : Type 0 where
  pub epoch_small : st.epoch ≤ n
  pub probe_small : st.probe_id ≤ n
  pub closed_not_probed : st.cooldown_until ≡ 0 → st.half_open ≡ false

-- An ordinary lease of the current cycle exists only while the circuit is closed.
pub record LeaseOk (st : Breaker) (a : Attempt) : Type 0 where
  pub epoch_le : a.epoch ≤ st.epoch
  pub probe_le : a.probe_id ≤ st.probe_id
  pub ordinary : a.probe_id ≡ 0 → a.epoch ≡ st.epoch → st.cooldown_until ≡ 0

abbrev pub AllOk : Breaker → List Attempt → Type 0
AllOk st [] = Unit {0}
AllOk st (a ∷ ls) = LeaseOk st a × AllOk st ls

pub record Inv (n : ℕ) (s : Sys) : Type 0 where
  pub breaker_ok : BreakerOk n s.breaker
  pub leases_ok : AllOk s.breaker s.leases
  pub slot : live_count s.breaker s.leases ≡ (if s.breaker.half_open then 1 else 0)

finish-BreakerOk :
    (n : ℕ) (a : Attempt) (o : Outcome) (now : ℕ) (st : Breaker)
    → suc n < limit
    → BreakerOk n st
    → BreakerOk (suc n) (finish a o now st).1
unfolding finish
finish-BreakerOk n a o now st h b = ground arith

-- Finishing one lease keeps what is known of any other.
finish-LeaseOk :
    (n : ℕ) (a : Attempt) (o : Outcome) (now : ℕ) (st : Breaker) (b : Attempt)
    → suc n < limit
    → BreakerOk n st
    → LeaseOk st a
    → LeaseOk st b
    → LeaseOk (finish a o now st).1 b
unfolding finish
finish-LeaseOk n a o now st b h ok ha hb = ground arith

-- Either nothing happened and the lease was not live, or the slot is free.
finish_cases :
    (a : Attempt) (o : Outcome) (now : ℕ) (st : Breaker)
    → (st.cooldown_until ≡ 0 → st.half_open ≡ false)
    → LeaseOk st a
    → (((finish a o now st).1 ≡ st) × (live st a ≡ false))
      ⊎ ((finish a o now st).1.half_open ≡ false)
unfolding finish
finish_cases a o now st c ha = ground arith

finish-AllOk :
    (n : ℕ) (a : Attempt) (o : Outcome) (now : ℕ) (st : Breaker) (ls : List Attempt)
    → suc n < limit
    → BreakerOk n st
    → LeaseOk st a
    → AllOk st ls
    → AllOk (finish a o now st).1 ls
finish-AllOk n a o now st [] h ok ha hs = tt
finish-AllOk n a o now st (b ∷ ls) h ok ha hs =
    (finish-LeaseOk n a o now st b h ok ha hs.0, finish-AllOk n a o now st ls h ok ha hs.1)

finish_at-BreakerOk :
    (n i : ℕ) (o : Outcome) (now : ℕ) (ls : List Attempt) (st : Breaker)
    → suc n < limit
    → BreakerOk n st
    → BreakerOk (suc n) (finish_at i o now ls st).1
unfolding finish_at
finish_at-BreakerOk n i o now [] st h b = ground arith
finish_at-BreakerOk n zero o now (a ∷ ls) st h b = finish-BreakerOk n a o now st h b
finish_at-BreakerOk n (suc i) o now (a ∷ ls) st h b = finish_at-BreakerOk n i o now ls st h b

finish_at-LeaseOk :
    (n i : ℕ) (o : Outcome) (now : ℕ) (ls : List Attempt) (st : Breaker) (b : Attempt)
    → suc n < limit
    → BreakerOk n st
    → AllOk st ls
    → LeaseOk st b
    → LeaseOk (finish_at i o now ls st).1 b
unfolding finish_at
finish_at-LeaseOk n i o now [] st b h ok hs hb = hb
finish_at-LeaseOk n zero o now (a ∷ ls) st b h ok hs hb = finish-LeaseOk n a o now st b h ok hs.0 hb
finish_at-LeaseOk n (suc i) o now (a ∷ ls) st b h ok hs hb =
    finish_at-LeaseOk n i o now ls st b h ok hs.1 hb

-- `done` plays no part in what is known of a lease.
mark_done-LeaseOk :
    (a : Attempt) (o : Outcome) (now : ℕ) (s t : Breaker)
    → LeaseOk t a
    → LeaseOk t (finish a o now s).0
unfolding finish
mark_done-LeaseOk a o now s t h = record {
  epoch_le = h.epoch_le;
  probe_le = h.probe_le;
  ordinary = h.ordinary;
}

finish_at-AllOk :
    (n i : ℕ) (o : Outcome) (now : ℕ) (ls : List Attempt) (st : Breaker)
    → suc n < limit
    → BreakerOk n st
    → AllOk st ls
    → AllOk (finish_at i o now ls st).1 (finish_at i o now ls st).0
unfolding finish_at
finish_at-AllOk n i o now [] st h ok hs = tt
finish_at-AllOk n zero o now (a ∷ ls) st h ok hs = (
  mark_done-LeaseOk a o now st _ (finish-LeaseOk n a o now st a h ok hs.0 hs.0),
  finish-AllOk n a o now st ls h ok hs.0 hs.1,
)
finish_at-AllOk n (suc i) o now (a ∷ ls) st h ok hs =
    (finish_at-LeaseOk n i o now ls st a h ok hs.1 hs.0, finish_at-AllOk n i o now ls st h ok hs.1)

live_count-free : (st : Breaker) (ls : List Attempt) → st.half_open ≡ false → live_count st ls ≡ 0
live_count-free st [] h = refl
live_count-free st (a ∷ ls) h = ground (arith, live_count-free st ls h)

done_not_live :
    (a : Attempt) (o : Outcome) (now : ℕ) (s t : Breaker) → live t (finish a o now s).0 ≡ false
unfolding finish
done_not_live a o now s t = refl

-- The slot is free after a finish, or as many leases as before may settle it.
finish_at-live_count :
    (i : ℕ) (o : Outcome) (now : ℕ) (ls : List Attempt) (st : Breaker)
    → (st.cooldown_until ≡ 0 → st.half_open ≡ false)
    → AllOk st ls
    → ((finish_at i o now ls st).1 ≡ st)
        × (live_count st (finish_at i o now ls st).0 ≡ live_count st ls)
      ⊎ ((finish_at i o now ls st).1.half_open ≡ false)
unfolding finish_at
finish_at-live_count i o now [] st c hs = inl (refl, refl)
finish_at-live_count zero o now (a ∷ ls) st c hs = elim (finish_cases a o now st c hs.0) [
  | inl (same, dead) ↦ inl (same, rw (dead, done_not_live a o now st st) refl)
  | inr free ↦ inr free
]
finish_at-live_count (suc i) o now (a ∷ ls) st c hs =
    elim (finish_at-live_count i o now ls st c hs.1) [
      | inl (same, count) ↦ inl (same, rw count refl)
      | inr free ↦ inr free
    ]

finish_at-slot :
    (i : ℕ) (o : Outcome) (now : ℕ) (s : Sys)
    → (s.breaker.cooldown_until ≡ 0 → s.breaker.half_open ≡ false)
    → AllOk s.breaker s.leases
    → live_count s.breaker s.leases ≡ (if s.breaker.half_open then 1 else 0)
    → let (ls, t) = finish_at i o now s.leases s.breaker in
      live_count t ls ≡ (if t.half_open then 1 else 0)
finish_at-slot i o now s c hs slot = elim (finish_at-live_count i o now s.leases s.breaker c hs) [
  | inl (same, count) ↦ rw same (count ∙ slot)
  | inr free ↦ rw free (live_count-free (finish_at i o now s.leases s.breaker).1 _ free)
]

acquire-BreakerOk :
    (n : ℕ) (channel_id : Text) (now : ℕ) (st : Breaker)
    → suc n < limit
    → BreakerOk n st
    → BreakerOk (suc n) (try_acquire channel_id now st).1
unfolding try_acquire
acquire-BreakerOk n channel_id now st h b = ground arith

acquire-AllOk :
    (n : ℕ) (channel_id : Text) (now : ℕ) (st : Breaker) (ls : List Attempt)
    → suc n < limit
    → BreakerOk n st
    → AllOk st ls
    → AllOk (try_acquire channel_id now st).1 ls
unfolding try_acquire
acquire-AllOk n channel_id now st [] h b hs = tt
acquire-AllOk n channel_id now st (a ∷ ls) h b hs =
    (ground arith, acquire-AllOk n channel_id now st ls h b hs.1)

-- A probe number that no lease has seen belongs to none of them.
live_count-fresh :
    (st t : Breaker) (ls : List Attempt)
    → AllOk st ls
    → st.probe_id < t.probe_id
    → live_count t ls ≡ 0
live_count-fresh st t [] hs h = refl
live_count-fresh st t (a ∷ ls) hs h = ground (arith, live_count-fresh st t ls hs.1)

acquire-slot :
    (n : ℕ) (channel_id : Text) (now : ℕ) (st : Breaker) (ls : List Attempt)
    → suc n < limit
    → BreakerOk n st
    → AllOk st ls
    → live_count st ls ≡ (if st.half_open then 1 else 0)
    → let (lease, t) = try_acquire channel_id now st in
      AllOk t (add_lease lease ls)
      × (live_count t (add_lease lease ls) ≡ (if t.half_open then 1 else 0))
unfolding try_acquire add_lease
acquire-slot n channel_id now st ls h b hs slot =
    let older = acquire-AllOk n channel_id now st ls h b hs in
    ground (
      arith,
      older,
      live_count-fresh st (record st { half_open = true; probe_id = u64 (st.probe_id + 1) }) ls hs,
    )

reset-BreakerOk :
    (n : ℕ) (st : Breaker) → suc n < limit → BreakerOk n st → BreakerOk (suc n) (reset st)
unfolding reset
reset-BreakerOk n st h b = ground arith

reset-AllOk :
    (n : ℕ) (st : Breaker) (ls : List Attempt)
    → suc n < limit
    → BreakerOk n st
    → AllOk st ls
    → AllOk (reset st) ls
unfolding reset
reset-AllOk n st [] h b hs = tt
reset-AllOk n st (a ∷ ls) h b hs = (ground arith, reset-AllOk n st ls h b hs.1)

reset-slot :
    (st : Breaker) (ls : List Attempt)
    → live_count (reset st) ls ≡ (if (reset st).half_open then 1 else 0)
unfolding reset
reset-slot st ls =
    live_count-free
      (record st {
        fail_count = 0;
        cooldown_until = 0;
        last_failure = 0;
        half_open = false;
        epoch = u64 (st.epoch + 1);
      })
      ls refl

step-Inv : (n : ℕ) (s : Sys) (e : Event) → suc n < limit → Inv n s → Inv (suc n) (step s e)
unfolding step
step-Inv n s (acquires channel_id now) h v =
    let (ok, slot) =
      acquire-slot n channel_id now s.breaker s.leases h v.breaker_ok v.leases_ok v.slot in
    record {
      breaker_ok = acquire-BreakerOk n channel_id now s.breaker h v.breaker_ok;
      leases_ok = ok;
      slot = slot;
    }
step-Inv n s (finishes i o now) h v = record {
  breaker_ok = finish_at-BreakerOk n i o now s.leases s.breaker h v.breaker_ok;
  leases_ok = finish_at-AllOk n i o now s.leases s.breaker h v.breaker_ok v.leases_ok;
  slot = finish_at-slot i o now s v.breaker_ok.closed_not_probed v.leases_ok v.slot;
}
step-Inv n s resets h v = record {
  breaker_ok = reset-BreakerOk n s.breaker h v.breaker_ok;
  leases_ok = reset-AllOk n s.breaker s.leases h v.breaker_ok v.leases_ok;
  slot = reset-slot s.breaker s.leases;
}

pub run-Inv :
    (n : ℕ) (s : Sys) (es : List Event)
    → n + length es < limit
    → Inv n s
    → Inv (n + length es) (run s es)
unfolding run
run-Inv n s [] h v = subst (λ k. Inv k s) (omega arith) v
run-Inv n s (e ∷ es) h v =
    subst (λ k. Inv k (run (step s e) es)) (omega arith)
      (run-Inv (suc n) (step s e) es (omega arith) (step-Inv n s e (omega arith) v))

pub start-Inv : Inv 0 start
unfolding start new_breaker
start-Inv = record { breaker_ok = ground arith; leases_ok = tt; slot = refl }
